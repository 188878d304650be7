-- ===== src/Hardware/Pio/Tests.antt =====
-- Two sectors from number 0x123456 on.
