-- ===== src/Hardware/Pit/Tests.antt =====
-- Five subscriptions.
