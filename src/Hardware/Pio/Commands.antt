-- ===== src/Hardware/Pio/Commands.antt =====
-- What a transfer asks of the disk.
use semester_5_coursework.Prelude.{
  ap₂, bit_or, ◌/◌, bit_and, ◌∙◌, ap, arith, ◌^◌, ◌==◌, ◌*◌, ◌≡◌, ◌<◌, ◌+◌, ◌%◌, if◌then◌else◌, ℕ,
  List, refl, [], ◌∷◌, none, some, zero, suc,
}
use semester_5_coursework.Bits.Masks.{or-below, and-nibble, and-byte}
use semester_5_coursework.Hardware.Pio.{
  pio_read, new_task, commands, Pio, Access, outb, wait, insw, read_sectors, rounds_of, read, write,
}

-- The disk as its ports describe it: the last byte written to a port.
abbrev pub port : ℕ → List Access → ℕ → ℕ
port n [] v = v
port n (outb m x ∷ ops) v = port n ops (if m == n then x else v)
port n (wait ∷ ops) v = port n ops v
port n (insw m a ∷ ops) v = port n ops v

-- The addresses that sectors are read to, in their order.
abbrev pub targets : List Access → List ℕ
targets [] = []
targets (outb m x ∷ ops) = targets ops
targets (wait ∷ ops) = targets ops
targets (insw m a ∷ ops) = a ∷ targets ops

abbrev pub sector_addresses : ℕ → ℕ → List ℕ
sector_addresses zero buffer = []
sector_addresses (suc n) buffer = buffer ∷ sector_addresses n (buffer + 512)

-- A driver between two transfers.
abbrev pub idle : Pio
idle = record { tasks = []; current = none }

port-read_sectors : (n v : ℕ) (k buffer i : ℕ) → port n (read_sectors k buffer i) v ≡ v
unfolding read_sectors
port-read_sectors n v zero buffer i = refl
port-read_sectors n v (suc k) buffer i = port-read_sectors n v k buffer (i + 1)

targets-read_sectors :
    (k buffer i : ℕ) → targets (read_sectors k buffer i) ≡ sector_addresses k (buffer + i * 512)
unfolding read_sectors
targets-read_sectors zero buffer i = refl
targets-read_sectors (suc k) buffer i =
    let next : buffer + (i + 1) * 512 ≡ buffer + i * 512 + 512 = omega arith in
    ap (λ (l : List ℕ). (buffer + i * 512) ∷ l)
      (targets-read_sectors k buffer (i + 1) ∙ ap (sector_addresses k) next)

-- The sector number that the disk decodes from its ports.
abbrev pub decoded_lba : List Access → ℕ
decoded_lba ops =
    port 0x1f6 ops 0 % 16 * 2 ^ 24
    + port 0x1f5 ops 0 * 2 ^ 16
    + port 0x1f4 ops 0 * 2 ^ 8
    + port 0x1f3 ops 0

-- A read on an idle driver addresses the drive's sectors by their number, asks for the command 0x20
-- and the given number of sectors, stores them one behind the other, and leaves the driver idle.
pub read-idle :
    (dst lba count : ℕ)
    → lba < 2 ^ 28
    → count < 2 ^ 8
    → (ops : List Access) × (read dst lba count idle ≡ some (ops, idle))
      × (decoded_lba ops ≡ lba)
      × (port 0x1f2 ops 0 ≡ count)
      × (port 0x1f7 ops 0 ≡ 0x20)
      × (targets ops ≡ sector_addresses count dst)
unfolding read
read-idle dst lba count h c =
    let k = rounds_of count in
    let rounds : k ≡ count = ground arith in
    let ops = commands (new_task pio_read dst lba count) in
    let high = bit_and (lba / 2 ^ 24) 0xf in
    let nibble = and-nibble (lba / 2 ^ 24) in
    let drive : port 0x1f6 ops 0 ≡ 0xe * 2 ^ 4 + high =
      port-read_sectors 0x1f6 (bit_or 0xe0 high) k dst 0 ∙ or-below 4 0xe high (omega arith) in
    let low : port 0x1f3 ops 0 ≡ lba % 2 ^ 8 =
      port-read_sectors 0x1f3 (bit_and lba 0xff) k dst 0 ∙ and-byte lba in
    let mid : port 0x1f4 ops 0 ≡ lba / 2 ^ 8 % 2 ^ 8 =
      port-read_sectors 0x1f4 (bit_and (lba / 2 ^ 8) 0xff) k dst 0 ∙ and-byte (lba / 2 ^ 8) in
    let hi : port 0x1f5 ops 0 ≡ lba / 2 ^ 16 % 2 ^ 8 =
      port-read_sectors 0x1f5 (bit_and (lba / 2 ^ 16) 0xff) k dst 0 ∙ and-byte (lba / 2 ^ 16) in
    let start : dst + 0 * 512 ≡ dst = omega arith in
    (
      ops,
      refl,
      omega (arith, drive, nibble, low, mid, hi),
      port-read_sectors 0x1f2 (count % 2 ^ 8) k dst 0 ∙ omega arith,
      port-read_sectors 0x1f7 0x20 k dst 0,
      targets-read_sectors k dst 0 ∙ ap₂ sector_addresses rounds start,
    )

-- A write on an idle driver does to the ports and to memory what a read of the same sectors to the
-- same address does.
pub write-read : (src lba count : ℕ) → write src lba count idle ≡ read src lba count idle
unfolding write read
write-read src lba count = refl
