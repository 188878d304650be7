-- ===== src/Interrupt/Descriptors.antt =====
-- The system calls on descriptors, kernel/interrupt/syscall.c, over the file table of
-- Filesystem.Fat32, and those that do nothing yet. An `int` is its 32-bit pattern. `User` is the
-- memory by bytes as the process that calls addresses it.
pub mod Buffers
mod Tests
use semester_5_coursework.Filesystem.Fat32
use semester_5_coursework.Prelude.{
  get_or, length, ◌-◌, ◌^◌, ltb, ◌==◌, ◌+◌, ◌%◌, if◌then◌else◌, Option, Bool, ℕ, List, refl, zero,
  suc, true, false, none, some, [], ◌∷◌,
}
use semester_5_coursework.Filesystem.Fat32.{Files}
use semester_5_coursework.Hardware.Pio.{rounds_of}
use semester_5_coursework.Tty.{Tty, putchar}

abbrev pub User : Type 0
User = ℕ → ℕ

-- `case 0`, `case 1` and `case 2` of the switches on a descriptor.
abbrev pub is_standard : ℕ → Bool
is_standard fd = ltb fd 3

unfoldable pub close : (fd : ℕ) → Files → ℕ × Files
close fd files = if is_standard fd then (0, files) else Fat32.close fd files

unfoldable pub lseek : (fd pos : ℕ) → Files → ℕ × Files
lseek fd pos files = if is_standard fd then (0, files) else Fat32.lseek fd pos files

-- The path is the string at an address.
abbrev pub byte_at : User → ℕ → ℕ
byte_at user p = user (p % 2 ^ 32)

pub string_at : (rounds : ℕ) → User → ℕ → List ℕ
string_at zero user p = []
string_at (suc rounds) user p = elim (byte_at user p == 0) [
  | true ↦ []
  | false ↦ byte_at user p ∷ string_at rounds user (p + 1)
]

-- `memcpy` to an address. The code does not check it. Addresses below 12 MiB are the kernel's, which the
-- processor lets the handler write: what such a copy does to the other components' states is not
-- followed, and `Dispatch.Reaches` asks that there is none.
abbrev pub copy_out : List ℕ → ℕ → User → User
copy_out bytes p user q =
    let i = (q + 2 ^ 32 - p) % 2 ^ 32 in if ltb i (length bytes) then get_or bytes i 0 else user q

abbrev pub copied : ℕ → User → Option (ℕ × List ℕ × Files) → Option (ℕ × User × Files)
copied buf user none = none
copied buf user (some (result, bytes, files)) = some (result, copy_out bytes buf user, files)

unfoldable pub read : (fd buf cnt : ℕ) → User → Files → Option (ℕ × User × Files)
read fd buf cnt user files =
    if is_standard fd then some (0, user, files) else copied buf user (Fat32.read fd cnt files)

-- The loop of `write` over the buffer.
pub put_bytes : (rounds : ℕ) → User → ℕ → Tty → Tty
put_bytes zero user p t = t
put_bytes (suc rounds) user p t = put_bytes rounds user (p + 1) (putchar (byte_at user p) t)

unfoldable pub write : (fd buf cnt : ℕ) → User → Tty → ℕ × Tty
unfolding put_bytes
write fd buf cnt user t =
    if fd == 1
    then (cnt, put_bytes (rounds_of cnt) user buf t)
    else if fd == 2
    then (cnt, put_bytes (rounds_of cnt) user buf t)
    else (0, t)

abbrev pub isatty : (file : ℕ) → ℕ
isatty file = if is_standard file then 1 else 0

-- `fstat`, `link`, `stat`, `times` and `unlink`.
abbrev pub not_implemented : ℕ
not_implemented = 0
