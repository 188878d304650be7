-- ===== src/Interrupt/Descriptors/Tests.antt =====
-- A buffer of three bytes, and a file of five.
use semester_5_coursework.Prelude.{
  ◌-◌, ◌≤◌, get_or, ◌%◌, ◌+◌, arith, ◌≢◌, ◌<◌, ◌⊎◌, ◌==◌, ℕ, ◌≡◌, ◌^◌, set, replicate,
  if◌then◌else◌, refl, none, some, [], ◌∷◌,
}
use semester_5_coursework.Filesystem.Fat32.{File, Files}
use semester_5_coursework.Interrupt.Descriptors.{User, write, read, close, string_at}
use semester_5_coursework.Interrupt.Descriptors.Buffers.{bytes_from, write-print, read-delivers}
use semester_5_coursework.Tty.{Tty, print}

abbrev memory : User
memory p = if p == 0x100 then 72 else if p == 0x101 then 105 else if p == 0x102 then 33 else 0

abbrev screen : Tty
screen = record { cells = replicate 2000 7; color = 15; row = 3; col = 5 }

write-print_example :
    ((◌≡◌ {A = ℕ} 1 1) ⊎ (◌≡◌ {A = ℕ} 1 2)
      → write 1 0x100 3 memory screen ≡ (3, print (bytes_from 3 memory 0x100) screen))
    × ((◌≢◌ {A = ℕ} 1 1) → (◌≢◌ {A = ℕ} 1 2) → write 1 0x100 3 memory screen ≡ (0, screen))
write-print_example = write-print 1 0x100 3 memory screen (omega arith) (omega arith)

three_bytes : bytes_from 3 memory 0x100 ≡ 72 ∷ 105 ∷ 33 ∷ []
three_bytes = refl

-- The string ends at its NUL.
string_hi : string_at (2 ^ 32) memory 0x100 ≡ 72 ∷ 105 ∷ 33 ∷ []
unfolding string_at
string_hi = refl

abbrev five_bytes : File
five_bytes = record { buffer = 1 ∷ 2 ∷ 3 ∷ 4 ∷ 5 ∷ []; size = 5; pos = 3 }

abbrev files : Files
files = set (replicate 32 none) 3 (some five_bytes)

read-delivers_example :
    (user' : User) × (read 3 0x200 4 memory files
      ≡ some (2, user', set files 3 (some (record five_bytes { pos = 5 }))))
    × ((i : ℕ) → i < 2 → user' ((0x200 + i) % 2 ^ 32) ≡ get_or (4 ∷ 5 ∷ []) i 0)
    × ((q : ℕ) → q < 2 ^ 32 → 2 ≤ (q + 2 ^ 32 - 0x200) % 2 ^ 32 → user' q ≡ memory q)
read-delivers_example =
    read-delivers 3 0x200 4 memory files five_bytes (omega arith) (omega arith) refl refl
      (record { size = refl; small = omega arith; pos = omega arith }) (omega arith) (omega arith)

close_stdout : close 1 files ≡ (0, files)
unfolding close
close_stdout = refl
