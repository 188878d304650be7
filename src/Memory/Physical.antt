-- ===== src/Memory/Physical.antt =====
-- The allocator of physical pages, kernel/memory/physical.c: a bitmap of 32 words of 32 bits over
-- the pages from 0x400000 on. `__bitmap` is the list of its words.
pub mod Find
pub mod Pages
mod Tests
use semester_5_coursework.Prelude.{
  ℕ, zero, suc, ◌+◌, ◌-◌, ◌*◌, ◌/◌, ◌%◌, ◌^◌, bit_and, bit_or, bit_xor, Option, none, some, List,
  [], ◌∷◌, ltb, ◌==◌, if◌then◌else◌, length, get_or, set,
}

abbrev pub Bitmap : Type 0
Bitmap = List ℕ

abbrev pub first_page : ℕ
first_page = 0x400000

abbrev pub page_size : ℕ
page_size = 0x1000

-- The address that `malloc` computes for bit `j` of word `i`.
abbrev pub page_address : ℕ → ℕ → ℕ
page_address i j = first_page + page_size * (32 * i + j)

-- The inner loop, from bit `j` on, for so many rounds.
unfoldable pub find_bit : ℕ → ℕ → ℕ → Option ℕ
find_bit zero bitmap j = none
find_bit (suc rounds) bitmap j =
    let rest = find_bit rounds bitmap (j + 1) in
    if bit_and bitmap (2 ^ j) == 0 then some j else rest

-- The outer loop, over the words from number `i` on.
unfoldable pub find_free : Bitmap → ℕ → Option (ℕ × ℕ)
find_free [] i = none
find_free (bitmap ∷ words) i = elim (find_bit 32 bitmap 0) [
  | some j ↦ some (i, j)
  | none ↦ find_free words (i + 1)
]

-- `malloc`: the page's address and the new bitmap; address 0 when no page is free. (The argument
-- `size` is ignored by the code.)
unfoldable pub malloc : Bitmap → ℕ × Bitmap
unfolding find_free find_bit
malloc s = elim (find_free s 0) [
  | none ↦ (0, s)
  | some (i, j) ↦ (page_address i j, set s i (bit_or (get_or s i 0) (2 ^ j)))
]

-- The page number that `free` computes, by unsigned 32-bit subtraction.
abbrev pub page_offset : ℕ → ℕ
page_offset ptr = (ptr + 2 ^ 32 - first_page) % 2 ^ 32 / page_size

-- `free` flips the page's bit. `none` is a write outside `__bitmap`.
unfoldable pub free : Bitmap → ℕ → Option Bitmap
free s ptr =
    let offset = page_offset ptr in
    let index = offset / 32 in
    let bit = offset % 32 in
    if ltb index (length s) then some (set s index (bit_xor (get_or s index 0) (2 ^ bit))) else none
