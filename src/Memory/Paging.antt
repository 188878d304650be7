-- ===== src/Memory/Paging.antt =====
-- Page directories and tables, kernel/memory/paging.c. Memory is a function from the addresses of
-- aligned words to 32-bit words; pages come from the allocator of Memory.Physical, and are used at
-- their physical addresses.
pub mod Entry
pub mod Destroy
pub mod Fresh
pub mod Table
pub mod Translate
pub mod Default
pub mod Seen
pub mod Leak
mod Tests
use semester_5_coursework.Prelude.{
  ◌^◌, ltb, ◌&&◌, ◌%◌, ◌==◌, ◌*◌, leb, ◌+◌, if◌then◌else◌, bit_or, bit_and, Option, ℕ, refl, [],
  ◌∷◌, none, some, zero, suc,
}
use semester_5_coursework.Memory.Physical.{Bitmap, malloc, free}

pub record Paging : Type 0 where
  pub bitmap : Bitmap
  pub word : ℕ → ℕ

-- `PRESENT`, `READWRITE` and `USER`, as they are combined.
abbrev pub present : ℕ
present = 1

abbrev pub present_user : ℕ
present_user = 5

abbrev pub present_readwrite_user : ℕ
present_readwrite_user = 7

-- `memset` of a page with 0.
abbrev pub clear_page : ℕ → (ℕ → ℕ) → ℕ → ℕ
clear_page page m p = if leb page p && ltb p (page + 4096) then 0 else m p

abbrev pub store : ℕ → ℕ → (ℕ → ℕ) → ℕ → ℕ
store p v m q = if p == q then v else m q

-- Entry `index` of a table: pointer arithmetic on 32 bits.
abbrev pub slot : (table index : ℕ) → ℕ
slot table index = (table + 4 * index) % 2 ^ 32

-- `entry & ~0xfff`
abbrev pub frame_of : ℕ → ℕ
frame_of entry = bit_and entry 0xffff_f000

-- `palloc.malloc` and `memset`, with which each `create` function begins. When no page is free, the
-- page at the null pointer is cleared.
unfoldable pub create_directory : Paging → ℕ × Paging
create_directory m =
    let (page, bitmap) = malloc m.bitmap in
    (page, record { bitmap = bitmap; word = clear_page page m.word })

unfoldable pub create_table : (index directory flags : ℕ) → Paging → ℕ × Paging
unfolding create_directory
create_table index directory flags m =
    let (table, m') = create_directory m in
    (
      table,
      record m' {
        word = store (slot directory index) (bit_or table (bit_and flags 0xfff)) m'.word;
      },
    )

unfoldable pub create_page : (index table flags : ℕ) → Paging → ℕ × Paging
unfolding create_directory
create_page index table flags m =
    let (page, m') = create_directory m in
    (
      page,
      record m' { word = store (slot table index) (bit_or page (bit_and flags 0xfff)) m'.word },
    )

-- `palloc.free` and the cleared entry. `none` is a page outside the allocator's bitmap.
abbrev pub release : (page entry : ℕ) → Paging → Option Paging
release page entry m = elim (free m.bitmap page) [
  | none ↦ none
  | some bitmap ↦ some (record { bitmap = bitmap; word = store entry 0 m.word })
]

unfoldable pub destroy_page : (index table : ℕ) → Paging → Option Paging
destroy_page index table m =
    let page = frame_of (m.word (slot table index)) in
    if page == 0
    then some m
    else if page == 0xb8000
    then some m
    else release page (slot table index) m

-- The loop of `destroy_table`, from entry `i` on.
pub destroy_pages : (rounds i table : ℕ) → Paging → Option Paging
unfolding destroy_page
destroy_pages zero i table m = some m
destroy_pages (suc rounds) i table m = elim (destroy_page i table m) [
  | none ↦ none
  | some m' ↦ destroy_pages rounds (i + 1) table m'
]

unfoldable pub destroy_table : (index directory : ℕ) → Paging → Option Paging
destroy_table index directory m =
    let table = frame_of (m.word (slot directory index)) in
    if table == 0 then some m else elim (destroy_pages 1024 0 table m) [
      | none ↦ none
      | some m' ↦ release table (slot directory index) m'
    ]

-- The loop of `destroy_directory`, from entry `i` on.
unfoldable pub destroy_tables : (rounds i directory : ℕ) → Paging → Option Paging
unfolding destroy_table
destroy_tables zero i directory m = some m
destroy_tables (suc rounds) i directory m = elim (destroy_table i directory m) [
  | none ↦ none
  | some m' ↦ destroy_tables rounds (i + 1) directory m'
]

unfoldable pub destroy_directory : (directory : ℕ) → Paging → Option Paging
destroy_directory directory m = elim (destroy_tables 1021 3 directory m) [
  | none ↦ none
  | some m' ↦ elim (free m'.bitmap directory) [
    | none ↦ none
    | some bitmap ↦ some (record m' { bitmap = bitmap })
  ]
]

-- The loops of `default_directory`: entries that map pages from `base` on.
pub map_pages : (rounds i table base flags : ℕ) → (ℕ → ℕ) → ℕ → ℕ
map_pages zero i table base flags m = m
map_pages (suc rounds) i table base flags m =
    map_pages rounds (i + 1) table base flags
      (store (slot table i) (bit_or (base + 0x1000 * i) flags) m)

-- The kernel, its pages and its heap, mapped to themselves, and a table for the process with the
-- screen in its last page.
unfoldable pub default_directory : Paging → ℕ × Paging
unfolding map_pages create_directory create_table
default_directory m =
    let (directory, m1) = create_directory m in
    let (table0, m2) = create_table 0 directory present_user m1 in
    let m3 = record m2 { word = map_pages 1024 0 table0 0 present_user m2.word } in
    let (table1, m4) = create_table 1 directory present m3 in
    let m5 = record m4 { word = map_pages 1024 0 table1 0x400000 present m4.word } in
    let (table2, m6) = create_table 2 directory present m5 in
    let m7 = record m6 { word = map_pages 1024 0 table2 0x800000 present m6.word } in
    let (table3, m8) = create_table 3 directory present_readwrite_user m7 in
    (
      directory,
      record m8 { word = store (slot table3 1023) (bit_or 0xb8000 present_readwrite_user) m8.word },
    )
