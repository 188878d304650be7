-- ===== src/Memory/Paging/Seen.antt =====
-- What the processor sees through the directory that `default_directory` makes.
use semester_5_coursework.Memory.Paging.Entry.{malloc-aligned}
use native.Mathlib.Decide.{ℕ_discrete}
use semester_5_coursework.Prelude.{
  ◌≤◌, ◌≢◌, length, inr, inl, Bool-cases, ◌*◌, ◌%◌, ◌∙◌, ◌+◌, ◌&&◌, leb, arith, ap, ◌≡◌, ltb, ◌^◌,
  if◌then◌else◌, ◌<◌, ◌/◌, Option, ℕ, refl, none, some,
}
use semester_5_coursework.Memory.Paging.{Paging, default_directory, create_table, create_directory}
use semester_5_coursework.Memory.Physical.{malloc}
use semester_5_coursework.Memory.Paging.Fresh.{length-after, IsFrame, after, frames}
use semester_5_coursework.Memory.Paging.Default.{IsDefault, default_words-IsDefault}
use semester_5_coursework.Memory.Paging.Translate.{
  translate, translate-Maps, translate-present, translate-no_table, translate-no_page,
}

-- What is to be found at a virtual address, as `translate` returns it: the first 4 MiB for everyone to
-- read, the page pool and the kernel's heap for the kernel alone, and the screen at the end of the
-- fourth 4 MiB for everyone to write.
abbrev pub expected : ℕ → Option (ℕ × ℕ × ℕ)
expected address =
    if ltb address 0x400000
    then some (address, 0, 1)
    else if ltb address 0xc00000
    then some (address, 0, 0)
    else if leb 0xfff000 address && ltb address 0x1000000
    then some (0xb8000 + address % 2 ^ 12, 1, 1)
    else none

-- The table of user memory holds the screen's page and no other.
translate-user :
    (word : ℕ → ℕ) (directory table3 address : ℕ)
    → IsFrame directory
    → IsDefault word directory table3
    → address / 2 ^ 22 ≡ 3
    → translate word directory address ≡ expected address
translate-user word directory table3 address d default at_index =
    let linked = ap (λ (x : ℕ). word (directory + 4 * x)) at_index ∙ default.user in
    elim (Bool-cases (leb 0xfff000 address)) [
      | inl there ↦
          let last : address / 2 ^ 12 % 1024 ≡ 1023 = ground arith in
          translate-present word directory address table3 7 0xb8000 7 d default.frame (omega arith)
            refl linked refl (omega arith) (omega arith) refl
            (ap (λ (x : ℕ). word (table3 + 4 * x)) last ∙ default.screen) (omega arith)
          ∙ ground arith
      | inr not_there ↦
          translate-no_page word directory address table3 7 d default.frame (omega arith) refl
            linked (default.no_page (address / 2 ^ 12 % 1024) (ground arith)) (omega arith)
          ∙ ground arith
    ]

pub translate-IsDefault :
    (word : ℕ → ℕ) (directory table3 address : ℕ)
    → IsFrame directory
    → IsDefault word directory table3
    → address < 2 ^ 32
    → translate word directory address ≡ expected address
translate-IsDefault word directory table3 address d default s =
    elim (ℕ_discrete (address / 2 ^ 22) 0) [
      | yes e ↦
          translate-Maps word directory 0 default.table0 5 0 5 address d default.kernel
            (omega arith) refl refl (omega arith) (omega arith) refl (omega arith) e
          ∙ ground arith
      | no n0 ↦ elim (ℕ_discrete (address / 2 ^ 22) 1) [
        | yes e ↦
            translate-Maps word directory 1 default.table1 1 0x400000 1 address d default.pool
              (omega arith) refl refl (omega arith) (omega arith) refl (omega arith) e
            ∙ ground arith
        | no n1 ↦ elim (ℕ_discrete (address / 2 ^ 22) 2) [
          | yes e ↦
              translate-Maps word directory 2 default.table2 1 0x800000 1 address d default.heap
                (omega arith) refl refl (omega arith) (omega arith) refl (omega arith) e
              ∙ ground arith
          | no n2 ↦ elim (ℕ_discrete (address / 2 ^ 22) 3) [
            | yes e ↦ translate-user word directory table3 address d default e
            | no n3 ↦
                translate-no_table word directory address d s
                  (default.no_table (address / 2 ^ 22) (omega arith) (omega arith))
                ∙ ground arith
          ]
        ]
      ]
    ]

-- When the allocator has five free pages, `default_directory` makes a directory, in a page of the
-- pool, through which the processor sees the first 12 MiB at their own addresses (the first 4 for
-- processes to read, the other 8 for the kernel alone), the screen in the last page of the fourth
-- 4 MiB for processes to write, and nothing at any other 32-bit address.
pub default_directory-translate :
    (m : Paging)
    → length m.bitmap ≡ 32
    → (malloc (after 4 m.bitmap)).0 ≢ 0
    → let (directory, m') = default_directory m in
      (0x400000 ≤ directory)
      × (directory < 0x800000)
      × ((address : ℕ) → address < 2 ^ 32 → translate m'.word directory address ≡ expected address)
unfolding default_directory create_table create_directory after
default_directory-translate m len h =
    let s = m.bitmap in
    let last = malloc-aligned (after 4 s) (length-after 4 s ∙ len) h in
    let (found3, t2, above3) = frames 3 s len h in
    let (found2, t1, above2) = frames 2 s len found3 in
    let (found1, t0, above1) = frames 1 s len found2 in
    let (found0, d, above0) = frames 0 s len found1 in
    let default =
      default_words-IsDefault _ _ _ _ _ m.word d t0 t1 t2 last above0 above1 above2 above3 in
    (d.1, d.2, λ address p. translate-IsDefault _ _ _ address d default p)
