-- ===== src/Memory/Paging/Translate.antt =====
-- The processor's translation by a directory and its tables, and what it finds in a table that maps a range
-- of pages.
use semester_5_coursework.Prelude.{
  ◌∙◌, inl, false, ap, ◌⊎◌, ◌==◌, arith, ◌≢◌, ◌≡◌, if◌then◌else◌, ◌≤◌, ◌^◌, ◌/◌, ◌*◌, ◌%◌, ◌<◌, ◌+◌,
  Option, ℕ, refl, none, some,
}
use semester_5_coursework.Memory.Paging.{slot, frame_of}
use semester_5_coursework.Memory.Paging.Fresh.{IsFrame}
use semester_5_coursework.Memory.Paging.Table.{TableMapped, or-flags}

-- A virtual address in a directory: the physical address, whether it may be written and whether a
-- process may use it (1 or 0; both the table and the page must allow it), or `none` where the table or
-- the page is not present.
unfoldable pub translate : (word : ℕ → ℕ) (directory address : ℕ) → Option (ℕ × ℕ × ℕ)
translate word directory address =
    let table = word (slot directory (address / 2 ^ 22)) in
    let page = word (slot (frame_of table) (address / 2 ^ 12 % 1024)) in
    if table % 2 == 0
    then none
    else if page % 2 == 0
    then none
    else some (
      frame_of page + address % 2 ^ 12,
      table / 2 % 2 * (page / 2 % 2),
      table / 4 % 2 * (page / 4 % 2),
    )

-- Entry `index` of the directory leads to a table of the pages from `base` on.
pub record Maps (word : ℕ → ℕ) (directory index table links base flags : ℕ) : Type 0 where
  pub frame : IsFrame table
  pub linked : word (directory + 4 * index) ≡ table + links
  pub mapped : (k : ℕ) → k < 1024 → word (table + 4 * k) ≡ base + 0x1000 * k + flags

pub mapped-Maps :
    (index directory table links base flags : ℕ) (w word : ℕ → ℕ)
    → IsFrame table
    → TableMapped index directory table base flags links w word
    → Maps word directory index table links base flags
mapped-Maps index directory table links base flags w word t step = record {
  frame = t;
  linked = step.linked;
  mapped = step.mapped;
}

-- A table keeps its pages when another entry and another table are written.
pub Maps-kept :
    (word word' : ℕ → ℕ) (directory index table links base flags other other_table : ℕ)
    → directory + 4096 ≤ table
    → table + 4096 ≤ other_table
    → index < other
    → other < 1024
    → ((q : ℕ)
        → q ≢ directory + 4 * other
        → (q < other_table) ⊎ (other_table + 4096 ≤ q)
        → word' q ≡ word q)
    → Maps word directory index table links base flags
    → Maps word' directory index table links base flags
Maps-kept word word' directory index table links base flags other other_table a b c d kept maps =
    record {
      frame = maps.frame;
      linked = kept (directory + 4 * index) (λ e. omega arith) (inl (omega arith)) ∙ maps.linked;
      mapped = λ k p. kept (table + 4 * k) (λ e. omega arith) (inl (omega arith)) ∙ maps.mapped k p;
    }

pub translate-present :
    (word : ℕ → ℕ) (directory address table links page flags : ℕ)
    → IsFrame directory
    → IsFrame table
    → links < 8
    → links % 2 ≡ 1
    → word (directory + 4 * (address / 2 ^ 22)) ≡ table + links
    → page % 2 ^ 12 ≡ 0
    → page < 2 ^ 24
    → flags < 8
    → flags % 2 ≡ 1
    → word (table + 4 * (address / 2 ^ 12 % 1024)) ≡ page + flags
    → address < 2 ^ 32
    → translate word directory address
      ≡ some (
        page + address % 2 ^ 12,
        links / 2 % 2 * (flags / 2 % 2),
        links / 4 % 2 * (flags / 4 % 2),
      )
unfolding translate
translate-present word directory address table links page flags d t l1 l2 linked p1 p2 f1 f2 mapped
      s =
    let place : slot directory (address / 2 ^ 22) ≡ directory + 4 * (address / 2 ^ 22) =
      omega (arith, d) in
    let where_page : slot table (address / 2 ^ 12 % 1024) ≡ table + 4 * (address / 2 ^ 12 % 1024) =
      omega (arith, t) in
    let frame = (or-flags table links t.0 (omega (arith, t)) (omega arith)).1 in
    let there = (or-flags page flags p1 (omega arith) (omega arith)).1 in
    let odd : ((table + links) % 2 == 0) ≡ false = ground (arith, t) in
    let odd_page : ((page + flags) % 2 == 0) ≡ false = ground arith in
    let writable : (table + links) / 2 % 2 ≡ links / 2 % 2 = omega (arith, t) in
    let usable : (table + links) / 4 % 2 ≡ links / 4 % 2 = omega (arith, t) in
    let writable_page : (page + flags) / 2 % 2 ≡ flags / 2 % 2 = omega arith in
    let usable_page : (page + flags) / 4 % 2 ≡ flags / 4 % 2 = omega arith in
    rw
      (
        place, linked, frame, where_page, mapped, there, odd, odd_page, writable, usable,
        writable_page, usable_page,
      )
      refl

-- Where a table maps a range of pages, the processor finds them in order.
pub translate-Maps :
    (word : ℕ → ℕ) (directory index table links base flags address : ℕ)
    → IsFrame directory
    → Maps word directory index table links base flags
    → links < 8
    → links % 2 ≡ 1
    → base % 2 ^ 12 ≡ 0
    → base ≤ 0x800000
    → flags < 8
    → flags % 2 ≡ 1
    → index < 1024
    → address / 2 ^ 22 ≡ index
    → translate word directory address
      ≡ some (
        base + address % 2 ^ 22,
        links / 2 % 2 * (flags / 2 % 2),
        links / 4 % 2 * (flags / 4 % 2),
      )
translate-Maps word directory index table links base flags address d maps l1 l2 b1 b2 f1 f2 i
      at_index =
    let k = address / 2 ^ 12 % 1024 in
    let split : base + 0x1000 * k + address % 2 ^ 12 ≡ base + address % 2 ^ 22 = omega arith in
    translate-present word directory address table links (base + 0x1000 * k) flags d maps.frame l1
      l2 (ap (λ (x : ℕ). word (directory + 4 * x)) at_index ∙ maps.linked) (omega arith)
      (omega arith) f1 f2 (maps.mapped k (omega arith)) (omega arith)
    ∙ ap (λ (x : ℕ). some (x, links / 2 % 2 * (flags / 2 % 2), links / 4 % 2 * (flags / 4 % 2)))
        split

pub translate-no_table :
    (word : ℕ → ℕ) (directory address : ℕ)
    → IsFrame directory
    → address < 2 ^ 32
    → word (directory + 4 * (address / 2 ^ 22)) ≡ 0
    → translate word directory address ≡ none
unfolding translate
translate-no_table word directory address d s empty =
    let place : slot directory (address / 2 ^ 22) ≡ directory + 4 * (address / 2 ^ 22) =
      omega (arith, d) in
    rw (place, empty) refl

pub translate-no_page :
    (word : ℕ → ℕ) (directory address table links : ℕ)
    → IsFrame directory
    → IsFrame table
    → links < 8
    → links % 2 ≡ 1
    → word (directory + 4 * (address / 2 ^ 22)) ≡ table + links
    → word (table + 4 * (address / 2 ^ 12 % 1024)) ≡ 0
    → address < 2 ^ 32
    → translate word directory address ≡ none
unfolding translate
translate-no_page word directory address table links d t l1 l2 linked empty s =
    let place : slot directory (address / 2 ^ 22) ≡ directory + 4 * (address / 2 ^ 22) =
      omega (arith, d) in
    let where_page : slot table (address / 2 ^ 12 % 1024) ≡ table + 4 * (address / 2 ^ 12 % 1024) =
      omega (arith, t) in
    let frame = (or-flags table links t.0 (omega (arith, t)) (omega arith)).1 in
    let odd : ((table + links) % 2 == 0) ≡ false = ground (arith, t) in
    rw (place, linked, frame, where_page, empty, odd) refl
