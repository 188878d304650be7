-- ===== src/Memory/Paging/Destroy.antt =====
-- What `destroy_directory` gives back.
use semester_5_coursework.Prelude.{
  ◌∙◌, Option, ap, false, ◌+◌, true, ◌⊎◌, ◌==◌, ◌<◌, arith, ◌≤◌, ◌≢◌, ◌≡◌, ℕ, refl, none, some,
  zero, suc,
}
use semester_5_coursework.Memory.Paging.{
  release, Paging, destroy_page, destroy_pages, destroy_table, destroy_tables, destroy_directory,
  slot, frame_of,
}
use semester_5_coursework.Memory.Physical.{free}

-- An entry without a page of its own: an empty one, or the screen's.
abbrev pub IsBare : ℕ → Type 0
IsBare entry = (frame_of entry ≡ 0) ⊎ (frame_of entry ≡ 0xb8000)

destroy_page-IsBare :
    (index table : ℕ) (m : Paging)
    → IsBare (m.word (slot table index))
    → destroy_page index table m ≡ some m
unfolding destroy_page
destroy_page-IsBare index table m h = ground arith

destroy_pages-IsBare :
    (n i table : ℕ) (m : Paging)
    → ((k : ℕ) → i ≤ k → k < i + n → IsBare (m.word (slot table k)))
    → destroy_pages n i table m ≡ some m
unfolding destroy_pages
destroy_pages-IsBare zero i table m h = refl
destroy_pages-IsBare (suc n) i table m h =
    ap (λ (o : Option Paging). elim o [ none ↦ none | some m' ↦ destroy_pages n (i + 1) table m' ])
      (destroy_page-IsBare i table m (h i (omega arith) (omega arith)))
    ∙ (destroy_pages-IsBare n (i + 1) table m (λ k p q. h k (omega arith) (omega arith)))

destroy_table-absent :
    (index directory : ℕ) (m : Paging)
    → frame_of (m.word (slot directory index)) ≡ 0
    → destroy_table index directory m ≡ some m
unfolding destroy_table
destroy_table-absent index directory m h =
    let none_there : (frame_of (m.word (slot directory index)) == 0) ≡ true = ground arith in
    rw none_there refl

pub destroy_tables-absent :
    (n i directory : ℕ) (m : Paging)
    → ((k : ℕ) → i ≤ k → k < i + n → frame_of (m.word (slot directory k)) ≡ 0)
    → destroy_tables n i directory m ≡ some m
unfolding destroy_tables
destroy_tables-absent zero i directory m h = refl
destroy_tables-absent (suc n) i directory m h =
    ap
      (λ (o : Option Paging). elim o [
        | none ↦ none
        | some m' ↦ destroy_tables n (i + 1) directory m'
      ])
      (destroy_table-absent i directory m (h i (omega arith) (omega arith)))
    ∙ (destroy_tables-absent n (i + 1) directory m (λ k p q. h k (omega arith) (omega arith)))

-- A table with no pages of its own but the screen's is given back, and its entry is cleared; no page
-- is freed with it.
pub destroy_table-IsBare :
    (index directory : ℕ) (m : Paging)
    → frame_of (m.word (slot directory index)) ≢ 0
    → ((k : ℕ) → k < 1024 → IsBare (m.word (slot (frame_of (m.word (slot directory index))) k)))
    → destroy_table index directory m
      ≡ release (frame_of (m.word (slot directory index))) (slot directory index) m
unfolding destroy_table
destroy_table-IsBare index directory m ne h =
    let table = frame_of (m.word (slot directory index)) in
    let there : (table == 0) ≡ false = ground arith in
    rw (there, destroy_pages-IsBare 1024 0 table m (λ k p q. h k (omega arith))) refl

-- `destroy_directory` of a directory in which the entries from 3 on are empty frees the directory's
-- page and nothing else, whatever tables its entries 0, 1 and 2 hold.
pub destroy_directory-absent :
    (directory : ℕ) (m : Paging)
    → ((k : ℕ) → 3 ≤ k → k < 1024 → frame_of (m.word (slot directory k)) ≡ 0)
    → destroy_directory directory m ≡ (elim (free m.bitmap directory) [
      | none ↦ none
      | some bitmap ↦ some (record m { bitmap = bitmap })
    ])
unfolding destroy_directory
destroy_directory-absent directory m h =
    ap
      (λ (o : Option Paging). elim o [
        | none ↦ none
        | some m' ↦ elim (free m'.bitmap directory) [
          | none ↦ none
          | some bitmap ↦ some (record m' { bitmap = bitmap })
        ]
      ])
      (destroy_tables-absent 1021 3 directory m (λ k p q. h k p (omega arith)))
