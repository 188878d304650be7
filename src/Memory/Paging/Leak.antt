-- ===== src/Memory/Paging/Leak.antt =====
-- What is left of a default directory that is destroyed.
use native.Mathlib.Decide.{ℕ_discrete}
use semester_5_coursework.Prelude.{
  Option, ◌≤◌, ◌&&◌, ◌∙◌, ap₂, ◌+◌, sym, ◌*◌, ◌%◌, ◌/◌, arith, ◌-◌, ap, ◌==◌, if◌then◌else◌, ◌≢◌,
  ◌<◌, ◌≡◌, length, ℕ, suc, none, some, inl, inr,
}
use semester_5_coursework.Memory.Paging.{
  Paging, default_directory, create_table, create_directory, destroy_directory, destroy_tables,
  destroy_table, release, slot, frame_of, store,
}
use semester_5_coursework.Memory.Physical.{Bitmap, malloc, free, page_address}
use semester_5_coursework.Memory.Physical.Pages.{taken, malloc_cases, free-page_address}
use semester_5_coursework.Memory.Paging.Entry.{malloc-aligned}
use semester_5_coursework.Memory.Paging.Fresh.{IsFrame, after, frames, length-after}
use semester_5_coursework.Memory.Paging.Table.{or-flags}
use semester_5_coursework.Memory.Paging.Default.{IsDefault, default_words-IsDefault}
use semester_5_coursework.Memory.Paging.Destroy.{
  IsBare, destroy_table-IsBare, destroy_tables-absent,
}

-- A page is told by its place in the bitmap or by its address.
if-page_address :
    (i j k l a b : ℕ)
    → j < 32
    → l < 32
    → (if (i == k) && (j == l) then a else b)
      ≡ (if page_address k l == page_address i j then a else b)
if-page_address i j k l a b p q = elim (ℕ_discrete (32 * i + j) (32 * k + l)) [
  | yes e ↦
      let row : i ≡ k = omega (arith, e, p, q) in
      let column : j ≡ l = omega (arith, e, p, q) in ground arith
  | no ne ↦ ground arith
]

-- `malloc` takes the page that it returns, which was free, and no other.
taken-malloc :
    (s : Bitmap) (k l : ℕ)
    → length s ≡ 32
    → (malloc s).0 ≢ 0
    → k < 32
    → l < 32
    → (taken (malloc s).1 k l ≡ (if page_address k l == (malloc s).0 then 1 else taken s k l))
      × (page_address k l ≡ (malloc s).0 → taken s k l ≡ 0)
taken-malloc s k l n h p q = elim (malloc_cases s) [
  | inl full ↦ absurd (h (ap (λ (r : ℕ × Bitmap). r.0) full.null))
  | inr (i, j, r) ↦
      let column : j < 32 = omega (arith, r.in_range) in
      (
        r.effect k l
            ∙ if-page_address i j k l 1 (taken s k l) column q
            ∙ ap (λ (x : ℕ). if page_address k l == x then 1 else taken s k l) (sym r.address),
        λ z.
            let place : 32 * i + j ≡ 32 * k + l = omega (arith, z, r.address) in
            let row : i ≡ k = omega (arith, place, column, q) in
            let here : j ≡ l = omega (arith, place, column, q) in
            ap₂ (taken s) (sym row) (sym here) ∙ r.was_free,
      )
]

-- `free` of a frame of the pool flips its page and no other.
free-frame :
    (s : Bitmap) (page : ℕ)
    → length s ≡ 32
    → IsFrame page
    → (s' : Bitmap) × (free s page ≡ some s')
      × (length s' ≡ 32)
      × ((k l : ℕ)
          → k < 32
          → l < 32
          → taken s' k l ≡ (if page_address k l == page then 1 - taken s k l else taken s k l))
free-frame s page n f =
    let i = (page - 0x400000) / 0x1000 / 32 in
    let j = (page - 0x400000) / 0x1000 % 32 in
    let same : page_address i j ≡ page = omega (arith, f) in
    let freed = free-page_address s i j n (omega (arith, f)) (omega arith) in
    (
      freed.0,
      ap (free s) (sym same) ∙ freed.1,
      freed.2 ∙ n,
      λ k l p q.
          freed.3 k l
          ∙ if-page_address i j k l (1 - taken s k l) (taken s k l) (omega arith) q
          ∙ ap (λ (x : ℕ). if page_address k l == x then 1 - taken s k l else taken s k l) same,
    )

destroy_tables-first :
    (n i directory : ℕ) (m m' : Paging)
    → destroy_table i directory m ≡ some m'
    → ((k : ℕ) → i + 1 ≤ k → k < i + 1 + n → frame_of (m'.word (slot directory k)) ≡ 0)
    → destroy_tables (suc n) i directory m ≡ some m'
unfolding destroy_tables
destroy_tables-first n i directory m m' e rest =
    ap
      (λ (o : Option Paging). elim o [
        | none ↦ none
        | some m1 ↦ destroy_tables n (i + 1) directory m1
      ])
      e
    ∙ destroy_tables-absent n (i + 1) directory m' rest

-- The only pages that `destroy_directory` gives back are the directory's and the last table's.
destroy-IsDefault :
    (directory table3 : ℕ) (m : Paging)
    → length m.bitmap ≡ 32
    → IsFrame directory
    → IsDefault m.word directory table3
    → (m' : Paging) × (destroy_directory directory m ≡ some m')
      × ((k l : ℕ)
          → k < 32
          → l < 32
          → taken m'.bitmap k l ≡ (
              let once =
                if page_address k l == table3 then 1 - taken m.bitmap k l else taken m.bitmap k l in
              if page_address k l == directory then 1 - once else once))
unfolding destroy_directory
destroy-IsDefault directory table3 m n d default =
    let place : (k : ℕ) → k < 1024 → slot directory k ≡ directory + 4 * k =
      λ k p. omega (arith, d) in
    let inside : (k : ℕ) → k < 1024 → slot table3 k ≡ table3 + 4 * k =
      λ k p. omega (arith, default.frame) in
    let table : frame_of (m.word (slot directory 3)) ≡ table3 =
      ap (λ (q : ℕ). frame_of (m.word q)) (place 3 (omega arith))
      ∙ ap frame_of default.user
      ∙ (or-flags table3 7 (default.frame.0) (omega (arith, default.frame)) (omega arith)).1 in
    let freed = free-frame m.bitmap table3 n default.frame in
    let freed' = free-frame freed.0 directory freed.2 d in
    let m1 : Paging = record { bitmap = freed.0; word = store (slot directory 3) 0 m.word } in
    let bare : (k : ℕ) → k < 1024 → IsBare (m.word (slot table3 k)) = λ k p.
      elim (ℕ_discrete k 1023) [
        | yes e ↦ inr (
            ap (λ (x : ℕ). frame_of (m.word (slot table3 x))) e
            ∙ ap (λ (q : ℕ). frame_of (m.word q)) (inside 1023 (omega arith))
            ∙ ap frame_of default.screen)
        | no ne ↦ inl (
            ap (λ (q : ℕ). frame_of (m.word q)) (inside k p)
            ∙ ap frame_of (default.no_page k (omega arith)))
      ] in
    let one : destroy_table 3 directory m ≡ some m1 =
      destroy_table-IsBare 3 directory m (λ z. omega (arith, sym table ∙ z, default.frame))
        (λ k p. rw table (bare k p))
      ∙ ap (λ (t : ℕ). release t (slot directory 3) m) table
      ∙ ap
          (λ (o : Option Bitmap). elim o [
            | none ↦ none
            | some bitmap ↦ some (record { bitmap = bitmap; word = m1.word })
          ])
          freed.1 in
    let all : destroy_tables 1021 3 directory m ≡ some m1 =
      destroy_tables-first 1020 3 directory m m1 one (λ k p q.
        let other : m1.word (slot directory k) ≡ m.word (slot directory k) = ground arith in
        ap frame_of (other ∙ ap m.word (place k q) ∙ default.no_table k p q)) in
    (
      record m1 { bitmap = freed'.0 },
      ap
            (λ (o : Option Paging). elim o [
              | none ↦ none
              | some m2 ↦ elim (free m2.bitmap directory) [
                | none ↦ none
                | some bitmap ↦ some (record m2 { bitmap = bitmap })
              ]
            ])
            all
          ∙ ap
              (λ (o : Option Bitmap). elim o [
                | none ↦ none
                | some bitmap ↦ some (record m1 { bitmap = bitmap })
              ])
              freed'.1,
      λ k l p q.
          freed'.3 k l p q
          ∙ ap (λ (x : ℕ). if page_address k l == directory then 1 - x else x) (freed.3 k l p q),
    )

-- Five pages are taken, and the first and the last given back.
given_back :
    (a p0 p1 p2 p3 p4 x0 x1 x2 x3 x4 x5 : ℕ)
    → p0 < p1
    → p1 < p2
    → p2 < p3
    → p3 < p4
    → (x1 ≡ (if a == p0 then 1 else x0)) × (a ≡ p0 → x0 ≡ 0)
    → (x2 ≡ (if a == p1 then 1 else x1)) × (a ≡ p1 → x1 ≡ 0)
    → (x3 ≡ (if a == p2 then 1 else x2)) × (a ≡ p2 → x2 ≡ 0)
    → (x4 ≡ (if a == p3 then 1 else x3)) × (a ≡ p3 → x3 ≡ 0)
    → (x5 ≡ (if a == p4 then 1 else x4)) × (a ≡ p4 → x4 ≡ 0)
    → (let once = if a == p4 then 1 - x5 else x5 in if a == p0 then 1 - once else once)
      ≡ (if a == p1 then 1 else if a == p2 then 1 else if a == p3 then 1 else x0)
given_back a p0 p1 p2 p3 p4 x0 x1 x2 x3 x4 x5 b0 b1 b2 b3 s0 s1 s2 s3 s4 = ground arith

-- When the allocator has five free pages, a directory that `default_directory` makes can be destroyed,
-- but the pages of its tables 0, 1 and 2, which are the second to the fourth that `malloc` returned,
-- are taken after that; all other pages are as they were before the directory was made.
pub destroy-default_directory :
    (m : Paging)
    → length m.bitmap ≡ 32
    → (malloc (after 4 m.bitmap)).0 ≢ 0
    → let (directory, m') = default_directory m in
      (m'' : Paging) × (destroy_directory directory m' ≡ some m'')
      × ((k l : ℕ)
          → k < 32
          → l < 32
          → taken m''.bitmap k l ≡ (
              if page_address k l == (malloc (after 1 m.bitmap)).0
              then 1
              else if page_address k l == (malloc (after 2 m.bitmap)).0
              then 1
              else if page_address k l == (malloc (after 3 m.bitmap)).0
              then 1
              else taken m.bitmap k l))
unfolding default_directory create_table create_directory after
destroy-default_directory m len h =
    let s = m.bitmap in
    let last = malloc-aligned (after 4 s) (length-after 4 s ∙ len) h in
    let (found3, t2, above3) = frames 3 s len h in
    let (found2, t1, above2) = frames 2 s len found3 in
    let (found1, t0, above1) = frames 1 s len found2 in
    let (found0, d, above0) = frames 0 s len found1 in
    let default =
      default_words-IsDefault _ _ _ _ _ m.word d t0 t1 t2 last above0 above1 above2 above3 in
    let gone = destroy-IsDefault _ _ (default_directory m).1 (length-after 5 s ∙ len) d default in
    (
      gone.0,
      gone.1,
      λ k l p q.
          let step = λ (n : ℕ) (found : (malloc (after n s)).0 ≢ 0).
            taken-malloc (after n s) k l (length-after n s ∙ len) found p q in
          gone.2 k l p q
          ∙ given_back (page_address k l) _ _ _ _ _ _ _ _ _ _ _ (omega (arith, above0))
              (omega (arith, above1)) (omega (arith, above2)) (omega (arith, above3))
              (step 0 found0) (step 1 found1) (step 2 found2) (step 3 found3) (step 4 h),
    )
