-- ===== src/Memory/Paging/Default.antt =====
-- The words of the directory and of the tables that `default_directory` makes.
use semester_5_coursework.Prelude.{
  inl, ◌∙◌, ◌⊎◌, ◌≢◌, ◌^◌, ◌<◌, ◌≡◌, arith, ◌≤◌, ◌*◌, bit_and, ◌+◌, bit_or, ℕ, refl,
}
use semester_5_coursework.Memory.Paging.{slot, store, clear_page, map_pages}
use semester_5_coursework.Memory.Paging.Fresh.{IsFrame}
use semester_5_coursework.Memory.Paging.Table.{
  filled-TableMapped, TableAdded, TableMapped, create_table-TableAdded,
}
use semester_5_coursework.Memory.Paging.Translate.{mapped-Maps, Maps, Maps-kept}

-- The memory that `default_directory` leaves, when `malloc` returned the directory and these tables.
abbrev pub default_words : (directory table0 table1 table2 table3 : ℕ) → (ℕ → ℕ) → ℕ → ℕ
default_words directory table0 table1 table2 table3 w =
    let add = λ (i table flags : ℕ) (v : ℕ → ℕ).
      store (slot directory i) (bit_or table (bit_and flags 0xfff)) (clear_page table v) in
    let v0 = map_pages 1024 0 table0 0 5 (add 0 table0 5 (clear_page directory w)) in
    let v1 = map_pages 1024 0 table1 0x400000 1 (add 1 table1 1 v0) in
    let v2 = map_pages 1024 0 table2 0x800000 1 (add 2 table2 1 v1) in
    store (slot table3 1023) (bit_or 0xb8000 7) (add 3 table3 7 v2)

-- A directory with three tables of pages, a table with the screen, and no other table.
pub record IsDefault (word : ℕ → ℕ) (directory table3 : ℕ) : Type 0 where
  pub table0 : ℕ
  pub table1 : ℕ
  pub table2 : ℕ
  pub kernel : Maps word directory 0 table0 5 0 5
  pub pool : Maps word directory 1 table1 1 0x400000 1
  pub heap : Maps word directory 2 table2 1 0x800000 1
  pub frame : IsFrame table3
  pub user : word (directory + 4 * 3) ≡ table3 + 7
  pub screen : word (table3 + 4 * 1023) ≡ 0xb8000 + 7
  pub no_page : (k : ℕ) → k < 1023 → word (table3 + 4 * k) ≡ 0
  pub no_table : (k : ℕ) → 4 ≤ k → k < 1024 → word (directory + 4 * k) ≡ 0

-- The four steps, one after the other, on a cleared directory.
steps-IsDefault :
    (directory table0 table1 table2 table3 : ℕ) (v v0 v1 v2 v3 : ℕ → ℕ)
    → IsFrame directory
    → IsFrame table0
    → IsFrame table1
    → IsFrame table2
    → IsFrame table3
    → directory + 4096 ≤ table0
    → table0 + 4096 ≤ table1
    → table1 + 4096 ≤ table2
    → table2 + 4096 ≤ table3
    → ((k : ℕ) → k < 1024 → v (directory + 4 * k) ≡ 0)
    → TableMapped 0 directory table0 0 5 5 v v0
    → TableMapped 1 directory table1 0x400000 1 1 v0 v1
    → TableMapped 2 directory table2 0x800000 1 1 v1 v2
    → TableAdded 3 directory table3 7 v2 v3
    → IsDefault (store (slot table3 1023) (bit_or 0xb8000 7) v3) directory table3
steps-IsDefault directory table0 table1 table2 table3 v v0 v1 v2 v3 d t0 t1 t2 t3 a b c e empty s0
      s1 s2 s3 =
    let last = store (slot table3 1023) (bit_or 0xb8000 7) v3 in
    let kept : (q : ℕ)
        → q ≢ directory + 4 * 3
        → (q < table3) ⊎ (table3 + 4096 ≤ q)
        → last q ≡ v2 q =
      λ q ne out. ground arith ∙ s3.kept q ne out in
    let kernel = mapped-Maps 0 directory table0 5 0 5 v v0 t0 s0 in
    let pool = mapped-Maps 1 directory table1 1 0x400000 1 v0 v1 t1 s1 in
    let heap = mapped-Maps 2 directory table2 1 0x800000 1 v1 v2 t2 s2 in
    let above1 : directory + 4096 ≤ table1 = omega arith in
    let above2 : directory + 4096 ≤ table2 = omega arith in
    record {
      table0 = table0;
      table1 = table1;
      table2 = table2;
      kernel =
          Maps-kept v2 last directory 0 table0 5 0 5 3 table3 a (omega arith) (omega arith)
            (omega arith) kept
            (Maps-kept v1 v2 directory 0 table0 5 0 5 2 table2 a (omega arith) (omega arith)
              (omega arith) s2.kept
              (Maps-kept v0 v1 directory 0 table0 5 0 5 1 table1 a b (omega arith) (omega arith)
                s1.kept kernel));
      pool =
          Maps-kept v2 last directory 1 table1 1 0x400000 1 3 table3 above1 (omega arith)
            (omega arith) (omega arith) kept
            (Maps-kept v1 v2 directory 1 table1 1 0x400000 1 2 table2 above1 c (omega arith)
              (omega arith) s2.kept pool);
      heap =
          Maps-kept v2 last directory 2 table2 1 0x800000 1 3 table3 above2 e (omega arith)
            (omega arith) kept heap;
      frame = t3;
      user = ground arith ∙ s3.linked;
      screen = ground arith;
      no_page = λ k p. ground arith ∙ s3.cleared k (omega arith);
      no_table = λ k p q.
          kept (directory + 4 * k) (λ z. omega arith) (inl (omega arith))
          ∙ s2.kept (directory + 4 * k) (λ z. omega arith) (inl (omega arith))
          ∙ s1.kept (directory + 4 * k) (λ z. omega arith) (inl (omega arith))
          ∙ s0.kept (directory + 4 * k) (λ z. omega arith) (inl (omega arith))
          ∙ empty k q;
    }

pub default_words-IsDefault :
    (directory table0 table1 table2 table3 : ℕ) (w : ℕ → ℕ)
    → IsFrame directory
    → IsFrame table0
    → IsFrame table1
    → IsFrame table2
    → IsFrame table3
    → directory + 4096 ≤ table0
    → table0 + 4096 ≤ table1
    → table1 + 4096 ≤ table2
    → table2 + 4096 ≤ table3
    → IsDefault (default_words directory table0 table1 table2 table3 w) directory table3
default_words-IsDefault directory table0 table1 table2 table3 w d t0 t1 t2 t3 a b c e =
    let above1 : directory + 4096 ≤ table1 = omega arith in
    let above2 : directory + 4096 ≤ table2 = omega arith in
    let above3 : directory + 4096 ≤ table3 = omega arith in
    let small : (n : ℕ) → n < 8 → n < 2 ^ 12 = λ n p. omega arith in
    steps-IsDefault directory table0 table1 table2 table3 _ _ _ _ _ d t0 t1 t2 t3 a b c e
      (λ k p. ground arith)
      (filled-TableMapped 0 directory table0 0 5 5 (clear_page directory w) d t0 a (omega arith)
        refl (omega arith) (omega arith) (omega arith))
      (filled-TableMapped 1 directory table1 0x400000 1 1 _ d t1 above1 (omega arith) refl
        (omega arith) (omega arith) (omega arith))
      (filled-TableMapped 2 directory table2 0x800000 1 1 _ d t2 above2 (omega arith) refl
        (omega arith) (omega arith) (omega arith))
      (create_table-TableAdded 3 directory table3 7 _ d t3 above3 (omega arith) (omega arith))
