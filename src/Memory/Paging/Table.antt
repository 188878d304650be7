-- ===== src/Memory/Paging/Table.antt =====
-- What the steps of `default_directory` write: a table, its entry of the directory, and the pages
-- that the table maps.
use semester_5_coursework.Bits.Masks.{and-page}
use native.Mathlib.Decide.{ℕ_discrete}
use semester_5_coursework.Prelude.{
  ap, ◌∙◌, inl, ◌≢◌, bit_and, arith, ◌⊎◌, ◌≡◌, bit_or, ◌≤◌, ◌^◌, ◌*◌, ◌<◌, ◌+◌, ◌%◌, ℕ, zero, suc,
  refl,
}
use semester_5_coursework.Memory.Paging.{slot, frame_of, store, clear_page, map_pages}
use semester_5_coursework.Memory.Paging.Entry.{entry-parts}
use semester_5_coursework.Memory.Paging.Fresh.{IsFrame}

-- A page's address and its flags, as the source puts them together.
pub or-flags :
    (page flags : ℕ)
    → page % 2 ^ 12 ≡ 0
    → page < 2 ^ 32
    → flags < 2 ^ 12
    → (bit_or page flags ≡ page + flags) × (frame_of (page + flags) ≡ page)
or-flags page flags a b c =
    let same : bit_and flags 0xfff ≡ flags = and-page flags ∙ omega arith in
    let small : flags % 2 ^ 12 ≡ flags = omega arith in
    let parts = rw (same, small) at (entry-parts page flags a b) in (parts.0, rw parts.0 at parts.1)

map_pages-other :
    (n i table base flags : ℕ) (w : ℕ → ℕ) (q : ℕ)
    → table < 0x800000
    → i + n ≤ 1024
    → (q < table) ⊎ (table + 4096 ≤ q)
    → map_pages n i table base flags w q ≡ w q
unfolding map_pages
map_pages-other zero i table base flags w q a b c = refl
map_pages-other (suc n) i table base flags w q a b c =
    map_pages-other n (i + 1) table base flags
      (store (slot table i) (bit_or (base + 0x1000 * i) flags) w) q a (omega arith) c
    ∙ ground arith

map_pages-before :
    (n i k table base flags : ℕ) (w : ℕ → ℕ)
    → table < 0x800000
    → i + n ≤ 1024
    → k < i
    → map_pages n i table base flags w (table + 4 * k) ≡ w (table + 4 * k)
unfolding map_pages
map_pages-before zero i k table base flags w a b c = refl
map_pages-before (suc n) i k table base flags w a b c =
    map_pages-before n (i + 1) k table base flags
      (store (slot table i) (bit_or (base + 0x1000 * i) flags) w) a (omega arith) (omega arith)
    ∙ ground arith

map_pages-here :
    (n i k table base flags : ℕ) (w : ℕ → ℕ)
    → table < 0x800000
    → i + n ≤ 1024
    → i ≤ k
    → k < i + n
    → map_pages n i table base flags w (table + 4 * k) ≡ bit_or (base + 0x1000 * k) flags
unfolding map_pages
map_pages-here zero i k table base flags w a b c d = absurd (omega arith)
map_pages-here (suc n) i k table base flags w a b c d =
    let w' = store (slot table i) (bit_or (base + 0x1000 * i) flags) w in
    elim (ℕ_discrete i k) [
      | yes e ↦
          map_pages-before n (i + 1) k table base flags w' a (omega arith) (omega arith)
          ∙ ground (arith, ap (λ (x : ℕ). bit_or (base + 0x1000 * x) flags) e)
      | no ne ↦
          map_pages-here n (i + 1) k table base flags w' a (omega arith) (omega arith) (omega arith)
    ]

-- Entry `index` of the directory leads to an empty table, and nothing else was written.
pub record TableAdded (index directory table flags : ℕ) (w w' : ℕ → ℕ) : Type 0 where
  pub linked : w' (directory + 4 * index) ≡ table + flags
  pub cleared : (k : ℕ) → k < 1024 → w' (table + 4 * k) ≡ 0
  pub kept : (q : ℕ) → q ≢ directory + 4 * index → (q < table) ⊎ (table + 4096 ≤ q) → w' q ≡ w q

pub create_table-TableAdded :
    (index directory table flags : ℕ) (w : ℕ → ℕ)
    → IsFrame directory
    → IsFrame table
    → directory + 4096 ≤ table
    → index < 1024
    → flags < 2 ^ 12
    → TableAdded index directory table flags w
        (store (slot directory index) (bit_or table (bit_and flags 0xfff)) (clear_page table w))
create_table-TableAdded index directory table flags w d t above i f =
    let entry : bit_or table (bit_and flags 0xfff) ≡ table + flags =
      (entry-parts table flags t.0 (omega (arith, t))).0 ∙ omega arith in
    let place : slot directory index ≡ directory + 4 * index = omega (arith, d) in
    rw (entry, place)
      (record {
        linked = ground arith;
        cleared = λ k p. ground (arith, above, i);
        kept = λ q ne out. ground arith;
      })

-- The table filled with pages from `base` on, the directory's other entries and the rest of the memory
-- as they were.
pub record TableMapped (index directory table base flags links : ℕ) (w w' : ℕ → ℕ) : Type 0 where
  pub linked : w' (directory + 4 * index) ≡ table + links
  pub mapped : (k : ℕ) → k < 1024 → w' (table + 4 * k) ≡ base + 0x1000 * k + flags
  pub kept : (q : ℕ) → q ≢ directory + 4 * index → (q < table) ⊎ (table + 4096 ≤ q) → w' q ≡ w q

pub map_pages-TableMapped :
    (index directory table base flags links : ℕ) (w w' : ℕ → ℕ)
    → IsFrame table
    → directory + 4096 ≤ table
    → index < 1024
    → base % 2 ^ 12 ≡ 0
    → base ≤ 0x800000
    → flags < 2 ^ 12
    → TableAdded index directory table links w w'
    → TableMapped index directory table base flags links w (map_pages 1024 0 table base flags w')
map_pages-TableMapped index directory table base flags links w w' t above i b c f added =
    let outside : (q : ℕ)
        → (q < table) ⊎ (table + 4096 ≤ q)
        → map_pages 1024 0 table base flags w' q ≡ w' q =
      λ q out. map_pages-other 1024 0 table base flags w' q (t.2) (omega arith) out in
    record {
      linked = outside (directory + 4 * index) (inl (omega arith)) ∙ added.linked;
      mapped = λ k p.
          map_pages-here 1024 0 k table base flags w' (t.2) (omega arith) (omega arith) p
          ∙ (or-flags (base + 0x1000 * k) flags (omega arith) (omega arith) f).0;
      kept = λ q ne out. outside q out ∙ added.kept q ne out;
    }

-- Both at once.
pub filled-TableMapped :
    (index directory table base flags links : ℕ) (w : ℕ → ℕ)
    → IsFrame directory
    → IsFrame table
    → directory + 4096 ≤ table
    → index < 1024
    → base % 2 ^ 12 ≡ 0
    → base ≤ 0x800000
    → flags < 2 ^ 12
    → links < 2 ^ 12
    → TableMapped index directory table base flags links w (
        map_pages 1024 0 table base flags
          (store (slot directory index) (bit_or table (bit_and links 0xfff)) (clear_page table w)))
filled-TableMapped index directory table base flags links w d t above i b c f l =
    map_pages-TableMapped index directory table base flags links w _ t above i b c f
      (create_table-TableAdded index directory table links w d t above i l)
