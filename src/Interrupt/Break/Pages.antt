-- ===== src/Interrupt/Break/Pages.antt =====
-- The pages that the loop of `sbrk` maps.
use semester_5_coursework.Prelude.{
  ap, bit_and, ◌⊎◌, bit_or, ◌≤◌, ◌≢◌, ◌*◌, arith, ◌≡◌, ◌∙◌, ◌<◌, ◌+◌, length, ℕ, refl, zero, suc,
  inl,
}
use semester_5_coursework.Interrupt.Break.{extend}
use semester_5_coursework.Memory.Paging.{
  Paging, create_page, create_directory, slot, present_readwrite_user,
}
use semester_5_coursework.Memory.Paging.Entry.{entry-parts, malloc-aligned}
use semester_5_coursework.Memory.Paging.Fresh.{IsFrame, after, frames, length-after, length-malloc}
use semester_5_coursework.Memory.Physical.{Bitmap, malloc}

-- The address that call number `k` of `malloc` returns.
abbrev pub page_at : Bitmap → ℕ → ℕ
page_at s k = (malloc (after k s)).0

-- So many calls of `malloc` find a page, and none of them is the table's.
pub record HasPages (n table : ℕ) (s : Bitmap) : Type 0 where
  pub size : length s ≡ 32
  pub found : (k : ℕ) → k < n → page_at s k ≢ 0
  pub apart : (k : ℕ) → k < n → page_at s k ≢ table

-- The entries of the table from `first` on lead to fresh, cleared pages that a process may write (7:
-- present, writable, a process's), and nothing else was written.
pub record IsExtended (n first table : ℕ) (m m' : Paging) : Type 0 where
  pub bitmap : m'.bitmap ≡ after n m.bitmap
  pub entries : (k : ℕ) → k < n → m'.word (table + 4 * (first + k)) ≡ page_at m.bitmap k + 7
  pub cleared :
      (k q : ℕ) → k < n → page_at m.bitmap k ≤ q → q < page_at m.bitmap k + 4096 → m'.word q ≡ 0
  pub kept :
      (q : ℕ)
      → (q < table + 4 * first) ⊎ (table + 4 * (first + n) ≤ q)
      → ((k : ℕ) → k < n → (q < page_at m.bitmap k) ⊎ (page_at m.bitmap k + 4096 ≤ q))
      → m'.word q ≡ m.word q

page_at-IsFrame : (n k table : ℕ) (s : Bitmap) → HasPages n table s → k < n → IsFrame (page_at s k)
page_at-IsFrame n k table s h less =
    malloc-aligned (after k s) (length-after k s ∙ h.size) (h.found k less)

-- Later pages lie above the first.
page_at-above :
    (n k table : ℕ) (s : Bitmap)
    → HasPages n table s
    → suc k < n
    → page_at s 0 + 4096 ≤ page_at s (suc k)
page_at-above n zero table s h less = (frames 0 s h.size (h.found 1 less)).2
page_at-above n (suc k) table s h less =
    let before = page_at-above n k table s h (omega arith) in
    let step = (frames (suc k) s h.size (h.found (suc (suc k)) less)).2 in
    omega (arith, before, step)

HasPages-malloc :
    (n table : ℕ) (s : Bitmap) → HasPages (suc n) table s → HasPages n table (malloc s).1
unfolding after
HasPages-malloc n table s h = record {
  size = length-malloc s ∙ h.size;
  found = λ k less. h.found (suc k) (omega arith);
  apart = λ k less. h.apart (suc k) (omega arith);
}

-- One page.
record IsCreated (index table page : ℕ) (m m' : Paging) : Type 0 where
  bitmap : m'.bitmap ≡ (malloc m.bitmap).1
  entry : m'.word (table + 4 * index) ≡ page + 7
  cleared : (q : ℕ) → q ≢ table + 4 * index → page ≤ q → q < page + 4096 → m'.word q ≡ 0
  kept : (q : ℕ) → q ≢ table + 4 * index → (q < page) ⊎ (page + 4096 ≤ q) → m'.word q ≡ m.word q

create_page-IsCreated :
    (index table : ℕ) (m : Paging)
    → IsFrame table
    → index < 1024
    → IsFrame (malloc m.bitmap).0
    → IsCreated index table
        (malloc m.bitmap).0
        m
        (create_page index table present_readwrite_user m).1
unfolding create_page create_directory
create_page-IsCreated index table m t i f =
    let page = (malloc m.bitmap).0 in
    let place : slot table index ≡ table + 4 * index = omega (arith, t) in
    let entry : bit_or page (bit_and 7 0xfff) ≡ page + 7 =
      (entry-parts page 7 f.0 (omega (arith, f))).0 in
    rw (place, entry)
      (record {
        bitmap = refl;
        entry = ground arith;
        cleared = λ q ne lo hi. ground arith;
        kept = λ q ne out. ground arith;
      })

-- A page, and the pages of the rounds after it.
module _ (n first table : ℕ) (m m1 m' : Paging) (t : IsFrame table) (fits : first + suc n ≤ 1024)
    (pages : HasPages (suc n) table m.bitmap) (one : IsCreated first table (malloc m.bitmap).0 m m1)
    (rest : IsExtended n (first + 1) table m1 m') where
  later : (k : ℕ) → page_at m1.bitmap k ≡ page_at m.bitmap (suc k)
  unfolding after
  later k = ap (λ (b : Bitmap). page_at b k) one.bitmap

  -- The first page lies below the later ones and beside the table.
  first_frame : IsFrame (page_at m.bitmap 0)
  first_frame = page_at-IsFrame (suc n) 0 table m.bitmap pages (omega arith)

  first_below : (k : ℕ) → k < n → page_at m.bitmap 0 + 4096 ≤ page_at m1.bitmap k
  first_below k less =
      omega (arith, page_at-above (suc n) k table m.bitmap pages (omega arith), later k)

  table_beside :
      (k : ℕ)
      → k < suc n
      → (table + 4096 ≤ page_at m.bitmap k) ⊎ (page_at m.bitmap k + 4096 ≤ table)
  table_beside k less =
      let frame = page_at-IsFrame (suc n) k table m.bitmap pages less in
      let ne = pages.apart k less in ground (arith, frame, ne, t)

  IsExtended-entries :
      (k : ℕ) → k < suc n → m'.word (table + 4 * (first + k)) ≡ page_at m.bitmap k + 7
  unfolding after
  IsExtended-entries zero less =
      let here : table + 4 * (first + 0) ≡ table + 4 * first = omega arith in
      ap m'.word here
      ∙ rest.kept (table + 4 * first) (inl (omega arith)) (λ k small.
        let beside = table_beside (suc k) (omega arith) in ground (arith, beside, later k))
      ∙ one.entry
  IsExtended-entries (suc k) less =
      let here : table + 4 * (first + suc k) ≡ table + 4 * (first + 1 + k) = omega arith in
      ap m'.word here ∙ rest.entries k (omega arith) ∙ ap (λ (x : ℕ). x + 7) (later k)

  IsExtended-cleared :
      (k q : ℕ) → k < suc n → page_at m.bitmap k ≤ q → q < page_at m.bitmap k + 4096 → m'.word q ≡ 0
  unfolding after
  IsExtended-cleared zero q less lo hi =
      let beside = table_beside 0 (omega arith) in
      rest.kept q (ground (arith, beside, fits))
        (λ k small. inl (omega (arith, first_below k small)))
      ∙ one.cleared q (λ e. ground (arith, beside, fits, e)) lo hi
  IsExtended-cleared (suc k) q less lo hi =
      rest.cleared k q (omega arith) (omega (arith, later k)) (omega (arith, later k))

  IsExtended-suc : IsExtended (suc n) first table m m'
  unfolding after
  IsExtended-suc = record {
    bitmap = rest.bitmap ∙ ap (after n) one.bitmap;
    entries = IsExtended-entries;
    cleared = IsExtended-cleared;
    kept = λ q out apart.
        rest.kept q (ground (arith, out))
          (λ k less. let far = apart (suc k) (omega arith) in ground (arith, far, later k))
        ∙ one.kept q (λ e. ground (arith, out, e)) (apart 0 (omega arith));
  }

pub extend-IsExtended :
    (n first table : ℕ) (m : Paging)
    → IsFrame table
    → first + n ≤ 1024
    → HasPages n table m.bitmap
    → IsExtended n first table m (extend n first table m)
unfolding extend after
extend-IsExtended zero first table m t fits pages = record {
  bitmap = refl;
  entries = λ k less. absurd (omega arith);
  cleared = λ k q less. absurd (omega arith);
  kept = λ q out apart. refl;
}
extend-IsExtended (suc n) first table m t fits pages =
    let m1 = (create_page first table present_readwrite_user m).1 in
    let frame = page_at-IsFrame (suc n) 0 table m.bitmap pages (omega arith) in
    let one = create_page-IsCreated first table m t (omega arith) frame in
    IsExtended-suc n first table m m1 (extend n (first + 1) table m1) t fits pages one (
      extend-IsExtended n (first + 1) table m1 t (omega arith)
        (rw one.bitmap (HasPages-malloc n table m.bitmap pages)))
