-- ===== src/Memory/Paging/Fresh.antt =====
-- The pages that `malloc` hands out one after the other.
use semester_5_coursework.Prelude.{
  ltb, Bool-cases, ◌<◌, ◌*◌, ◌≤◌, ◌+◌, arith, ◌≢◌, ◌∙◌, ◌^◌, ap, ◌≡◌, ◌%◌, length, ℕ, zero, suc,
  refl, inl, inr,
}
use semester_5_coursework.Memory.Physical.{Bitmap, malloc}
use semester_5_coursework.Memory.Physical.Pages.{malloc_cases, Allocates}
use semester_5_coursework.Memory.Paging.Entry.{malloc-aligned}

-- The bitmap after `n` calls of `malloc`.
unfoldable pub after : ℕ → Bitmap → Bitmap
after zero s = s
after (suc n) s = after n (malloc s).1

-- A page frame of the pool.
abbrev pub IsFrame : ℕ → Type 0
IsFrame page = (page % 2 ^ 12 ≡ 0) × (0x400000 ≤ page) × (page < 0x800000)

pub length-malloc : (s : Bitmap) → length (malloc s).1 ≡ length s
length-malloc s = elim (malloc_cases s) [
  | inl full ↦ ap (λ (r : ℕ × Bitmap). length r.1) full.null
  | inr (i, j, r) ↦ r.size
]

-- Once no page is free, none is free after.
malloc-exhausted : (s : Bitmap) → (malloc s).0 ≡ 0 → (malloc (malloc s).1).0 ≡ 0
malloc-exhausted s e = elim (malloc_cases s) [
  | inl full ↦ ap (λ (r : ℕ × Bitmap). (malloc r.1).0) full.null ∙ e
  | inr (i, j, r) ↦ absurd (omega (arith, r.address, e))
]

-- The second of two pages lies above the first.
malloc-above :
    (s : Bitmap)
    → length s ≡ 32
    → (malloc (malloc s).1).0 ≢ 0
    → (malloc s).0 + 4096 ≤ (malloc (malloc s).1).0
malloc-above s n h = elim (malloc_cases s) [
  | inl full ↦ absurd (h (malloc-exhausted s (ap (λ (r : ℕ × Bitmap). r.0) full.null)))
  | inr (i, j, r) ↦ elim (malloc_cases (malloc s).1) [
    | inl full ↦ absurd (h (ap (λ (r : ℕ × Bitmap). r.0) full.null))
    | inr (k, l, r') ↦ ordered i j k l r r'
  ]
]
  where
    ordered :
        (i j k l : ℕ)
        → Allocates s i j (malloc s)
        → Allocates (malloc s).1 k l (malloc (malloc s).1)
        → (malloc s).0 + 4096 ≤ (malloc (malloc s).1).0
    ordered i j k l r r' =
        let later : 32 * i + j < 32 * k + l = elim (Bool-cases (ltb (32 * i + j) (32 * k + l))) [
          | inl yes_after ↦ ground arith
          | inr not_after ↦
              ground
                (arith, r.in_range, r'.in_range, r'.was_free, r.effect k l, r.size, r.first k l)
        ] in
        omega (arith, later, r.address, r'.address)

after-malloc : (n : ℕ) (s : Bitmap) → after n (malloc s).1 ≡ (malloc (after n s)).1
unfolding after
after-malloc zero s = refl
after-malloc (suc n) s = after-malloc n (malloc s).1

pub length-after : (n : ℕ) (s : Bitmap) → length (after n s) ≡ length s
unfolding after
length-after zero s = refl
length-after (suc n) s = length-after n (malloc s).1 ∙ length-malloc s

-- When call number `n` of `malloc` finds a page, so did the one before, and the two are frames of the
-- pool, the later one above the earlier.
pub frames :
    (n : ℕ) (s : Bitmap)
    → length s ≡ 32
    → (malloc (after (suc n) s)).0 ≢ 0
    → ((malloc (after n s)).0 ≢ 0)
      × IsFrame (malloc (after n s)).0
      × ((malloc (after n s)).0 + 4096 ≤ (malloc (after (suc n) s)).0)
unfolding after
frames n s len h =
    let next : (malloc (malloc (after n s)).1).0 ≢ 0 = rw (after-malloc n s) at h in
    let full = length-after n s ∙ len in
    let found : (malloc (after n s)).0 ≢ 0 = λ e. next (malloc-exhausted (after n s) e) in
    (
      found,
      malloc-aligned (after n s) full found,
      rw (after-malloc n s) (malloc-above (after n s) full next),
    )
