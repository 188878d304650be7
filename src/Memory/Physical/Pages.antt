-- ===== src/Memory/Physical/Pages.antt =====
-- The bitmap as a set of pages: what `malloc` and `free` do to each page.
use native.Mathlib.Decide.{ℕ_discrete}
use semester_5_coursework.Prelude.{
  eq_of_get_or, ap, ℕ, ◌+◌, ◌-◌, ◌*◌, ◌/◌, ◌%◌, ◌^◌, ◌<◌, ◌≡◌, ◌⊎◌, ◌≢◌, refl, inl, inr, some,
  arith, ◌==◌, ◌&&◌, if◌then◌else◌, Option-cases, length, get_or, set, length-set, get_or-set_self,
  get_or-set_ne, bit_or, bit_xor,
}
use semester_5_coursework.Bits.{bit, eq_of_bits, bit-set, bit-flip}
use semester_5_coursework.Memory.Physical.{
  Bitmap, page_address, page_offset, find_free, malloc, free,
}
use semester_5_coursework.Memory.Physical.Find.{find_free-none, find_free-some, find_free-first}

-- 1 if page `j` of word `i` is taken, and 0 if it is free.
abbrev pub taken : Bitmap → ℕ → ℕ → ℕ
taken s i j = bit (get_or s i 0) j

-- The effect of a successful `malloc`: the first free page was found, its address is returned, and
-- the new bitmap differs in that page alone.
pub record Allocates (s : Bitmap) (i j : ℕ) (result : ℕ × Bitmap) : Type 0 where
  pub in_range : (i < length s) × (j < 32)
  pub was_free : taken s i j ≡ 0
  pub first : (k l : ℕ) → k < length s → l < 32 → 32 * k + l < 32 * i + j → taken s k l ≡ 1
  pub address : result.0 ≡ page_address i j
  pub size : length result.1 ≡ length s
  pub effect : (k l : ℕ) → taken result.1 k l ≡ (if (i == k) && (j == l) then 1 else taken s k l)

-- No page is free: the result is the null pointer, and nothing changes.
pub record IsFull (s : Bitmap) (result : ℕ × Bitmap) : Type 0 where
  pub all_taken : (k l : ℕ) → k < length s → l < 32 → taken s k l ≡ 1
  pub null : result ≡ (0, s)

-- Writing a word with one bit set, or flipped, changes that page alone.
taken-set_bit :
    (s : Bitmap) (i j k l : ℕ)
    → i < length s
    → taken (set s i (bit_or (get_or s i 0) (2 ^ j))) k l
      ≡ (if (i == k) && (j == l) then 1 else taken s k l)
taken-set_bit s i j k l h = elim (ℕ_discrete i k) [
  | yes e ↦
      rw (← e, get_or-set_self s i (bit_or (get_or s i 0) (2 ^ j)) 0 h)
        (ground (arith, bit-set (get_or s i 0) j l))
  | no ne ↦ rw (get_or-set_ne s i k (bit_or (get_or s i 0) (2 ^ j)) 0 ne) (ground arith)
]

taken-flip_bit :
    (s : Bitmap) (i j k l : ℕ)
    → i < length s
    → taken (set s i (bit_xor (get_or s i 0) (2 ^ j))) k l
      ≡ (if (i == k) && (j == l) then 1 - taken s k l else taken s k l)
taken-flip_bit s i j k l h = elim (ℕ_discrete i k) [
  | yes e ↦
      rw (← e, get_or-set_self s i (bit_xor (get_or s i 0) (2 ^ j)) 0 h)
        (ground (arith, bit-flip (get_or s i 0) j l))
  | no ne ↦ rw (get_or-set_ne s i k (bit_xor (get_or s i 0) (2 ^ j)) 0 ne) (ground arith)
]

Allocates-found :
    (s : Bitmap) (i j : ℕ)
    → find_free s 0 ≡ some (i, j)
    → Allocates s i j (page_address i j, set s i (bit_or (get_or s i 0) (2 ^ j)))
Allocates-found s i j f =
    let found = find_free-some s 0 i j f in
    let index : i - 0 ≡ i = omega arith in
    record {
      in_range = (omega (arith, found), omega (arith, found));
      was_free = rw index at (found.0);
      first = λ k l p q r. find_free-first s 0 i j k l f p q (omega arith);
      address = refl;
      size = length-set s i (bit_or (get_or s i 0) (2 ^ j));
      effect = λ k l. taken-set_bit s i j k l (omega (arith, found));
    }

-- `malloc` takes the first free page, sets exactly its bit and returns its address; when no page is
-- free it returns the null pointer and changes nothing.
pub malloc_cases :
    (s : Bitmap) → (IsFull s (malloc s)) ⊎ ((i : ℕ) × (j : ℕ) × Allocates s i j (malloc s))
unfolding malloc
malloc_cases s = elim (Option-cases (find_free s 0)) [
  | inl n ↦ inl (record { all_taken = λ k l. find_free-none s 0 k l n; null = rw (n, malloc) })
  | inr ((i, j), f) ↦ rw (f, malloc) (inr (i, j, Allocates-found s i j f))
]

-- On a bitmap of 32 words, `free` of the address of one of its pages succeeds, flips the bit of that
-- page, and no other.
pub free-page_address :
    (s : Bitmap) (i j : ℕ)
    → length s ≡ 32
    → i < 32
    → j < 32
    → (s' : Bitmap) × (free s (page_address i j) ≡ some s')
      × (length s' ≡ length s)
      × ((k l : ℕ) → taken s' k l ≡ (if (i == k) && (j == l) then 1 - taken s k l else taken s k l))
unfolding free
free-page_address s i j n p q =
    let word : page_offset (page_address i j) / 32 ≡ i = omega arith in
    let place : page_offset (page_address i j) % 32 ≡ j = omega arith in
    rw (word, place)
      (
        set s i (bit_xor (get_or s i 0) (2 ^ j)),
        ground arith,
        length-set s i (bit_xor (get_or s i 0) (2 ^ j)),
        λ k l. taken-flip_bit s i j k l (omega arith),
      )

-- Bitmaps that agree on every page are equal.
Bitmap_ext : (s t : Bitmap) → length s ≡ length t → ((k l : ℕ) → taken s k l ≡ taken t k l) → s ≡ t
Bitmap_ext s t n h = eq_of_get_or s t 0 n (λ k. eq_of_bits _ _ (h k))

-- On a bitmap of 32 words, freeing the page that `malloc` returned restores the bitmap as it was.
pub free-malloc :
    (s : Bitmap) → length s ≡ 32 → (malloc s).0 ≢ 0 → free (malloc s).1 (malloc s).0 ≡ some s
free-malloc s n h = elim (malloc_cases s) [
  | inl full ↦ absurd (h (ap (λ (r : ℕ × Bitmap). r.0) full.null))
  | inr (i, j, r) ↦ restored i j r
]
  where
    restored : (i j : ℕ) → Allocates s i j (malloc s) → free (malloc s).1 (malloc s).0 ≡ some s
    restored i j r =
        let freed =
          free-page_address (malloc s).1 i j (omega (arith, r.size)) (omega (arith, r.in_range))
            (omega (arith, r.in_range)) in
        let same : freed.0 ≡ s =
          Bitmap_ext freed.0 s (omega (arith, freed.2, r.size))
            (λ k l. ground (arith, freed.3 k l, r.effect k l, r.was_free)) in
        rw (r.address, freed.1, same)
