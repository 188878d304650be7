-- ===== src/Memory/Physical/Find.antt =====
-- What the two loops of `malloc` find: the first clear bit, if there is one.
use semester_5_coursework.Prelude.{
  ℕ, zero, suc, ◌+◌, ◌-◌, ◌*◌, ◌≤◌, ◌<◌, ◌^◌, ◌≡◌, inl, inr, none, some, [], ◌∷◌, arith, ◌==◌,
  Bool-cases, Option-cases, length, get_or, bit_and,
}
use semester_5_coursework.Bits.{test-clear, test-set, bit}
use semester_5_coursework.Memory.Physical.{Bitmap, find_bit, find_free}

find_bit-none : (n w a j : ℕ) → find_bit n w a ≡ none → a ≤ j → j < a + n → bit w j ≡ 1
unfolding find_bit
find_bit-none zero w a j e p q = absurd (omega arith)
find_bit-none (suc n) w a j e p q = elim (Bool-cases (bit_and w (2 ^ a) == 0)) [
  | inl clear ↦ cc (rw clear at e)
  | inr taken ↦ ground (arith, find_bit-none n w (a + 1) j, test-set w a taken)
]

find_bit-some : (n w a j : ℕ) → find_bit n w a ≡ some j → (bit w j ≡ 0) × (a ≤ j) × (j < a + n)
unfolding find_bit
find_bit-some zero w a j e = cc
find_bit-some (suc n) w a j e = elim (Bool-cases (bit_and w (2 ^ a) == 0)) [
  | inl clear ↦ ground (arith, test-clear w a clear)
  | inr taken ↦ ground (arith, find_bit-some n w (a + 1) j)
]

find_bit-first : (n w a j k : ℕ) → find_bit n w a ≡ some j → a ≤ k → k < j → bit w k ≡ 1
unfolding find_bit
find_bit-first zero w a j k e p q = cc
find_bit-first (suc n) w a j k e p q = elim (Bool-cases (bit_and w (2 ^ a) == 0)) [
  | inl clear ↦ absurd (ground arith)
  | inr taken ↦ ground (arith, find_bit-first n w (a + 1) j k, test-set w a taken)
]

pub find_free-none :
    (s : Bitmap) (a i j : ℕ)
    → find_free s a ≡ none
    → i < length s
    → j < 32
    → bit (get_or s i 0) j ≡ 1
unfolding find_free
find_free-none [] a i j e p q = absurd (omega arith)
find_free-none (w ∷ s) a zero j e p q = elim (Option-cases (find_bit 32 w 0)) [
  | inl n ↦ find_bit-none 32 w 0 j n (omega arith) (omega arith)
  | inr (b, f) ↦ cc (rw (f, find_free) at e)
]
find_free-none (w ∷ s) a (suc i) j e p q = elim (Option-cases (find_bit 32 w 0)) [
  | inl n ↦ find_free-none s (a + 1) i j (rw (n, find_free) at e) (omega arith) q
  | inr (b, f) ↦ cc (rw (f, find_free) at e)
]

pub find_free-some :
    (s : Bitmap) (a i j : ℕ)
    → find_free s a ≡ some (i, j)
    → (bit (get_or s (i - a) 0) j ≡ 0) × (a ≤ i) × (i < a + length s) × (j < 32)
unfolding find_free
find_free-some [] a i j e = cc
find_free-some (w ∷ s) a i j e = elim (Option-cases (find_bit 32 w 0)) [
  | inl n ↦
      let tail = find_free-some s (a + 1) i j (rw (n, find_free) at e) in
      let index : i - a ≡ suc (i - (a + 1)) = omega (arith, tail) in rw index (ground (arith, tail))
  | inr (b, f) ↦ ground (arith, find_bit-some 32 w 0 b)
]

pub find_free-first :
    (s : Bitmap) (a i j k l : ℕ)
    → find_free s a ≡ some (i, j)
    → k < length s
    → l < 32
    → 32 * (a + k) + l < 32 * i + j
    → bit (get_or s k 0) l ≡ 1
unfolding find_free
find_free-first [] a i j k l e p q r = cc
find_free-first (w ∷ s) a i j zero l e p q r = elim (Option-cases (find_bit 32 w 0)) [
  | inl n ↦ find_bit-none 32 w 0 l n (omega arith) (omega arith)
  | inr (b, f) ↦ ground (arith, find_bit-first 32 w 0 b l f)
]
find_free-first (w ∷ s) a i j (suc k) l e p q r = elim (Option-cases (find_bit 32 w 0)) [
  | inl n ↦ find_free-first s (a + 1) i j k l (rw (n, find_free) at e) (omega arith) q (omega arith)
  | inr (b, f) ↦ absurd (ground (arith, find_bit-some 32 w 0 b f))
]
