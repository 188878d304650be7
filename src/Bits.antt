-- ===== src/Bits.antt =====
-- The bits of a word, and what `&`, `|` and `^` do to each of them. The kernel's bitmaps
-- (kernel/memory/physical.c, kernel/interrupt/syscall.c) are read through these laws.
pub mod Digits
pub mod Masks
use Digits.{bit_and_step, bit_or_step, bit_xor_step}
use native.Mathlib.Nat.{pow-suc, one-le-pow}
use semester_5_coursework.Prelude.{
  true, false, ℕ, zero, suc, ◌+◌, ◌-◌, ◌*◌, ◌/◌, ◌%◌, ◌^◌, ◌≤◌, ◌<◌, min, max, bit_and, bit_or,
  bit_xor, ◌≡◌, refl, ap, ◌∙◌, ◌≢◌, ◌↔◌, arith, ◌==◌, if◌then◌else◌,
}

-- The bit of a word at a position, as 0 or 1.
unfoldable pub bit : ℕ → ℕ → ℕ
bit w zero = w % 2
bit w (suc i) = bit (w / 2) i

pub bit-lt-two : (w i : ℕ) → bit w i < 2
unfolding bit
bit-lt-two w zero = omega arith
bit-lt-two w (suc i) = bit-lt-two (w / 2) i

pub bit_of_zero : (i : ℕ) → bit 0 i ≡ 0
unfolding bit
bit_of_zero zero = refl
bit_of_zero (suc i) = bit_of_zero i

pub bit-bit_and : (a b i : ℕ) → bit (bit_and a b) i ≡ min (bit a i) (bit b i)
unfolding bit
bit-bit_and a b zero = omega (arith, bit_and_step a b)
bit-bit_and a b (suc i) =
    let half : bit_and a b / 2 ≡ bit_and (a / 2) (b / 2) = omega (arith, bit_and_step a b) in
    rw half (bit-bit_and (a / 2) (b / 2) i)

pub bit-bit_or : (a b i : ℕ) → bit (bit_or a b) i ≡ max (bit a i) (bit b i)
unfolding bit
bit-bit_or a b zero = omega (arith, bit_or_step a b)
bit-bit_or a b (suc i) =
    let half : bit_or a b / 2 ≡ bit_or (a / 2) (b / 2) = omega (arith, bit_or_step a b) in
    rw half (bit-bit_or (a / 2) (b / 2) i)

pub bit-bit_xor : (a b i : ℕ) → bit (bit_xor a b) i ≡ (bit a i + bit b i) % 2
unfolding bit
bit-bit_xor a b zero = omega (arith, bit_xor_step a b)
bit-bit_xor a b (suc i) =
    let half : bit_xor a b / 2 ≡ bit_xor (a / 2) (b / 2) = omega (arith, bit_xor_step a b) in
    rw half (bit-bit_xor (a / 2) (b / 2) i)

-- `1U << j` has the bit `j` and no other.
pub bit-pow : (j i : ℕ) → bit (2 ^ j) i ≡ (if j == i then 1 else 0)
unfolding bit
bit-pow zero zero = refl
bit-pow zero (suc i) = ground (arith, bit_of_zero i)
bit-pow (suc j) zero = ground (arith, pow-suc 2 j)
bit-pow (suc j) (suc i) =
    let half : 2 ^ suc j / 2 ≡ 2 ^ j = omega (arith, pow-suc 2 j) in
    rw half (ground (arith, bit-pow j i))

-- Words of the same bits are equal.
eq_of_bits_below : (n a b : ℕ) → a ≤ n → b ≤ n → ((i : ℕ) → bit a i ≡ bit b i) → a ≡ b
unfolding bit
eq_of_bits_below zero a b p q h = omega arith
eq_of_bits_below (suc n) zero zero p q h = refl
eq_of_bits_below (suc n) zero (suc b) p q h =
    omega
      (arith, h 0, eq_of_bits_below n 0 (suc b / 2) (omega arith) (omega arith) (λ i. h (suc i)))
eq_of_bits_below (suc n) (suc a) b p q h = omega (
  arith,
  h 0,
  eq_of_bits_below n (suc a / 2) (b / 2) (omega arith) (omega arith) (λ i. h (suc i)),
)

pub eq_of_bits : (a b : ℕ) → ((i : ℕ) → bit a i ≡ bit b i) → a ≡ b
eq_of_bits a b h = eq_of_bits_below (a + b) a b (omega arith) (omega arith) h

bit_and-zero : (w : ℕ) → bit_and w 0 ≡ 0
bit_and-zero w = eq_of_bits _ _ λ i. omega (arith, bit-bit_and w 0 i, bit_of_zero i)

-- The test `0 == (w & (1U << j))` reads the bit `j`.
pub bit_and-pow : (w j : ℕ) → bit_and w (2 ^ j) ≡ bit w j * 2 ^ j
unfolding bit
bit_and-pow w zero = omega (arith, bit_and_step w 1, bit_and-zero (w / 2))
bit_and-pow w (suc j) =
    let half : 2 ^ suc j / 2 ≡ 2 ^ j = omega (arith, pow-suc 2 j) in
    omega (
      arith,
      bit_and_step w (2 ^ suc j),
      ap (bit_and (w / 2)) half,
      bit_and-pow (w / 2) j,
      pow-suc 2 j,
      ap (λ (t : ℕ). bit (w / 2) j * t) (pow-suc 2 j),
    )

pub bit_clear_iff : (w j : ℕ) → (bit_and w (2 ^ j) ≡ 0) ↔ (bit w j ≡ 0)
bit_clear_iff w j = (
  λ e. grind (arith, bit_and-pow w j, one-le-pow j 2),
  λ e. rw (bit_and-pow w j, e) (omega arith),
)

-- `w |= 1U << j` sets the bit `j`, `w ^= 1U << j` flips it, and the others stay.
pub bit-set : (w j i : ℕ) → bit (bit_or w (2 ^ j)) i ≡ (if j == i then 1 else bit w i)
bit-set w j i = ground (arith, bit-bit_or w (2 ^ j) i, bit-pow j i, bit-lt-two w i)

pub bit-flip : (w j i : ℕ) → bit (bit_xor w (2 ^ j)) i ≡ (if j == i then 1 - bit w i else bit w i)
bit-flip w j i = ground (arith, bit-bit_xor w (2 ^ j) i, bit-pow j i, bit-lt-two w i)

-- `w &= ~(1U << j)` on 32 bits clears the bit `j`.
abbrev pub complement32 : ℕ → ℕ
complement32 m = bit_xor m 0xffff_ffff

bit_of_ones : (n i : ℕ) → i < n → bit (2 ^ n - 1) i ≡ 1
unfolding bit
bit_of_ones zero i h = elim h [ ]
bit_of_ones (suc n) zero h = omega (arith, pow-suc 2 n, one-le-pow n 2)
bit_of_ones (suc n) (suc i) h =
    let half : (2 ^ suc n - 1) / 2 ≡ 2 ^ n - 1 = omega (arith, pow-suc 2 n, one-le-pow n 2) in
    rw half (bit_of_ones n i (omega arith))

pub bit-clear :
    (w j i : ℕ)
    → i < 32
    → bit (bit_and w (complement32 (2 ^ j))) i ≡ (if j == i then 0 else bit w i)
bit-clear w j i h = ground (
  arith,
  bit-bit_and w (complement32 (2 ^ j)) i,
  bit-bit_xor (2 ^ j) 0xffff_ffff i,
  bit_of_ones 32 i h,
  bit-pow j i,
  bit-lt-two w i,
)

-- A word of `n` bits has no bit from `n` on, and conversely.
pub bit-high : (w n i : ℕ) → w < 2 ^ n → n ≤ i → bit w i ≡ 0
unfolding bit
bit-high w zero i h p = let z : w ≡ 0 = omega (arith, h) in rw z (bit_of_zero i)
bit-high w (suc n) zero h p = elim p [ ]
bit-high w (suc n) (suc i) h p = bit-high (w / 2) n i (omega (arith, h, pow-suc 2 n)) (omega arith)

pub lt-pow_of_bits : (n w : ℕ) → ((i : ℕ) → n ≤ i → bit w i ≡ 0) → w < 2 ^ n
unfolding bit
lt-pow_of_bits zero w h =
    let z : w ≡ 0 = eq_of_bits w 0 (λ i. omega (arith, h i (omega arith), bit_of_zero i)) in
    rw z (omega arith)
lt-pow_of_bits (suc n) w h =
    omega (arith, lt-pow_of_bits n (w / 2) (λ i p. h (suc i) (omega arith)), pow-suc 2 n)

pub bit_or-lt : (a b n : ℕ) → a < 2 ^ n → b < 2 ^ n → bit_or a b < 2 ^ n
bit_or-lt a b n p q =
    lt-pow_of_bits n (bit_or a b)
      (λ i h. omega (arith, bit-bit_or a b i, bit-high a n i p h, bit-high b n i q h))

pub bit_and-lt : (a b n : ℕ) → a < 2 ^ n → bit_and a b < 2 ^ n
bit_and-lt a b n p =
    lt-pow_of_bits n (bit_and a b) (λ i h. omega (arith, bit-bit_and a b i, bit-high a n i p h))

pub pow-lt : (i n : ℕ) → i < n → 2 ^ i < 2 ^ n
pow-lt i n h = lt-pow_of_bits n (2 ^ i) (λ k p. ground (arith, bit-pow i k))

-- The code's tests of one bit, as statements about the bit.
pub test-clear : (w j : ℕ) → (bit_and w (2 ^ j) == 0) ≡ true → bit w j ≡ 0
test-clear w j e = (bit_clear_iff w j).0 (ground arith)

pub test-set : (w j : ℕ) → (bit_and w (2 ^ j) == 0) ≡ false → bit w j ≡ 1
test-set w j e =
    let ne : bit w j ≡ 0 → ⊥ = λ z. ground (arith, (bit_clear_iff w j).1 z) in
    grind (arith, ne, bit-lt-two w j)
