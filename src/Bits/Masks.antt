-- ===== src/Bits/Masks.antt =====
-- Words in two parts: a quotient and a remainder by a power of two, for masks, shifts and disjoint
-- unions of bits.
use native.Mathlib.Nat.{one-le-pow, pow-suc}
use semester_5_coursework.Prelude.{
  min, ap₂, ◌∙◌, max, ◌%◌, ◌/◌, ap, arith, ◌-◌, ◌+◌, ◌≡◌, bit_or, bit_and, ◌^◌, ◌<◌, ◌*◌, ℕ, zero,
  suc,
}
use semester_5_coursework.Bits.{bit-bit_or, bit-bit_and, bit_of_zero, eq_of_bits}
use semester_5_coursework.Bits.Digits.{bit_or_step, bit_and_step}

-- A product with the next power of two.
times-pow-suc : (q n : ℕ) → q * 2 ^ suc n ≡ (q * 2 ^ n) * 2
times-pow-suc q n = grind (arith, pow-suc 2 n)

or-zero : (a : ℕ) → bit_or a 0 ≡ a
or-zero a =
    eq_of_bits (bit_or a 0) a
      (λ i. let zeros = bit_of_zero i in bit-bit_or a 0 i ∙ ground (arith, zeros))

and-zero : (a : ℕ) → bit_and a 0 ≡ 0
and-zero a =
    eq_of_bits (bit_and a 0) 0
      (λ i. let zeros = bit_of_zero i in bit-bit_and a 0 i ∙ ground (arith, zeros))

-- Where the first word has no low bits, those of the second are kept.
pub or-split :
    (n a q r : ℕ) → r < 2 ^ n → bit_or (a * 2 ^ n) (q * 2 ^ n + r) ≡ bit_or a q * 2 ^ n + r
or-split zero a q r h =
    let same : a * 2 ^ 0 ≡ a = omega arith in
    let other : q * 2 ^ 0 + r ≡ q = omega arith in ap₂ bit_or same other ∙ omega arith
or-split (suc n) a q r h =
    let p = pow-suc 2 n in
    let t = times-pow-suc a n in
    let u = times-pow-suc q n in
    let v = times-pow-suc (bit_or a q) n in
    let y = q * 2 ^ suc n + r in
    let half : a * 2 ^ suc n / 2 ≡ a * 2 ^ n = omega (arith, t) in
    let other : y / 2 ≡ q * 2 ^ n + r / 2 = omega (arith, u) in
    let low : max (a * 2 ^ suc n % 2) (y % 2) ≡ r % 2 = ground (arith, t, u) in
    let high : bit_or (a * 2 ^ suc n / 2) (y / 2) ≡ bit_or a q * 2 ^ n + r / 2 =
      ap₂ bit_or half other ∙ or-split n a q (r / 2) (omega (arith, p)) in
    omega (arith, v, bit_or_step (a * 2 ^ suc n) y, low, high)

-- The low bits go below the high ones.
pub or-below : (n a b : ℕ) → b < 2 ^ n → bit_or (a * 2 ^ n) b ≡ a * 2 ^ n + b
or-below n a b h =
    let low : b ≡ 0 * 2 ^ n + b = omega arith in
    ap (bit_or (a * 2 ^ n)) low ∙ or-split n a 0 b h ∙ ap (λ (x : ℕ). x * 2 ^ n + b) (or-zero a)

-- A mask of `n` ones keeps the remainder.
pub and-mask : (n q r : ℕ) → r < 2 ^ n → bit_and (q * 2 ^ n + r) (2 ^ n - 1) ≡ r
and-mask zero q r h = and-zero (q * 2 ^ 0 + r) ∙ omega arith
and-mask (suc n) q r h =
    let p = pow-suc 2 n in
    let one = one-le-pow n 2 in
    let t = times-pow-suc q n in
    let x = q * 2 ^ suc n + r in
    let half : x / 2 ≡ q * 2 ^ n + r / 2 = omega (arith, t) in
    let ones : (2 ^ suc n - 1) / 2 ≡ 2 ^ n - 1 = omega (arith, p, one) in
    let odd : (2 ^ suc n - 1) % 2 ≡ 1 = omega (arith, p, one) in
    let low : min (x % 2) ((2 ^ suc n - 1) % 2) ≡ r % 2 = ground (arith, t) in
    let high : bit_and (x / 2) ((2 ^ suc n - 1) / 2) ≡ r / 2 =
      ap₂ bit_and half ones ∙ and-mask n q (r / 2) (omega (arith, p)) in
    omega (arith, bit_and_step x (2 ^ suc n - 1), low, high)

-- A mask whose low `n` bits are clear drops the remainder.
pub and-above :
    (n q r m : ℕ) → r < 2 ^ n → bit_and (q * 2 ^ n + r) (m * 2 ^ n) ≡ bit_and q m * 2 ^ n
and-above zero q r m h =
    let same : q * 2 ^ 0 + r ≡ q = omega arith in
    let mask : m * 2 ^ 0 ≡ m = omega arith in ap₂ bit_and same mask ∙ omega arith
and-above (suc n) q r m h =
    let p = pow-suc 2 n in
    let t = times-pow-suc q n in
    let u = times-pow-suc m n in
    let v = times-pow-suc (bit_and q m) n in
    let x = q * 2 ^ suc n + r in
    let half : x / 2 ≡ q * 2 ^ n + r / 2 = omega (arith, t) in
    let mask : m * 2 ^ suc n / 2 ≡ m * 2 ^ n = omega (arith, u) in
    let low : min (x % 2) (m * 2 ^ suc n % 2) ≡ 0 = ground (arith, u) in
    let high : bit_and (x / 2) (m * 2 ^ suc n / 2) ≡ bit_and q m * 2 ^ n =
      ap₂ bit_and half mask ∙ and-above n q (r / 2) m (omega (arith, p)) in
    omega (arith, v, bit_and_step x (m * 2 ^ suc n), low, high)

pub or-ones : (n a : ℕ) → a < 2 ^ n → bit_or a (2 ^ n - 1) ≡ 2 ^ n - 1
or-ones zero a h = let none : a ≡ 0 = omega arith in ap (λ (x : ℕ). bit_or x 0) none
or-ones (suc n) a h =
    let p = pow-suc 2 n in
    let one = one-le-pow n 2 in
    let half : (2 ^ suc n - 1) / 2 ≡ 2 ^ n - 1 = omega (arith, p, one) in
    let odd : (2 ^ suc n - 1) % 2 ≡ 1 = omega (arith, p, one) in
    let low : max (a % 2) ((2 ^ suc n - 1) % 2) ≡ 1 = ground arith in
    let high : bit_or (a / 2) ((2 ^ suc n - 1) / 2) ≡ 2 ^ n - 1 =
      ap (λ (x : ℕ). bit_or (a / 2) x) half ∙ or-ones n (a / 2) (omega (arith, p)) in
    omega (arith, p, one, bit_or_step a (2 ^ suc n - 1), low, high)

-- The masks of the kernel: a nibble, a byte, the flags of a page and a half word.
pub and-nibble : (x : ℕ) → bit_and x 0xf ≡ x % 2 ^ 4
and-nibble x =
    let parts : x ≡ x / 2 ^ 4 * 2 ^ 4 + x % 2 ^ 4 = omega arith in
    ap (λ (y : ℕ). bit_and y 0xf) parts ∙ and-mask 4 (x / 2 ^ 4) (x % 2 ^ 4) (omega arith)

pub and-byte : (x : ℕ) → bit_and x 0xff ≡ x % 2 ^ 8
and-byte x =
    let parts : x ≡ x / 2 ^ 8 * 2 ^ 8 + x % 2 ^ 8 = omega arith in
    ap (λ (y : ℕ). bit_and y 0xff) parts ∙ and-mask 8 (x / 2 ^ 8) (x % 2 ^ 8) (omega arith)

pub and-page : (x : ℕ) → bit_and x 0xfff ≡ x % 2 ^ 12
and-page x =
    let parts : x ≡ x / 2 ^ 12 * 2 ^ 12 + x % 2 ^ 12 = omega arith in
    ap (λ (y : ℕ). bit_and y 0xfff) parts ∙ and-mask 12 (x / 2 ^ 12) (x % 2 ^ 12) (omega arith)

pub and-half : (x : ℕ) → bit_and x 0xffff ≡ x % 2 ^ 16
and-half x =
    let parts : x ≡ x / 2 ^ 16 * 2 ^ 16 + x % 2 ^ 16 = omega arith in
    ap (λ (y : ℕ). bit_and y 0xffff) parts ∙ and-mask 16 (x / 2 ^ 16) (x % 2 ^ 16) (omega arith)
