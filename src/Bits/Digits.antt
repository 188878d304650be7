-- ===== src/Bits/Digits.antt =====
-- The native bit operations, digit by digit: one equation for the lowest digit of each.
use Prim.Native.Nat.{digits, bitwise, differ, bit_and-bitwise, bit_or-bitwise, bit_xor-bitwise}
use semester_5_coursework.Prelude.{
  ℕ, zero, suc, ◌+◌, ◌*◌, ◌/◌, ◌%◌, ◌≤◌, ◌<◌, min, max, bit_and, bit_or, bit_xor, ◌≡◌, refl, sym,
  ◌∙◌, arith,
}

-- `digits` runs on fuel, and the first word is enough of it: more changes nothing.
module _ (rest : ℕ → ℕ) (f : ℕ → ℕ → ℕ) where
  at_zero : (k b : ℕ) → digits rest f k zero b ≡ rest b
  at_zero zero b = refl
  at_zero (suc k) b = refl

  spare_fuel : (k l a b : ℕ) → a ≤ k → a ≤ l → digits rest f k a b ≡ digits rest f l a b
  spare_fuel k l zero b p q = at_zero k b ∙ sym (at_zero l b)
  spare_fuel zero l (suc a) b p q = elim p [ ]
  spare_fuel (suc k) zero (suc a) b p q = elim q [ ]
  spare_fuel (suc k) (suc l) (suc a) b p q =
      rw (spare_fuel k l (suc a / 2) (b / 2) (omega arith) (omega arith))

  bitwise_step :
      (a b : ℕ)
      → 0 < a
      → bitwise rest f a b ≡ bitwise rest f (a / 2) (b / 2) * 2 + f (a % 2) (b % 2)
  bitwise_step zero b p = elim p [ ]
  bitwise_step (suc a) b p =
      rw (spare_fuel a (suc a / 2) (suc a / 2) (b / 2) (omega arith) (omega arith))

pub bit_and_step : (v w : ℕ) → bit_and v w ≡ bit_and (v / 2) (w / 2) * 2 + min (v % 2) (w % 2)
bit_and_step zero w = simp bit_and-bitwise (omega arith)
bit_and_step (suc v) w = simp bit_and-bitwise (bitwise_step (λ z. 0) min (suc v) w (omega arith))

pub bit_or_step : (v w : ℕ) → bit_or v w ≡ bit_or (v / 2) (w / 2) * 2 + max (v % 2) (w % 2)
bit_or_step zero w = simp bit_or-bitwise (omega arith)
bit_or_step (suc v) w = simp bit_or-bitwise (bitwise_step (λ z. z) max (suc v) w (omega arith))

differ_bits : (x y : ℕ) → x < 2 → y < 2 → differ x y ≡ (x + y) % 2
differ_bits zero zero p q = refl
differ_bits zero (suc zero) p q = refl
differ_bits (suc zero) zero p q = refl
differ_bits (suc zero) (suc zero) p q = refl
differ_bits x y p q = absurd (omega arith)

pub bit_xor_step : (v w : ℕ) → bit_xor v w ≡ bit_xor (v / 2) (w / 2) * 2 + (v % 2 + w % 2) % 2
bit_xor_step zero w = simp bit_xor-bitwise (omega arith)
bit_xor_step (suc v) w = simp bit_xor-bitwise (
    omega (
      arith,
      bitwise_step (λ z. z) differ (suc v) w (omega arith),
      differ_bits (suc v % 2) (w % 2) (omega arith) (omega arith),
    ))
