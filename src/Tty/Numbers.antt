-- ===== src/Tty/Numbers.antt =====
-- `sitoa` and `sxtoa` print the number that they are given, and what they print fits the buffers.
use Prim.Native.Nat.{zero}
use native.Mathlib.Nat.{pow-suc}
use semester_5_coursework.Prelude.{
  ◌∙◌, false, ◌++◌, ap, ◌≢◌, true, inr, arith, ◌%◌, inl, ◌==◌, ◌/◌, Bool-cases, length, some, ◌≡◌,
  suc, ◌⊎◌, ◌^◌, ◌-◌, ◌+◌, ◌≤◌, ◌<◌, ◌*◌, ltb, if◌then◌else◌, List, refl, ℕ, [], ◌∷◌,
}
use semester_5_coursework.Tty.{
  with_minus, with_prefix, sitoa, sxtoa, push_decimal, push_hex, hex_digit,
}

-- The number that a run of digits stands for, continuing from what has been read.
abbrev pub read_decimal : ℕ → List ℕ → ℕ
read_decimal acc [] = acc
read_decimal acc (c ∷ cs) = read_decimal (acc * 10 + (c - 48)) cs

abbrev pub hex_value : ℕ → ℕ
hex_value c = if ltb c 58 then c - 48 else c - 55

abbrev pub read_hex : ℕ → List ℕ → ℕ
read_hex acc [] = acc
read_hex acc (c ∷ cs) = read_hex (acc * 16 + hex_value c) cs

-- A decimal digit; an upper-case hexadecimal one.
abbrev pub IsDecimal : List ℕ → Type 0
IsDecimal [] = Unit
IsDecimal (c ∷ cs) = (48 ≤ c) × (c ≤ 57) × IsDecimal cs

abbrev pub IsHex : List ℕ → Type 0
IsHex [] = Unit
IsHex (c ∷ cs) = ((48 ≤ c) × (c ≤ 57) ⊎ (65 ≤ c) × (c ≤ 70)) × IsHex cs

-- `push_decimal` succeeds within its rounds, and puts the digits of the number on the stack.
push_decimal-total :
    (n digit : ℕ) (stack : List ℕ)
    → digit < 10 ^ suc n
    → IsDecimal stack
    → (out : List ℕ) × (push_decimal (suc n) digit stack ≡ some out)
      × (read_decimal 0 out ≡ read_decimal digit stack)
      × IsDecimal out
      × (length out ≤ length stack + suc n)
unfolding push_decimal
push_decimal-total zero digit stack h d =
    let z : (digit / 10 == 0) ≡ true = ground arith in
    (
      (48 + digit % 10) ∷ stack,
      rw z,
      ap (λ (a : ℕ). read_decimal a stack) (omega arith),
      (omega arith, omega arith, d),
      omega arith,
    )
push_decimal-total (suc n) digit stack h d = elim (Bool-cases (digit / 10 == 0)) [
  | inl z ↦ (
    (48 + digit % 10) ∷ stack,
    rw z,
    ap (λ (a : ℕ). read_decimal a stack) (ground arith),
    (omega arith, omega arith, d),
    omega arith,
  )
  | inr nz ↦
      let rest =
        push_decimal-total n (digit / 10) ((48 + digit % 10) ∷ stack)
          (omega (arith, h, pow-suc 10 (suc n))) (omega arith, omega arith, d) in
      (
        rest.0,
        rw nz rest.1,
        rest.2 ∙ ap (λ (a : ℕ). read_decimal a stack) (omega arith),
        rest.3,
        omega (arith, rest.4),
      )
]

hex_digit-value :
    (d : ℕ)
    → d < 16
    → (hex_value (hex_digit d) ≡ d)
      × ((48 ≤ hex_digit d) × (hex_digit d ≤ 57) ⊎ (65 ≤ hex_digit d) × (hex_digit d ≤ 70))
hex_digit-value d h = ground arith

push_hex-total :
    (n hex : ℕ) (stack : List ℕ)
    → hex < 16 ^ suc n
    → IsHex stack
    → (out : List ℕ) × (push_hex (suc n) hex stack ≡ some out)
      × (read_hex 0 out ≡ read_hex hex stack)
      × IsHex out
      × (length out ≤ length stack + suc n)
unfolding push_hex
push_hex-total zero hex stack h d =
    let z : (hex / 16 == 0) ≡ true = ground arith in
    let digit = hex_digit-value (hex % 16) (omega arith) in
    (
      hex_digit (hex % 16) ∷ stack,
      rw z,
      ap (λ (a : ℕ). read_hex a stack) (omega (arith, digit.0)),
      (digit.1, d),
      omega arith,
    )
push_hex-total (suc n) hex stack h d =
    let digit = hex_digit-value (hex % 16) (omega arith) in
    elim (Bool-cases (hex / 16 == 0)) [
      | inl z ↦ (
        hex_digit (hex % 16) ∷ stack,
        rw z,
        ap (λ (a : ℕ). read_hex a stack) (ground (arith, digit.0)),
        (digit.1, d),
        omega arith,
      )
      | inr nz ↦
          let rest =
            push_hex-total n (hex / 16) (hex_digit (hex % 16) ∷ stack)
              (omega (arith, h, pow-suc 16 (suc n))) (digit.1, d) in
          (
            rest.0,
            rw nz rest.1,
            rest.2 ∙ ap (λ (a : ℕ). read_hex a stack) (omega (arith, digit.0)),
            rest.3,
            omega (arith, rest.4),
          )
    ]

-- `sitoa` of a nonnegative `int` prints its decimal digits, at most ten; of a negative one but the
-- least a minus sign and the digits of its absolute value. The 16 bytes of the buffer hold them with
-- their NUL.
pub sitoa_reads :
    (w : ℕ)
    → w < 2 ^ 32
    → w ≢ 2 ^ 31
    → (sign : List ℕ) × (digits : List ℕ) × (sitoa w ≡ some (sign ++ digits))
      × (sign ≡ (if ltb w (2 ^ 31) then [] else 45 ∷ []))
      × (read_decimal 0 digits ≡ (if ltb w (2 ^ 31) then w else 2 ^ 32 - w))
      × IsDecimal digits
      × (length (sign ++ digits) < 16)
unfolding sitoa
sitoa_reads w h ne = elim (Bool-cases (ltb w (2 ^ 31))) [
  | inl pos ↦
      let out = push_decimal-total 9 w [] (omega arith) tt in
      rw pos ([], out.0, out.1, refl, out.2, out.3, omega (arith, out.4))
  | inr neg ↦
      let out = push_decimal-total 9 (2 ^ 32 - w) [] (omega arith) tt in
      let least : (w == 2 ^ 31) ≡ false = ground arith in
      rw neg
        (45 ∷ [], out.0, rw least (ap with_minus out.1), refl, out.2, out.3, omega (arith, out.4))
]

-- `sxtoa` prints `0x` and the hexadecimal digits of the number, at most eight.
pub sxtoa_reads :
    (w : ℕ)
    → w < 2 ^ 32
    → (digits : List ℕ) × (sxtoa w ≡ some (48 ∷ 120 ∷ digits))
      × (read_hex 0 digits ≡ w)
      × IsHex digits
      × (length digits ≤ 8)
unfolding sxtoa
sxtoa_reads w h =
    let out = push_hex-total 7 w [] (omega arith) tt in
    (out.0, ap with_prefix out.1, out.2, out.3, omega (arith, out.4))
