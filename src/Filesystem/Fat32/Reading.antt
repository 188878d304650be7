-- ===== src/Filesystem/Fat32/Reading.antt =====
-- Reading an open file piece by piece.
use native.Mathlib.Decide.{dec_lt}
use semester_5_coursework.Prelude.{
  take-all, length-take, ◌∙◌, ◌%◌, true, length-drop, leb, if◌then◌else◌, false, ap, ◌-◌, arith,
  Option, ◌==◌, Bool-cases, drop, ◌≤◌, ◌+◌, take, ◌^◌, ◌<◌, length, ◌≡◌, ℕ, List, refl, some, inl,
  inr,
}
use semester_5_coursework.Filesystem.Fat32.{with_bytes, File, read_file, slice, greater}

-- A file as `open` and `read` leave it: the position is inside.
pub record IsOpen (f : File) : Type 0 where
  pub size : f.size ≡ length f.buffer
  pub small : f.size < 2 ^ 31
  pub pos : f.pos ≤ f.size

pub slice-within :
    (buffer : List ℕ) (pos count : ℕ)
    → count < 2 ^ 31
    → pos + count ≤ length buffer
    → slice buffer pos count ≡ some (take count (drop pos buffer))
slice-within buffer pos count small within = elim (Bool-cases (count == 0)) [
  | inl z ↦ let empty : count ≡ 0 = ground arith in rw empty refl
  | inr nz ↦
      let nonneg : leb (2 ^ 31) count ≡ false = ground arith in
      let inside : leb (pos + count) (length buffer) ≡ true = ground arith in
      rw (nonneg, nz, inside) refl
]

-- What `read_file` does, once the difference that it computes is known.
read_file-branch : ℕ → ℕ → File → Option (ℕ × List ℕ × File)
read_file-branch len n f =
    if greater n len
    then with_bytes len f.size f (slice f.buffer f.pos len)
    else with_bytes n ((f.pos + n) % 2 ^ 32) f (slice f.buffer f.pos n)

read_file-more :
    (n : ℕ) (f : File)
    → n < 2 ^ 31
    → IsOpen f
    → f.size - f.pos < n
    → read_file-branch (f.size - f.pos) n f
      ≡ some (f.size - f.pos, drop f.pos f.buffer, record f { pos = f.size })
unfolding read_file-branch
read_file-more n f h v more =
    let r = f.size - f.pos in
    let bytes = drop f.pos f.buffer in
    let yes_more : greater n r ≡ true = ground (arith, v.pos, v.small) in
    let left = length-drop f.pos f.buffer in
    let piece : slice f.buffer f.pos r ≡ some bytes =
      slice-within f.buffer f.pos r (omega (arith, v.small)) (omega (arith, v.size, v.pos))
      ∙ ap some (take-all r bytes (omega (arith, v.size, left))) in
    rw (yes_more, piece) refl

read_file-less :
    (n : ℕ) (f : File)
    → n < 2 ^ 31
    → IsOpen f
    → n ≤ f.size - f.pos
    → read_file-branch (f.size - f.pos) n f
      ≡ some (n, take n (drop f.pos f.buffer), record f { pos = f.pos + n })
unfolding read_file-branch
read_file-less n f h v less =
    let r = f.size - f.pos in
    let no_more : greater n r ≡ false = ground (arith, v.pos, v.small) in
    let next : (f.pos + n) % 2 ^ 32 ≡ f.pos + n = omega (arith, v.pos, v.small) in
    let piece = slice-within f.buffer f.pos n h (omega (arith, v.size, v.pos)) in
    rw (no_more, piece, next) refl

-- A read of `n` bytes from an open file returns the bytes from the position on, as many as there
-- are up to `n`, and moves the position behind them.
pub read_file-IsOpen :
    (n : ℕ) (f : File)
    → n < 2 ^ 31
    → IsOpen f
    → let bytes = take n (drop f.pos f.buffer) in
      (read_file n f ≡ some (length bytes, bytes, record f { pos = f.pos + length bytes }))
      × IsOpen (record f { pos = f.pos + length bytes })
unfolding read_file read_file-branch
read_file-IsOpen n f h v =
    let r = f.size - f.pos in
    let bytes = take n (drop f.pos f.buffer) in
    let left = length-drop f.pos f.buffer in
    let len : (f.size + 2 ^ 32 - f.pos) % 2 ^ 32 ≡ r = omega (arith, v.pos, v.small) in
    let start : read_file n f ≡ read_file-branch r n f =
      ap (λ (l : ℕ). read_file-branch l n f) len in
    elim (dec_lt r n) [
      | yes more ↦
          let all : bytes ≡ drop f.pos f.buffer =
            take-all n (drop f.pos f.buffer) (omega (arith, v.size, left)) in
          let count : length bytes ≡ r = ap length all ∙ left ∙ omega (arith, v.size) in
          let end : f.pos + length bytes ≡ f.size = omega (arith, count, v.pos) in
          (
            start ∙ read_file-more n f h v more ∙ rw (end, count, all) refl,
            record { size = v.size; small = v.small; pos = omega (arith, end) },
          )
      | no less ↦
          let count : length bytes ≡ n =
            length-take n (drop f.pos f.buffer) ∙ ground (arith, v.size, left) in
          (
            start ∙ read_file-less n f h v (omega arith) ∙ rw count refl,
            record { size = v.size; small = v.small; pos = omega (arith, count, v.pos) },
          )
    ]
