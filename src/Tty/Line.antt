-- ===== src/Tty/Line.antt =====
-- Printing text within a line.
use Prim.Native.Nat.{zero}
use semester_5_coursework.Prelude.{
  ◌∙◌, length-set, take-append-drop, sym, ap₂, ◌==◌, map, ap, ◌*◌, false, drop, arith, ◌+◌, ◌++◌,
  suc, set, leb, ◌≢◌, ◌≡◌, ◌<◌, take, length, ◌≤◌, ℕ, List, refl, [], ◌∷◌,
}
use semester_5_coursework.Tty.{width, height, cell, Tty, scroll, putchar, print}

-- Text of ordinary characters: no NUL, no line break, no carriage return.
abbrev pub IsText : List ℕ → Type 0
IsText [] = Unit
IsText (c ∷ cs) = (c ≢ 0) × (c ≢ 10) × (c ≢ 13) × IsText cs

-- `vs` written over `xs` from index `i` on.
abbrev pub overwrite : ℕ → List ℕ → List ℕ → List ℕ
overwrite i vs xs = take i xs ++ (vs ++ drop (length vs) (drop i xs))

overwrite-set :
    (i v : ℕ) (vs xs : List ℕ)
    → i < length xs
    → overwrite (suc i) vs (set xs i v) ≡ overwrite i (v ∷ vs) xs
overwrite-set i v vs [] h = absurd (omega arith)
overwrite-set zero v vs (x ∷ xs) h = refl
overwrite-set (suc i) v vs (x ∷ xs) h =
    ap (λ (l : List ℕ). x ∷ l) (overwrite-set i v vs xs (omega arith))

overwrite-nil : (i : ℕ) (t : Tty) → t ≡ record t { cells = overwrite i [] t.cells; col = t.col + 0 }
overwrite-nil i t =
    let c : t.cells ≡ overwrite i [] t.cells = sym (take-append-drop i t.cells) in
    let k : t.col ≡ t.col + 0 = omega arith in λ j. record t { cells = c j; col = k j }

scroll-within : (t : Tty) → t.row ≤ 23 → t.col ≤ 78 → scroll t ≡ t
unfolding scroll
scroll-within t r c =
    let a : leb width (t.col + 1) ≡ false = ground arith in
    let b : leb height (t.row + 1) ≡ false = ground arith in rw a (rw b refl)

putchar-within :
    (c : ℕ) (t : Tty)
    → t.row ≤ 23
    → t.col ≤ 78
    → c ≢ 0
    → c ≢ 10
    → c ≢ 13
    → putchar c t
      ≡ record t { cells = set t.cells (t.row * width + t.col) (cell t.color c); col = t.col + 1 }
unfolding putchar
putchar-within c t r k n0 n10 n13 =
    let a : (c == 10) ≡ false = ground arith in
    let b : (c == 13) ≡ false = ground arith in
    let z : (c == 0) ≡ false = ground arith in rw (scroll-within t r k) (rw a (rw b (rw z refl)))

-- Printing text that fits in the rest of a line above the last row writes the cells of the characters
-- in the color of the screen, one after the other from the cursor on, leaves the rest of the screen
-- as it is, and moves the cursor behind the text.
pub print-within :
    (cs : List ℕ) (t : Tty)
    → length t.cells ≡ 2000
    → t.row ≤ 23
    → t.col + length cs ≤ 79
    → IsText cs
    → print cs t ≡ record t {
      cells = overwrite (t.row * width + t.col) (map (cell t.color) cs) t.cells;
      col = t.col + length cs;
    }
unfolding print
print-within [] t n r k h = overwrite-nil (t.row * width + t.col) t
print-within (c ∷ cs) t n r k (n0, n10, n13, h) =
    let z : (c == 0) ≡ false = ground arith in
    let i = t.row * width + t.col in
    let step = putchar-within c t r (omega arith) n0 n10 n13 in
    let u : Tty = record t { cells = set t.cells i (cell t.color c); col = t.col + 1 } in
    let next : t.row * width + (t.col + 1) ≡ suc i = omega arith in
    let rest = print-within cs u (length-set t.cells i (cell t.color c) ∙ n) r (omega arith) h in
    rw z (
      rw step (
        rest
        ∙ ap₂ (λ (cells : List ℕ) (col : ℕ). record t { cells = cells; col = col })
            (ap (λ (j : ℕ). overwrite j (map (cell t.color) cs) u.cells) next
              ∙ overwrite-set i (cell t.color c) (map (cell t.color) cs) t.cells (omega arith))
            (omega arith)))
