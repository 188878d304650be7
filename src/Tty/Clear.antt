-- ===== src/Tty/Clear.antt =====
-- What `init` clears.
use Prim.Native.Nat.{zero}
use semester_5_coursework.Prelude.{
  sym, ap, get_or-replicate, ◌∙◌, length-replicate, suc, replicate, arith, ◌+◌, ◌++◌, length, drop,
  ◌≡◌, ◌<◌, get_or, ℕ, List, refl, [], ◌∷◌,
}
use semester_5_coursework.Tty.{Tty, init}

get_or-append_left :
    (xs ys : List ℕ) (i d : ℕ) → i < length xs → get_or (xs ++ ys) i d ≡ get_or xs i d
get_or-append_left [] ys i d h = absurd (omega arith)
get_or-append_left (x ∷ xs) ys zero d h = refl
get_or-append_left (x ∷ xs) ys (suc i) d h = get_or-append_left xs ys i d (omega arith)

get_or-tail : (n m x : ℕ) (xs : List ℕ) (d : ℕ) → m ≡ suc n → get_or (x ∷ xs) m d ≡ get_or xs n d
get_or-tail n m x xs d h = ap (λ (j : ℕ). get_or (x ∷ xs) j d) h

get_or-append_right :
    (xs ys : List ℕ) (i d : ℕ) → get_or (xs ++ ys) (length xs + i) d ≡ get_or ys i d
get_or-append_right [] ys i d = ap (λ (j : ℕ). get_or ys j d) (omega arith)
get_or-append_right (x ∷ xs) ys i d =
    get_or-tail (length xs + i) (suc (length xs) + i) x (xs ++ ys) d (omega arith)
    ∙ get_or-append_right xs ys i d

get_or-drop : (n : ℕ) (xs : List ℕ) (i d : ℕ) → get_or (drop n xs) i d ≡ get_or xs (n + i) d
get_or-drop zero xs i d = ap (λ (j : ℕ). get_or xs j d) (omega arith)
get_or-drop (suc n) [] i d = refl
get_or-drop (suc n) (x ∷ xs) i d =
    get_or-drop n xs i d ∙ sym (get_or-tail (n + i) (suc n + i) x xs d (omega arith))

-- `init` puts the cursor in the first cell and clears the upper half of the screen, its first 1000
-- cells; every other cell keeps what was shown.
pub init-cells :
    (t : Tty) (i : ℕ)
    → ((init t).row ≡ 0)
      × ((init t).col ≡ 0)
      × (i < 1000 → get_or (init t).cells i 0 ≡ 0)
      × (get_or (init t).cells (1000 + i) 0 ≡ get_or t.cells (1000 + i) 0)
unfolding init
init-cells t i = (
  refl,
  refl,
  λ h.
      get_or-append_left (replicate 1000 0) (drop 1000 t.cells) i 0
        (omega (arith, length-replicate {A = ℕ} 1000 0))
      ∙ get_or-replicate 1000 i 0,
  ap (λ (j : ℕ). get_or (init t).cells (j + i) 0) (sym (length-replicate {A = ℕ} 1000 0))
      ∙ get_or-append_right (replicate 1000 0) (drop 1000 t.cells) i 0
      ∙ get_or-drop 1000 t.cells i 0,
)
