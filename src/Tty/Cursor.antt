-- ===== src/Tty/Cursor.antt =====
-- The cursor stays on the screen, and no write is outside of it.
use semester_5_coursework.Prelude.{
  ◌∙◌, leb, ap, length-replicate, length-drop, length-append, replicate, inr, ◌++◌, length-set, inl,
  ◌≤◌, ◌==◌, ◌<◌, drop, ◌≡◌, ◌+◌, Bool-cases, ◌*◌, length, arith, List, refl, ℕ, [], ◌∷◌,
}
use semester_5_coursework.Tty.{
  width, height, wrap_line, scroll_up, cell, Tty, scroll, putchar, print,
}

-- Between two characters: the cursor is on the screen, and on the last row only at its start.
pub record IsOnScreen (t : Tty) : Type 0 where
  pub size : length t.cells ≡ 2000
  pub col : t.col ≤ 79
  pub row : t.row ≤ 24
  pub last : t.row ≡ 24 → t.col ≡ 0

-- After a scroll there is room for a character and for a line break.
pub record HasRoom (t : Tty) : Type 0 where
  pub size : length t.cells ≡ 2000
  pub col : t.col ≤ 78
  pub row : t.row ≤ 23

length-scrolled : (xs : List ℕ) → length xs ≡ 2000 → length (drop 80 xs ++ replicate 80 0) ≡ 2000
length-scrolled xs h = omega (
  arith,
  length-append (drop 80 xs) (replicate 80 0),
  length-drop 80 xs,
  length-replicate {A = ℕ} 80 0,
)

wrap_line-cursor :
    (t : Tty)
    → IsOnScreen t
    → ((wrap_line t).cells ≡ t.cells) × ((wrap_line t).col ≤ 78) × ((wrap_line t).row ≤ 24)
wrap_line-cursor t v = elim (Bool-cases (leb width (t.col + 1))) [
  | inl e ↦ rw e (refl, omega arith, ground (arith, v.last))
  | inr e ↦ rw e (refl, ground arith, v.row)
]

scroll_up-HasRoom :
    (t : Tty) → length t.cells ≡ 2000 → t.col ≤ 78 → t.row ≤ 24 → HasRoom (scroll_up t)
scroll_up-HasRoom t n c r = elim (Bool-cases (leb height (t.row + 1))) [
  | inl e ↦ rw e (record { size = length-scrolled t.cells n; col = c; row = omega arith })
  | inr e ↦ rw e (record { size = n; col = c; row = ground arith })
]

pub scroll-HasRoom : (t : Tty) → IsOnScreen t → HasRoom (scroll t)
unfolding scroll
scroll-HasRoom t v =
    let w = wrap_line-cursor t v in
    scroll_up-HasRoom (wrap_line t) (ap length w.0 ∙ v.size) (w.1) (w.2)

-- `putchar` keeps the cursor on the screen, whatever the character; and where it writes a cell, the
-- index is inside the screen, above its last row.
pub putchar-IsOnScreen :
    (c : ℕ) (t : Tty)
    → IsOnScreen t
    → IsOnScreen (putchar c t) × ((scroll t).row * 80 + (scroll t).col < 1920)
unfolding putchar
putchar-IsOnScreen c t v =
    let room = scroll-HasRoom t v in
    (
      record {
        size = ground (
          arith,
          length-set (scroll t).cells ((scroll t).row * 80 + (scroll t).col)
              (cell (scroll t).color c),
        );
        col = ground arith;
        row = ground arith;
        last = λ e. ground arith;
      },
      omega arith,
    )

pub print-IsOnScreen : (cs : List ℕ) (t : Tty) → IsOnScreen t → IsOnScreen (print cs t)
unfolding print
print-IsOnScreen [] t v = v
print-IsOnScreen (c ∷ cs) t v = elim (Bool-cases (c == 0)) [
  | inl e ↦ rw e v
  | inr e ↦ rw e (print-IsOnScreen cs (putchar c t) (putchar-IsOnScreen c t v).0)
]
