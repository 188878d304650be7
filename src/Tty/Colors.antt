-- ===== src/Tty/Colors.antt =====
-- The color of a cell.
use semester_5_coursework.Prelude.{
  ltb, if◌then◌else◌, ◌∙◌, arith, ◌≤◌, ap, ◌+◌, ◌≡◌, ◌^◌, ◌*◌, ◌<◌, bit_or, ℕ,
}
use semester_5_coursework.Bits.Masks.{or-ones, or-split, or-below}
use semester_5_coursework.Tty.{cell}

-- An ASCII character is shown in the color that is set, on the background that is set; a character
-- from 128 on is negative as a `char`, and its sign covers the color: its cell has the attribute
-- 0xff, whatever the color.
pub cell-color :
    (color c : ℕ)
    → color < 256
    → c < 256
    → (c < 128 → cell color c ≡ color * 256 + c) × (128 ≤ c → cell color c ≡ 0xff00 + c)
cell-color color c hc h = (
  λ l.
      let sign : (if ltb c 128 then c else c + 0xff00) ≡ c = ground arith in
      ap (bit_or (color * 256)) sign ∙ or-below 8 color c h,
  λ g.
      let sign : (if ltb c 128 then c else c + 0xff00) ≡ 255 * 2 ^ 8 + c = ground arith in
      ap (bit_or (color * 256)) sign
      ∙ or-split 8 color 255 c h
      ∙ ap (λ (x : ℕ). x * 2 ^ 8 + c) (or-ones 8 color hc),
)
