-- ===== src/Tty/Tests.antt =====
-- The screen's theorems at an empty screen with the cursor at the end of its last line but one, and
-- small runs.
use semester_5_coursework.Prelude.{
  ltb, length, map, if◌then◌else◌, ◌+◌, ◌++◌, ◌-◌, ◌*◌, ℕ, length-replicate, ◌≡◌, ◌^◌, ◌<◌,
  replicate, List, refl, [], ◌∷◌, arith, some, none,
}
use semester_5_coursework.Tty.{Tty, sitoa, sxtoa, printf, word, print, cell}
use semester_5_coursework.Tty.Cursor.{IsOnScreen}
use semester_5_coursework.Tty.Line.{print-within, overwrite}
use semester_5_coursework.Tty.Numbers.{sitoa_reads, IsDecimal, read_decimal}
use semester_5_coursework.Tty.Total.{printf-IsOnScreen}

abbrev screen : Tty
screen = record { cells = replicate 2000 7; color = 15; row = 23; col = 70 }

screen-IsOnScreen : IsOnScreen screen
screen-IsOnScreen = record {
  size = length-replicate {A = ℕ} 2000 7;
  col = omega arith;
  row = omega arith;
  last = λ e. absurd (omega arith);
}

printf-IsOnScreen_example :
    (t' : Tty) × (printf (37 ∷ 100 ∷ 10 ∷ []) (word 42 ∷ []) screen ≡ some t') × IsOnScreen t'
printf-IsOnScreen_example =
    printf-IsOnScreen (37 ∷ 100 ∷ 10 ∷ []) (word 42 ∷ []) screen screen-IsOnScreen
      (((λ z. omega arith), omega arith, (λ z w. omega arith)), tt)

print-within_example : print (72 ∷ 105 ∷ []) screen ≡ record screen {
  cells = overwrite (23 * 80 + 70) (map (cell 15) (72 ∷ 105 ∷ [])) screen.cells;
  col = 72;
}
print-within_example =
    print-within (72 ∷ 105 ∷ []) screen (length-replicate {A = ℕ} 2000 7) (omega arith)
      (omega arith)
      (omega arith, omega arith, omega arith, (omega arith, omega arith, omega arith, tt))

sitoa_reads_example :
    (sign : List ℕ) × (digits : List ℕ) × (sitoa (2 ^ 32 - 42) ≡ some (sign ++ digits))
    × (sign ≡ (if ltb (2 ^ 32 - 42) (2 ^ 31) then [] else 45 ∷ []))
    × (read_decimal 0 digits
        ≡ (if ltb (2 ^ 32 - 42) (2 ^ 31) then 2 ^ 32 - 42 else 2 ^ 32 - (2 ^ 32 - 42)))
    × IsDecimal digits
    × (length (sign ++ digits) < 16)
sitoa_reads_example = sitoa_reads (2 ^ 32 - 42) (omega arith) (omega arith)

sitoa-least : sitoa (2 ^ 31) ≡ none
unfolding sitoa
sitoa-least = refl

sitoa-negative : sitoa (2 ^ 32 - 42) ≡ some (45 ∷ 52 ∷ 50 ∷ [])
unfolding sitoa
sitoa-negative = refl

sxtoa-screen : sxtoa 0xb8000 ≡ some (48 ∷ 120 ∷ 66 ∷ 56 ∷ 48 ∷ 48 ∷ 48 ∷ [])
unfolding sxtoa
sxtoa-screen = refl
