-- ===== src/Tty/Format.antt =====
-- `printf` stays on the screen.
use semester_5_coursework.Prelude.{
  ◌%◌, ◌==◌, if◌then◌else◌, Bool-cases, ℕ, Option, List, Bool, [], ◌∷◌, none, some, true, false,
  inl, inr,
}
use semester_5_coursework.Tty.{
  word, text, Arg, Tty, printf, convert, convert_word, is_conversion, print_all, sitoa, sxtoa,
  putchar,
}
use semester_5_coursework.Tty.Cursor.{IsOnScreen, putchar-IsOnScreen, print-IsOnScreen}

-- Where there is a screen, its cursor is on it.
abbrev pub Shows : Option Tty → Type 0
Shows none = Unit
Shows (some t) = IsOnScreen t

abbrev ConversionShows : Option (List Arg × Tty) → Type 0
ConversionShows none = Unit
ConversionShows (some (args, t)) = IsOnScreen t

print_all-Shows : (cs : Option (List ℕ)) (t : Tty) → IsOnScreen t → Shows (print_all cs t)
print_all-Shows none t v = tt
print_all-Shows (some cs) t v = print-IsOnScreen cs t v

convert_word-Shows : (f x : ℕ) (t : Tty) → IsOnScreen t → Shows (convert_word f x t)
convert_word-Shows f x t v = elim (Bool-cases (f == 99)) [
  | inl e ↦ rw e ((putchar-IsOnScreen (x % 256) t v).0)
  | inr e ↦ rw e (elim (Bool-cases (f == 100)) [
    | inl e' ↦ rw e' (print_all-Shows (sitoa x) t v)
    | inr e' ↦ rw e' (print_all-Shows (sxtoa x) t v)
  ])
]

with_args-Shows :
    (args : List Arg) (o : Option Tty)
    → Shows o
    → ConversionShows (elim o [ none ↦ none | some t' ↦ some (args, t') ])
with_args-Shows args none v = tt
with_args-Shows args (some t) v = v

convert-Shows :
    (f : ℕ) (args : List Arg) (t : Tty) → IsOnScreen t → ConversionShows (convert f args t)
convert-Shows f [] t v = tt
convert-Shows f (word x ∷ args) t v = elim (Bool-cases (f == 115)) [
  | inl e ↦ rw e tt
  | inr e ↦ rw e (with_args-Shows args (convert_word f x t) (convert_word-Shows f x t v))
]
convert-Shows f (text cs ∷ args) t v = elim (Bool-cases (f == 115)) [
  | inl e ↦ rw e (print-IsOnScreen cs t v)
  | inr e ↦ rw e tt
]

if-Shows :
    (b : Bool) (x y : Option (List Arg × Tty))
    → ConversionShows x
    → ConversionShows y
    → ConversionShows (if b then x else y)
if-Shows true x y p q = p
if-Shows false x y p q = q

is_conversion-Shows :
    (f : ℕ) (t : Tty) (args : List Arg) → IsOnScreen t → ConversionShows (is_conversion f t args)
is_conversion-Shows f t args v =
    let c = convert-Shows f args t v in
    let one = convert f args t in
    let x = if-Shows (f == 120) one (some (args, t)) c v in
    let s = if-Shows (f == 115) one (if f == 120 then one else some (args, t)) c x in
    let d =
      if-Shows (f == 100) one (if f == 115 then one else if f == 120 then one else some (args, t)) c
        s in
    if-Shows (f == 99) one
      (if f == 100 then one else if f == 115 then one else if f == 120 then one else some (args, t))
      c d

branch-Shows :
    (b : Bool) (x y : Option Tty) → Shows x → Shows y → Shows (elim b [ true ↦ x | false ↦ y ])
branch-Shows true x y p q = p
branch-Shows false x y p q = q

continue-Shows :
    (cs : List ℕ) (o : Option (List Arg × Tty))
    → ConversionShows o
    → ((args : List Arg) (t : Tty) → IsOnScreen t → Shows (printf cs args t))
    → Shows (elim o [ none ↦ none | some (args', t') ↦ printf cs args' t' ])
continue-Shows cs none v rest = tt
continue-Shows cs (some (args, t)) v rest = rest args t v

-- Whatever the format and the arguments, `printf` with the cursor on the screen leaves the cursor on
-- the screen, where the call is defined.
pub printf-Shows :
    (format : List ℕ) (args : List Arg) (t : Tty) → IsOnScreen t → Shows (printf format args t)
unfolding printf
printf-Shows [] args t v = v
printf-Shows (c ∷ []) args t v = (putchar-IsOnScreen c t v).0
printf-Shows (c ∷ f ∷ cs) args t v =
    branch-Shows (c == 37) _ _
      (continue-Shows cs (is_conversion f t args) (is_conversion-Shows f t args v)
        (λ args' t' v'. printf-Shows cs args' t' v'))
      (printf-Shows (f ∷ cs) args (putchar c t) (putchar-IsOnScreen c t v).0)
