-- ===== src/Tty/Total.antt =====
-- `printf` is defined where its arguments are those that the format asks for.
use semester_5_coursework.Prelude.{
  ◌∙◌, ◌++◌, arith, ◌%◌, ◌⊎◌, Bool-cases, ◌≢◌, ◌^◌, ◌==◌, ◌≡◌, ◌<◌, if◌then◌else◌, Bool, ℕ, Option,
  List, refl, true, false, some, [], ◌∷◌, inl, inr,
}
use semester_5_coursework.Tty.{
  Arg, word, text, Tty, printf, convert, convert_word, is_conversion, print, putchar,
}
use semester_5_coursework.Tty.Cursor.{IsOnScreen, putchar-IsOnScreen, print-IsOnScreen}
use semester_5_coursework.Tty.Numbers.{sitoa_reads, sxtoa_reads}

-- %c, %d, %s and %x.
abbrev pub takes_arg : ℕ → Bool
takes_arg f =
    if f == 99 then true else if f == 100 then true else if f == 115 then true else f == 120

abbrev pub rest_of : ℕ → List Arg → List Arg
rest_of f [] = []
rest_of f (a ∷ args) = if takes_arg f then args else a ∷ args

-- The next argument is a word, and for %d not the least `int`; or, for %s, a text.
abbrev pub FitsOne : ℕ → List Arg → Type 0
FitsOne f [] = takes_arg f ≡ false
FitsOne f (word x ∷ args) = (f ≢ 115) × (x < 2 ^ 32) × (f ≡ 100 → x ≢ 2 ^ 31)
FitsOne f (text cs ∷ args) = (f ≡ 115) ⊎ (takes_arg f ≡ false)

abbrev pub Fits : List ℕ → List Arg → Type 0
Fits [] args = Unit
Fits (c ∷ []) args = Unit
Fits (c ∷ f ∷ cs) args =
    if c == 37 then FitsOne f args × Fits cs (rest_of f args) else Fits (f ∷ cs) args

-- A conversion that fits shows something and leaves the other arguments.
abbrev Converts : Option (List Arg × Tty) → List Arg → Type 0
Converts o args = (t' : Tty) × (o ≡ some (args, t')) × IsOnScreen t'

convert_word-total :
    (f x : ℕ) (t : Tty)
    → IsOnScreen t
    → x < 2 ^ 32
    → (f ≡ 100 → x ≢ 2 ^ 31)
    → (t' : Tty) × (convert_word f x t ≡ some t') × IsOnScreen t'
convert_word-total f x t v small least = elim (Bool-cases (f == 99)) [
  | inl c ↦ (putchar (x % 256) t, rw c refl, (putchar-IsOnScreen (x % 256) t v).0)
  | inr nc ↦ elim (Bool-cases (f == 100)) [
    | inl d ↦
        let is_d : f ≡ 100 = ground arith in
        let r = sitoa_reads x small (least is_d) in
        (print (r.0 ++ r.1) t, rw (nc, d, r.2) refl, print-IsOnScreen (r.0 ++ r.1) t v)
    | inr nd ↦
        let r = sxtoa_reads x small in
        (print (48 ∷ 120 ∷ r.0) t, rw (nc, nd, r.1) refl, print-IsOnScreen (48 ∷ 120 ∷ r.0) t v)
  ]
]

is_conversion-arg :
    (f : ℕ) (t : Tty) (args : List Arg)
    → takes_arg f ≡ true
    → is_conversion f t args ≡ convert f args t
is_conversion-arg f t args e = elim (Bool-cases (f == 99)) [
  | inl a ↦ rw a refl
  | inr a ↦ elim (Bool-cases (f == 100)) [
    | inl b ↦ rw (a, b) refl
    | inr b ↦ elim (Bool-cases (f == 115)) [
      | inl c ↦ rw (a, b, c) refl
      | inr c ↦ let d : (f == 120) ≡ true = rw (a, b, c) at e in rw (a, b, c, d) refl
    ]
  ]
]

is_conversion-other :
    (f : ℕ) (t : Tty) (args : List Arg)
    → takes_arg f ≡ false
    → is_conversion f t args ≡ some (args, t)
is_conversion-other f t args e = elim (Bool-cases (f == 99)) [
  | inl a ↦ cc (rw a at e)
  | inr a ↦ elim (Bool-cases (f == 100)) [
    | inl b ↦ cc (rw (a, b) at e)
    | inr b ↦ elim (Bool-cases (f == 115)) [
      | inl c ↦ cc (rw (a, b, c) at e)
      | inr c ↦ let d : (f == 120) ≡ false = rw (a, b, c) at e in rw (a, b, c, d) refl
    ]
  ]
]

rest_of-other : (f : ℕ) (args : List Arg) → takes_arg f ≡ false → rest_of f args ≡ args
rest_of-other f [] e = refl
rest_of-other f (a ∷ args) e = rw e refl

is_conversion-total :
    (f : ℕ) (t : Tty) (args : List Arg)
    → IsOnScreen t
    → FitsOne f args
    → Converts (is_conversion f t args) (rest_of f args)
is_conversion-total f t [] v fits = (t, is_conversion-other f t [] fits, v)
is_conversion-total f t (word x ∷ args) v (no_text, small, least) =
    elim (Bool-cases (takes_arg f)) [
      | inr e ↦ (t, is_conversion-other f t (word x ∷ args) e ∙ rw e refl, v)
      | inl e ↦
          let s : (f == 115) ≡ false = ground arith in
          let (t', shown, v') = convert_word-total f x t v small least in
          let run : convert f (word x ∷ args) t ≡ some (args, t') = rw (s, shown) refl in
          (t', is_conversion-arg f t (word x ∷ args) e ∙ run ∙ rw e refl, v')
    ]
is_conversion-total f t (text cs ∷ args) v fits = elim (Bool-cases (takes_arg f)) [
  | inr e ↦ (t, is_conversion-other f t (text cs ∷ args) e ∙ rw e refl, v)
  | inl e ↦ elim fits [
    | inr other ↦ cc (e, other)
    | inl is_s ↦
        let s : (f == 115) ≡ true = ground arith in
        let run : convert f (text cs ∷ args) t ≡ some (args, print cs t) = rw s refl in
        (
          print cs t,
          is_conversion-arg f t (text cs ∷ args) e ∙ run ∙ rw e refl,
          print-IsOnScreen cs t v,
        )
  ]
]

-- With the cursor on the screen, `printf` is defined whenever its arguments are those that the format
-- asks for: a text for %s, a 32-bit word for the others, and for %d one that is not the least `int`. It
-- leaves the cursor on the screen.
pub printf-IsOnScreen :
    (format : List ℕ) (args : List Arg) (t : Tty)
    → IsOnScreen t
    → Fits format args
    → (t' : Tty) × (printf format args t ≡ some t') × IsOnScreen t'
unfolding printf
printf-IsOnScreen [] args t v fits = (t, refl, v)
printf-IsOnScreen (c ∷ []) args t v fits = (putchar c t, refl, (putchar-IsOnScreen c t v).0)
printf-IsOnScreen (c ∷ f ∷ cs) args t v fits = elim (Bool-cases (c == 37)) [
  | inl e ↦
      let (one, rest) = rw e at fits in
      let (t1, shown, v1) = is_conversion-total f t args v one in
      let (t2, printed, v2) = printf-IsOnScreen cs (rest_of f args) t1 v1 rest in
      (t2, rw (e, shown, printf) printed, v2)
  | inr e ↦
      let rest : Fits (f ∷ cs) args = rw e at fits in
      let (t2, printed, v2) =
        printf-IsOnScreen (f ∷ cs) args (putchar c t) (putchar-IsOnScreen c t v).0 rest in
      (t2, rw (e, printf) printed, v2)
]
