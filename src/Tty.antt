-- ===== src/Tty.antt =====
-- The text screen, kernel/tty.c: 80 columns by 25 rows of 16-bit cells, and its printf. A `char` is
-- its byte, below 256, and is signed on x86; an `int` is its 32-bit pattern.
pub mod Cursor
pub mod Numbers
pub mod Line
pub mod Clear
pub mod Colors
pub mod Format
pub mod Total
mod Tests
use Prim.Native.Nat.{pred}
use semester_5_coursework.Prelude.{
  true, false, ℕ, zero, suc, ◌+◌, ◌-◌, ◌*◌, ◌/◌, ◌%◌, ◌^◌, bit_or, Option, none, some, List, [],
  ◌∷◌, ◌++◌, ltb, leb, ◌==◌, if◌then◌else◌, set, take, drop, replicate,
}

abbrev pub width : ℕ
width = 80

abbrev pub height : ℕ
height = 25

pub record Tty : Type 0 where
  pub cells : List ℕ
  pub color : ℕ
  pub row : ℕ
  pub col : ℕ

-- The two moves of `scroll`.
abbrev pub wrap_line : Tty → Tty
wrap_line t = if leb width (t.col + 1) then record t { col = 0; row = t.row + 1 } else t

-- The rows below the first move up, and the last is cleared.
abbrev pub scroll_up : Tty → Tty
scroll_up t =
    if leb height (t.row + 1)
    then record t { cells = drop width t.cells ++ replicate width 0; row = t.row - 1 }
    else t

unfoldable pub scroll : Tty → Tty
scroll t = scroll_up (wrap_line t)

-- `(short)c`, and the cell `__color << 8 | (short)c`, as 16-bit patterns.
abbrev pub sign_extend : ℕ → ℕ
sign_extend c = if ltb c 128 then c else c + 0xff00

abbrev pub cell : ℕ → ℕ → ℕ
cell color c = bit_or (color * 256) (sign_extend c)

unfoldable pub putchar : ℕ → Tty → Tty
unfolding scroll
putchar c t =
    let s = scroll t in
    if c == 10
    then record s { row = s.row + 1; col = 0 }
    else if c == 13
    then record s { col = 0 }
    else if c == 0
    then s
    else record s { cells = set s.cells (s.row * width + s.col) (cell s.color c); col = s.col + 1 }

-- The bytes of the string, up to its NUL.
unfoldable pub print : List ℕ → Tty → Tty
print [] t = t
print (c ∷ cs) t = let rest = print cs (putchar c t) in if c == 0 then t else rest

-- The loop of `sitoa`: the digits of the number, the first on top of the stack. Ten rounds are enough
-- for an `int` (`Numbers`).
unfoldable pub push_decimal : ℕ → ℕ → List ℕ → Option (List ℕ)
push_decimal zero digit stack = none
push_decimal (suc rounds) digit stack =
    let stack' = (48 + digit % 10) ∷ stack in
    let rest = push_decimal rounds (digit / 10) stack' in
    if digit / 10 == 0 then some stack' else rest

abbrev pub with_minus : Option (List ℕ) → Option (List ℕ)
with_minus none = none
with_minus (some digits) = some (45 ∷ digits)

-- `sitoa`: what it writes to the buffer. `-digit` overflows at the least `int`: `none`.
unfoldable pub sitoa : ℕ → Option (List ℕ)
unfolding push_decimal
sitoa digit =
    if ltb digit (2 ^ 31)
    then push_decimal 10 digit []
    else if digit == 2 ^ 31
    then none
    else with_minus (push_decimal 10 (2 ^ 32 - digit) [])

abbrev pub hex_digit : ℕ → ℕ
hex_digit val = if ltb val 10 then 48 + val else 65 + val - 10

-- The loop of `sxtoa`; eight rounds are enough for an `unsigned int`.
unfoldable pub push_hex : ℕ → ℕ → List ℕ → Option (List ℕ)
push_hex zero hex stack = none
push_hex (suc rounds) hex stack =
    let stack' = hex_digit (hex % 16) ∷ stack in
    let rest = push_hex rounds (hex / 16) stack' in if hex / 16 == 0 then some stack' else rest

abbrev pub with_prefix : Option (List ℕ) → Option (List ℕ)
with_prefix none = none
with_prefix (some digits) = some (48 ∷ 120 ∷ digits)

unfoldable pub sxtoa : ℕ → Option (List ℕ)
unfolding push_hex
sxtoa hex = with_prefix (push_hex 8 hex [])

-- The arguments of `printf`: an `int`, a `char`, an `unsigned int`, or the bytes of a string.
pub data Arg : Type 0 where
  word : ℕ → Arg
  text : List ℕ → Arg

-- One conversion: what it prints. A wrong or missing argument is undefined: `none`.
abbrev pub print_all : Option (List ℕ) → Tty → Option Tty
print_all none t = none
print_all (some cs) t = some (print cs t)

abbrev pub convert_word : ℕ → ℕ → Tty → Option Tty
convert_word f x t =
    if f == 99
    then some (putchar (x % 256) t)
    else if f == 100
    then print_all (sitoa x) t
    else print_all (sxtoa x) t

abbrev pub convert : ℕ → List Arg → Tty → Option (List Arg × Tty)
convert f [] t = none
convert f (word x ∷ args) t =
    if f == 115 then none else elim (convert_word f x t) [ none ↦ none | some t' ↦ some (args, t') ]
convert f (text cs ∷ args) t = if f == 115 then some (args, print cs t) else none

-- An unknown conversion prints nothing and takes no argument.
abbrev pub is_conversion : ℕ → Tty → List Arg → Option (List Arg × Tty)
is_conversion f t args =
    if f == 99
    then convert f args t
    else if f == 100
    then convert f args t
    else if f == 115
    then convert f args t
    else if f == 120
    then convert f args t
    else some (args, t)

-- `printf`, on the bytes of the format without its NUL.
unfoldable pub printf : List ℕ → List Arg → Tty → Option Tty
printf [] args t = some t
printf (c ∷ []) args t = some (putchar c t)
printf (c ∷ f ∷ cs) args t = elim (c == 37) [
  | true ↦ elim (is_conversion f t args) [ none ↦ none | some (args', t') ↦ printf cs args' t' ]
  | false ↦ printf (f ∷ cs) args (putchar c t)
]

-- `init`: `memset` of 80 * 25 bytes, which are the first 1000 cells.
unfoldable pub init : Tty → Tty
init t = record t {
  cells = replicate (width * height / 2) 0 ++ drop (width * height / 2) t.cells;
  col = 0;
  row = 0;
  color = 15;
}

unfoldable pub set_color : ℕ → Tty → Tty
set_color color t = record t { color = color }
