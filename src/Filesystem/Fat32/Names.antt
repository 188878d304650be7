-- ===== src/Filesystem/Fat32/Names.antt =====
-- The components of a path.
use semester_5_coursework.Prelude.{
  ◌++◌, get_elem?, ◌⊎◌, ap, ◌≡◌, ◌==◌, take, length, Bool-cases, ◌≤◌, ◌≢◌, drop, arith, ℕ, List,
  refl, [], ◌∷◌, some, suc, inl, inr,
}
use semester_5_coursework.Filesystem.Fat32.{split, run_length}

abbrev pub IsFreeOf : ℕ → List ℕ → Type 0
IsFreeOf d [] = Unit
IsFreeOf d (c ∷ cs) = (c ≢ d) × IsFreeOf d cs

-- The first bytes of a string, as far as the delimiter or the end.
pub record IsComponent (s : List ℕ) (d : ℕ) (len : ℕ) : Type 0 where
  pub bound : len ≤ length s
  pub free : IsFreeOf d (take len s)
  pub stop : (len ≡ length s) ⊎ (get_elem? s len ≡ some d)

run_length-IsComponent : (s : List ℕ) (d : ℕ) → IsComponent s d (run_length s d)
unfolding run_length
run_length-IsComponent [] d = record { bound = omega arith; free = tt; stop = inl refl }
run_length-IsComponent (c ∷ cs) d = elim (Bool-cases (c == d)) [
  | inl e ↦
      let same : c ≡ d = ground arith in
      rw e (record { bound = omega arith; free = tt; stop = inr (ap some same) })
  | inr e ↦
      let rest = run_length-IsComponent cs d in
      rw e (record {
        bound = omega (arith, rest.bound);
        free = (ground arith, rest.free);
        stop = elim rest.stop [ inl a ↦ inl (ap suc a) | inr b ↦ inr b ];
      })
]

-- `split` returns the length of the part of the path from `start` on that ends before the delimiter,
-- or at the end of the path: it has no delimiter in it, and one stands behind it or nothing does.
pub split-IsComponent : (s : List ℕ) (d start : ℕ) → IsComponent (drop start s) d (split s d start)
unfolding split
split-IsComponent s d start = run_length-IsComponent (drop start s) d

pub run_length-append :
    (d : ℕ) (xs ys : List ℕ) → IsFreeOf d xs → run_length (xs ++ (d ∷ ys)) d ≡ length xs
unfolding run_length
run_length-append d [] ys free = ground arith
run_length-append d (x ∷ xs) ys (differ, free) = ground (arith, run_length-append d xs ys free)

pub run_length-all : (d : ℕ) (xs : List ℕ) → IsFreeOf d xs → run_length xs d ≡ length xs
unfolding run_length
run_length-all d [] free = refl
run_length-all d (x ∷ xs) (differ, free) = ground (arith, run_length-all d xs free)

pub IsFreeOf-append :
    (d : ℕ) (xs ys : List ℕ) → IsFreeOf d xs → IsFreeOf d ys → IsFreeOf d (xs ++ ys)
IsFreeOf-append d [] ys a b = b
IsFreeOf-append d (x ∷ xs) ys (differ, a) b = (differ, IsFreeOf-append d xs ys a b)
