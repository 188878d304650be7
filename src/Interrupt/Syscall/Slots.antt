-- ===== src/Interrupt/Syscall/Slots.antt =====
-- What the loops over the 32 slots of a parent find.
use Prim.Native.Nat.{zero}
use semester_5_coursework.Prelude.{
  [], ◌∷◌, inr, inl, ◌==◌, ◌^◌, ◌-◌, arith, Bool-cases, ◌+◌, ◌<◌, ◌≤◌, ◌≡◌, ℕ, get_or, bit_and,
  length, suc, some, none, List,
}
use semester_5_coursework.Bits.{bit, test-clear, test-set}
use semester_5_coursework.Interrupt.Syscall.{find_slot, find_free_slot, find_completed}

pub find_slot-some :
    (pid : ℕ) (cs : List ℕ) (a i : ℕ)
    → find_slot pid cs a ≡ some i
    → (a ≤ i) × (i < a + length cs) × (get_or cs (i - a) 0 ≡ pid)
unfolding find_slot
find_slot-some pid [] a i e = cc
find_slot-some pid (c ∷ cs) a i e = elim (Bool-cases (c == pid)) [
  | inl eq ↦ ground arith
  | inr ne ↦
      let tail = find_slot-some pid cs (a + 1) i (rw (ne, find_slot) at e) in
      let index : i - a ≡ suc (i - (a + 1)) = omega (arith, tail) in
      (omega (arith, tail), omega (arith, tail), rw index (tail.2))
]

pub find_free_slot-some :
    (n w a i : ℕ) → find_free_slot n w a ≡ some i → (bit w i ≡ 0) × (a ≤ i) × (i < a + n)
unfolding find_free_slot
find_free_slot-some zero w a i e = cc
find_free_slot-some (suc n) w a i e = elim (Bool-cases (bit_and w (2 ^ a) == 0)) [
  | inl clear ↦ ground (arith, test-clear w a clear)
  | inr taken ↦ ground (arith, find_free_slot-some n w (a + 1) i)
]

-- The first completed child: its bit is set, and those of the slots before it are not.
pub find_completed-some :
    (n w a i : ℕ) → find_completed n w a ≡ some i → (bit w i ≡ 1) × (a ≤ i) × (i < a + n)
unfolding find_completed
find_completed-some zero w a i e = cc
find_completed-some (suc n) w a i e = elim (Bool-cases (bit_and w (2 ^ a) == 0)) [
  | inl clear ↦ ground (arith, find_completed-some n w (a + 1) i)
  | inr taken ↦ ground (arith, test-set w a taken)
]

pub find_completed-first :
    (n w a i k : ℕ) → find_completed n w a ≡ some i → a ≤ k → k < i → bit w k ≡ 0
unfolding find_completed
find_completed-first zero w a i k e p q = cc
find_completed-first (suc n) w a i k e p q = elim (Bool-cases (bit_and w (2 ^ a) == 0)) [
  | inl clear ↦ ground (arith, find_completed-first n w (a + 1) i k, test-clear w a clear)
  | inr taken ↦ absurd (ground arith)
]

pub find_completed-none :
    (n w a k : ℕ) → find_completed n w a ≡ none → a ≤ k → k < a + n → bit w k ≡ 0
unfolding find_completed
find_completed-none zero w a k e p q = absurd (omega arith)
find_completed-none (suc n) w a k e p q = elim (Bool-cases (bit_and w (2 ^ a) == 0)) [
  | inl clear ↦ ground (arith, find_completed-none n w (a + 1) k, test-clear w a clear)
  | inr taken ↦ cc (rw (taken, find_completed) at e)
]
