-- ===== src/Interrupt/Syscall/Wait.antt =====
-- What `wait` returns to a parent, on each of its branches.
use native.Mathlib.Decide.{dec_lt}
use semester_5_coursework.Prelude.{
  refl, Option-cases, inr, inl, ◌==◌, arith, if◌then◌else◌, Bool-cases, ◌^◌, ◌≡◌, ◌<◌, ℕ, ◌≢◌, none,
  some, get_or,
}
use semester_5_coursework.Bits.{bit-high, bit_of_zero, bit-clear, bit-lt-two, eq_of_bits, bit}
use semester_5_coursework.Interrupt.Syscall.{find_completed, wait_pcb, release_slot, minus_one}
use semester_5_coursework.Interrupt.Syscall.Family.{release_slot-IsFamily, get_or-set, IsFamily}
use semester_5_coursework.Interrupt.Syscall.Slots.{
  find_completed-none, find_completed-first, find_completed-some,
}
use semester_5_coursework.Multitasking.Process.{Pcb, waiting}

-- `wait` collects the child of slot `i`: the first completed one. Its pid is returned and its slot
-- becomes free; the other slots stay.
pub record Collects (c : Pcb) (i : ℕ) (result : ℕ) (c' : Pcb) : Type 0 where
  pub in_range : i < 32
  pub completed : bit c.child_completed_bitmap i ≡ 1
  pub first : (k : ℕ) → k < i → bit c.child_completed_bitmap k ≡ 0
  pub pid : (result ≡ get_or c.child i 0) × (result ≢ 0)
  pub slot : (k : ℕ) → get_or c'.child k 0 ≡ (if i == k then 0 else get_or c.child k 0)
  pub bitmap :
      (k : ℕ) → k < 32 → bit c'.child_bitmap k ≡ (if i == k then 0 else bit c.child_bitmap k)
  pub completed_bitmap :
      (k : ℕ)
      → k < 32
      → bit c'.child_completed_bitmap k ≡ (if i == k then 0 else bit c.child_completed_bitmap k)
  pub family : IsFamily c'

-- What `wait` may do to the caller's control block.
pub data Waits (c : Pcb) : ℕ → Pcb → Type 0 where
  no_children : c.child_bitmap ≡ 0 → Waits c minus_one c
  blocks :
      c.child_bitmap ≢ 0 → c.child_completed_bitmap ≡ 0 → Waits c 0 (record c { state = waiting })
  collects : {result : ℕ} {c' : Pcb} (i : ℕ) → Collects c i result c' → Waits c result c'

release_slot-Collects :
    (c : Pcb) (i : ℕ)
    → IsFamily c
    → find_completed 32 c.child_completed_bitmap 0 ≡ some i
    → Collects c i (get_or c.child i 0) (release_slot i c)
release_slot-Collects c i v f =
    let found = find_completed-some 32 c.child_completed_bitmap 0 i f in
    let below : i < 32 = omega (arith, found) in
    record {
      in_range = below;
      completed = found.0;
      first = λ k p. find_completed-first 32 c.child_completed_bitmap 0 i k f (omega arith) p;
      pid = (refl, v.held i below (omega (arith, found, v.subset i, bit-lt-two c.child_bitmap i)));
      slot = λ k. get_or-set c.child i k 0 (omega (arith, v.slots));
      bitmap = λ k p. bit-clear c.child_bitmap i k p;
      completed_bitmap = λ k p. bit-clear c.child_completed_bitmap i k p;
      family = release_slot-IsFamily c i v below;
    }

-- A nonzero word of 32 bits has a set bit.
none_completed : (w : ℕ) → w < 2 ^ 32 → find_completed 32 w 0 ≡ none → w ≡ 0
none_completed w h n = eq_of_bits w 0 λ k. elim (dec_lt k 32) [
  | yes p ↦ omega (arith, find_completed-none 32 w 0 k n (omega arith) (omega arith), bit_of_zero k)
  | no p ↦ omega (arith, bit-high w 32 k h (omega arith), bit_of_zero k)
]

-- `wait` on consistent slots always returns: -1 where the caller has no child; 0, with the caller waiting, where it has
-- children and none is completed; and else the pid of the first completed child, whose slot it frees.
pub wait_pcb_total :
    (c : Pcb)
    → IsFamily c
    → (result : ℕ) × (c' : Pcb) × (wait_pcb c ≡ some (result, c')) × Waits c result c'
unfolding wait_pcb
wait_pcb_total c v = elim (Bool-cases (c.child_bitmap == 0)) [
  | inl z ↦ (minus_one, c, rw z, no_children (ground arith))
  | inr nz ↦ elim (Bool-cases (c.child_completed_bitmap == 0)) [
    | inl z ↦
        (0, record c { state = waiting }, rw (nz, z), blocks (λ e. ground arith) (ground arith))
    | inr some_completed ↦ elim (Option-cases (find_completed 32 c.child_completed_bitmap 0)) [
      | inl n ↦ absurd (ground (arith, none_completed c.child_completed_bitmap v.completed n))
      | inr (i, f) ↦ (
        get_or c.child i 0,
        release_slot i c,
        rw (nz, some_completed, f, wait_pcb),
        collects i (release_slot-Collects c i v f),
      )
    ]
  ]
]
