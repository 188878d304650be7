-- ===== src/Interrupt/Syscall/Family.antt =====
-- The slots of a parent: a slot holds a pid exactly if its bit is set, and only a held slot can be
-- completed. The system calls keep this.
use native.Mathlib.Decide.{dec_lt, ℕ_discrete}
use semester_5_coursework.Prelude.{
  get_or-set_ne, get_or-set_self, arith, ◌==◌, ◌≤◌, inr, if◌then◌else◌, ◌∙◌, ◌^◌, inl, ◌≡◌,
  length-set, ◌<◌, Option-cases, refl, ℕ, ◌≢◌, bit_and, set, bit_or, get_or, length, List,
}
use semester_5_coursework.Bits.{
  bit-high, bit-lt-two, bit-set, bit-clear, pow-lt, complement32, bit_or-lt, bit_and-lt, bit,
}
use semester_5_coursework.Interrupt.Syscall.{
  find_free_slot, add_child, release_slot, complete_child,
}
use semester_5_coursework.Interrupt.Syscall.Slots.{find_free_slot-some}
use semester_5_coursework.Multitasking.Process.{ready, Pcb, waiting, ProcessState}

pub record IsFamily (c : Pcb) : Type 0 where
  pub slots : length c.child ≡ 32
  pub bitmap : c.child_bitmap < 2 ^ 32
  pub completed : c.child_completed_bitmap < 2 ^ 32
  pub held : (i : ℕ) → i < 32 → bit c.child_bitmap i ≡ 1 → get_or c.child i 0 ≢ 0
  pub free : (i : ℕ) → i < 32 → bit c.child_bitmap i ≡ 0 → get_or c.child i 0 ≡ 0
  pub subset : (i : ℕ) → bit c.child_completed_bitmap i ≤ bit c.child_bitmap i

-- A word written at a slot, read back.
pub get_or-set :
    (xs : List ℕ) (i j v : ℕ)
    → i < length xs
    → get_or (set xs i v) j 0 ≡ (if i == j then v else get_or xs j 0)
get_or-set xs i j v h = elim (ℕ_discrete i j) [
  | yes e ↦ rw (← e, get_or-set_self xs i v 0 h) (ground arith)
  | no ne ↦ rw (get_or-set_ne xs i j v 0 ne) (ground arith)
]

-- The slot that `add_child` takes was free.
pub take_slot-IsFamily :
    (c : Pcb) (i pid : ℕ)
    → IsFamily c
    → pid ≢ 0
    → i < 32
    → bit c.child_bitmap i ≡ 0
    → IsFamily
        (record c { child_bitmap = bit_or c.child_bitmap (2 ^ i); child = set c.child i pid })
take_slot-IsFamily c i pid v ne h clear = record {
  slots = length-set c.child i pid ∙ v.slots;
  bitmap = bit_or-lt c.child_bitmap (2 ^ i) 32 v.bitmap (pow-lt i 32 h);
  completed = v.completed;
  held = λ k p b. ground (
    arith,
    get_or-set c.child i k pid (omega (arith, v.slots)),
    bit-set c.child_bitmap i k,
    v.held k p,
  );
  free = λ k p b. ground (
    arith,
    get_or-set c.child i k pid (omega (arith, v.slots)),
    bit-set c.child_bitmap i k,
    v.free k p,
  );
  subset = λ k.
      ground (arith, bit-set c.child_bitmap i k, v.subset k, bit-lt-two c.child_completed_bitmap k);
}

-- A parent's slots stay a family when it gets a child.
pub add_child-IsFamily : (c : Pcb) (pid : ℕ) → IsFamily c → pid ≢ 0 → IsFamily (add_child pid c)
add_child-IsFamily c pid v ne = elim (Option-cases (find_free_slot 32 c.child_bitmap 0)) [
  | inl n ↦ rw (n, add_child) v
  | inr (i, f) ↦
      let found = find_free_slot-some 32 c.child_bitmap 0 i f in
      rw (f, add_child) (take_slot-IsFamily c i pid v ne (omega (arith, found)) (found.0))
]

pub release_slot-IsFamily : (c : Pcb) (i : ℕ) → IsFamily c → i < 32 → IsFamily (release_slot i c)
release_slot-IsFamily c i v h = record {
  slots = length-set c.child i 0 ∙ v.slots;
  bitmap = bit_and-lt c.child_bitmap (complement32 (2 ^ i)) 32 v.bitmap;
  completed = bit_and-lt c.child_completed_bitmap (complement32 (2 ^ i)) 32 v.completed;
  held = λ k p b. ground (
    arith,
    get_or-set c.child i k 0 (omega (arith, v.slots)),
    bit-clear c.child_bitmap i k p,
    v.held k p,
  );
  free = λ k p b. ground (
    arith,
    get_or-set c.child i k 0 (omega (arith, v.slots)),
    bit-clear c.child_bitmap i k p,
    v.free k p,
  );
  subset = λ k. elim (dec_lt k 32) [
    | yes p ↦ ground (
      arith,
      bit-clear c.child_bitmap i k p,
      bit-clear c.child_completed_bitmap i k p,
      v.subset k,
    )
    | no p ↦ omega (
      arith,
      bit-high (bit_and c.child_completed_bitmap (complement32 (2 ^ i))) 32 k
          (bit_and-lt c.child_completed_bitmap (complement32 (2 ^ i)) 32 v.completed) (omega arith),
    )
  ];
}

-- A parent's slots stay a family when the child of a held slot ends, whatever state the parent is in;
-- for a waiting parent, if that child was not marked as completed before.
pub complete_child-IsFamily :
    (st : ProcessState) (c : Pcb) (pid i : ℕ)
    → IsFamily c
    → i < 32
    → bit c.child_bitmap i ≡ 1
    → (st ≡ waiting → bit c.child_completed_bitmap i ≡ 0)
    → IsFamily (complete_child st pid i c)
complete_child-IsFamily waiting c pid i v h b z =
    let released = release_slot-IsFamily c i v h in
    record {
      slots = released.slots;
      bitmap = released.bitmap;
      completed = v.completed;
      held = released.held;
      free = released.free;
      subset = λ k. elim (dec_lt k 32) [
        | yes p ↦ ground (arith, bit-clear c.child_bitmap i k p, v.subset k, z refl)
        | no p ↦ omega (arith, bit-high c.child_completed_bitmap 32 k v.completed (omega arith))
      ];
    }
complete_child-IsFamily ready c pid i v h b z = record {
  slots = v.slots;
  bitmap = v.bitmap;
  completed = bit_or-lt c.child_completed_bitmap (2 ^ i) 32 v.completed (pow-lt i 32 h);
  held = v.held;
  free = v.free;
  subset = λ k. ground (arith, bit-set c.child_completed_bitmap i k, v.subset k);
}
complete_child-IsFamily _ c pid i v h b z = v
