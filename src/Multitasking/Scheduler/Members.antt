-- ===== src/Multitasking/Scheduler/Members.antt =====
-- How often a process occurs in the scheduler: as the current one and in each queue.
use mathlib.Core.Path.{subst}
use semester_5_coursework.Prelude.{
  ◌<◌, ◌≤◌, ◌≢◌, ℕ, ◌+◌, ◌≡◌, inl, inr, Bool-cases, List, [], ◌∷◌, ◌++◌, arith, ◌==◌, if◌then◌else◌,
  count,
}
use semester_5_coursework.Multitasking.Process.{
  set_pcb, Pcb, ProcessState, running, ready, waiting, start, done, Pcbs, set_state,
}
use semester_5_coursework.Multitasking.Scheduler.{
  Call, create_page, destroy_directory, free, Scheduler,
}
use semester_5_coursework.Queue.{null, Ptr}

abbrev pub here : Ptr → Ptr → ℕ
here r p = if p == r then 1 else 0

abbrev pub queued : Scheduler → Ptr → ℕ
queued s p =
    count p s.start_queue + count p s.ready_queue + count p s.waiting_queue + count p s.done_queue

abbrev pub members : Scheduler → Ptr → ℕ
members s p = here s.current p + queued s p

-- How often the block of the process was given back to the heap.
abbrev pub freed : List Call → Ptr → ℕ
freed [] p = 0
freed (free q ∷ cs) p = (if p == q then 1 else 0) + freed cs p
freed (create_page i t f ∷ cs) p = freed cs p
freed (destroy_directory d ∷ cs) p = freed cs p

pub freed-append : (cs ds : List Call) (p : Ptr) → freed (cs ++ ds) p ≡ freed cs p + freed ds p
freed-append [] ds p = omega arith
freed-append (free q ∷ cs) ds p = omega (arith, freed-append cs ds p)
freed-append (create_page i t f ∷ cs) ds p = freed-append cs ds p
freed-append (destroy_directory d ∷ cs) ds p = freed-append cs ds p

-- The states of an interrupted process, and of one in the ready or the waiting queue.
abbrev pub CanPark : ProcessState → Type 0
CanPark running = Unit
CanPark waiting = Unit
CanPark done = Unit
CanPark ready = ⊥
CanPark start = ⊥

abbrev pub CanLine : ProcessState → Type 0
CanLine ready = Unit
CanLine waiting = Unit
CanLine done = Unit
CanLine running = ⊥
CanLine start = ⊥

abbrev pub IsDone : ProcessState → Type 0
IsDone st = st ≡ done

-- Every process of a queue is in such a state.
abbrev pub AllIn : (ProcessState → Type 0) → Pcbs → List Ptr → Type 0
AllIn P m [] = Unit
AllIn P m (p ∷ ps) = P (m p).state × AllIn P m ps

pub AllIn-append :
    (P : ProcessState → Type 0) (m : Pcbs) (ps qs : List Ptr)
    → AllIn P m ps
    → AllIn P m qs
    → AllIn P m (ps ++ qs)
AllIn-append P m [] qs h k = k
AllIn-append P m (p ∷ ps) qs h k = (h.0, AllIn-append P m ps qs h.1 k)

-- A change of one process to an allowed state keeps the queue's states allowed.
pub AllIn-set_state :
    (P : ProcessState → Type 0) (m : Pcbs) (q : Ptr) (st : ProcessState) (ps : List Ptr)
    → P st
    → AllIn P m ps
    → AllIn P (set_state m q st) ps
AllIn-set_state P m q st [] h k = tt
AllIn-set_state P m q st (p ∷ ps) h k = (changed, AllIn-set_state P m q st ps h k.1)
  where
    changed : P (set_state m q st p).state
    changed = elim (Bool-cases (p == q)) [ inl e ↦ rw e h | inr e ↦ rw e (k.0) ]

-- A process that the queue does not hold may change at will.
pub AllIn-set_other :
    (P : ProcessState → Type 0) (m : Pcbs) (q : Ptr) (st : ProcessState) (ps : List Ptr)
    → count q ps ≡ 0
    → AllIn P m ps
    → AllIn P (set_state m q st) ps
AllIn-set_other P m q st [] h k = tt
AllIn-set_other P m q st (p ∷ ps) h k =
    (changed, AllIn-set_other P m q st ps (omega (arith, h)) k.1)
  where
    changed : P (set_state m q st p).state
    changed = elim (Bool-cases (p == q)) [ inl e ↦ absurd (ground arith) | inr e ↦ rw e (k.0) ]

-- A change of other fields keeps the states.
pub AllIn-set_pcb :
    (P : ProcessState → Type 0) (m : Pcbs) (q : Ptr) (c : Pcb) (ps : List Ptr)
    → c.state ≡ (m q).state
    → AllIn P m ps
    → AllIn P (set_pcb m q c) ps
AllIn-set_pcb P m q c [] h k = tt
AllIn-set_pcb P m q c (p ∷ ps) h k = (subst P same k.0, AllIn-set_pcb P m q c ps h k.1)
  where
    same : (m p).state ≡ (set_pcb m q c p).state
    same = ground arith

-- A block that keeps its state, or gets an allowed one wherever the queue holds it.
pub AllIn-change :
    (P : ProcessState → Type 0) (m : Pcbs) (q : Ptr) (c : Pcb) (ps : List Ptr)
    → (0 < count q ps → P (m q).state → P c.state)
    → AllIn P m ps
    → AllIn P (set_pcb m q c) ps
AllIn-change P m q c [] h k = tt
AllIn-change P m q c (p ∷ ps) h k =
    (changed, AllIn-change P m q c ps (λ n. h (omega (arith, n))) k.1)
  where
    changed : P (set_pcb m q c p).state
    changed = elim (Bool-cases (p == q)) [
      | inl e ↦
          let same : p ≡ q = ground arith in
          rw e (h (ground arith) (subst (λ (x : Ptr). P (m x).state) same k.0))
      | inr e ↦ rw e (k.0)
    ]

-- The states and places of all processes are as the scheduler expects them: what is interrupted is
-- running, waiting or done; the queues hold processes of the states that they are for, and none
-- twice; the null pointer is in no queue.
pub record IsConsistent (s : Scheduler) : Type 0 where
  pub current : s.current ≢ null → CanPark (s.pcbs s.current).state
  pub ready : AllIn CanLine s.pcbs s.ready_queue
  pub waiting : AllIn CanLine s.pcbs s.waiting_queue
  pub done : AllIn IsDone s.pcbs s.done_queue
  pub once : (p : Ptr) → p ≢ null → members s p ≤ 1
  pub present : queued s null ≡ 0
