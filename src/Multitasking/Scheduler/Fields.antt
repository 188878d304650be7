-- ===== src/Multitasking/Scheduler/Fields.antt =====
-- What each step of `schedule` leaves alone.
use semester_5_coursework.Prelude.{
  false, ◌≡◌, ◌≢◌, refl, ◌∙◌, ap, Option, List, [], ◌∷◌, ◌++◌, arith, ◌==◌, if◌then◌else◌,
  Bool-cases, inl, inr, some,
}
use semester_5_coursework.Multitasking.Process.{
  set_pcb, ProcessState, running, ready, Pcb, Frame, Pcbs, set_state, is_ready,
}
use semester_5_coursework.Multitasking.Scheduler.{
  Scheduler, enqueue_saved, save_registers, save_frame, save_current, park, admit_new,
  resolve_waiting, next_ready, reap,
}
use semester_5_coursework.Queue.{Ptr, null}

-- A control block but for its state.
abbrev pub stateless : Pcb → Pcb
stateless c = record c { state = running }

pub stateless-set_state :
    (m : Pcbs) (p q : Ptr) (st : ProcessState) → stateless (set_state m p st q) ≡ stateless (m q)
stateless-set_state m p q st = ground arith

pub set_state_self :
    (m : Pcbs) (p : Ptr) (st : ProcessState) → set_state m p st p ≡ record (m p) { state = st }
set_state_self m p st = ground arith

pub stateless-admit_new :
    (ps : List Ptr) (s : Scheduler) (q : Ptr)
    → stateless ((admit_new ps s).pcbs q) ≡ stateless (s.pcbs q)
unfolding admit_new
stateless-admit_new [] s q = refl
stateless-admit_new (p ∷ ps) s q = stateless-admit_new ps _ q ∙ stateless-set_state s.pcbs p q ready

pub pcbs-resolve_waiting : (ps : List Ptr) (s : Scheduler) → (resolve_waiting ps s).pcbs ≡ s.pcbs
unfolding resolve_waiting
pcbs-resolve_waiting [] s = refl
pcbs-resolve_waiting (p ∷ ps) s = elim (Bool-cases (is_ready (s.pcbs p).state)) [
  | inl e ↦ rw e (pcbs-resolve_waiting ps _)
  | inr e ↦ rw e
]

pub pcbs-next_ready : (ps : List Ptr) (s : Scheduler) → (next_ready ps s).1.pcbs ≡ s.pcbs
unfolding next_ready
pcbs-next_ready [] s = refl
pcbs-next_ready (p ∷ ps) s = ground (
  arith,
  pcbs-next_ready ps (record s { ready_queue = ps; done_queue = s.done_queue ++ (p ∷ []) }),
  pcbs-next_ready ps (record s { ready_queue = ps; waiting_queue = s.waiting_queue ++ (p ∷ []) }),
  pcbs-next_ready ps (record s { ready_queue = ps }),
)

pub pcbs-reap : (ps : List Ptr) (s : Scheduler) → (reap ps s).pcbs ≡ s.pcbs
unfolding reap
pcbs-reap [] s = refl
pcbs-reap (p ∷ ps) s = pcbs-reap ps _

pub current-reap : (ps : List Ptr) (s : Scheduler) → (reap ps s).current ≡ s.current
unfolding reap
current-reap [] s = refl
current-reap (p ∷ ps) s = current-reap ps _

-- The control blocks once the frame of the running process is saved.
pub stateless-park :
    (f : Frame) (s : Scheduler) (q : Ptr)
    → s.current ≢ null
    → stateless ((park f s).pcbs q)
      ≡ stateless (if q == s.current then save_registers f (s.pcbs q) else s.pcbs q)
unfolding save_current
stateless-park f s q h = ground arith

-- The static variables that a step before the switch keeps.
pub record Keeps (s t : Scheduler) : Type 0 where
  pub pid : t.pid ≡ s.pid
  pub all : t.all ≡ s.all
  pub calls : t.calls ≡ s.calls

pub park-Keeps : (f : Frame) (s : Scheduler) → Keeps s (park f s)
unfolding save_current
park-Keeps f s = ground arith

pub admit_new-Keeps : (ps : List Ptr) (s : Scheduler) → Keeps s (admit_new ps s)
unfolding admit_new
admit_new-Keeps [] s = record { pid = refl; all = refl; calls = refl }
admit_new-Keeps (p ∷ ps) s =
    let rest = admit_new-Keeps ps _ in record { pid = rest.pid; all = rest.all; calls = rest.calls }

pub resolve_waiting-Keeps : (ps : List Ptr) (s : Scheduler) → Keeps s (resolve_waiting ps s)
unfolding resolve_waiting
resolve_waiting-Keeps [] s = record { pid = refl; all = refl; calls = refl }
resolve_waiting-Keeps (p ∷ ps) s = elim (Bool-cases (is_ready (s.pcbs p).state)) [
  | inl e ↦
      let rest =
        resolve_waiting-Keeps ps
          (record s { ready_queue = s.ready_queue ++ (p ∷ []); waiting_queue = ps }) in
      rw e (record { pid = rest.pid; all = rest.all; calls = rest.calls })
  | inr e ↦ rw e (record { pid = refl; all = refl; calls = refl })
]

pub next_ready-Keeps : (ps : List Ptr) (s : Scheduler) → Keeps s (next_ready ps s).1
unfolding next_ready
next_ready-Keeps [] s = record { pid = refl; all = refl; calls = refl }
next_ready-Keeps (p ∷ ps) s = ground (
  arith,
  next_ready-Keeps ps (record s { ready_queue = ps; done_queue = s.done_queue ++ (p ∷ []) }),
  next_ready-Keeps ps (record s { ready_queue = ps; waiting_queue = s.waiting_queue ++ (p ∷ []) }),
  next_ready-Keeps ps (record s { ready_queue = ps }),
)

-- `save_current` switches on the state that the process has.
pub save_current_lem :
    (frame : Option Frame) (p : Ptr) (s : Scheduler)
    → save_current frame p s
      ≡ enqueue_saved
          (s.pcbs p).state
          p
          (record s { pcbs = set_pcb s.pcbs p (save_frame frame (s.pcbs p)) })
unfolding save_current
save_current_lem frame p s =
    let same : (set_pcb s.pcbs p (save_frame frame (s.pcbs p)) p).state ≡ (s.pcbs p).state =
      ground arith in
    ap
      (λ (st : ProcessState).
        enqueue_saved st p (record s { pcbs = set_pcb s.pcbs p (save_frame frame (s.pcbs p)) }))
      same

-- What `schedule` does to the process that it interrupts.
pub park_lem :
    (f : Frame) (s : Scheduler)
    → s.current ≢ null
    → park f s
      ≡ record (enqueue_saved
          (s.pcbs s.current).state
          s.current
          (record s { pcbs = set_pcb s.pcbs s.current (save_registers f (s.pcbs s.current)) })) {
            current = null;
          }
park_lem f s h =
    let nz : (s.current == null) ≡ false = ground arith in
    rw nz
      (ap (λ (t : Scheduler). record t { current = null }) (save_current_lem (some f) s.current s))
