-- ===== src/Multitasking/Scheduler/RoundRobin.antt =====
-- Timer ticks over a set of processes that only compute: they take turns.
use mathlib.Core.Path.{subst}
use semester_5_coursework.Prelude.{
  count-append, append_assoc, ap, ◌≤◌, ◌∙◌, ◌+◌, count, arith, ◌++◌, ◌≢◌, ◌≡◌, refl, ℕ, none,
  length, ◌∷◌, some, [], Option, List,
}
use semester_5_coursework.Multitasking.Process.{
  Pcb, set_pcb, set_state, Pcbs, ProcessState, Frame, ready, running,
}
use semester_5_coursework.Multitasking.Scheduler.{
  panic, switch_to, enqueue_saved, park, load_registers, resumed, save_registers, reap,
  resolve_waiting, admit_new, Scheduler, schedule, Call,
}
use semester_5_coursework.Multitasking.Scheduler.Fields.{set_state_self, park_lem}
use semester_5_coursework.Multitasking.Scheduler.Members.{
  AllIn-set_pcb, AllIn-set_state, AllIn-set_other, AllIn-append, AllIn,
}
use semester_5_coursework.Multitasking.Scheduler.Switch.{
  switch_to_lem, next_ready_head, from_parked, schedule_lem,
}
use semester_5_coursework.Queue.{Ptr, null}

-- So many timer interrupts, each with the frame of the process that it interrupts. `none` is a halt.
pub ticks : List Frame → Scheduler → Option Scheduler
ticks [] s = some s
ticks (f ∷ fs) s = elim (schedule f s) [ resumed f' s' ↦ ticks fs s' | panic s' ↦ none ]

-- Nothing but a running process and ready ones.
abbrev pub computing : ℕ → List Ptr → Ptr → List Ptr → Pcbs → List Call → Scheduler
computing pid all c qs m calls = record {
  pid = pid;
  all = all;
  current = c;
  start_queue = [];
  ready_queue = qs;
  waiting_queue = [];
  done_queue = [];
  pcbs = m;
  calls = calls;
}

abbrev pub IsReady : ProcessState → Type 0
IsReady st = st ≡ ready

-- The control blocks after a switch from `c` to `q`.
abbrev pub switched : Frame → Ptr → Ptr → Pcbs → Pcbs
switched f c q m = set_state (set_state (set_pcb m c (save_registers f (m c))) c ready) q running

park-computing :
    (pid : ℕ) (all : List Ptr) (c : Ptr) (qs : List Ptr) (m : Pcbs) (calls : List Call) (f : Frame)
    → c ≢ null
    → (m c).state ≡ running
    → park f (computing pid all c qs m calls)
      ≡ computing pid all null
          (qs ++ (c ∷ []))
          (set_state (set_pcb m c (save_registers f (m c))) c ready)
          calls
park-computing pid all c qs m calls f nc run =
    let s = computing pid all c qs m calls in
    let saved = record s { pcbs = set_pcb m c (save_registers f (m c)) } in
    park_lem f s nc
    ∙ ap (λ (st : ProcessState). record (enqueue_saved st c saved) { current = null }) run

-- One tick runs the first ready process, and the interrupted one goes to the end of the queue.
schedule-computing :
    (pid : ℕ) (all : List Ptr) (c q : Ptr) (qs : List Ptr) (m : Pcbs) (calls : List Call)
    (f : Frame)
    → c ≢ null
    → q ≢ null
    → c ≢ q
    → (m c).state ≡ running
    → (m q).state ≡ ready
    → (f' : Frame) × (schedule f (computing pid all c (q ∷ qs) m calls)
        ≡ resumed f' (computing pid all q (qs ++ (c ∷ [])) (switched f c q m) calls))
unfolding admit_new resolve_waiting reap
schedule-computing pid all c q qs m calls f nc nq ne run rdy =
    let s = computing pid all c (q ∷ qs) m calls in
    let m' = set_state (set_pcb m c (save_registers f (m c))) c ready in
    let t = computing pid all null (q ∷ (qs ++ (c ∷ []))) m' calls in
    let other : (m' q).state ≡ ready = ground arith in
    (
      load_registers (m' q) f,
      schedule_lem f s
          ∙ ap (from_parked f) (park-computing pid all c (q ∷ qs) m calls f nc run)
          ∙ ap (switch_to f) (next_ready_head q (qs ++ (c ∷ [])) t other)
          ∙ switch_to_lem f q (record t { ready_queue = qs ++ (c ∷ []) }) nq,
    )

-- The ready processes are distinct from one another and from the running one, and none is null.
abbrev pub Apart : List Ptr → Type 0
Apart ps = (count null ps ≡ 0) × ((p : Ptr) → count p ps ≤ 1)

Apart-head : (c q : Ptr) (xs : List Ptr) → Apart (c ∷ q ∷ xs) → (c ≢ null) × (q ≢ null) × (c ≢ q)
Apart-head c q xs d =
    (λ e. ground (arith, d.0), λ e. ground (arith, d.0), λ e. ground (arith, d.1 c))

Apart-rotate : (c q : Ptr) (xs : List Ptr) → Apart (c ∷ q ∷ xs) → Apart (q ∷ (xs ++ (c ∷ [])))
Apart-rotate c q xs d = (
  omega (arith, d.0, count-append null xs (c ∷ [])),
  λ p. omega (arith, d.1 p, count-append p xs (c ∷ [])),
)

-- After a switch the processes behind `q` are ready, and so is the one that was interrupted.
AllIn-switched :
    (f : Frame) (c q : Ptr) (m : Pcbs) (xs : List Ptr)
    → Apart (c ∷ q ∷ xs)
    → AllIn IsReady m xs
    → AllIn IsReady (switched f c q m) (xs ++ (c ∷ []))
AllIn-switched f c q m xs d h =
    let saved = set_pcb m c (save_registers f (m c)) in
    let ne = Apart-head c q xs d in
    AllIn-append IsReady (switched f c q m) xs (c ∷ [])
      (AllIn-set_other IsReady (set_state saved c ready) q running xs (ground (arith, d.1 q)) (
        AllIn-set_state IsReady saved c ready xs refl
          (AllIn-set_pcb IsReady m c (save_registers f (m c)) xs refl h)))
      (ground (arith, ne.2), tt)

-- While one process runs, different ones are ready and the other queues are empty, a ready process
-- with `before` ahead of it in the queue is the running one after as many ticks as `before` is long
-- and one more.
pub round_robin :
    (before after : List Ptr) (p c pid : ℕ) (all : List Ptr) (m : Pcbs) (calls : List Call)
    (fs : List Frame)
    → Apart (c ∷ (before ++ (p ∷ after)))
    → (m c).state ≡ running
    → AllIn IsReady m (before ++ (p ∷ after))
    → length fs ≡ length before + 1
    → (s' : Scheduler) × (ticks fs (computing pid all c (before ++ (p ∷ after)) m calls) ≡ some s')
      × (s'.current ≡ p)
unfolding ticks
round_robin [] after p c pid all m calls [] d run rdy n = absurd (omega arith)
round_robin [] after p c pid all m calls (f ∷ g ∷ fs) d run rdy n = absurd (omega arith)
round_robin [] after p c pid all m calls (f ∷ []) d run rdy n =
    let ne = Apart-head c p after d in
    let step = schedule-computing pid all c p after m calls f ne.0 ne.1 ne.2 run rdy.0 in
    (computing pid all p (after ++ (c ∷ [])) (switched f c p m) calls, rw (step.1, ticks), refl)
round_robin (q ∷ qs) after p c pid all m calls [] d run rdy n = absurd (omega arith)
round_robin (q ∷ qs) after p c pid all m calls (f ∷ fs) d run rdy n =
    let xs = qs ++ (p ∷ after) in
    let ne = Apart-head c q xs d in
    let m' = switched f c q m in
    let step = schedule-computing pid all c q xs m calls f ne.0 ne.1 ne.2 run rdy.0 in
    let turn : xs ++ (c ∷ []) ≡ qs ++ (p ∷ (after ++ (c ∷ []))) =
      append_assoc qs (p ∷ after) (c ∷ []) in
    let rest =
      round_robin qs (after ++ (c ∷ [])) p q pid all m' calls fs
        (subst (λ (l : List Ptr). Apart (q ∷ l)) turn (Apart-rotate c q xs d))
        (ap (λ (b : Pcb). b.state)
          (set_state_self (set_state (set_pcb m c (save_registers f (m c))) c ready) q running))
        (subst (AllIn IsReady m') turn (AllIn-switched f c q m xs d rdy.1)) (omega arith) in
    (
      rest.0,
      rw (step.1, ticks)
          (ap (λ (l : List Ptr). ticks fs (computing pid all q l m' calls)) turn ∙ rest.1),
      rest.2,
    )
