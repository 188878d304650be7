-- ===== src/Multitasking/Scheduler/Switch.antt =====
-- A context switch loses no register: what `schedule` saves, and what it loads.
use semester_5_coursework.Prelude.{
  refl, ◌∷◌, false, ◌≡◌, ◌≢◌, sym, ap, ◌∙◌, ◌≡⟨◌⟩◌, ◌∎, arith, ◌==◌, if◌then◌else◌, Bool-cases, inl,
  inr, List,
}
use semester_5_coursework.Multitasking.Process.{ready, running, Pcb, Frame, Pcbs, set_state}
use semester_5_coursework.Multitasking.Scheduler.{
  Outcome, Scheduler, resumed, save_registers, load_registers, load_current, park, admit_new,
  resolve_waiting, next_ready, reap, switch_to, schedule,
}
use semester_5_coursework.Multitasking.Scheduler.Fields.{
  stateless, set_state_self, stateless-set_state, stateless-admit_new, pcbs-resolve_waiting,
  pcbs-next_ready, pcbs-reap, current-reap, stateless-park,
}
use semester_5_coursework.Queue.{Ptr, null}

-- The state in which `schedule` looks for the next process.
abbrev pub lined_up : Frame → Scheduler → Scheduler
lined_up f s =
    let parked = park f s in
    let admitted = admit_new parked.start_queue parked in
    resolve_waiting admitted.waiting_queue admitted

abbrev pub chosen : Frame → Scheduler → Ptr × Scheduler
chosen f s = next_ready (lined_up f s).ready_queue (lined_up f s)

-- The state that runs process `r`, before the done processes are reaped.
abbrev pub running_next : Ptr → Scheduler → Scheduler
running_next r s = record s { pcbs = set_state s.pcbs r running; current = r }

-- `schedule` once the interrupted process is parked.
abbrev pub from_parked : Frame → Scheduler → Outcome
from_parked f parked =
    let admitted = admit_new parked.start_queue parked in
    let resolved = resolve_waiting admitted.waiting_queue admitted in
    switch_to f (next_ready resolved.ready_queue resolved)

pub schedule_lem : (f : Frame) (s : Scheduler) → schedule f s ≡ from_parked f (park f s)
unfolding schedule
schedule_lem f s = refl

pub next_ready_head :
    (q : Ptr) (ps : List Ptr) (s : Scheduler)
    → (s.pcbs q).state ≡ ready
    → next_ready (q ∷ ps) s ≡ (q, record s { ready_queue = ps })
unfolding next_ready
next_ready_head q ps s is = rw (is, next_ready)

pub switch_to_lem :
    (f : Frame) (r : Ptr) (s : Scheduler)
    → r ≢ null
    → switch_to f (r, s)
      ≡ resumed (load_registers (s.pcbs r) f) (reap s.done_queue (running_next r s))
unfolding load_current
switch_to_lem f r s ne = let nz : (r == null) ≡ false = ground arith in rw nz

-- What a return from `switch_to` is made of.
pub switch_to-resumed :
    (f f' : Frame) (r : Ptr) (s s' : Scheduler)
    → switch_to f (r, s) ≡ resumed f' s'
    → (r ≢ null) × (f' ≡ load_registers (s.pcbs r) f) × (s' ≡ reap s.done_queue (running_next r s))
unfolding load_current
switch_to-resumed f f' r s s' e = elim (Bool-cases (r == null)) [
  | inl z ↦ cc (rw z at e)
  | inr nz ↦
      let e' : resumed (load_registers (s.pcbs r) f) (reap s.done_queue (running_next r s))
          ≡ resumed f' s' =
        rw nz at e in
      (λ z. ground arith, cc e', cc e')
]

-- The process that `schedule` resumes is marked running, and the frame has the instruction, the stack,
-- the flags, the seven registers and the page directory of its control block; the rest of the frame is
-- as it was.
pub schedule_loads :
    (f f' : Frame) (s s' : Scheduler)
    → schedule f s ≡ resumed f' s'
    → (s'.current ≢ null)
      × ((s'.pcbs s'.current).state ≡ running)
      × (let c = s'.pcbs s'.current in
          f' ≡ record f {
            eip = c.eip;
            esp_original = c.esp;
            cr3 = c.cr3;
            eax = c.context.eax;
            ebx = c.context.ebx;
            ecx = c.context.ecx;
            edx = c.context.edx;
            edi = c.context.edi;
            esi = c.context.esi;
            ebp = c.context.ebp;
            eflags = c.context.eflags;
          })
unfolding schedule
schedule_loads f f' s s' e =
    let (r, t) = chosen f s in
    let (ne, frame, state) = switch_to-resumed f f' r t s' e in
    let current : s'.current ≡ r = ap (λ (x : Scheduler). x.current) state ∙ current-reap _ _ in
    let pcbs : s'.pcbs ≡ set_state t.pcbs r running =
      ap (λ (x : Scheduler). x.pcbs) state ∙ pcbs-reap _ _ in
    let self = set_state_self t.pcbs r running in
    rw (current, pcbs)
      (ne, ap (λ (c : Pcb). c.state) self, frame ∙ ap (λ (c : Pcb). load_registers c f) (sym self))

-- When `schedule` interrupts a process and resumes one, the control block of the interrupted process
-- has the instruction, the stack, the flags and the seven registers of the frame, and is as it was but
-- for them and the state; in any other control block nothing but the state changes.
pub schedule_saves :
    (f f' : Frame) (s s' : Scheduler) (p : Ptr)
    → s.current ≢ null
    → schedule f s ≡ resumed f' s'
    → stateless (s'.pcbs p)
      ≡ stateless (
          if p == s.current
          then record (s.pcbs p) {
            eip = f.eip;
            esp = f.esp_original;
            context = record {
              eax = f.eax;
              ebx = f.ebx;
              ecx = f.ecx;
              edx = f.edx;
              edi = f.edi;
              esi = f.esi;
              ebp = f.ebp;
              eflags = f.eflags;
            };
          }
          else s.pcbs p)
unfolding schedule
schedule_saves f f' s s' p h e =
    let (r, t) = chosen f s in
    let (ne, frame, state) = switch_to-resumed f f' r t s' e in
    let pcbs : s'.pcbs ≡ set_state t.pcbs r running =
      ap (λ (x : Scheduler). x.pcbs) state ∙ pcbs-reap _ _ in
    let parked = park f s in
    let admitted = admit_new parked.start_queue parked in
    stateless (s'.pcbs p)
    ≡⟨ ap (λ (m : Pcbs). stateless (m p)) pcbs ⟩ stateless (set_state t.pcbs r running p)
    ≡⟨ stateless-set_state t.pcbs r p running ⟩ stateless (t.pcbs p)
    ≡⟨ ap (λ (m : Pcbs). stateless (m p)) (pcbs-next_ready _ _ ∙ pcbs-resolve_waiting _ _) ⟩
      stateless (admitted.pcbs p)
    ≡⟨ stateless-admit_new parked.start_queue parked p ⟩ stateless (parked.pcbs p)
    ≡⟨ stateless-park f s p h ⟩
      stateless (if p == s.current then save_registers f (s.pcbs p) else s.pcbs p) ∎

-- A process that is resumed at once finds its registers as it left them; the frame then differs in
-- the page directory alone, which becomes the process's own.
pub schedule_same :
    (f f' : Frame) (s s' : Scheduler)
    → s.current ≢ null
    → schedule f s ≡ resumed f' s'
    → s'.current ≡ s.current
    → f' ≡ record f { cr3 = (s.pcbs s.current).cr3 }
schedule_same f f' s s' h e same =
    let saved = schedule_saves f f' s s' s.current h e in
    let loaded = schedule_loads f f' s s' e in
    let itself : (if s.current == s.current
          then save_registers f (s.pcbs s.current)
          else s.pcbs s.current)
        ≡ save_registers f (s.pcbs s.current) =
      ground arith in
    loaded.2
    ∙ ap (λ (c : Pcb). load_registers c f) (ap s'.pcbs same)
    ∙ ap (λ (c : Pcb). load_registers c f) (saved ∙ ap stateless itself)

-- A process that is interrupted with one frame, and resumed by a later call of `schedule` that
-- interrupts another process in a state that has kept what the first one's control block holds,
-- continues with the registers, the flags, the stack and the instruction of that frame; the page
-- directory is its own.
pub schedule_restores :
    (f f' g g' : Frame) (s s' u u' : Scheduler)
    → s.current ≢ null
    → schedule f s ≡ resumed f' s'
    → stateless (u.pcbs s.current) ≡ stateless (s'.pcbs s.current)
    → u.current ≢ null
    → u.current ≢ s.current
    → schedule g u ≡ resumed g' u'
    → u'.current ≡ s.current
    → g' ≡ record g {
      eip = f.eip;
      esp_original = f.esp_original;
      cr3 = (s.pcbs s.current).cr3;
      eax = f.eax;
      ebx = f.ebx;
      ecx = f.ecx;
      edx = f.edx;
      edi = f.edi;
      esi = f.esi;
      ebp = f.ebp;
      eflags = f.eflags;
    }
schedule_restores f f' g g' s s' u u' h e kept k other e' back =
    let p = s.current in
    let saved = schedule_saves f f' s s' p h e in
    let kept' = schedule_saves g g' u u' p k e' in
    let loaded = schedule_loads g g' u u' e' in
    let itself : (if p == s.current then save_registers f (s.pcbs p) else s.pcbs p)
        ≡ save_registers f (s.pcbs p) =
      ground arith in
    let another : (if p == u.current then save_registers g (u.pcbs p) else u.pcbs p) ≡ u.pcbs p =
      ground arith in
    loaded.2
    ∙ ap (λ (c : Pcb). load_registers c g) (ap u'.pcbs back)
    ∙ ap (λ (c : Pcb). load_registers c g)
        (kept' ∙ ap stateless another ∙ kept ∙ saved ∙ ap stateless itself)
