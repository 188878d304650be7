-- ===== src/Multitasking/Scheduler/Inv.antt =====
-- Each step of `schedule` keeps the scheduler consistent.
use mathlib.Core.Path.{subst}
use semester_5_coursework.Prelude.{
  ◌≡◌, ◌≢◌, refl, sym, ap, inl, inr, List, [], ◌∷◌, ◌++◌, arith, ◌==◌, Bool-cases, count,
  count-append, some,
}
use semester_5_coursework.Multitasking.Process.{
  ProcessState, running, ready, waiting, start, done, Frame, Pcbs, set_state, set_pcb, is_ready,
}
use semester_5_coursework.Multitasking.Scheduler.{
  Scheduler, enqueue_saved, save_frame, save_registers, park, admit_new, resolve_waiting,
}
use semester_5_coursework.Multitasking.Scheduler.Conserve.{members-enqueue_saved}
use semester_5_coursework.Multitasking.Scheduler.Fields.{park_lem}
use semester_5_coursework.Multitasking.Scheduler.Members.{
  CanPark, CanLine, IsDone, AllIn, AllIn-append, AllIn-set_state, AllIn-set_other, AllIn-set_pcb,
  IsConsistent,
}
use semester_5_coursework.Queue.{Ptr, null}

state-set_self : (m : Pcbs) (p : Ptr) (st : ProcessState) → (set_state m p st p).state ≡ st
state-set_self m p st = ground arith

-- The interrupted process goes to the queue of its state.
enqueue_saved-IsConsistent :
    (st : ProcessState) (q : Ptr) (s : Scheduler)
    → IsConsistent s
    → s.current ≡ q
    → q ≢ null
    → (s.pcbs q).state ≡ st
    → CanPark st
    → IsConsistent (record (enqueue_saved st q s) { current = null })
enqueue_saved-IsConsistent running q s v e ne is h = record {
  current = λ n. absurd (n refl);
  ready =
      AllIn-append CanLine (set_state s.pcbs q ready) s.ready_queue (q ∷ [])
        (AllIn-set_state CanLine s.pcbs q ready s.ready_queue tt v.ready)
        (subst CanLine (sym (state-set_self s.pcbs q ready)) tt, tt);
  waiting = AllIn-set_state CanLine s.pcbs q ready s.waiting_queue tt v.waiting;
  done = AllIn-set_other IsDone s.pcbs q ready s.done_queue (ground (arith, v.once q ne)) v.done;
  once = λ p n. ground (arith, v.once p n, members-enqueue_saved running q s p n tt);
  present = ground (arith, v.present, count-append null s.ready_queue (q ∷ []));
}
enqueue_saved-IsConsistent waiting q s v e ne is h = record {
  current = λ n. absurd (n refl);
  ready = v.ready;
  waiting =
      AllIn-append CanLine s.pcbs s.waiting_queue (q ∷ []) v.waiting
        (subst CanLine (sym is) tt, tt);
  done = v.done;
  once = λ p n. ground (arith, v.once p n, members-enqueue_saved waiting q s p n tt);
  present = ground (arith, v.present, count-append null s.waiting_queue (q ∷ []));
}
enqueue_saved-IsConsistent done q s v e ne is h = record {
  current = λ n. absurd (n refl);
  ready = v.ready;
  waiting = v.waiting;
  done = AllIn-append IsDone s.pcbs s.done_queue (q ∷ []) v.done (is, tt);
  once = λ p n. ground (arith, v.once p n, members-enqueue_saved done q s p n tt);
  present = ground (arith, v.present, count-append null s.done_queue (q ∷ []));
}
enqueue_saved-IsConsistent ready q s v e ne is h = absurd h
enqueue_saved-IsConsistent start q s v e ne is h = absurd h

-- Saving registers changes no state.
save-IsConsistent :
    (f : Frame) (q : Ptr) (s : Scheduler)
    → IsConsistent s
    → IsConsistent (record s { pcbs = set_pcb s.pcbs q (save_frame (some f) (s.pcbs q)) })
save-IsConsistent f q s v =
    let c = save_frame (some f) (s.pcbs q) in
    record {
      current = λ n. (AllIn-set_pcb CanPark s.pcbs q c (s.current ∷ []) refl (v.current n, tt)).0;
      ready = AllIn-set_pcb CanLine s.pcbs q c s.ready_queue refl v.ready;
      waiting = AllIn-set_pcb CanLine s.pcbs q c s.waiting_queue refl v.waiting;
      done = AllIn-set_pcb IsDone s.pcbs q c s.done_queue refl v.done;
      once = v.once;
      present = v.present;
    }

pub park-IsConsistent :
    (f : Frame) (s : Scheduler)
    → IsConsistent s
    → IsConsistent (park f s) × ((park f s).current ≡ null)
park-IsConsistent f s v = elim (Bool-cases (s.current == null)) [
  | inl z ↦ rw z (v, ground arith)
  | inr nz ↦
      let ne : s.current ≢ null = λ z. ground arith in
      let saved = record s {
        pcbs = set_pcb s.pcbs s.current (save_registers f (s.pcbs s.current));
      } in
      let same : (saved.pcbs s.current).state ≡ (s.pcbs s.current).state = ground arith in
      let parked =
        enqueue_saved-IsConsistent (s.pcbs s.current).state s.current saved
          (save-IsConsistent f s.current s v) refl ne same (v.current ne) in
      (
        subst IsConsistent (sym (park_lem f s ne)) parked,
        ap (λ (t : Scheduler). t.current) (park_lem f s ne),
      )
]

-- A new process becomes ready.
admit-IsConsistent :
    (p : Ptr) (ps : List Ptr) (s : Scheduler)
    → IsConsistent s
    → s.current ≡ null
    → s.start_queue ≡ p ∷ ps
    → IsConsistent (record s {
      start_queue = ps;
      pcbs = set_state s.pcbs p ready;
      ready_queue = s.ready_queue ++ (p ∷ []);
    })
admit-IsConsistent p ps s v c e =
    let ne : p ≢ null = λ z. ground (arith, v.present, ap (count null) e) in
    record {
      current = λ n. absurd (n c);
      ready =
          AllIn-append CanLine (set_state s.pcbs p ready) s.ready_queue (p ∷ [])
            (AllIn-set_state CanLine s.pcbs p ready s.ready_queue tt v.ready)
            (subst CanLine (sym (state-set_self s.pcbs p ready)) tt, tt);
      waiting = AllIn-set_state CanLine s.pcbs p ready s.waiting_queue tt v.waiting;
      done =
          AllIn-set_other IsDone s.pcbs p ready s.done_queue
            (ground (arith, v.once p ne, ap (count p) e)) v.done;
      once =
          λ q n. omega (arith, v.once q n, ap (count q) e, count-append q s.ready_queue (p ∷ []));
      present =
          omega (arith, v.present, ap (count null) e, count-append null s.ready_queue (p ∷ []));
    }

pub admit_new-IsConsistent :
    (ps : List Ptr) (s : Scheduler)
    → IsConsistent s
    → s.current ≡ null
    → s.start_queue ≡ ps
    → IsConsistent (admit_new ps s) × ((admit_new ps s).current ≡ null)
unfolding admit_new
admit_new-IsConsistent [] s v c e = (v, c)
admit_new-IsConsistent (p ∷ ps) s v c e =
    admit_new-IsConsistent ps _ (admit-IsConsistent p ps s v c e) c refl

pub resolve_waiting-IsConsistent :
    (ps : List Ptr) (s : Scheduler)
    → IsConsistent s
    → s.current ≡ null
    → s.waiting_queue ≡ ps
    → IsConsistent (resolve_waiting ps s) × ((resolve_waiting ps s).current ≡ null)
unfolding resolve_waiting
resolve_waiting-IsConsistent [] s v c e = (v, c)
resolve_waiting-IsConsistent (p ∷ ps) s v c e = elim (Bool-cases (is_ready (s.pcbs p).state)) [
  | inl r ↦
      let w : AllIn CanLine s.pcbs (p ∷ ps) = subst (AllIn CanLine s.pcbs) e v.waiting in
      let moved : IsConsistent
          (record s { ready_queue = s.ready_queue ++ (p ∷ []); waiting_queue = ps }) =
        record {
          current = v.current;
          ready = AllIn-append CanLine s.pcbs s.ready_queue (p ∷ []) v.ready (w.0, tt);
          waiting = w.1;
          done = v.done;
          once = λ q n.
              omega (arith, v.once q n, ap (count q) e, count-append q s.ready_queue (p ∷ []));
          present =
              omega (arith, v.present, ap (count null) e, count-append null s.ready_queue (p ∷ []));
        } in
      rw r (resolve_waiting-IsConsistent ps _ moved c refl)
  | inr n ↦ rw n (v, c)
]
