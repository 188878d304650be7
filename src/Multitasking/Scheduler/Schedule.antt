-- ===== src/Multitasking/Scheduler/Schedule.antt =====
-- `schedule` as a whole keeps the scheduler consistent and loses no process.
use mathlib.Core.Path.{sym, ap₂, ap, subst}
use semester_5_coursework.Prelude.{
  ◌∙◌, refl, count-append, ◌≤◌, ◌+◌, count, ◌++◌, arith, ◌≡◌, ◌≢◌, ◌∷◌, [], List,
}
use semester_5_coursework.Multitasking.Process.{Pcb, Frame, running, ready, waiting, done, start}
use semester_5_coursework.Multitasking.Scheduler.{
  Call, free, destroy_directory, admit_new, resumed, park, Scheduler, next_ready, reap, schedule,
}
use semester_5_coursework.Multitasking.Scheduler.Conserve.{
  queued-next_ready, queued-resolve_waiting, queued-admit_new, members-park, queued-reap,
}
use semester_5_coursework.Multitasking.Scheduler.Fields.{
  park-Keeps, admit_new-Keeps, resolve_waiting-Keeps, set_state_self, next_ready-Keeps,
  current-reap, pcbs-reap,
}
use semester_5_coursework.Multitasking.Scheduler.Inv.{
  resolve_waiting-IsConsistent, admit_new-IsConsistent, park-IsConsistent,
}
use semester_5_coursework.Multitasking.Scheduler.Members.{
  AllIn-set_other, freed, members, CanPark, AllIn-append, IsDone, CanLine, AllIn, IsConsistent,
  here, queued,
}
use semester_5_coursework.Multitasking.Scheduler.Switch.{
  lined_up, chosen, running_next, switch_to-resumed,
}
use semester_5_coursework.Queue.{Ptr, null}

-- A choice of the next process that leaves a consistent rest.
pub record IsChosen (r : Ptr) (t : Scheduler) : Type 0 where
  pub is_ready : r ≢ null → (t.pcbs r).state ≡ ready
  pub ready : AllIn CanLine t.pcbs t.ready_queue
  pub waiting : AllIn CanLine t.pcbs t.waiting_queue
  pub done : AllIn IsDone t.pcbs t.done_queue
  pub once : (p : Ptr) → p ≢ null → here r p + queued t p ≤ 1
  pub present : queued t null ≡ 0

pub next_ready-IsChosen :
    (ps : List Ptr) (s : Scheduler)
    → IsConsistent s
    → s.current ≡ null
    → s.ready_queue ≡ ps
    → let (r, t) = next_ready ps s in IsChosen r t
unfolding next_ready
next_ready-IsChosen [] s v c e = record {
  is_ready = λ n. absurd (n refl);
  ready = v.ready;
  waiting = v.waiting;
  done = v.done;
  once = λ p n. ground (arith, v.once p n);
  present = v.present;
}
next_ready-IsChosen (q ∷ ps) s v c e =
    let line : AllIn CanLine s.pcbs (q ∷ ps) = subst (AllIn CanLine s.pcbs) e v.ready in
    (elim (s.pcbs q).state
        as (λ st. (s.pcbs q).state ≡ st → let (r, t) = next_ready (q ∷ ps) s in IsChosen r t) [
          | ready ↦ λ is.
              rw (is, next_ready)
                (record {
                  is_ready = λ n. is;
                  ready = line.1;
                  waiting = v.waiting;
                  done = v.done;
                  once = λ p n. omega (arith, v.once p n, ap (count p) e);
                  present = omega (arith, v.present, ap (count null) e);
                })
          | done ↦ λ is.
              rw (is, next_ready)
                (next_ready-IsChosen ps
                  (record s { ready_queue = ps; done_queue = s.done_queue ++ (q ∷ []) })
                  (record {
                    current = v.current;
                    ready = line.1;
                    waiting = v.waiting;
                    done = AllIn-append IsDone s.pcbs s.done_queue (q ∷ []) v.done (is, tt);
                    once = λ p n.
                        omega
                          (arith, v.once p n, ap (count p) e, count-append p s.done_queue (q ∷ []));
                    present = omega (
                      arith,
                      v.present,
                      ap (count null) e,
                      count-append null s.done_queue (q ∷ []),
                    );
                  })
                  c refl)
          | waiting ↦ λ is.
              rw (is, next_ready)
                (next_ready-IsChosen ps
                  (record s { ready_queue = ps; waiting_queue = s.waiting_queue ++ (q ∷ []) })
                  (record {
                    current = v.current;
                    ready = line.1;
                    waiting =
                        AllIn-append CanLine s.pcbs s.waiting_queue (q ∷ []) v.waiting (line.0, tt);
                    done = v.done;
                    once = λ p n. omega (
                      arith,
                      v.once p n,
                      ap (count p) e,
                      count-append p s.waiting_queue (q ∷ []),
                    );
                    present = omega (
                      arith,
                      v.present,
                      ap (count null) e,
                      count-append null s.waiting_queue (q ∷ []),
                    );
                  })
                  c refl)
          | running ↦ λ is. absurd (rw is at (line.0))
          | start ↦ λ is. absurd (rw is at (line.0))
        ])
      refl

-- The queues that reaping leaves: all but the done one.
pub record Reaped (s t : Scheduler) : Type 0 where
  pub start : t.start_queue ≡ s.start_queue
  pub ready : t.ready_queue ≡ s.ready_queue
  pub waiting : t.waiting_queue ≡ s.waiting_queue
  pub done : t.done_queue ≡ []

pub reap-Reaped : (ps : List Ptr) (s : Scheduler) → s.done_queue ≡ ps → Reaped s (reap ps s)
unfolding reap
reap-Reaped [] s e = record { start = refl; ready = refl; waiting = refl; done = e }
reap-Reaped (p ∷ ps) s e =
    let rest =
      reap-Reaped ps
        (record s {
          done_queue = ps;
          all = _;
          calls = s.calls ++ (destroy_directory (s.pcbs p).cr3 ∷ free p ∷ []);
        })
        refl in
    record { start = rest.start; ready = rest.ready; waiting = rest.waiting; done = rest.done }

lined_up-IsConsistent :
    (f : Frame) (s : Scheduler)
    → IsConsistent s
    → IsConsistent (lined_up f s) × ((lined_up f s).current ≡ null)
lined_up-IsConsistent f s v =
    let parked = park f s in
    let p = park-IsConsistent f s v in
    let admitted = admit_new parked.start_queue parked in
    let a = admit_new-IsConsistent parked.start_queue parked p.0 p.1 refl in
    resolve_waiting-IsConsistent admitted.waiting_queue admitted a.0 a.1 refl

chosen-IsChosen :
    (f : Frame) (s : Scheduler) → IsConsistent s → let (r, t) = chosen f s in IsChosen r t
chosen-IsChosen f s v =
    let l = lined_up-IsConsistent f s v in
    next_ready-IsChosen (lined_up f s).ready_queue (lined_up f s) l.0 l.1 refl

here_null : (r p : Ptr) → p ≢ null → r ≡ null → here r p ≡ 0
here_null r p n e = ground arith

-- Running the chosen process, and reaping the done ones, leave a consistent scheduler.
running_next-IsConsistent :
    (r : Ptr) (t : Scheduler) → IsChosen r t → r ≢ null → IsConsistent (running_next r t)
running_next-IsConsistent r t h ne = record {
  current =
      λ n. subst CanPark (sym (ap (λ (c : Pcb). c.state) (set_state_self t.pcbs r running))) tt;
  ready =
      AllIn-set_other CanLine t.pcbs r running t.ready_queue (ground (arith, h.once r ne)) h.ready;
  waiting =
      AllIn-set_other CanLine t.pcbs r running t.waiting_queue (ground (arith, h.once r ne))
        h.waiting;
  done = AllIn-set_other IsDone t.pcbs r running t.done_queue (ground (arith, h.once r ne)) h.done;
  once = h.once;
  present = h.present;
}

reap-IsConsistent : (s : Scheduler) → IsConsistent s → IsConsistent (reap s.done_queue s)
reap-IsConsistent s v =
    let q = reap-Reaped s.done_queue s refl in
    let counts = λ (p : Ptr).
      ap₂ ◌+◌
        (ap₂ ◌+◌ (ap₂ ◌+◌ (ap (count p) q.start) (ap (count p) q.ready)) (ap (count p) q.waiting))
        (ap (count p) q.done) in
    let c = current-reap s.done_queue s in
    record {
      current = rw (c, pcbs-reap s.done_queue s) v.current;
      ready = rw (q.ready, pcbs-reap s.done_queue s) v.ready;
      waiting = rw (q.waiting, pcbs-reap s.done_queue s) v.waiting;
      done = rw q.done tt;
      once = λ p n. rw c (omega (arith, v.once p n, counts p));
      present = omega (arith, v.present, counts null);
    }

-- When a consistent scheduler resumes a process, it is consistent again, and its done queue is empty.
pub schedule-IsConsistent :
    (f f' : Frame) (s s' : Scheduler)
    → IsConsistent s
    → schedule f s ≡ resumed f' s'
    → IsConsistent s' × (s'.done_queue ≡ [])
unfolding schedule
schedule-IsConsistent f f' s s' v e =
    let (r, t) = chosen f s in
    let (ne, frame, state) = switch_to-resumed f f' r t s' e in
    let runs = running_next-IsConsistent r t (chosen-IsChosen f s v) ne in
    rw state (
      reap-IsConsistent (running_next r t) runs,
      (reap-Reaped t.done_queue (running_next r t) refl).done,
    )

-- When a consistent scheduler resumes a process, the places of every process (the current one, and
-- its places in the four queues) and the times its block was given back to the heap are, taken
-- together, as many as before.
pub schedule_conserves :
    (f f' : Frame) (s s' : Scheduler) (p : Ptr)
    → IsConsistent s
    → schedule f s ≡ resumed f' s'
    → p ≢ null
    → members s' p + freed s'.calls p ≡ members s p + freed s.calls p
unfolding schedule
schedule_conserves f f' s s' p v e ne =
    let parked = park f s in
    let admitted = admit_new parked.start_queue parked in
    let resolved = lined_up f s in
    let (r, t) = chosen f s in
    let (nr, frame, state) = switch_to-resumed f f' r t s' e in
    let line = lined_up-IsConsistent f s v in
    let c = current-reap t.done_queue (running_next r t) in
    let calls : t.calls ≡ s.calls =
      (next_ready-Keeps resolved.ready_queue resolved).calls
      ∙ (resolve_waiting-Keeps admitted.waiting_queue admitted).calls
      ∙ (admit_new-Keeps parked.start_queue parked).calls
      ∙ (park-Keeps f s).calls in
    rw (state, c)
      (omega (
        arith,
        members-park f s p ne v.current,
        here_null (park f s).current p ne (park-IsConsistent f s v).1,
        queued-admit_new parked.start_queue parked p refl,
        queued-resolve_waiting admitted.waiting_queue admitted p refl,
        queued-next_ready resolved.ready_queue resolved p ne refl line.0.ready,
        queued-reap t.done_queue (running_next r t) p refl,
        ap (λ (cs : List Call). freed cs p) calls,
      ))
