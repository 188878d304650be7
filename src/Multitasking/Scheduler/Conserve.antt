-- ===== src/Multitasking/Scheduler/Conserve.antt =====
-- No step of `schedule` loses a process or puts it in two places.
use semester_5_coursework.Prelude.{
  ◌+◌, ◌≡◌, ◌≢◌, refl, ap, inl, inr, List, [], ◌∷◌, ◌++◌, arith, ◌==◌, Bool-cases, count,
  count-append,
}
use semester_5_coursework.Multitasking.Process.{
  ProcessState, running, ready, waiting, start, done, Frame, set_state, is_ready,
}
use semester_5_coursework.Multitasking.Scheduler.{
  enqueue_saved, Scheduler, destroy_directory, free, park, admit_new, resolve_waiting, next_ready,
  reap,
}
use semester_5_coursework.Multitasking.Scheduler.Fields.{save_current_lem}
use semester_5_coursework.Multitasking.Scheduler.Members.{
  here, queued, members, freed, freed-append, CanPark, CanLine, AllIn,
}
use semester_5_coursework.Queue.{Ptr, null}

pub queued-admit_new :
    (ps : List Ptr) (s : Scheduler) (p : Ptr)
    → s.start_queue ≡ ps
    → queued (admit_new ps s) p ≡ queued s p
unfolding admit_new
queued-admit_new [] s p e = refl
queued-admit_new (q ∷ ps) s p e = omega (
  arith,
  queued-admit_new ps
      (record s {
        start_queue = ps;
        pcbs = set_state s.pcbs q ready;
        ready_queue = s.ready_queue ++ (q ∷ []);
      })
      p refl,
  count-append p s.ready_queue (q ∷ []),
  ap (count p) e,
)

pub queued-resolve_waiting :
    (ps : List Ptr) (s : Scheduler) (p : Ptr)
    → s.waiting_queue ≡ ps
    → queued (resolve_waiting ps s) p ≡ queued s p
unfolding resolve_waiting
queued-resolve_waiting [] s p e = refl
queued-resolve_waiting (q ∷ ps) s p e = elim (Bool-cases (is_ready (s.pcbs q).state)) [
  | inl r ↦ rw r (
      omega (
        arith,
        queued-resolve_waiting ps
            (record s { ready_queue = s.ready_queue ++ (q ∷ []); waiting_queue = ps }) p refl,
        count-append p s.ready_queue (q ∷ []),
        ap (count p) e,
      ))
  | inr w ↦ rw w
]

-- The process that is chosen leaves the queues; every other stays in one of them.
pub queued-next_ready :
    (ps : List Ptr) (s : Scheduler) (p : Ptr)
    → p ≢ null
    → s.ready_queue ≡ ps
    → AllIn CanLine s.pcbs ps
    → let (r, t) = next_ready ps s in here r p + queued t p ≡ queued s p
unfolding next_ready
queued-next_ready [] s p ne e h = ground arith
queued-next_ready (q ∷ ps) s p ne e h =
    (elim (s.pcbs q).state
        as (λ st.
          (s.pcbs q).state ≡ st
          → let (r, t) = next_ready (q ∷ ps) s in here r p + queued t p ≡ queued s p) [
            | ready ↦ λ is. rw (is, next_ready) (omega (arith, ap (count p) e))
            | done ↦ λ is.
                rw (is, next_ready)
                  (omega (
                    arith,
                    queued-next_ready ps
                        (record s { ready_queue = ps; done_queue = s.done_queue ++ (q ∷ []) }) p ne
                        refl h.1,
                    count-append p s.done_queue (q ∷ []),
                    ap (count p) e,
                  ))
            | waiting ↦ λ is.
                rw (is, next_ready)
                  (omega (
                    arith,
                    queued-next_ready ps
                        (record s { ready_queue = ps; waiting_queue = s.waiting_queue ++ (q ∷ []) })
                        p ne refl h.1,
                    count-append p s.waiting_queue (q ∷ []),
                    ap (count p) e,
                  ))
            | running ↦ λ is. absurd (rw is at (h.0))
            | start ↦ λ is. absurd (rw is at (h.0))
          ])
      refl

-- Reaping takes exactly the done processes out, and gives each block back to the heap.
pub queued-reap :
    (ps : List Ptr) (s : Scheduler) (p : Ptr)
    → s.done_queue ≡ ps
    → queued (reap ps s) p + freed (reap ps s).calls p ≡ queued s p + freed s.calls p
unfolding reap
queued-reap [] s p e = refl
queued-reap (q ∷ ps) s p e = omega (
  arith,
  queued-reap ps
      (record s {
        done_queue = ps;
        all = _;
        calls = s.calls ++ (destroy_directory (s.pcbs q).cr3 ∷ free q ∷ []);
      })
      p refl,
  freed-append s.calls (destroy_directory (s.pcbs q).cr3 ∷ free q ∷ []) p,
  ap (count p) e,
)

pub members-enqueue_saved :
    (st : ProcessState) (q : Ptr) (s : Scheduler) (p : Ptr)
    → p ≢ null
    → CanPark st
    → members (record (enqueue_saved st q s) { current = null }) p ≡ here q p + queued s p
members-enqueue_saved running q s p ne h = ground (arith, count-append p s.ready_queue (q ∷ []))
members-enqueue_saved waiting q s p ne h = ground (arith, count-append p s.waiting_queue (q ∷ []))
members-enqueue_saved done q s p ne h = ground (arith, count-append p s.done_queue (q ∷ []))
members-enqueue_saved ready q s p ne h = absurd h
members-enqueue_saved start q s p ne h = absurd h

pub members-park :
    (f : Frame) (s : Scheduler) (p : Ptr)
    → p ≢ null
    → (s.current ≢ null → CanPark (s.pcbs s.current).state)
    → members (park f s) p ≡ members s p
members-park f s p ne h = elim (Bool-cases (s.current == null)) [
  | inl z ↦ rw z
  | inr nz ↦
      rw (nz, save_current_lem) (members-enqueue_saved _ s.current _ p ne (h (λ z. ground arith)))
]
