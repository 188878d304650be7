-- ===== src/Multitasking/Scheduler/Starvation.antt =====
-- Processes that `schedule` does not treat by their state: those behind a blocked head of the
-- waiting queue, and those killed before their first run.
use native.Mathlib.Decide.{ℕ_discrete}
use mathlib.Core.Path.{subst}
use semester_5_coursework.Prelude.{
  ◌+◌, count-append, inr, ◌⊎◌, inl, false, ◌==◌, ◌<◌, Bool-cases, append_assoc, ◌≢◌, arith,
  append-nil, ap, ◌∙◌, sym, count, ◌≡◌, ◌++◌, refl, List, [], ◌∷◌,
}
use semester_5_coursework.Multitasking.Process.{
  Pcb, start, waiting, set_pcb, is_ready, done, set_state, ProcessState, Frame, Pcbs, ready,
  running,
}
use semester_5_coursework.Multitasking.Scheduler.{
  save_registers, resumed, resolve_waiting, enqueue_saved, park, next_ready, admit_new, Scheduler,
  schedule,
}
use semester_5_coursework.Multitasking.Scheduler.Fields.{
  set_state_self, current-reap, pcbs-reap, pcbs-resolve_waiting, pcbs-next_ready, park_lem,
}
use semester_5_coursework.Multitasking.Scheduler.Members.{IsConsistent}
use semester_5_coursework.Multitasking.Scheduler.Schedule.{schedule-IsConsistent, reap-Reaped}
use semester_5_coursework.Multitasking.Scheduler.Switch.{
  schedule_loads, running_next, lined_up, switch_to-resumed, chosen,
}
use semester_5_coursework.Queue.{Ptr, null}

state-set_ne :
    (m : Pcbs) (p q : Ptr) (st : ProcessState) → q ≢ p → (set_state m p st q).state ≡ (m q).state
state-set_ne m p q st h = ground arith

state-admit_new :
    (ps : List Ptr) (s : Scheduler) (q : Ptr)
    → count q ps ≡ 0
    → ((admit_new ps s).pcbs q).state ≡ (s.pcbs q).state
unfolding admit_new
state-admit_new [] s q h = refl
state-admit_new (p ∷ ps) s q h =
    state-admit_new ps _ q (omega (arith, h))
    ∙ state-set_ne s.pcbs p q ready (λ e. ground (arith, h))

waiting-admit_new :
    (ps : List Ptr) (s : Scheduler) → (admit_new ps s).waiting_queue ≡ s.waiting_queue
unfolding admit_new
waiting-admit_new [] s = refl
waiting-admit_new (p ∷ ps) s = waiting-admit_new ps _

-- The second list is the first with more behind it.
abbrev pub Extends : List Ptr → List Ptr → Type 0
Extends xs ys = (more : List Ptr) × (ys ≡ xs ++ more)

Extends-trans : (xs ys zs : List Ptr) → Extends xs ys → Extends ys zs → Extends xs zs
Extends-trans xs ys zs h k =
    (h.0 ++ k.0, k.1 ∙ ap (λ (l : List Ptr). l ++ k.0) h.1 ∙ append_assoc xs h.0 k.0)

waiting-next_ready :
    (ps : List Ptr) (s : Scheduler) → Extends s.waiting_queue (next_ready ps s).1.waiting_queue
unfolding next_ready
waiting-next_ready [] s = ([], sym (append-nil s.waiting_queue))
waiting-next_ready (q ∷ ps) s =
    (elim (s.pcbs q).state
        as (λ st.
          (s.pcbs q).state ≡ st → Extends s.waiting_queue (next_ready (q ∷ ps) s).1.waiting_queue) [
            | ready ↦ λ is. rw (is, next_ready) ([], sym (append-nil s.waiting_queue))
            | done ↦ λ is.
                rw (is, next_ready)
                  (waiting-next_ready ps
                    (record s { ready_queue = ps; done_queue = s.done_queue ++ (q ∷ []) }))
            | waiting ↦ λ is.
                rw (is, next_ready)
                  (Extends-trans s.waiting_queue (s.waiting_queue ++ (q ∷ [])) _ (q ∷ [], refl)
                    (waiting-next_ready ps
                      (record s { ready_queue = ps; waiting_queue = s.waiting_queue ++ (q ∷ []) })))
            | running ↦
                λ is. rw (is, next_ready) (waiting-next_ready ps (record s { ready_queue = ps }))
            | start ↦
                λ is. rw (is, next_ready) (waiting-next_ready ps (record s { ready_queue = ps }))
          ])
      refl

-- Parking a process leaves the state of any other, and the queue of the new ones.
abbrev pub LeavesOthers : Ptr → Scheduler → Scheduler → Type 0
LeavesOthers w s t =
    ((t.pcbs w).state ≡ (s.pcbs w).state)
    × Extends s.waiting_queue t.waiting_queue
    × (t.start_queue ≡ s.start_queue)

enqueue_saved-LeavesOthers :
    (st : ProcessState) (q w : Ptr) (s : Scheduler)
    → w ≢ q
    → LeavesOthers w s (enqueue_saved st q s)
enqueue_saved-LeavesOthers running q w s h =
    (state-set_ne s.pcbs q w ready h, ([], sym (append-nil s.waiting_queue)), refl)
enqueue_saved-LeavesOthers waiting q w s h = (refl, (q ∷ [], refl), refl)
enqueue_saved-LeavesOthers _ q w s h = (refl, ([], sym (append-nil s.waiting_queue)), refl)

park-LeavesOthers :
    (f : Frame) (s : Scheduler) (w : Ptr) → w ≢ s.current → LeavesOthers w s (park f s)
park-LeavesOthers f s w h = elim (Bool-cases (s.current == null)) [
  | inl z ↦ rw z (refl, ([], sym (append-nil s.waiting_queue)), refl)
  | inr nz ↦
      let saved = record s {
        pcbs = set_pcb s.pcbs s.current (save_registers f (s.pcbs s.current));
      } in
      let t = record (enqueue_saved (s.pcbs s.current).state s.current saved) { current = null } in
      let stays = enqueue_saved-LeavesOthers (s.pcbs s.current).state s.current w saved h in
      let same : (saved.pcbs w).state ≡ (s.pcbs w).state = ground arith in
      let left : LeavesOthers w s t = (stays.0 ∙ same, stays.1, stays.2) in
      subst (LeavesOthers w s) (sym (park_lem f s (λ z. ground arith))) left
]

resolve_waiting-blocked :
    (w : Ptr) (ws : List Ptr) (s : Scheduler)
    → is_ready (s.pcbs w).state ≡ false
    → resolve_waiting (w ∷ ws) s ≡ s
unfolding resolve_waiting
resolve_waiting-blocked w ws s h = rw h

-- While the first waiting process is not ready, for instance because it was killed, it and all the
-- processes behind it stay in the waiting queue, whatever their own state: none of them is resumed.
pub schedule_blocked :
    (f f' : Frame) (s s' : Scheduler) (w p : Ptr) (ws : List Ptr)
    → IsConsistent s
    → s.waiting_queue ≡ w ∷ ws
    → is_ready (s.pcbs w).state ≡ false
    → schedule f s ≡ resumed f' s'
    → Extends (w ∷ ws) s'.waiting_queue × (0 < count p (w ∷ ws) → s'.current ≢ p)
unfolding schedule
schedule_blocked f f' s s' w p ws v e blocked run =
    let parked = park f s in
    let admitted = admit_new parked.start_queue parked in
    let (r, t) = chosen f s in
    let (ne, frame, state) = switch_to-resumed f f' r t s' run in
    let nw : w ≢ null = λ z. ground (arith, v.present, ap (count null) e) in
    let apart : w ≢ s.current = λ z. ground (arith, v.once w nw, ap (count w) e) in
    let others = park-LeavesOthers f s w apart in
    let new : count w parked.start_queue ≡ 0 =
      ground (arith, v.once w nw, ap (count w) e, ap (count w) (others.2)) in
    let waits : Extends (w ∷ ws) admitted.waiting_queue =
      rw (waiting-admit_new parked.start_queue parked)
        (subst (λ (l : List Ptr). Extends l parked.waiting_queue) e others.1) in
    let first : is_ready (admitted.pcbs w).state ≡ false =
      ap is_ready (state-admit_new parked.start_queue parked w new ∙ others.0) ∙ blocked in
    let still : lined_up f s ≡ admitted =
      ap (λ (l : List Ptr). resolve_waiting l admitted) (waits.1)
      ∙ resolve_waiting-blocked w (ws ++ waits.0) admitted first in
    let stay : Extends (w ∷ ws) t.waiting_queue =
      Extends-trans (w ∷ ws) admitted.waiting_queue t.waiting_queue waits (
        subst (λ (x : Scheduler). Extends x.waiting_queue t.waiting_queue) still
          (waiting-next_ready (lined_up f s).ready_queue (lined_up f s))) in
    let reaped = (reap-Reaped t.done_queue (running_next r t) refl).waiting in
    let final : Extends (w ∷ ws) s'.waiting_queue =
      (stay.0, ap (λ (x : Scheduler). x.waiting_queue) state ∙ reaped ∙ stay.1) in
    let v' = (schedule-IsConsistent f f' s s' v run).0 in
    let loaded = schedule_loads f f' s s' run in
    (
      final,
      λ many same. ground (
        arith,
        v'.once p (λ z. loaded.0 (same ∙ z)),
        ap (count p) final.1,
        count-append p (w ∷ ws) final.0,
      ),
    )

ready-admit_new :
    (ps : List Ptr) (s : Scheduler) (q : Ptr)
    → (0 < count q ps) ⊎ ((s.pcbs q).state ≡ ready)
    → ((admit_new ps s).pcbs q).state ≡ ready
unfolding admit_new
ready-admit_new [] s q (inl h) = absurd (omega (arith, h))
ready-admit_new [] s q (inr h) = h
ready-admit_new (p ∷ ps) s q h =
    ready-admit_new ps
      (record s {
        start_queue = ps;
        pcbs = set_state s.pcbs p ready;
        ready_queue = s.ready_queue ++ (p ∷ []);
      })
      q (ground (arith, h))

running_next-state :
    (r p : Ptr) (t : Scheduler)
    → p ≢ r
    → (t.pcbs p).state ≡ ready
    → ((running_next r t).pcbs p).state ≡ ready
running_next-state r p t ne is = state-set_ne t.pcbs r p running ne ∙ is

-- What is in the ready queue, or is put there, stays in it.
ready_queue-admit_new :
    (ps : List Ptr) (s : Scheduler) (q : Ptr)
    → 0 < count q ps + count q s.ready_queue
    → 0 < count q (admit_new ps s).ready_queue
unfolding admit_new
ready_queue-admit_new [] s q h = omega (arith, h)
ready_queue-admit_new (p ∷ ps) s q h =
    ready_queue-admit_new ps _ q (ground (arith, h, count-append q s.ready_queue (p ∷ [])))

ready_queue-resolve_waiting :
    (ps : List Ptr) (s : Scheduler) (q : Ptr)
    → 0 < count q s.ready_queue
    → 0 < count q (resolve_waiting ps s).ready_queue
unfolding resolve_waiting
ready_queue-resolve_waiting [] s q h = h
ready_queue-resolve_waiting (p ∷ ps) s q h =
    let s' = record s { ready_queue = s.ready_queue ++ (p ∷ []); waiting_queue = ps } in
    let rest =
      ready_queue-resolve_waiting ps s' q
        (omega (arith, h, count-append q s.ready_queue (p ∷ []))) in
    elim (Bool-cases (is_ready (s.pcbs p).state)) [
      | inl yes_ready ↦ rw yes_ready rest
      | inr not_ready ↦ rw not_ready h
    ]

-- A ready process of the ready queue is chosen, or stays in it.
abbrev IsQueued : Ptr → Ptr × Scheduler → Type 0
IsQueued q (r, t) = (q ≡ r) ⊎ (0 < count q t.ready_queue)

next_ready-IsQueued :
    (ps : List Ptr) (s : Scheduler) (q : Ptr)
    → (s.pcbs q).state ≡ ready
    → 0 < count q ps
    → IsQueued q (next_ready ps s)
unfolding next_ready
next_ready-IsQueued [] s q is h = absurd (omega (arith, h))
next_ready-IsQueued (p ∷ ps) s q is h =
    (elim (s.pcbs p).state as (λ st. (s.pcbs p).state ≡ st → IsQueued q (next_ready (p ∷ ps) s)) [
      | ready ↦ λ e. rw (e, next_ready) (ground (arith, h))
      | done ↦ λ e. rw (e, next_ready) (next_ready-IsQueued ps _ q is (apart e (λ z. cc) h))
      | waiting ↦ λ e. rw (e, next_ready) (next_ready-IsQueued ps _ q is (apart e (λ z. cc) h))
      | running ↦ λ e. rw (e, next_ready) (next_ready-IsQueued ps _ q is (apart e (λ z. cc) h))
      | start ↦ λ e. rw (e, next_ready) (next_ready-IsQueued ps _ q is (apart e (λ z. cc) h))
    ])
      refl
  where
    apart :
        {st : ProcessState}
        → (s.pcbs p).state ≡ st
        → st ≢ ready
        → 0 < count q (p ∷ ps)
        → 0 < count q ps
    apart e ne h =
        let other : q ≢ p = λ z. ne (sym e ∙ ap (λ (x : Ptr). (s.pcbs x).state) (sym z) ∙ is) in
        ground (arith, h)

-- A new process, whatever its state was, either runs after `schedule` or is ready and in the ready
-- queue: one that was killed before its first run is not ended.
pub schedule_revives :
    (f f' : Frame) (s s' : Scheduler) (p : Ptr)
    → p ≢ s.current
    → 0 < count p s.start_queue
    → schedule f s ≡ resumed f' s'
    → ((s'.current ≡ p) × ((s'.pcbs p).state ≡ running))
      ⊎ ((0 < count p s'.ready_queue) × ((s'.pcbs p).state ≡ ready))
unfolding schedule
schedule_revives f f' s s' p apart new run =
    let parked = park f s in
    let admitted = admit_new parked.start_queue parked in
    let (r, t) = chosen f s in
    let (ne, frame, state) = switch_to-resumed f f' r t s' run in
    let many : 0 < count p parked.start_queue =
      omega (arith, new, ap (count p) (park-LeavesOthers f s p apart).2) in
    let lined : ((lined_up f s).pcbs p).state ≡ ready =
      ap (λ (m : Pcbs). (m p).state) (pcbs-resolve_waiting _ _)
      ∙ ready-admit_new parked.start_queue parked p (inl many) in
    let now : (t.pcbs p).state ≡ ready =
      ap (λ (m : Pcbs). (m p).state) (pcbs-next_ready _ _) ∙ lined in
    let queued =
      ready_queue-resolve_waiting admitted.waiting_queue admitted p
        (ready_queue-admit_new parked.start_queue parked p (omega (arith, many))) in
    let pcbs : s'.pcbs ≡ (running_next r t).pcbs =
      ap (λ (x : Scheduler). x.pcbs) state ∙ pcbs-reap _ _ in
    let current : s'.current ≡ r = ap (λ (x : Scheduler). x.current) state ∙ current-reap _ _ in
    let ready_queue : s'.ready_queue ≡ t.ready_queue =
      ap (λ (x : Scheduler). x.ready_queue) state
      ∙ (reap-Reaped t.done_queue (running_next r t) refl).ready in
    elim (ℕ_discrete p r) [
      | yes e ↦
          let self = ap (λ (c : Pcb). c.state) (set_state_self t.pcbs r running) in
          inl (
            current ∙ sym e,
            ap (λ (m : Pcbs). (m p).state) pcbs
                ∙ ap (λ (x : Ptr). ((running_next r t).pcbs x).state) e
                ∙ self,
          )
      | no ne' ↦
          elim (next_ready-IsQueued (lined_up f s).ready_queue (lined_up f s) p lined queued) [
            | inl chosen_one ↦ absurd (ne' chosen_one)
            | inr stays ↦ inr (
              omega (arith, stays, ap (count p) ready_queue),
              ap (λ (m : Pcbs). (m p).state) pcbs ∙ running_next-state r p t ne' now,
            )
          ]
    ]
