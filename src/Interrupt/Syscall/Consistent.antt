-- ===== src/Interrupt/Syscall/Consistent.antt =====
-- The system calls that change processes keep the scheduler consistent.
use mathlib.Core.Path.{sym, subst}
use semester_5_coursework.Prelude.{
  ◌⊎◌, arith, ◌∙◌, ap, inr, ◌∷◌, inl, Option-cases, ◌==◌, ◌≡◌, Bool-cases, refl, ℕ, ◌≢◌, get_or, [],
  some,
}
use semester_5_coursework.Interrupt.Syscall.{
  release_slot, find_completed, wait_pcb, tell_parent, find_slot, end_process, complete_child, exit,
  kill, wait, notify_parent_complete,
}
use semester_5_coursework.Multitasking.Process.{
  Pcb, waiting, done, running, ready, set_pcb, ProcessState,
}
use semester_5_coursework.Multitasking.Scheduler.{Scheduler, get}
use semester_5_coursework.Multitasking.Scheduler.Members.{
  IsDone, CanLine, AllIn-change, CanPark, IsConsistent,
}
use semester_5_coursework.Queue.{Ptr, null}

-- A process whose state stays, or becomes one that every queue allows.
abbrev pub Allowed : ProcessState → ProcessState → Type 0
Allowed from to =
    (CanPark from → CanPark to) × (CanLine from → CanLine to) × (IsDone from → IsDone to)

pub change-IsConsistent :
    (q : Ptr) (c : Pcb) (s : Scheduler)
    → IsConsistent s
    → Allowed (s.pcbs q).state c.state
    → IsConsistent (record s { pcbs = set_pcb s.pcbs q c })
change-IsConsistent q c s v allowed = record {
  current =
      λ n. (AllIn-change CanPark s.pcbs q c (s.current ∷ []) (λ k. allowed.0) (v.current n, tt)).0;
  ready = AllIn-change CanLine s.pcbs q c s.ready_queue (λ k. allowed.1) v.ready;
  waiting = AllIn-change CanLine s.pcbs q c s.waiting_queue (λ k. allowed.1) v.waiting;
  done = AllIn-change IsDone s.pcbs q c s.done_queue (λ k. allowed.2) v.done;
  once = v.once;
  present = v.present;
}

-- A waiting process that is not the current one may become ready.
wake-IsConsistent :
    (q : Ptr) (c : Pcb) (s : Scheduler)
    → IsConsistent s
    → (s.pcbs s.current).state ≢ waiting
    → (s.pcbs q).state ≡ waiting
    → c.state ≡ ready
    → IsConsistent (record s { pcbs = set_pcb s.pcbs q c })
wake-IsConsistent q c s v nw w r = record {
  current = λ n.
      (AllIn-change CanPark s.pcbs q c (s.current ∷ [])
        (λ k h. absurd (nw (ap (λ (x : Ptr). (s.pcbs x).state) (ground arith) ∙ w)))
        (v.current n, tt)).0;
  ready = AllIn-change CanLine s.pcbs q c s.ready_queue (λ k h. subst CanLine (sym r) tt) v.ready;
  waiting =
      AllIn-change CanLine s.pcbs q c s.waiting_queue (λ k h. subst CanLine (sym r) tt) v.waiting;
  done = AllIn-change IsDone s.pcbs q c s.done_queue (λ k h. cc) v.done;
  once = v.once;
  present = v.present;
}

complete_child-IsConsistent :
    (st : ProcessState) (pid i : ℕ) (q : Ptr) (s : Scheduler)
    → IsConsistent s
    → (s.pcbs s.current).state ≢ waiting
    → (s.pcbs q).state ≡ st
    → IsConsistent (record s { pcbs = set_pcb s.pcbs q (complete_child st pid i (s.pcbs q)) })
complete_child-IsConsistent waiting pid i q s v nw e = wake-IsConsistent q _ s v nw e refl
complete_child-IsConsistent ready pid i q s v nw e =
    change-IsConsistent q _ s v (λ h. h, λ h. h, λ h. h)
complete_child-IsConsistent _ pid i q s v nw e =
    change-IsConsistent q _ s v (λ h. h, λ h. h, λ h. h)

notify-IsConsistent :
    (p : Ptr) (s : Scheduler)
    → IsConsistent s
    → (s.pcbs s.current).state ≢ waiting
    → IsConsistent (record s { pcbs = notify_parent_complete p s.pcbs })
unfolding notify_parent_complete
notify-IsConsistent p s v nw = elim (Bool-cases ((s.pcbs p).parent == null)) [
  | inl z ↦ rw z v
  | inr nz ↦ elim (Option-cases (find_slot (s.pcbs p).pid (s.pcbs (s.pcbs p).parent).child 0)) [
    | inl n ↦ rw (nz, n, tell_parent) v
    | inr (i, f) ↦
        rw (nz, f, tell_parent)
          (complete_child-IsConsistent (s.pcbs (s.pcbs p).parent).state (s.pcbs p).pid i
            (s.pcbs p).parent s v nw refl)
  ]
]

-- A process that ends keeps the scheduler consistent, while the current one runs.
end_process-IsConsistent :
    (p : Ptr) (c : Pcb) (s : Scheduler)
    → IsConsistent s
    → (s.pcbs s.current).state ≡ running
    → IsConsistent (end_process p c s)
end_process-IsConsistent p c s v r =
    let c' = record c { state = done } in
    let ended = change-IsConsistent p c' s v (λ h. tt, λ h. tt, λ h. refl) in
    notify-IsConsistent p (record s { pcbs = set_pcb s.pcbs p c' }) ended (λ e. ground arith)

-- `exit` of the running process keeps a consistent scheduler consistent.
pub exit-IsConsistent :
    (code : ℕ) (s : Scheduler)
    → IsConsistent s
    → (s.pcbs s.current).state ≡ running
    → IsConsistent (exit code s)
unfolding exit
exit-IsConsistent code s v r =
    end_process-IsConsistent s.current (record (s.pcbs s.current) { exit_code = code }) s v r

-- `kill` by the running process keeps a consistent scheduler consistent, wherever the process that
-- it finds stands; so it does when it finds none.
pub kill-IsConsistent :
    (pid sig result : ℕ) (s s' : Scheduler)
    → IsConsistent s
    → (s.pcbs s.current).state ≡ running
    → kill pid sig s ≡ some (result, s')
    → IsConsistent s'
unfolding kill
kill-IsConsistent pid sig result s s' v r e = elim (Option-cases (get pid s)) [
  | inl n ↦ cc (rw (n, kill) at e)
  | inr (p, g) ↦ elim (Bool-cases (p == null)) [
    | inl z ↦ subst IsConsistent (cc (rw (g, z, kill) at e)) v
    | inr nz ↦
        subst IsConsistent (cc (rw (g, nz, kill) at e))
          (end_process-IsConsistent p (record (s.pcbs p) { signal = sig }) s v r)
  ]
]

-- `wait` leaves the caller in a state in which it can be interrupted.
wait_pcb-state :
    (c c' : Pcb) (result : ℕ)
    → wait_pcb c ≡ some (result, c')
    → (c'.state ≡ c.state) ⊎ (c'.state ≡ waiting)
unfolding wait_pcb
wait_pcb-state c c' result e = elim (Bool-cases (c.child_bitmap == 0)) [
  | inl z ↦ inl (ground arith)
  | inr nz ↦ elim (Bool-cases (c.child_completed_bitmap == 0)) [
    | inl z ↦ inr (ground arith)
    | inr m ↦ elim (Option-cases (find_completed 32 c.child_completed_bitmap 0)) [
      | inl n ↦ cc (rw (nz, m, n, wait_pcb) at e)
      | inr (i, f) ↦
          let found : some (get_or c.child i 0, release_slot i c) ≡ some (result, c') =
            rw (nz, m, f, wait_pcb) at e in
          let same : release_slot i c ≡ c' = cc found in inl (sym (ap (λ (x : Pcb). x.state) same))
    ]
  ]
]

-- The current process is in no queue, and may change to any state that can be interrupted.
pub current-IsConsistent :
    (c : Pcb) (s : Scheduler)
    → IsConsistent s
    → s.current ≢ null
    → CanPark c.state
    → IsConsistent (record s { pcbs = set_pcb s.pcbs s.current c })
current-IsConsistent c s v ne h =
    let alone = v.once s.current ne in
    record {
      current = λ n.
          (AllIn-change CanPark s.pcbs s.current c (s.current ∷ []) (λ k p. h) (v.current n, tt)).0;
      ready =
          AllIn-change CanLine s.pcbs s.current c s.ready_queue
            (λ k. absurd (ground (arith, alone))) v.ready;
      waiting =
          AllIn-change CanLine s.pcbs s.current c s.waiting_queue
            (λ k. absurd (ground (arith, alone))) v.waiting;
      done =
          AllIn-change IsDone s.pcbs s.current c s.done_queue (λ k. absurd (ground (arith, alone)))
            v.done;
      once = v.once;
      present = v.present;
    }

-- `wait` of the running process keeps a consistent scheduler consistent, whether it returns or blocks.
pub wait-IsConsistent :
    (result : ℕ) (s s' : Scheduler)
    → IsConsistent s
    → (s.pcbs s.current).state ≡ running
    → s.current ≢ null
    → wait s ≡ some (result, s')
    → IsConsistent s'
unfolding wait
wait-IsConsistent result s s' v r ne e = elim (Option-cases (wait_pcb (s.pcbs s.current))) [
  | inl n ↦ cc (rw (n, wait) at e)
  | inr ((x, c), f) ↦
      let after : some (x, record s { pcbs = set_pcb s.pcbs s.current c }) ≡ some (result, s') =
        rw (f, wait) at e in
      let parks : CanPark c.state = elim (wait_pcb-state (s.pcbs s.current) c x f) [
        | inl same ↦ subst CanPark (sym (same ∙ r)) tt
        | inr blocked ↦ subst CanPark (sym blocked) tt
      ] in
      subst IsConsistent (cc after) (current-IsConsistent c s v ne parks)
]
