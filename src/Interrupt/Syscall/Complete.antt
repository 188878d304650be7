-- ===== src/Interrupt/Syscall/Complete.antt =====
-- What a parent learns when its child ends.
use mathlib.Core.Path.{sym, subst}
use semester_5_coursework.Prelude.{
  ◌∙◌, ◌<◌, ap, if◌then◌else◌, arith, false, ◌==◌, ◌≡◌, refl, ℕ, ◌≢◌, get_or, some,
}
use semester_5_coursework.Bits.{bit-clear, bit}
use semester_5_coursework.Interrupt.Syscall.{
  tell_parent, wait_pcb, complete_child, find_slot, exit, kill, notify_parent_complete,
}
use semester_5_coursework.Interrupt.Syscall.Family.{get_or-set}
use semester_5_coursework.Interrupt.Syscall.Slots.{find_slot-some}
use semester_5_coursework.Multitasking.Process.{
  Pcb, waiting, done, running, ready, Pcbs, ProcessState, set_pcb,
}
use semester_5_coursework.Multitasking.Scheduler.{Scheduler, get}
use semester_5_coursework.Queue.{Ptr, null}

-- The control blocks once process `p` has ended and its parent is told: the parent's alone differs.
notify_found :
    (p : Ptr) (m : Pcbs) (c b : Pcb) (i : ℕ)
    → m p ≡ c
    → m c.parent ≡ b
    → c.parent ≢ null
    → find_slot c.pid b.child 0 ≡ some i
    → notify_parent_complete p m ≡ set_pcb m c.parent (complete_child b.state c.pid i b)
unfolding notify_parent_complete
notify_found p m c b i ep eb ne f =
    let nz : (c.parent == null) ≡ false = ground arith in
    ap (λ (x : Pcb). tell_parent x (m x.parent) m) ep
    ∙ ap (λ (x : Pcb). tell_parent c x m) eb
    ∙ rw (nz, f)

set_pcb_self : (m : Pcbs) (p : Ptr) (c : Pcb) → set_pcb m p c p ≡ c
set_pcb_self m p c = ground arith

set_pcb_ne : (m : Pcbs) (p q : Ptr) (c : Pcb) → q ≢ p → set_pcb m p c q ≡ m q
set_pcb_ne m p q c h = ground arith

-- What an ending process and its parent are left with.
end_process_found :
    (p : Ptr) (m : Pcbs) (c : Pcb) (i : ℕ)
    → c.parent ≢ null
    → c.parent ≢ p
    → find_slot c.pid (m c.parent).child 0 ≡ some i
    → let m' = notify_parent_complete p (set_pcb m p c) in
      (m' c.parent ≡ complete_child (m c.parent).state c.pid i (m c.parent)) × (m' p ≡ c)
end_process_found p m c i ne apart f =
    let m₁ = set_pcb m p c in
    let told =
      notify_found p m₁ c (m c.parent) i (set_pcb_self m p c) (set_pcb_ne m p c.parent c apart) ne
        f in
    let told_at = λ (q : Ptr). ap (λ (x : Pcbs). x q) told in
    (
      told_at c.parent ∙ set_pcb_self m₁ c.parent _,
      told_at p ∙ set_pcb_ne m₁ c.parent p _ (λ e. apart (sym e)) ∙ set_pcb_self m p c,
    )

-- What a waiting parent finds when its child of slot `i` has ended.
pub record Woken (pid i : ℕ) (b b' : Pcb) : Type 0 where
  pub state : b'.state ≡ ready
  pub result : b'.context.eax ≡ pid
  pub slot : (k : ℕ) → get_or b'.child k 0 ≡ (if i == k then 0 else get_or b.child k 0)
  pub bitmap :
      (k : ℕ) → k < 32 → bit b'.child_bitmap k ≡ (if i == k then 0 else bit b.child_bitmap k)

complete_child-Woken :
    (pid i : ℕ) (b : Pcb)
    → b.state ≡ waiting
    → find_slot pid b.child 0 ≡ some i
    → Woken pid i b (complete_child b.state pid i b)
complete_child-Woken pid i b w f =
    let found = find_slot-some pid b.child 0 i f in
    rw (w, complete_child)
      (record {
        state = refl;
        result = refl;
        slot = λ k. get_or-set b.child i k 0 (omega (arith, found));
        bitmap = λ k p. bit-clear b.child_bitmap i k p;
      })

-- A child that exits wakes a parent that waits for it: the parent becomes ready, finds the child's
-- pid in eax, and has the child's slot free, and no other; the child is done, with its exit code.
pub exit_wakes :
    (code i : ℕ) (s : Scheduler)
    → (s.pcbs s.current).parent ≢ null
    → (s.pcbs s.current).parent ≢ s.current
    → find_slot (s.pcbs s.current).pid (s.pcbs (s.pcbs s.current).parent).child 0 ≡ some i
    → (s.pcbs (s.pcbs s.current).parent).state ≡ waiting
    → let c = s.pcbs s.current in
      let s' = exit code s in
      Woken c.pid i (s.pcbs c.parent) (s'.pcbs c.parent)
      × (s'.pcbs s.current ≡ record c { state = done; exit_code = code })
unfolding exit
exit_wakes code i s ne apart f w =
    let c = record (s.pcbs s.current) { state = done; exit_code = code } in
    let b = s.pcbs c.parent in
    let ended = end_process_found s.current s.pcbs c i ne apart f in
    (subst (Woken c.pid i b) (sym (ended.0)) (complete_child-Woken c.pid i b w f), ended.1)

wait_pcb-blocks :
    (c : Pcb)
    → c.child_bitmap ≢ 0
    → c.child_completed_bitmap ≡ 0
    → wait_pcb c ≡ some (0, record c { state = waiting })
unfolding wait_pcb
wait_pcb-blocks c b z = ground arith

-- A parent that kills its own child is running, and so is told nothing: its control block stays as
-- it was, though the child is done. If it waits next, with no other child completed, it blocks.
pub kill_child_lost :
    (pid sig i : ℕ) (p : Ptr) (s : Scheduler)
    → get pid s ≡ some p
    → p ≢ null
    → p ≢ s.current
    → s.current ≢ null
    → (s.pcbs p).parent ≡ s.current
    → find_slot (s.pcbs p).pid (s.pcbs s.current).child 0 ≡ some i
    → (s.pcbs s.current).state ≡ running
    → (s.pcbs s.current).child_bitmap ≢ 0
    → (s.pcbs s.current).child_completed_bitmap ≡ 0
    → (s' : Scheduler) × (kill pid sig s ≡ some (0, s'))
      × ((s'.pcbs p).state ≡ done)
      × (s'.pcbs s.current ≡ s.pcbs s.current)
      × (wait_pcb (s'.pcbs s.current) ≡ some (0, record (s.pcbs s.current) { state = waiting }))
unfolding kill
kill_child_lost pid sig i p s g ne apart nc par f r b z =
    let c = record (s.pcbs p) { state = done; signal = sig } in
    let nz : (p == null) ≡ false = ground arith in
    let m' = notify_parent_complete p (set_pcb s.pcbs p c) in
    let slot = ap (λ (x : Ptr). find_slot c.pid (s.pcbs x).child 0) par ∙ f in
    let ended =
      end_process_found p s.pcbs c i (λ e. nc (sym par ∙ e)) (λ e. apart (sym e ∙ par)) slot in
    let stays : m' s.current ≡ s.pcbs s.current =
      ap m' (sym par)
      ∙ ended.0
      ∙ ap (λ (x : Ptr). complete_child (s.pcbs x).state c.pid i (s.pcbs x)) par
      ∙ ap (λ (st : ProcessState). complete_child st c.pid i (s.pcbs s.current)) r in
    (
      record s { pcbs = m' },
      rw (g, nz, kill),
      ap (λ (x : Pcb). x.state) ended.1,
      stays,
      ap wait_pcb stays ∙ wait_pcb-blocks (s.pcbs s.current) b z,
    )
