-- ===== src/Interrupt/Syscall/Executed.antt =====
-- The process that `execve` starts, and what it keeps.
use semester_5_coursework.Prelude.{ap₂, ap, ◌∙◌, ◌%◌, sym, ◌-◌, arith, ◌≡◌, ◌^◌, ◌≢◌, ◌+◌}
use semester_5_coursework.Interrupt.Syscall.{exec_from, add_child, notify_parent_create}
use semester_5_coursework.Interrupt.Syscall.Forked.{linked-both, set_pcb_self, set_pcb_other}
use semester_5_coursework.Multitasking.Process.{set_pcb, set_state, Pcb, waiting}
use semester_5_coursework.Multitasking.Scheduler.{Scheduler}
use semester_5_coursework.Queue.{Ptr}

-- The new block and the caller's.
abbrev pub executed_pcb : Ptr → Pcb → Pcb
executed_pcb current c = record c { parent = current; esp = (c.esp + 2 ^ 32 - 2) % 2 ^ 32 }

abbrev pub waiting_pcb : Pcb → Pcb
waiting_pcb c = record c { state = waiting }

pub exec_from-both :
    (current p : Ptr) (s : Scheduler)
    → p ≢ current
    → let (pid, s') = exec_from current (p, s) in
      (pid ≡ (s.pcbs p).pid)
      × (s'.pcbs p ≡ executed_pcb current (s.pcbs p))
      × (s'.pcbs current ≡ waiting_pcb (add_child (s.pcbs p).pid (s.pcbs current)))
exec_from-both current p s ne =
    let b = record (s.pcbs p) { parent = current } in
    let m = set_pcb s.pcbs p b in
    let self : m p ≡ b = ground arith in
    let other : m current ≡ s.pcbs current = ground arith in
    let both = linked-both p m (λ e. ne (sym e ∙ ap (λ (x : Pcb). x.parent) self)) in
    let child : notify_parent_create p m p ≡ b = both.0 ∙ self in
    let parent : notify_parent_create p m current ≡ add_child b.pid (s.pcbs current) =
      ap (notify_parent_create p m) (sym (ap (λ (x : Pcb). x.parent) self))
      ∙ both.1
      ∙ ap₂ (λ (x y : Pcb). add_child x.pid y) self (ap (λ (x : Pcb). m x.parent) self ∙ other) in
    let linked = notify_parent_create p m in
    let waits = set_state linked current waiting in
    let lower : Pcb → Pcb = λ x. record x { esp = (x.esp + 2 ^ 32 - 2) % 2 ^ 32 } in
    let at_p : waits p ≡ b =
      set_pcb_other linked current p (waiting_pcb (linked current)) (λ e. ne (sym e)) ∙ child in
    (
      ap (λ (x : Pcb). x.pid) at_p,
      set_pcb_self waits p (lower (waits p)) ∙ ap lower at_p,
      set_pcb_other waits p current (lower (waits p)) ne
          ∙ set_pcb_self linked current (waiting_pcb (linked current))
          ∙ ap waiting_pcb parent,
    )
