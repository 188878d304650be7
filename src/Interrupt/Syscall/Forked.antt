-- ===== src/Interrupt/Syscall/Forked.antt =====
-- The process that `fork` makes.
use semester_5_coursework.Prelude.{
  Option, ap₂, set, ap, ◌∙◌, sym, ◌%◌, ◌-◌, ◌^◌, ◌+◌, Option-cases, true, ltb, arith, false, ◌==◌,
  ◌++◌, ◌≡◌, length, ◌<◌, ◌≢◌, ℕ, refl, [], ◌∷◌, none, some, inl, inr,
}
use semester_5_coursework.Interrupt.Syscall.{
  find_free_slot, fork, fork_from, add_child, notify_parent_create,
}
use semester_5_coursework.Multitasking.Process.{set_pcb, Pcbs, Pcb, start}
use semester_5_coursework.Multitasking.Scheduler.{create_page, new_pcb, Scheduler, create}
use semester_5_coursework.Queue.{Ptr}

-- What the new process is: it starts at the instruction of the call, on the parent's stack pointer,
-- with the registers that were last saved for the parent.
pub record IsForked (number entry current : ℕ) (from child : Pcb) : Type 0 where
  pub pid : child.pid ≡ number
  pub state : child.state ≡ start
  pub parent : child.parent ≡ current
  pub eip : child.eip ≡ entry
  pub context : child.context ≡ from.context
  pub esp : child.esp ≡ (from.esp + 2 ^ 32 - from.stack + 0xc00000) % 2 ^ 32

add_child-keeps :
    (pid : ℕ) (c : Pcb)
    → ((add_child pid c).context ≡ c.context)
      × ((add_child pid c).esp ≡ c.esp)
      × ((add_child pid c).stack ≡ c.stack)
add_child-keeps pid c = elim (Option-cases (find_free_slot 32 c.child_bitmap 0)) [
  | inl e ↦ rw (e, add_child) (refl, refl, refl)
  | inr (i, e) ↦ rw (e, add_child) (refl, refl, refl)
]

-- The blocks of a new process and of its parent after the parent was told.
pub linked-both :
    (p : ℕ) (m : Pcbs)
    → (m p).parent ≢ p
    → (notify_parent_create p m p ≡ m p)
      × (notify_parent_create p m (m p).parent ≡ add_child (m p).pid (m (m p).parent))
unfolding notify_parent_create
linked-both p m ne = (ground arith, ground arith)

pub set_pcb_self : (m : Pcbs) (p : ℕ) (c : Pcb) → set_pcb m p c p ≡ c
set_pcb_self m p c = ground arith

pub set_pcb_other : (m : Pcbs) (p q : ℕ) (c : Pcb) → p ≢ q → set_pcb m p c q ≡ m q
set_pcb_other m p q c ne = ground arith

-- The new block, from the one that `create` made and the parent's.
abbrev forked_pcb : Ptr → Pcb → Pcb → Pcb
forked_pcb current b c = record b {
  parent = current;
  context = c.context;
  esp = (c.esp + 2 ^ 32 - c.stack + b.stack) % 2 ^ 32;
}

fork_from-both :
    (current p : Ptr) (s : Scheduler)
    → p ≢ current
    → let (pid, s') = fork_from current (p, s) in
      (pid ≡ (s.pcbs p).pid)
      × (s'.pcbs p ≡ forked_pcb current (s.pcbs p) (s.pcbs current))
      × (s'.pcbs current ≡ add_child (s.pcbs p).pid (s.pcbs current))
fork_from-both current p s ne =
    let b = record (s.pcbs p) { parent = current } in
    let m = set_pcb s.pcbs p b in
    let self : m p ≡ b = ground arith in
    let other : m current ≡ s.pcbs current = ground arith in
    let both = linked-both p m (λ e. ne (sym e ∙ ap (λ (x : Pcb). x.parent) self)) in
    let child : notify_parent_create p m p ≡ b = both.0 ∙ self in
    let parent : notify_parent_create p m current ≡ add_child b.pid (s.pcbs current) =
      ap (notify_parent_create p m) (sym (ap (λ (x : Pcb). x.parent) self))
      ∙ both.1
      ∙ ap₂ (λ (x y : Pcb). add_child x.pid y) self (ap (λ (x : Pcb). m x.parent) self ∙ other) in
    let keeps = add_child-keeps b.pid (s.pcbs current) in
    let join : Pcb → Pcb → Pcb = λ x y. record x {
      context = y.context;
      esp = (y.esp + 2 ^ 32 - y.stack + x.stack) % 2 ^ 32;
    } in
    let told : join b (add_child b.pid (s.pcbs current)) ≡ forked_pcb current b (s.pcbs current) =
      λ i. record b {
        context = keeps.0 i;
        esp = (keeps.1 i + 2 ^ 32 - keeps.2 i + b.stack) % 2 ^ 32;
      } in
    let linked = notify_parent_create p m in
    (
      ap (λ (x : Pcb). x.pid) child,
      set_pcb_self linked p (join (linked p) (linked current)) ∙ ap₂ join child parent ∙ told,
      set_pcb_other linked p current (join (linked p) (linked current)) ne ∙ parent,
    )

-- `fork` by a process with a free slot, with a pid inside of the table, returns the pid of a new
-- process, which starts at the given instruction with the registers that were last saved for the
-- caller; the caller gets it as a child and changes in nothing else, and it waits in the queue of new
-- processes.
pub fork-IsForked :
    (fresh directory table eip : ℕ) (s : Scheduler)
    → fresh ≢ s.current
    → s.pid < length s.all
    → (s.pcbs s.current).child_bitmap ≢ 0xffff_ffff
    → (s' : Scheduler) × (fork fresh directory table eip s ≡ some (s.pid, s'))
      × IsForked s.pid eip s.current (s.pcbs s.current) (s'.pcbs fresh)
      × (s'.pcbs s.current ≡ add_child s.pid (s.pcbs s.current))
      × (s'.start_queue ≡ s.start_queue ++ (fresh ∷ []))
unfolding fork create
fork-IsForked fresh directory table eip s ne room free =
    let full : ((s.pcbs s.current).child_bitmap == 0xffff_ffff) ≡ false = ground arith in
    let inside : ltb s.pid (length s.all) ≡ true = ground arith in
    let made = record s {
      pid = (s.pid + 1) % 2 ^ 32;
      all = set s.all s.pid fresh;
      pcbs = set_pcb s.pcbs fresh (new_pcb s.pid eip directory);
      calls = s.calls ++ (create_page 0 table 7 ∷ []);
      start_queue = s.start_queue ++ (fresh ∷ []);
    } in
    let both = fork_from-both s.current fresh made ne in
    let self = set_pcb_self s.pcbs fresh (new_pcb s.pid eip directory) in
    let other = set_pcb_other s.pcbs fresh s.current (new_pcb s.pid eip directory) ne in
    let child = both.1 ∙ ap₂ (forked_pcb s.current) self other in
    let created : create fresh directory table eip s ≡ some (fresh, made) = rw inside refl in
    let forked : fork fresh directory table eip s ≡ some (fork_from s.current (fresh, made)) =
      rw full (
        ap
          (λ (o : Option (ℕ × Scheduler)). elim o [
            | none ↦ none
            | some x ↦ some (fork_from s.current x)
          ])
          created) in
    let number = both.0 ∙ ap (λ (x : Pcb). x.pid) self in
    (
      (fork_from s.current (fresh, made)).1,
      forked ∙ ap (λ (n : ℕ). some (n, (fork_from s.current (fresh, made)).1)) number,
      record {
        pid = ap (λ (x : Pcb). x.pid) child;
        state = ap (λ (x : Pcb). x.state) child;
        parent = ap (λ (x : Pcb). x.parent) child;
        eip = ap (λ (x : Pcb). x.eip) child;
        context = ap (λ (x : Pcb). x.context) child;
        esp = ap (λ (x : Pcb). x.esp) child;
      },
      both.2 ∙ ap₂ (λ (x y : Pcb). add_child x.pid y) self other,
      refl,
    )
