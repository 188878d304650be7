-- ===== src/Interrupt/Syscall/Created.antt =====
-- New processes, and what changes in the caller, keep the scheduler consistent.
use mathlib.Core.Path.{subst}
use semester_5_coursework.Prelude.{
  ◌*◌, ◌-◌, length, ltb, set, false, true, Bool, Option, none, ◌^◌, ap, ◌==◌, ◌%◌, ◌+◌,
  count-append, Bool-cases, ◌∙◌, arith, ◌++◌, sym, Option-cases, List, ◌≢◌, ◌≡◌, ℕ, refl, [], ◌∷◌,
  some, inl, inr,
}
use semester_5_coursework.Interrupt.Break.{sbrk, move_end, page_count}
use semester_5_coursework.Interrupt.Syscall.{
  exec_from, find_free_slot, fork, fork_from, add_child, notify_parent_create,
}
use semester_5_coursework.Interrupt.Syscall.Consistent.{
  change-IsConsistent, Allowed, current-IsConsistent,
}
use semester_5_coursework.Memory.Paging.{Paging}
use semester_5_coursework.Multitasking.Process.{set_pcb, ProcessState, Pcb, running, waiting}
use semester_5_coursework.Multitasking.Scheduler.{create_page, new_pcb, Call, Scheduler, create}
use semester_5_coursework.Multitasking.Scheduler.Members.{
  IsDone, CanLine, AllIn-change, CanPark, IsConsistent, members,
}
use semester_5_coursework.Queue.{null, Ptr}

-- A system call comes from the process that runs; a block from the heap belongs to no process.
abbrev pub IsCalling : Scheduler → Type 0
IsCalling s = (s.current ≢ null) × ((s.pcbs s.current).state ≡ running)

abbrev pub IsFresh : Ptr → Scheduler → Type 0
IsFresh p s = (p ≢ null) × (members s p ≡ 0)

-- A new process joins the queue of new ones.
add_new-IsConsistent :
    (fresh pid : ℕ) (all : List Ptr) (calls : List Call) (c : Pcb) (s : Scheduler)
    → IsConsistent s
    → IsFresh fresh s
    → IsConsistent (record s {
      pid = pid;
      all = all;
      pcbs = set_pcb s.pcbs fresh c;
      calls = calls;
      start_queue = s.start_queue ++ (fresh ∷ []);
    })
add_new-IsConsistent fresh pid all calls c s v (ne, out) = record {
  current = λ n.
      (AllIn-change CanPark s.pcbs fresh c (s.current ∷ []) (λ k. absurd (ground arith))
        (v.current n, tt)).0;
  ready =
      AllIn-change CanLine s.pcbs fresh c s.ready_queue (λ k. absurd (omega (arith, out, k)))
        v.ready;
  waiting =
      AllIn-change CanLine s.pcbs fresh c s.waiting_queue (λ k. absurd (omega (arith, out, k)))
        v.waiting;
  done =
      AllIn-change IsDone s.pcbs fresh c s.done_queue (λ k. absurd (omega (arith, out, k))) v.done;
  once = λ p n.
      let split = count-append p s.start_queue (fresh ∷ []) in
      elim (Bool-cases (p == fresh)) [
        | inl e ↦
            let same : p ≡ fresh = ground arith in
            let zero_before : members s p ≡ 0 = ap (members s) same ∙ out in
            ground (arith, split, zero_before)
        | inr e ↦ ground (arith, split, v.once p n)
      ];
  present =
      let split = count-append null s.start_queue (fresh ∷ []) in
      let other : (null == fresh) ≡ false = ground arith in ground (arith, split, v.present);
}

pub create-IsConsistent :
    (fresh directory table entry : ℕ) (p : Ptr) (s s' : Scheduler)
    → IsConsistent s
    → IsFresh fresh s
    → create fresh directory table entry s ≡ some (p, s')
    → IsConsistent s'
unfolding create
create-IsConsistent fresh directory table entry p s s' v f e =
    let made = record s {
      pid = (s.pid + 1) % 2 ^ 32;
      all = set s.all s.pid fresh;
      pcbs = set_pcb s.pcbs fresh (new_pcb s.pid entry directory);
      calls = s.calls ++ (create_page 0 table 7 ∷ []);
      start_queue = s.start_queue ++ (fresh ∷ []);
    } in
    elim (Bool-cases (ltb s.pid (length s.all))) [
      | inl i ↦
          let e' : some (fresh, made) ≡ some (p, s') = rw i at e in
          subst IsConsistent (cc e') (
            add_new-IsConsistent fresh ((s.pid + 1) % 2 ^ 32) (set s.all s.pid fresh)
              (s.calls ++ (create_page 0 table 7 ∷ [])) (new_pcb s.pid entry directory) s v f)
      | inr i ↦ cc (rw i at e)
    ]

pub Allowed-same : (from to : ProcessState) → to ≡ from → Allowed from to
Allowed-same from to e = (λ h. subst CanPark (sym e) h, λ h. subst CanLine (sym e) h, λ h. e ∙ h)

add_child-state : (pid : ℕ) (c : Pcb) → (add_child pid c).state ≡ c.state
add_child-state pid c = elim (Option-cases (find_free_slot 32 c.child_bitmap 0)) [
  | inl e ↦ rw (e, add_child) refl
  | inr (i, e) ↦ rw (e, add_child) refl
]

fork_from-IsConsistent :
    (current p : Ptr) (s : Scheduler) → IsConsistent s → IsConsistent (fork_from current (p, s)).1
unfolding notify_parent_create
fork_from-IsConsistent current p s v =
    let b = record (s.pcbs p) { parent = current } in
    let s1 = record s { pcbs = set_pcb s.pcbs p b } in
    let v1 : IsConsistent s1 = change-IsConsistent p b s v (Allowed-same _ _ refl) in
    let r = s1.pcbs p in
    let c = add_child r.pid (s1.pcbs r.parent) in
    let v2 =
      change-IsConsistent r.parent c s1 v1
        (Allowed-same _ _ (add_child-state r.pid (s1.pcbs r.parent))) in
    change-IsConsistent p _ (record s1 { pcbs = set_pcb s1.pcbs r.parent c }) v2
      (Allowed-same _ _ refl)

pub fork-IsConsistent :
    (fresh directory table eip result : ℕ) (s s' : Scheduler)
    → IsConsistent s
    → IsFresh fresh s
    → fork fresh directory table eip s ≡ some (result, s')
    → IsConsistent s'
unfolding fork
fork-IsConsistent fresh directory table eip result s s' v f e =
    elim (Bool-cases ((s.pcbs s.current).child_bitmap == 0xffff_ffff)) [
      | inl z ↦ subst IsConsistent (cc (rw z at e)) v
      | inr nz ↦ elim (Option-cases (create fresh directory table eip s)) [
        | inl n ↦ cc (rw (nz, n) at e)
        | inr ((p, made), c) ↦
            let e' : some (fork_from s.current (p, made)) ≡ some (result, s') = rw (nz, c) at e in
            subst IsConsistent (cc e') (
              fork_from-IsConsistent s.current p made
                (create-IsConsistent fresh directory table eip p s made v f c))
      ]
    ]

pub create-current :
    (fresh directory table entry : ℕ) (p : Ptr) (s s' : Scheduler)
    → create fresh directory table entry s ≡ some (p, s')
    → s'.current ≡ s.current
unfolding create
create-current fresh directory table entry p s s' e = ground arith

pub exec_from-IsConsistent :
    (p : Ptr) (s : Scheduler)
    → IsConsistent s
    → s.current ≢ null
    → IsConsistent (exec_from s.current (p, s)).1
unfolding notify_parent_create
exec_from-IsConsistent p s v ne =
    let b = record (s.pcbs p) { parent = s.current } in
    let s1 = record s { pcbs = set_pcb s.pcbs p b } in
    let v1 : IsConsistent s1 = change-IsConsistent p b s v (Allowed-same _ _ refl) in
    let r = s1.pcbs p in
    let c = add_child r.pid (s1.pcbs r.parent) in
    let s2 = record s1 { pcbs = set_pcb s1.pcbs r.parent c } in
    let v2 : IsConsistent s2 =
      change-IsConsistent r.parent c s1 v1
        (Allowed-same _ _ (add_child-state r.pid (s1.pcbs r.parent))) in
    let w = record (s2.pcbs s.current) { state = waiting } in
    let v3 = current-IsConsistent w s2 v2 ne tt in
    change-IsConsistent p _ (record s2 { pcbs = set_pcb s2.pcbs s.current w }) v3
      (Allowed-same _ _ refl)

move_end-state :
    (c c' : Pcb) (m m' : Paging) (result : ℕ) (o : Option (Bool × ℕ))
    → move_end c m o ≡ some (result, c', m')
    → c'.state ≡ c.state
move_end-state c c' m m' result none e = cc
move_end-state c c' m m' result (some (true, num)) e =
    let same : record c { heap_end = (c.heap_end + 2 ^ 32 - 0x1000 * num) % 2 ^ 32 } ≡ c' = cc in
    ap (λ (x : Pcb). x.state) (sym same)
move_end-state c c' m m' result (some (false, num)) e =
    let same : record c { heap_end = (c.heap_end + 0x1000 * num) % 2 ^ 32 } ≡ c' = cc in
    ap (λ (x : Pcb). x.state) (sym same)

pub sbrk-state :
    (incr result : ℕ) (c c' : Pcb) (m m' : Paging)
    → sbrk incr c m ≡ some (result, c', m')
    → c'.state ≡ c.state
unfolding sbrk
sbrk-state incr result c c' m m' e = elim (Bool-cases (incr == 0)) [
  | inl z ↦
      let same : some (c.heap_end, c, m) ≡ some (result, c', m') = rw (z, sbrk) at e in
      let same' : c ≡ c' = cc same in ap (λ (x : Pcb). x.state) (sym same')
  | inr nz ↦ move_end-state c c' m m' result (page_count incr) (rw (nz, sbrk) at e)
]

pub fork-current :
    (fresh directory table eip result : ℕ) (s s' : Scheduler)
    → fork fresh directory table eip s ≡ some (result, s')
    → s'.current ≡ s.current
unfolding fork
fork-current fresh directory table eip result s s' e =
    elim (Bool-cases ((s.pcbs s.current).child_bitmap == 0xffff_ffff)) [
      | inl z ↦ let same : s ≡ s' = cc (rw z at e) in ap (λ (x : Scheduler). x.current) (sym same)
      | inr nz ↦ elim (Option-cases (create fresh directory table eip s)) [
        | inl n ↦ cc (rw (nz, n) at e)
        | inr ((p, made), c) ↦
            let e' : some (fork_from s.current (p, made)) ≡ some (result, s') = rw (nz, c) at e in
            let same : (fork_from s.current (p, made)).1 ≡ s' = cc e' in
            ap (λ (x : Scheduler). x.current) (sym same)
            ∙ create-current fresh directory table eip p s made c
      ]
    ]
