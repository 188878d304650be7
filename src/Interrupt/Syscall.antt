-- ===== src/Interrupt/Syscall.antt =====
-- The system calls of kernel/interrupt/syscall.c that manage processes. Each returns the value that
-- the handler stores in the frame's eax, a 32-bit word; -1 is 0xffffffff.
pub mod Slots
pub mod Family
pub mod Wait
pub mod Complete
pub mod Consistent
pub mod Forked
pub mod Executed
pub mod Created
pub mod Reachable
mod Tests
use semester_5_coursework.Prelude.{
  ◌%◌, ◌-◌, ℕ, zero, suc, ◌+◌, ◌^◌, bit_and, bit_or, Option, none, some, List, [], ◌∷◌, ltb, ◌==◌,
  if◌then◌else◌, length, get_or, set,
}
use semester_5_coursework.Bits.{complement32}
use semester_5_coursework.Multitasking.Process.{
  ProcessState, running, ready, waiting, start, done, Pcb, Pcbs, set_pcb, set_state,
}
use semester_5_coursework.Multitasking.Scheduler.{create, Scheduler, get}
use semester_5_coursework.Queue.{Ptr, null}

abbrev pub minus_one : ℕ
minus_one = 0xffff_ffff

-- The loop of `notify_parent_complete`: the first slot, from number `i` on, that holds the pid.
unfoldable pub find_slot : ℕ → List ℕ → ℕ → Option ℕ
find_slot pid [] i = none
find_slot pid (c ∷ cs) i = let rest = find_slot pid cs (i + 1) in if c == pid then some i else rest

-- Its switch, on the parent's state.
abbrev pub complete_child : ProcessState → ℕ → ℕ → Pcb → Pcb
complete_child waiting pid i parent = record parent {
  context = record (parent.context) { eax = pid };
  child = set parent.child i 0;
  child_bitmap = bit_and parent.child_bitmap (complement32 (2 ^ i));
  state = ready;
}
complete_child ready pid i parent = record parent {
  child_completed_bitmap = bit_or parent.child_completed_bitmap (2 ^ i);
}
complete_child running pid i parent = parent
complete_child start pid i parent = parent
complete_child done pid i parent = parent

-- The process, its parent, and the control blocks to be changed.
abbrev pub tell_parent : Pcb → Pcb → Pcbs → Pcbs
tell_parent process parent m =
    if process.parent == null then m else elim (find_slot process.pid parent.child 0) [
      | none ↦ m
      | some i ↦ set_pcb m process.parent (complete_child parent.state process.pid i parent)
    ]

unfoldable pub notify_parent_complete : Ptr → Pcbs → Pcbs
unfolding find_slot
notify_parent_complete p m = tell_parent (m p) (m (m p).parent) m

-- The loop of `notify_parent_create`: the first free slot, from number `i` on.
pub find_free_slot : ℕ → ℕ → ℕ → Option ℕ
find_free_slot zero bitmap i = none
find_free_slot (suc rounds) bitmap i =
    let rest = find_free_slot rounds bitmap (i + 1) in
    if bit_and bitmap (2 ^ i) == 0 then some i else rest

abbrev pub add_child : ℕ → Pcb → Pcb
add_child pid parent = elim (find_free_slot 32 parent.child_bitmap 0) [
  | none ↦ parent
  | some i ↦ record parent {
    child_bitmap = bit_or parent.child_bitmap (2 ^ i);
    child = set parent.child i pid;
  }
]

-- The callers have set the parent.
unfoldable pub notify_parent_create : Ptr → Pcbs → Pcbs
unfolding find_free_slot
notify_parent_create p m =
    let process = m p in set_pcb m process.parent (add_child process.pid (m process.parent))

-- The loop of `wait`: the first completed child's slot, from number `i` on.
pub find_completed : ℕ → ℕ → ℕ → Option ℕ
find_completed zero bitmap i = none
find_completed (suc rounds) bitmap i =
    let rest = find_completed rounds bitmap (i + 1) in
    if bit_and bitmap (2 ^ i) == 0 then rest else some i

abbrev pub release_slot : ℕ → Pcb → Pcb
release_slot i c = record c {
  child_bitmap = bit_and c.child_bitmap (complement32 (2 ^ i));
  child_completed_bitmap = bit_and c.child_completed_bitmap (complement32 (2 ^ i));
  child = set c.child i 0;
}

-- `wait` on the control block of the current process. `none` is the end of the function without a
-- return.
unfoldable pub wait_pcb : Pcb → Option (ℕ × Pcb)
unfolding find_completed
wait_pcb c =
    if c.child_bitmap == 0
    then some (minus_one, c)
    else if c.child_completed_bitmap == 0
    then some (0, record c { state = waiting })
    else elim (find_completed 32 c.child_completed_bitmap 0) [
      | none ↦ none
      | some i ↦ some (get_or c.child i 0, release_slot i c)
    ]

unfoldable pub wait : Scheduler → Option (ℕ × Scheduler)
unfolding wait_pcb
wait s = elim (wait_pcb (s.pcbs s.current)) [
  | none ↦ none
  | some (result, c) ↦ some (result, record s { pcbs = set_pcb s.pcbs s.current c })
]

-- `kill`: `none` is the read outside of the table of processes.
abbrev pub end_process : Ptr → Pcb → Scheduler → Scheduler
end_process p c s = record s {
  pcbs = notify_parent_complete p (set_pcb s.pcbs p (record c { state = done }));
}

unfoldable pub kill : (pid sig : ℕ) → Scheduler → Option (ℕ × Scheduler)
unfolding notify_parent_complete
kill pid sig s = elim (get pid s) [
  | none ↦ none
  | some p ↦
      if p == null
      then some (minus_one, s)
      else some (0, end_process p (record (s.pcbs p) { signal = sig }) s)
]

unfoldable pub exit : (code : ℕ) → Scheduler → Scheduler
unfolding notify_parent_complete
exit code s = end_process s.current (record (s.pcbs s.current) { exit_code = code }) s

unfoldable pub getpid : Scheduler → ℕ
getpid s = (s.pcbs s.current).pid

-- `fork` from a frame with the instruction pointer `eip`; the other arguments are those of `create`.
-- The stacks of all processes are at one virtual address, so that `memcpy` from the stack of the
-- current process to that of the new one copies it to itself.
abbrev pub fork_from : Ptr → Ptr × Scheduler → ℕ × Scheduler
fork_from current (p, s) =
    let linked =
      notify_parent_create p (set_pcb s.pcbs p (record (s.pcbs p) { parent = current })) in
    let forked = record (linked p) {
      context = (linked current).context;
      esp = ((linked current).esp + 2 ^ 32 - (linked current).stack + (linked p).stack) % 2 ^ 32;
    } in
    (forked.pid, record s { pcbs = set_pcb linked p forked })

unfoldable pub fork : (fresh directory table eip : ℕ) → Scheduler → Option (ℕ × Scheduler)
fork fresh directory table eip s =
    if (s.pcbs s.current).child_bitmap == 0xffff_ffff
    then some (minus_one, s)
    else elim (create fresh directory table eip s) [
      | none ↦ none
      | some created ↦ some (fork_from s.current created)
    ]

-- What `execve` does with the processes, once the new one is loaded: the caller becomes its parent and
-- waits, and `--new->esp` twice takes two bytes from the stack pointer, which is an integer.
abbrev pub exec_from : Ptr → Ptr × Scheduler → ℕ × Scheduler
exec_from current (p, s) =
    let linked =
      notify_parent_create p (set_pcb s.pcbs p (record (s.pcbs p) { parent = current })) in
    let waits = set_state linked current waiting in
    let started = record (waits p) { esp = ((waits p).esp + 2 ^ 32 - 2) % 2 ^ 32 } in
    (started.pid, record s { pcbs = set_pcb waits p started })
