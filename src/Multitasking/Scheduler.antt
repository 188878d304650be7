-- ===== src/Multitasking/Scheduler.antt =====
-- The scheduler, kernel/multitasking/scheduler.c. Its queues are the lists that kernel/queue.c
-- implements (`Queue.Refine`); calls of other components are recorded in the order they are made.
pub mod Fields
pub mod Switch
pub mod Members
pub mod Conserve
pub mod Inv
pub mod Schedule
pub mod RoundRobin
pub mod Starvation
mod Tests
use semester_5_coursework.Prelude.{
  ℕ, ◌+◌, ◌*◌, ◌%◌, ◌^◌, Option, none, some, List, [], ◌∷◌, ◌++◌, ltb, ◌==◌, if◌then◌else◌, length,
  get_elem?, set, replicate,
}
use semester_5_coursework.Multitasking.Process.{
  ProcessState, running, ready, waiting, start, done, Context, Pcb, Frame, Pcbs, set_pcb, set_state,
  is_ready,
}
use semester_5_coursework.Queue.{Ptr, null}

-- The calls of kernel/memory/paging.c and heap.c that the scheduler makes.
pub data Call : Type 0 where
  create_page : (index table flags : ℕ) → Call
  destroy_directory : (directory : ℕ) → Call
  free : Ptr → Call

-- The file's static variables, and the control blocks. `all` has 128 entries.
pub record Scheduler : Type 0 where
  pub pid : ℕ
  pub all : List Ptr
  pub current : Ptr
  pub start_queue : List Ptr
  pub ready_queue : List Ptr
  pub waiting_queue : List Ptr
  pub done_queue : List Ptr
  pub pcbs : Pcbs
  pub calls : List Call

-- The registers that `save_current` copies from the frame into a control block.
abbrev pub save_registers : Frame → Pcb → Pcb
save_registers f c = record c {
  eip = f.eip;
  esp = f.esp_original;
  context = record {
    eax = f.eax;
    ebx = f.ebx;
    ecx = f.ecx;
    edx = f.edx;
    edi = f.edi;
    esi = f.esi;
    ebp = f.ebp;
    eflags = f.eflags;
  };
}

abbrev pub save_frame : Option Frame → Pcb → Pcb
save_frame none c = c
save_frame (some f) c = save_registers f c

-- The switch of `save_current`, on the state of the process.
abbrev pub enqueue_saved : ProcessState → Ptr → Scheduler → Scheduler
enqueue_saved running p s = record s {
  pcbs = set_state s.pcbs p ready;
  ready_queue = s.ready_queue ++ (p ∷ []);
}
enqueue_saved waiting p s = record s { waiting_queue = s.waiting_queue ++ (p ∷ []) }
enqueue_saved done p s = record s { done_queue = s.done_queue ++ (p ∷ []) }
enqueue_saved ready p s = s
enqueue_saved start p s = s

unfoldable pub save_current : Option Frame → Ptr → Scheduler → Scheduler
save_current frame current s =
    let saved = record s { pcbs = set_pcb s.pcbs current (save_frame frame (s.pcbs current)) } in
    enqueue_saved (saved.pcbs current).state current saved

-- What `load_current` writes to the frame.
abbrev pub load_registers : Pcb → Frame → Frame
load_registers c f = record f {
  eip = c.eip;
  esp_original = c.esp;
  cr3 = c.cr3;
  eax = c.context.eax;
  ebx = c.context.ebx;
  ecx = c.context.ecx;
  edx = c.context.edx;
  edi = c.context.edi;
  esi = c.context.esi;
  ebp = c.context.ebp;
  eflags = c.context.eflags;
}

unfoldable pub load_current : Frame → Ptr → Scheduler → Frame × Scheduler
load_current frame current s =
    (load_registers (s.pcbs current) frame, record s { pcbs = set_state s.pcbs current running })

-- The loops of `schedule`. Each recurs on the queue that it empties.
-- All new processes move to the ready queue.
unfoldable pub admit_new : List Ptr → Scheduler → Scheduler
admit_new [] s = s
admit_new (p ∷ ps) s = admit_new ps (record s {
  start_queue = ps;
  pcbs = set_state s.pcbs p ready;
  ready_queue = s.ready_queue ++ (p ∷ []);
})

-- Processes at the head of the waiting queue that have become ready move over.
unfoldable pub resolve_waiting : List Ptr → Scheduler → Scheduler
resolve_waiting [] s = s
resolve_waiting (p ∷ ps) s =
    let rest =
      resolve_waiting ps
        (record s { ready_queue = s.ready_queue ++ (p ∷ []); waiting_queue = ps }) in
    if is_ready (s.pcbs p).state then rest else s

-- The next ready process, or null. Others move to the queue of their state.
unfoldable pub next_ready : List Ptr → Scheduler → Ptr × Scheduler
next_ready [] s = (null, s)
next_ready (p ∷ ps) s = elim (s.pcbs p).state [
  | ready ↦ (p, record s { ready_queue = ps })
  | done ↦ next_ready ps (record s { ready_queue = ps; done_queue = s.done_queue ++ (p ∷ []) })
  | waiting ↦
      next_ready ps (record s { ready_queue = ps; waiting_queue = s.waiting_queue ++ (p ∷ []) })
  | running ↦ next_ready ps (record s { ready_queue = ps })
  | start ↦ next_ready ps (record s { ready_queue = ps })
]

-- Done processes are removed. A pid outside of `all` does not occur (`create`).
unfoldable pub reap : List Ptr → Scheduler → Scheduler
reap [] s = s
reap (p ∷ ps) s = reap ps (record s {
  done_queue = ps;
  all = set s.all (s.pcbs p).pid null;
  calls = s.calls ++ (destroy_directory (s.pcbs p).cr3 ∷ free p ∷ []);
})

-- `schedule` returns to the frame of the next process, or halts the machine when none is ready.
pub data Outcome : Type 0 where
  resumed : Frame → Scheduler → Outcome
  panic : Scheduler → Outcome

abbrev pub park : Frame → Scheduler → Scheduler
park frame s =
    if s.current == null
    then s
    else record (save_current (some frame) s.current s) { current = null }

abbrev pub switch_to : Frame → Ptr × Scheduler → Outcome
switch_to frame (r, s) =
    if r == null
    then panic s
    else let (frame', s') = load_current frame r s in
      resumed frame' (reap s'.done_queue (record s' { current = r }))

unfoldable pub schedule : Frame → Scheduler → Outcome
schedule frame s =
    let parked = park frame s in
    let admitted = admit_new parked.start_queue parked in
    let resolved = resolve_waiting admitted.waiting_queue admitted in
    switch_to frame (next_ready resolved.ready_queue resolved)

-- The control block that `create` makes in memory that it has cleared.
abbrev pub new_pcb : (pid entry directory : ℕ) → Pcb
new_pcb pid entry directory = record {
  pid = pid;
  context = record {
    eax = 0;
    ebx = 0;
    ecx = 0;
    edx = 0;
    edi = 0;
    esi = 0;
    ebp = 0;
    eflags = 0x202;
  };
  stack = 0xc00000;
  esp = 0xc00000 + 4 * 1024;
  eip = entry;
  state = start;
  exit_code = 0;
  signal = 0;
  parent = null;
  child_completed_bitmap = 0;
  child_bitmap = 0;
  child = replicate 32 0;
  cr3 = directory;
  heap_end = 0xd00000;
}

-- `create`: `fresh` is the block that halloc.malloc returned, `directory` the page directory of
-- paging.default_directory and `table` the masked entry 3 of it. `none` is a write outside `all`.
unfoldable pub create : (fresh directory table entry : ℕ) → Scheduler → Option (Ptr × Scheduler)
create fresh directory table entry s =
    if ltb s.pid (length s.all)
    then some (
      fresh,
      record s {
        pid = (s.pid + 1) % 2 ^ 32;
        all = set s.all s.pid fresh;
        pcbs = set_pcb s.pcbs fresh (new_pcb s.pid entry directory);
        calls = s.calls ++ (create_page 0 table 7 ∷ []);
        start_queue = s.start_queue ++ (fresh ∷ []);
      },
    )
    else none

-- `get`: `none` is a read outside `all`.
unfoldable pub get : ℕ → Scheduler → Option Ptr
get pid s = get_elem? s.all pid
