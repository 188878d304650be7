-- ===== src/Multitasking/Process.antt =====
-- Processes and interrupt frames: include/kernel/multitasking/process.h and scheduler.h, and
-- include/kernel/interrupt/idt.h. Registers and addresses are 32-bit values.
pub use semester_5_coursework.Queue.{Ptr, null}
use semester_5_coursework.Prelude.{ℕ, Bool, true, false, List, ◌==◌, if◌then◌else◌}

-- `process_state_t`, without its prefix.
pub data ProcessState : Type 0 where
  running ready waiting start done : ProcessState

-- `process_context_t`
pub record Context : Type 0 where
  pub eax : ℕ
  pub ebx : ℕ
  pub ecx : ℕ
  pub edx : ℕ
  pub edi : ℕ
  pub esi : ℕ
  pub ebp : ℕ
  pub eflags : ℕ

-- `process_control_block_t`
pub record Pcb : Type 0 where
  pub pid : ℕ
  pub context : Context
  pub stack : Ptr
  pub esp : ℕ
  pub eip : ℕ
  pub state : ProcessState
  pub exit_code : ℕ
  pub signal : ℕ
  pub parent : Ptr
  pub child_completed_bitmap : ℕ
  pub child_bitmap : ℕ
  pub child : List ℕ
  pub cr3 : ℕ
  pub heap_end : ℕ

-- `interrupt_frame_t`
pub record Frame : Type 0 where
  pub cr3 : ℕ
  pub ds : ℕ
  pub edi : ℕ
  pub esi : ℕ
  pub ebp : ℕ
  pub esp_kernel : ℕ
  pub ebx : ℕ
  pub edx : ℕ
  pub ecx : ℕ
  pub eax : ℕ
  pub interrupt : ℕ
  pub error_code : ℕ
  pub eip : ℕ
  pub cs : ℕ
  pub eflags : ℕ
  pub esp_original : ℕ
  pub ss : ℕ

-- The control blocks by address. The kernel reads and writes them through pointers.
abbrev pub Pcbs : Type 0
Pcbs = Ptr → Pcb

abbrev pub set_pcb : Pcbs → Ptr → Pcb → Pcbs
set_pcb pcbs p c q = if q == p then c else pcbs q

abbrev pub set_state : Pcbs → Ptr → ProcessState → Pcbs
set_state pcbs p st = set_pcb pcbs p (record (pcbs p) { state = st })

abbrev pub is_ready : ProcessState → Bool
is_ready ready = true
is_ready _ = false
