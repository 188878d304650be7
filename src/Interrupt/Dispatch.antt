-- ===== src/Interrupt/Dispatch.antt =====
-- `handler` of kernel/interrupt/syscall.c: the system call that a process makes by its registers. Its
-- result goes to eax; some calls then schedule.
pub mod Reaches
pub mod Registers
pub mod Returns
mod Tests
use semester_5_coursework.Interrupt.Descriptors
use semester_5_coursework.Prelude.{
  ◌^◌, ◌==◌, if◌then◌else◌, get_elem?, ℕ, Option, List, Bool, ◌>>=◌, ◌>>◌, refl, zero, suc, true,
  false, none, some, [], ◌∷◌, codes,
}
use semester_5_coursework.Filesystem.Fat32.{Files}
use semester_5_coursework.Filesystem.Fat32.Opening.{open_file}
use semester_5_coursework.Filesystem.Fat32.Volume.{Disk, Volume}
use semester_5_coursework.Interrupt.Break.{sbrk}
use semester_5_coursework.Interrupt.Descriptors.{User, string_at, isatty, not_implemented}
use semester_5_coursework.Interrupt.Execve.{execve}
use semester_5_coursework.Interrupt.Syscall.{exit, kill, wait, fork, getpid, minus_one}
use semester_5_coursework.Interrupt.System.{
  System, perform, new_calls, Return, returned, halted, reschedule,
}
use semester_5_coursework.Memory.Paging.{Paging, default_directory, frame_of, slot}
use semester_5_coursework.Multitasking.Process.{
  Pcb, Frame, ProcessState, running, ready, waiting, start, done, set_pcb,
}
use semester_5_coursework.Multitasking.Scheduler.{Scheduler}
use semester_5_coursework.Tty.{Tty, printf, Arg, word}

-- The numbers of the system calls, from 0 on.
pub data Number : Type 0 where
  sys_exit sys_close sys_execve sys_fork sys_fstat sys_getpid sys_isatty sys_kill sys_link
        sys_lseek :
      Number
  sys_open sys_read sys_sbrk sys_stat sys_times sys_unlink sys_wait sys_write : Number

abbrev pub numbers : List Number
numbers =
    sys_exit ∷ sys_close ∷ sys_execve ∷ sys_fork ∷ sys_fstat ∷ sys_getpid ∷ sys_isatty ∷ sys_kill
    ∷ sys_link ∷ sys_lseek ∷ sys_open ∷ sys_read ∷ sys_sbrk ∷ sys_stat ∷ sys_times ∷ sys_unlink
    ∷ sys_wait ∷ sys_write ∷ []

-- What a call leaves: eax is set, and the process goes on or others are scheduled.
abbrev pub resume : Frame → ℕ → System → Option Return
resume frame result s = some (returned (record frame { eax = result }) s)

abbrev pub yield : Frame → ℕ → System → Option Return
yield frame result s = reschedule (record frame { eax = result }) s

abbrev pub yield_if : Bool → Frame → ℕ → System → Option Return
yield_if b frame result s = if b then yield frame result s else resume frame result s

abbrev pub is_waiting : ProcessState → Bool
is_waiting waiting = true
is_waiting running = false
is_waiting ready = false
is_waiting start = false
is_waiting done = false

abbrev pub current_pcb : Scheduler → Pcb
current_pcb s = s.pcbs s.current

-- `fork`, with the page directory that `create` makes when the caller has room for a child.
abbrev pub fork_with : ℕ × Paging → (fresh eip : ℕ) → System → Option (ℕ × System)
fork_with (directory, m) fresh eip s = do
  (pid, scheduler) ← fork fresh directory (frame_of (m.word (slot directory 3))) eip s.scheduler
  paging ← perform (new_calls s.scheduler scheduler) m
  some (pid, record s { scheduler = scheduler; paging = paging })

unfoldable pub fork_process : (fresh eip : ℕ) → System → Option (ℕ × System)
fork_process fresh eip s =
    if (current_pcb s.scheduler).child_bitmap == 0xffff_ffff
    then some (minus_one, s)
    else fork_with (default_directory s.paging) fresh eip s

-- `sbrk` of the current process.
unfoldable pub sbrk_process : (incr : ℕ) → System → Option (ℕ × System)
sbrk_process incr s = do
  (result, c, paging) ← sbrk incr (current_pcb s.scheduler) s.paging
  some (
    result,
    record s {
      scheduler = record (s.scheduler) { pcbs = set_pcb s.scheduler.pcbs s.scheduler.current c };
      paging = paging;
    },
  )

-- The path of a call, up to its NUL.
abbrev pub path_at : User → ℕ → List ℕ
path_at user p = string_at (2 ^ 32) user p

-- The switch. `disk` and the volume are those of the file system, and `fresh` is the block that the
-- heap returns for a new process.
unfoldable pub dispatch : Disk → Volume → (fresh : ℕ) → Number → Frame → System → Option Return
dispatch disk v fresh sys_close frame s =
    let (result, files) = Descriptors.close frame.ebx s.files in
    resume frame result (record s { files = files })
dispatch disk v fresh sys_execve frame s = do
  (result, s') ← execve disk v fresh (path_at s.user frame.ebx) s
  yield frame result s'
dispatch disk v fresh sys_fork frame s = do
  (result, s') ← fork_process fresh frame.eip s
  resume frame result s'
dispatch disk v fresh sys_fstat frame s = resume frame not_implemented s
dispatch disk v fresh sys_getpid frame s = resume frame (getpid s.scheduler) s
dispatch disk v fresh sys_kill frame s = do
  (result, scheduler) ← kill frame.ebx frame.ecx s.scheduler
  yield_if (frame.ebx == (current_pcb scheduler).pid) frame result
      (record s { scheduler = scheduler })
dispatch disk v fresh sys_link frame s = resume frame not_implemented s
dispatch disk v fresh sys_lseek frame s =
    let (result, files) = Descriptors.lseek frame.ebx frame.ecx s.files in
    resume frame result (record s { files = files })
dispatch disk v fresh sys_open frame s = do
  (result, files) ← open_file disk v (path_at s.user frame.ebx) s.files
  resume frame result (record s { files = files })
dispatch disk v fresh sys_read frame s = do
  (result, user, files) ← Descriptors.read frame.ebx frame.ecx frame.edx s.user s.files
  resume frame result (record s { user = user; files = files })
dispatch disk v fresh sys_sbrk frame s = do
  (result, s') ← sbrk_process frame.ebx s
  resume frame result s'
dispatch disk v fresh sys_stat frame s = resume frame not_implemented s
dispatch disk v fresh sys_times frame s = resume frame not_implemented s
dispatch disk v fresh sys_unlink frame s = resume frame not_implemented s
dispatch disk v fresh sys_wait frame s = do
  (result, scheduler) ← wait s.scheduler
  yield_if (is_waiting (current_pcb scheduler).state) frame result
      (record s { scheduler = scheduler })
dispatch disk v fresh sys_write frame s =
    let (result, tty) = Descriptors.write frame.ebx frame.ecx frame.edx s.user s.tty in
    resume frame result (record s { tty = tty })
dispatch disk v fresh sys_exit frame s =
    reschedule frame (record s { scheduler = exit frame.ebx s.scheduler })
dispatch disk v fresh sys_isatty frame s = resume frame (isatty frame.ebx) s

-- A number that is none of a system call does nothing.
abbrev pub dispatch_number :
    Disk → Volume → (fresh : ℕ) → Option Number → Frame → System → Option Return
dispatch_number disk v fresh none frame s = some (returned frame s)
dispatch_number disk v fresh (some number) frame s = dispatch disk v fresh number frame s

-- The two lines that the handler prints first.
unfoldable pub report : Frame → Tty → Option Tty
report frame t = do
  t' ← printf (codes "Syscall %d happened!\n") (word frame.eax ∷ []) t
  printf (codes "    Stack @%x, %x:%x\n")
      (word frame.esp_original ∷ word frame.cs ∷ word frame.eip ∷ []) t'

unfoldable pub handler : Disk → Volume → (fresh : ℕ) → Frame → System → Option Return
handler disk v fresh frame s = do
  tty ← report frame s.tty
  dispatch_number disk v fresh (get_elem? numbers frame.eax) frame (record s { tty = tty })
