-- ===== src/Interrupt/Dispatch/Reaches.antt =====
-- The system calls are steps of the scheduler.
use semester_5_coursework.Interrupt.Descriptors
use mathlib.Core.Path.{subst}
use semester_5_coursework.Prelude.{
  ◌≤◌, ◌⊎◌, ◌<◌, get_elem?, arith, Option, sym, length, ◌≢◌, List, ◌==◌, ap₂, Bool-cases,
  >>=-eq-some, ◌≡◌, ℕ, Bool, true, false, none, some, inl, inr,
}
use semester_5_coursework.Filesystem.Fat32.Opening.{open_file}
use semester_5_coursework.Filesystem.Fat32.Volume.{Disk, Volume}
use semester_5_coursework.Interrupt.Break.{sbrk}
use semester_5_coursework.Interrupt.Descriptors.{isatty}
use semester_5_coursework.Interrupt.Dispatch.{
  Number, numbers, handler, dispatch, dispatch_number, report, resume, yield_if, is_waiting,
  current_pcb, fork_process, fork_with, sbrk_process, path_at, sys_exit, sys_close, sys_execve,
  sys_fork, sys_fstat, sys_getpid, sys_isatty, sys_kill, sys_link, sys_lseek, sys_open, sys_read,
  sys_sbrk, sys_stat, sys_times, sys_unlink, sys_wait, sys_write,
}
use semester_5_coursework.Interrupt.Execve.{execve}
use semester_5_coursework.Interrupt.Execve.Cases.{execve-cases}
use semester_5_coursework.Interrupt.Syscall.{exit, kill, wait, fork, minus_one, exec_from, getpid}
use semester_5_coursework.Interrupt.Syscall.Created.{IsCalling, IsFresh}
use semester_5_coursework.Interrupt.Syscall.Reachable.{
  Reachable, next, scheduled, forked, exited, killed, waited, executed, grown,
  Reachable-IsConsistent,
}
use semester_5_coursework.Interrupt.System.{
  System, perform, new_calls, returned, reschedule, rescheduled,
}
use semester_5_coursework.Memory.Paging.Translate.{translate}
use semester_5_coursework.Memory.Paging.{Paging, default_directory, frame_of, slot}
use semester_5_coursework.Multitasking.Process.{Frame, set_pcb}
use semester_5_coursework.Multitasking.Scheduler.{Scheduler, Outcome, resumed, panic, schedule}
use semester_5_coursework.Multitasking.Scheduler.Members.{IsConsistent}

rescheduled-resumed :
    (s : System) (o : Outcome) (frame' : Frame) (s' : System)
    → rescheduled s o ≡ some (returned frame' s')
    → o ≡ resumed frame' s'.scheduler
rescheduled-resumed s (panic scheduler) frame' s' e = cc
rescheduled-resumed s (resumed frame scheduler) frame' s' e =
    let (paging, performed, last) =
      >>=-eq-some (perform (new_calls s.scheduler scheduler) s.paging) _ e in
    let end = record s { scheduler = scheduler; paging = paging } in
    let at_frame : frame ≡ frame' = cc last in
    let same : end ≡ s' = cc last in
    ap₂ (λ (f : Frame) (x : System). resumed f x.scheduler) at_frame same

reschedule-Reachable :
    (frame frame' : Frame) (s s' : System)
    → Reachable s.scheduler
    → reschedule frame s ≡ some (returned frame' s')
    → Reachable s'.scheduler
unfolding reschedule
reschedule-Reachable frame frame' s s' r e = next s.scheduler s'.scheduler r (
    scheduled frame frame' s.scheduler s'.scheduler
      (rescheduled-resumed s (schedule frame s.scheduler) frame' s' e))

-- A call that goes on, and one that schedules if a test holds.
resume-Reachable :
    (frame : Frame) (result : ℕ) (s : System) (frame' : Frame) (s' : System)
    → Reachable s.scheduler
    → resume frame result s ≡ some (returned frame' s')
    → Reachable s'.scheduler
resume-Reachable frame result s frame' s' r e =
    let same : s ≡ s' = cc e in subst (λ (x : System). Reachable x.scheduler) same r

yield_if-Reachable :
    (b : Bool) (frame : Frame) (result : ℕ) (s : System) (frame' : Frame) (s' : System)
    → Reachable s.scheduler
    → yield_if b frame result s ≡ some (returned frame' s')
    → Reachable s'.scheduler
yield_if-Reachable true frame result s frame' s' r e =
    reschedule-Reachable (record frame { eax = result }) frame' s s' r e
yield_if-Reachable false frame result s frame' s' r e =
    resume-Reachable frame result s frame' s' r e

fork_with-Reachable :
    (made : ℕ × Paging) (fresh eip : ℕ) (s : System) (result : ℕ) (s' : System)
    → Reachable s.scheduler
    → IsCalling s.scheduler
    → IsFresh fresh s.scheduler
    → fork_with made fresh eip s ≡ some (result, s')
    → Reachable s'.scheduler
fork_with-Reachable (directory, m) fresh eip s result s' r calls free e =
    let table = frame_of (m.word (slot directory 3)) in
    let ((pid, scheduler), run, rest) =
      >>=-eq-some (fork fresh directory table eip s.scheduler) _ e in
    let (paging, performed, last) =
      >>=-eq-some (perform (new_calls s.scheduler scheduler) m) _ rest in
    let same : record s { scheduler = scheduler; paging = paging } ≡ s' = cc last in
    subst (λ (x : System). Reachable x.scheduler) same
      (next s.scheduler scheduler r
        (forked fresh directory table eip pid s.scheduler scheduler calls free run))

fork_process-Reachable :
    (fresh eip : ℕ) (s : System) (result : ℕ) (s' : System)
    → Reachable s.scheduler
    → IsCalling s.scheduler
    → IsFresh fresh s.scheduler
    → fork_process fresh eip s ≡ some (result, s')
    → Reachable s'.scheduler
unfolding fork_process
fork_process-Reachable fresh eip s result s' r calls free e =
    elim (Bool-cases ((current_pcb s.scheduler).child_bitmap == 0xffff_ffff)) [
      | inl no_room ↦
          let refused : some (minus_one, s) ≡ some (result, s') = rw (no_room, fork_process) at e in
          let same : s ≡ s' = cc refused in subst (λ (x : System). Reachable x.scheduler) same r
      | inr room ↦
          fork_with-Reachable (default_directory s.paging) fresh eip s result s' r calls free
            (rw (room, fork_process) at e)
    ]

sbrk_process-Reachable :
    (incr : ℕ) (s : System) (result : ℕ) (s' : System)
    → Reachable s.scheduler
    → sbrk_process incr s ≡ some (result, s')
    → Reachable s'.scheduler
unfolding sbrk_process
sbrk_process-Reachable incr s result s' r e =
    let ((n, c, paging), run, last) =
      >>=-eq-some (sbrk incr (current_pcb s.scheduler) s.paging) _ e in
    let end = record s {
      scheduler = record (s.scheduler) { pcbs = set_pcb s.scheduler.pcbs s.scheduler.current c };
      paging = paging;
    } in
    let same : end ≡ s' = cc last in
    subst (λ (x : System). Reachable x.scheduler) same
      (next s.scheduler end.scheduler r (grown incr n c s.paging paging s.scheduler run))

execve-Reachable :
    (disk : Disk) (v : Volume) (fresh : ℕ) (name : List ℕ) (s : System) (result : ℕ) (s' : System)
    → Reachable s.scheduler
    → IsCalling s.scheduler
    → IsFresh fresh s.scheduler
    → fresh ≢ s.scheduler.current
    → length s.files ≡ 32
    → execve disk v fresh name s ≡ some (result, s')
    → Reachable s'.scheduler
execve-Reachable disk v fresh name s result s' r calls free ne size e =
    elim (execve-cases disk v fresh name s result s' size ne e) [
      | inl (refused, code, same) ↦ subst (λ (x : System). Reachable x.scheduler) (sym same) r
      | inr (header, program, done, files, tty) ↦ subst Reachable (sym done.ends) (
          next s.scheduler (exec_from done.made.current (done.p, done.made)).1 r (
            executed fresh done.directory done.table header.program_entry_offset done.p s.scheduler
              done.made calls free done.by_create))
    ]

fresh-ne-current : (fresh : ℕ) (s : Scheduler) → IsFresh fresh s → fresh ≢ s.current
fresh-ne-current fresh s (ne, out) same = ground (arith, out, same)

dispatch-Reachable :
    (disk : Disk) (v : Volume) (fresh : ℕ) (number : Number) (frame frame' : Frame) (s s' : System)
    → Reachable s.scheduler
    → IsCalling s.scheduler
    → IsFresh fresh s.scheduler
    → length s.files ≡ 32
    → dispatch disk v fresh number frame s ≡ some (returned frame' s')
    → Reachable s'.scheduler
unfolding dispatch
dispatch-Reachable disk v fresh sys_close frame frame' s s' r calls free size e =
    let closed = Descriptors.close frame.ebx s.files in
    resume-Reachable frame closed.0 (record s { files = closed.1 }) frame' s' r e
dispatch-Reachable disk v fresh sys_execve frame frame' s s' r calls free size e =
    let ((result, s1), run, last) =
      >>=-eq-some (execve disk v fresh (path_at s.user frame.ebx) s) _ e in
    let r1 =
      execve-Reachable disk v fresh (path_at s.user frame.ebx) s result s1 r calls free
        (fresh-ne-current fresh s.scheduler free) size run in
    reschedule-Reachable (record frame { eax = result }) frame' s1 s' r1 last
dispatch-Reachable disk v fresh sys_fork frame frame' s s' r calls free size e =
    let ((result, s1), run, last) = >>=-eq-some (fork_process fresh frame.eip s) _ e in
    resume-Reachable frame result s1 frame' s'
      (fork_process-Reachable fresh frame.eip s result s1 r calls free run) last
dispatch-Reachable disk v fresh sys_fstat frame frame' s s' r calls free size e =
    resume-Reachable frame 0 s frame' s' r e
dispatch-Reachable disk v fresh sys_getpid frame frame' s s' r calls free size e =
    resume-Reachable frame (getpid s.scheduler) s frame' s' r e
dispatch-Reachable disk v fresh sys_kill frame frame' s s' r calls free size e =
    let ((result, scheduler), run, last) = >>=-eq-some (kill frame.ebx frame.ecx s.scheduler) _ e in
    yield_if-Reachable (frame.ebx == (current_pcb scheduler).pid) frame result
      (record s { scheduler = scheduler }) frame' s'
      (next s.scheduler scheduler r
        (killed frame.ebx frame.ecx result s.scheduler scheduler calls run))
      last
dispatch-Reachable disk v fresh sys_link frame frame' s s' r calls free size e =
    resume-Reachable frame 0 s frame' s' r e
dispatch-Reachable disk v fresh sys_lseek frame frame' s s' r calls free size e =
    let sought = Descriptors.lseek frame.ebx frame.ecx s.files in
    resume-Reachable frame sought.0 (record s { files = sought.1 }) frame' s' r e
dispatch-Reachable disk v fresh sys_open frame frame' s s' r calls free size e =
    let ((result, files), run, last) =
      >>=-eq-some (open_file disk v (path_at s.user frame.ebx) s.files) _ e in
    resume-Reachable frame result (record s { files = files }) frame' s' r last
dispatch-Reachable disk v fresh sys_read frame frame' s s' r calls free size e =
    let ((result, user, files), run, last) =
      >>=-eq-some (Descriptors.read frame.ebx frame.ecx frame.edx s.user s.files) _ e in
    resume-Reachable frame result (record s { user = user; files = files }) frame' s' r last
dispatch-Reachable disk v fresh sys_sbrk frame frame' s s' r calls free size e =
    let ((result, s1), run, last) = >>=-eq-some (sbrk_process frame.ebx s) _ e in
    resume-Reachable frame result s1 frame' s' (sbrk_process-Reachable frame.ebx s result s1 r run)
      last
dispatch-Reachable disk v fresh sys_stat frame frame' s s' r calls free size e =
    resume-Reachable frame 0 s frame' s' r e
dispatch-Reachable disk v fresh sys_times frame frame' s s' r calls free size e =
    resume-Reachable frame 0 s frame' s' r e
dispatch-Reachable disk v fresh sys_unlink frame frame' s s' r calls free size e =
    resume-Reachable frame 0 s frame' s' r e
dispatch-Reachable disk v fresh sys_wait frame frame' s s' r calls free size e =
    let ((result, scheduler), run, last) = >>=-eq-some (wait s.scheduler) _ e in
    yield_if-Reachable (is_waiting (current_pcb scheduler).state) frame result
      (record s { scheduler = scheduler }) frame' s'
      (next s.scheduler scheduler r (waited result s.scheduler scheduler calls run)) last
dispatch-Reachable disk v fresh sys_write frame frame' s s' r calls free size e =
    let written = Descriptors.write frame.ebx frame.ecx frame.edx s.user s.tty in
    resume-Reachable frame written.0 (record s { tty = written.1 }) frame' s' r e
dispatch-Reachable disk v fresh sys_exit frame frame' s s' r calls free size e =
    let ended = exit frame.ebx s.scheduler in
    reschedule-Reachable frame frame' (record s { scheduler = ended }) s'
      (next s.scheduler ended r (exited frame.ebx s.scheduler calls)) e
dispatch-Reachable disk v fresh sys_isatty frame frame' s s' r calls free size e =
    resume-Reachable frame (isatty frame.ebx) s frame' s' r e

dispatch_number-Reachable :
    (disk : Disk) (v : Volume) (fresh : ℕ) (o : Option Number) (frame frame' : Frame)
    (s s' : System)
    → Reachable s.scheduler
    → IsCalling s.scheduler
    → IsFresh fresh s.scheduler
    → length s.files ≡ 32
    → dispatch_number disk v fresh o frame s ≡ some (returned frame' s')
    → Reachable s'.scheduler
dispatch_number-Reachable disk v fresh none frame frame' s s' r calls free size e =
    let same : s ≡ s' = cc e in subst (λ (x : System). Reachable x.scheduler) same r
dispatch_number-Reachable disk v fresh (some number) frame frame' s s' r calls free size e =
    dispatch-Reachable disk v fresh number frame frame' s s' r calls free size e

-- The memory of the kernel is as it was, and the process that goes on has it where the kernel looks for
-- it: what the call wrote through the caller's pointers lies in the addresses from 12 MiB on, which are
-- a process's own, what it wrote as page tables and as pages of a program lies in the page pool, and in
-- the directory of the frame the processor finds the first 12 MiB at their own addresses. The control
-- blocks, which are in the kernel's heap, and its static variables are below 12 MiB and not in the pool.
pub record SparesKernel (s : System) (frame' : Frame) (s' : System) : Type 0 where
  pub bytes : (a : ℕ) → a < 0xc0_0000 → s'.user a ≡ s.user a
  pub words : (a : ℕ) → (a < 0x40_0000) ⊎ (0x80_0000 ≤ a) → s'.paging.word a ≡ s.paging.word a
  pub mapping :
      (a : ℕ)
      → a < 0xc0_0000
      → (write : ℕ) × (user : ℕ) × (translate s'.paging.word frame'.cr3 a ≡ some (a, write, user))

-- Whatever system call the running process makes, with whatever arguments, as long as its writes through
-- pointers of the process and to page tables spare the kernel's memory and where it is mapped: when the handler returns to
-- a process, this one or another, the scheduler is in a state that is reachable by its own steps and
-- those of the process calls, and so it is consistent. The block for a new process is no process's, and
-- the table of files has 32 entries.
pub handler-Reachable :
    (disk : Disk) (v : Volume) (fresh : ℕ) (frame frame' : Frame) (s s' : System)
    → Reachable s.scheduler
    → IsCalling s.scheduler
    → IsFresh fresh s.scheduler
    → length s.files ≡ 32
    → handler disk v fresh frame s ≡ some (returned frame' s')
    → SparesKernel s frame' s'
    → Reachable s'.scheduler × IsConsistent s'.scheduler
unfolding handler
handler-Reachable disk v fresh frame frame' s s' r calls free size e spares =
    let (tty, printed, run) = >>=-eq-some (report frame s.tty) _ e in
    let r' =
      dispatch_number-Reachable disk v fresh (get_elem? numbers frame.eax) frame frame'
        (record s { tty = tty }) s' r calls free size run in
    (r', Reachable-IsConsistent s'.scheduler r')
