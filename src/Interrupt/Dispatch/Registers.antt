-- ===== src/Interrupt/Dispatch/Registers.antt =====
-- What a system call does to the registers of the process that makes it.
use semester_5_coursework.Interrupt.Descriptors
use semester_5_coursework.Prelude.{
  ◌∙◌, Option, ◌==◌, ap, sym, Bool-cases, >>=-eq-some, ◌≡◌, get_elem?, ℕ, Bool, refl, true, false,
  some, inl, inr,
}
use semester_5_coursework.Filesystem.Fat32.Opening.{open_file}
use semester_5_coursework.Filesystem.Fat32.Volume.{Disk, Volume}
use semester_5_coursework.Interrupt.Break.{sbrk}
use semester_5_coursework.Interrupt.Descriptors.{isatty}
use semester_5_coursework.Interrupt.Dispatch.{
  Number, numbers, handler, dispatch, dispatch_number, report, resume, current_pcb, fork_process,
  fork_with, sbrk_process, path_at, sys_exit, sys_close, sys_execve, sys_fork, sys_fstat,
  sys_getpid, sys_isatty, sys_kill, sys_link, sys_lseek, sys_open, sys_read, sys_sbrk, sys_stat,
  sys_times, sys_unlink, sys_wait, sys_write,
}
use semester_5_coursework.Interrupt.Syscall.{fork, minus_one, getpid}
use semester_5_coursework.Interrupt.Syscall.Created.{fork-current}
use semester_5_coursework.Interrupt.System.{System, perform, new_calls, Return, returned}
use semester_5_coursework.Memory.Paging.{Paging, default_directory, frame_of, slot}
use semester_5_coursework.Multitasking.Process.{Frame, set_pcb}

-- The calls after which the handler may schedule.
abbrev pub may_yield : Number → Bool
may_yield sys_execve = true
may_yield sys_exit = true
may_yield sys_kill = true
may_yield sys_wait = true
may_yield _ = false

-- The process goes on, with a result in eax and its other registers as they were.
abbrev pub GoesOn : Frame → System → Return → Type 0
GoesOn frame s ret =
    (result : ℕ) × (s' : System) × (ret ≡ returned (record frame { eax = result }) s')
    × (s'.scheduler.current ≡ s.scheduler.current)

resume-GoesOn :
    (frame : Frame) (result : ℕ) (s s' : System) (ret : Return)
    → s'.scheduler.current ≡ s.scheduler.current
    → resume frame result s' ≡ some ret
    → GoesOn frame s ret
resume-GoesOn frame result s s' ret same e =
    let end : returned (record frame { eax = result }) s' ≡ ret = cc e in
    (result, s', sym end, same)

fork_with-current :
    (made : ℕ × Paging) (fresh eip : ℕ) (s : System) (result : ℕ) (s' : System)
    → fork_with made fresh eip s ≡ some (result, s')
    → s'.scheduler.current ≡ s.scheduler.current
fork_with-current (directory, m) fresh eip s result s' e =
    let table = frame_of (m.word (slot directory 3)) in
    let ((pid, scheduler), run, rest) =
      >>=-eq-some (fork fresh directory table eip s.scheduler) _ e in
    let (paging, performed, last) =
      >>=-eq-some (perform (new_calls s.scheduler scheduler) m) _ rest in
    let same : record s { scheduler = scheduler; paging = paging } ≡ s' = cc last in
    ap (λ (x : System). x.scheduler.current) (sym same)
    ∙ fork-current fresh directory table eip pid s.scheduler scheduler run

fork_process-current :
    (fresh eip : ℕ) (s : System) (result : ℕ) (s' : System)
    → fork_process fresh eip s ≡ some (result, s')
    → s'.scheduler.current ≡ s.scheduler.current
unfolding fork_process
fork_process-current fresh eip s result s' e =
    elim (Bool-cases ((current_pcb s.scheduler).child_bitmap == 0xffff_ffff)) [
      | inl no_room ↦
          let refused : some (minus_one, s) ≡ some (result, s') = rw (no_room, fork_process) at e in
          let same : s ≡ s' = cc refused in ap (λ (x : System). x.scheduler.current) (sym same)
      | inr room ↦
          fork_with-current (default_directory s.paging) fresh eip s result s'
            (rw (room, fork_process) at e)
    ]

sbrk_process-current :
    (incr : ℕ) (s : System) (result : ℕ) (s' : System)
    → sbrk_process incr s ≡ some (result, s')
    → s'.scheduler.current ≡ s.scheduler.current
unfolding sbrk_process
sbrk_process-current incr s result s' e =
    let ((n, c, paging), run, last) =
      >>=-eq-some (sbrk incr (current_pcb s.scheduler) s.paging) _ e in
    let end = record s {
      scheduler = record (s.scheduler) { pcbs = set_pcb s.scheduler.pcbs s.scheduler.current c };
      paging = paging;
    } in
    let same : end ≡ s' = cc last in ap (λ (x : System). x.scheduler.current) (sym same)

pub dispatch-GoesOn :
    (disk : Disk) (v : Volume) (fresh : ℕ) (number : Number) (frame : Frame) (s : System)
    (ret : Return)
    → may_yield number ≡ false
    → dispatch disk v fresh number frame s ≡ some ret
    → GoesOn frame s ret
unfolding dispatch
dispatch-GoesOn disk v fresh sys_execve frame s ret stays e = cc
dispatch-GoesOn disk v fresh sys_exit frame s ret stays e = cc
dispatch-GoesOn disk v fresh sys_kill frame s ret stays e = cc
dispatch-GoesOn disk v fresh sys_wait frame s ret stays e = cc
dispatch-GoesOn disk v fresh sys_close frame s ret stays e =
    let closed = Descriptors.close frame.ebx s.files in
    resume-GoesOn frame closed.0 s (record s { files = closed.1 }) ret refl e
dispatch-GoesOn disk v fresh sys_fork frame s ret stays e =
    let ((result, s1), run, last) = >>=-eq-some (fork_process fresh frame.eip s) _ e in
    resume-GoesOn frame result s s1 ret (fork_process-current fresh frame.eip s result s1 run) last
dispatch-GoesOn disk v fresh sys_fstat frame s ret stays e = resume-GoesOn frame 0 s s ret refl e
dispatch-GoesOn disk v fresh sys_getpid frame s ret stays e =
    resume-GoesOn frame (getpid s.scheduler) s s ret refl e
dispatch-GoesOn disk v fresh sys_link frame s ret stays e = resume-GoesOn frame 0 s s ret refl e
dispatch-GoesOn disk v fresh sys_lseek frame s ret stays e =
    let sought = Descriptors.lseek frame.ebx frame.ecx s.files in
    resume-GoesOn frame sought.0 s (record s { files = sought.1 }) ret refl e
dispatch-GoesOn disk v fresh sys_open frame s ret stays e =
    let ((result, files), run, last) =
      >>=-eq-some (open_file disk v (path_at s.user frame.ebx) s.files) _ e in
    resume-GoesOn frame result s (record s { files = files }) ret refl last
dispatch-GoesOn disk v fresh sys_read frame s ret stays e =
    let ((result, user, files), run, last) =
      >>=-eq-some (Descriptors.read frame.ebx frame.ecx frame.edx s.user s.files) _ e in
    resume-GoesOn frame result s (record s { user = user; files = files }) ret refl last
dispatch-GoesOn disk v fresh sys_sbrk frame s ret stays e =
    let ((result, s1), run, last) = >>=-eq-some (sbrk_process frame.ebx s) _ e in
    resume-GoesOn frame result s s1 ret (sbrk_process-current frame.ebx s result s1 run) last
dispatch-GoesOn disk v fresh sys_stat frame s ret stays e = resume-GoesOn frame 0 s s ret refl e
dispatch-GoesOn disk v fresh sys_times frame s ret stays e = resume-GoesOn frame 0 s s ret refl e
dispatch-GoesOn disk v fresh sys_unlink frame s ret stays e = resume-GoesOn frame 0 s s ret refl e
dispatch-GoesOn disk v fresh sys_write frame s ret stays e =
    let written = Descriptors.write frame.ebx frame.ecx frame.edx s.user s.tty in
    resume-GoesOn frame written.0 s (record s { tty = written.1 }) ret refl e
dispatch-GoesOn disk v fresh sys_isatty frame s ret stays e =
    resume-GoesOn frame (isatty frame.ebx) s s ret refl e

-- A system call that is handled, other than execve, exit, kill and wait, gives control back to the
-- process that made it: the frame has a result in eax and is as before in all else, and the process
-- is still the current one.
pub handler-GoesOn :
    (disk : Disk) (v : Volume) (fresh : ℕ) (number : Number) (frame : Frame) (s : System)
    (ret : Return)
    → get_elem? numbers frame.eax ≡ some number
    → may_yield number ≡ false
    → handler disk v fresh frame s ≡ some ret
    → GoesOn frame s ret
unfolding handler
handler-GoesOn disk v fresh number frame s ret named stays e =
    let (tty, printed, run) = >>=-eq-some (report frame s.tty) _ e in
    let run' : dispatch disk v fresh number frame (record s { tty = tty }) ≡ some ret =
      ap (λ (o : Option Number). dispatch_number disk v fresh o frame (record s { tty = tty }))
        (sym named)
      ∙ run in
    dispatch-GoesOn disk v fresh number frame (record s { tty = tty }) ret stays run'
