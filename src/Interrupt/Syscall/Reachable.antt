-- ===== src/Interrupt/Syscall/Reachable.antt =====
-- All that happens to the scheduler, as steps, and what holds in every state that they reach.
use semester_5_coursework.Prelude.{◌∙◌, arith, sym, ◌≡◌, ℕ, replicate, refl, [], some}
use semester_5_coursework.Interrupt.Break.{sbrk}
use semester_5_coursework.Interrupt.Syscall.{exec_from, fork, exit, kill, wait}
use semester_5_coursework.Interrupt.Syscall.Consistent.{
  exit-IsConsistent, kill-IsConsistent, wait-IsConsistent, change-IsConsistent,
}
use semester_5_coursework.Interrupt.Syscall.Created.{
  IsCalling, IsFresh, create-IsConsistent, fork-IsConsistent, create-current,
  exec_from-IsConsistent, sbrk-state, Allowed-same,
}
use semester_5_coursework.Memory.Paging.{Paging}
use semester_5_coursework.Multitasking.Process.{set_pcb, Pcb, Pcbs, Frame}
use semester_5_coursework.Multitasking.Scheduler.{Scheduler, create, schedule, resumed}
use semester_5_coursework.Multitasking.Scheduler.Members.{IsConsistent}
use semester_5_coursework.Multitasking.Scheduler.Schedule.{schedule-IsConsistent}
use semester_5_coursework.Queue.{null, Ptr}

-- The calls of the scheduler and the system calls that manage processes.
pub data Step : Scheduler → Scheduler → Type 0 where
  scheduled : (f f' : Frame) (s s' : Scheduler) → schedule f s ≡ resumed f' s' → Step s s'
  created :
      (fresh directory table entry : ℕ) (p : Ptr) (s s' : Scheduler)
      → IsFresh fresh s
      → create fresh directory table entry s ≡ some (p, s')
      → Step s s'
  forked :
      (fresh directory table eip result : ℕ) (s s' : Scheduler)
      → IsCalling s
      → IsFresh fresh s
      → fork fresh directory table eip s ≡ some (result, s')
      → Step s s'
  exited : (code : ℕ) (s : Scheduler) → IsCalling s → Step s (exit code s)
  killed :
      (pid sig result : ℕ) (s s' : Scheduler)
      → IsCalling s
      → kill pid sig s ≡ some (result, s')
      → Step s s'
  waited : (result : ℕ) (s s' : Scheduler) → IsCalling s → wait s ≡ some (result, s') → Step s s'
  executed :
      (fresh directory table entry : ℕ) (p : Ptr) (s s' : Scheduler)
      → IsCalling s
      → IsFresh fresh s
      → create fresh directory table entry s ≡ some (p, s')
      → Step s (exec_from s'.current (p, s')).1
  grown :
      (incr result : ℕ) (c : Pcb) (m m' : Paging) (s : Scheduler)
      → sbrk incr (s.pcbs s.current) m ≡ some (result, c, m')
      → Step s (record s { pcbs = set_pcb s.pcbs s.current c })

-- The statics as they are initialised, over any memory.
abbrev pub boot : Pcbs → Scheduler
boot m = record {
  pid = 1;
  all = replicate 128 null;
  current = null;
  start_queue = [];
  ready_queue = [];
  waiting_queue = [];
  done_queue = [];
  pcbs = m;
  calls = [];
}

pub data Reachable : Scheduler → Type 0 where
  booted : (m : Pcbs) → Reachable (boot m)
  next : (s s' : Scheduler) → Reachable s → Step s s' → Reachable s'

Step-IsConsistent : (s s' : Scheduler) → Step s s' → IsConsistent s → IsConsistent s'
Step-IsConsistent _ _ (scheduled f f' s s' e) v = (schedule-IsConsistent f f' s s' v e).0
Step-IsConsistent _ _ (created fresh directory table entry p s s' f e) v =
    create-IsConsistent fresh directory table entry p s s' v f e
Step-IsConsistent _ _ (forked fresh directory table eip result s s' c f e) v =
    fork-IsConsistent fresh directory table eip result s s' v f e
Step-IsConsistent _ _ (exited code s c) v = exit-IsConsistent code s v c.1
Step-IsConsistent _ _ (killed pid sig result s s' c e) v =
    kill-IsConsistent pid sig result s s' v c.1 e
Step-IsConsistent _ _ (waited result s s' c e) v = wait-IsConsistent result s s' v c.1 c.0 e
Step-IsConsistent _ _ (executed fresh directory table entry p s s' c f e) v =
    exec_from-IsConsistent p s' (create-IsConsistent fresh directory table entry p s s' v f e)
      (λ z. c.0 (sym (create-current fresh directory table entry p s s' e) ∙ z))
Step-IsConsistent _ _ (grown incr result c m m' s e) v =
    change-IsConsistent s.current c s v
      (Allowed-same _ _ (sbrk-state incr result (s.pcbs s.current) c m m' e))

-- In every state that is reachable from the start, by any sequence of scheduling, new processes and
-- system calls, the scheduler is consistent: the queues hold processes of the states that they are
-- for, no process is in two places, and the null pointer is in no queue.
pub Reachable-IsConsistent : (s : Scheduler) → Reachable s → IsConsistent s
Reachable-IsConsistent _ (booted m) = record {
  current = λ n. absurd (n refl);
  ready = tt;
  waiting = tt;
  done = tt;
  once = λ p n. ground arith;
  present = refl;
}
Reachable-IsConsistent _ (next s s' r step) =
    Step-IsConsistent s s' step (Reachable-IsConsistent s r)
