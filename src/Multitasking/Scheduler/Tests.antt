-- ===== src/Multitasking/Scheduler/Tests.antt =====
-- The scheduler's theorems at a small machine: a running process at address 16, a ready one at 32,
-- a new one at 48 that was killed, and a blocked one at 64 with a ready one at 80 behind it.
use semester_5_coursework.Prelude.{
  count, ◌⊎◌, ◌<◌, ◌+◌, ◌≢◌, ◌==◌, if◌then◌else◌, arith, ◌≡◌, refl, ℕ, ◌∷◌, [], some,
}
use semester_5_coursework.Multitasking.Process.{
  done, running, ready, Pcbs, Pcb, ProcessState, Frame,
}
use semester_5_coursework.Multitasking.Scheduler.{
  load_registers, save_registers, reap, load_current, next_ready, resolve_waiting, admit_new,
  save_current, panic, Scheduler, schedule, Outcome, resumed, new_pcb,
}
use semester_5_coursework.Multitasking.Scheduler.Fields.{stateless}
use semester_5_coursework.Multitasking.Scheduler.Members.{freed, members, IsConsistent}
use semester_5_coursework.Multitasking.Scheduler.RoundRobin.{round_robin, ticks, computing}
use semester_5_coursework.Multitasking.Scheduler.Schedule.{
  schedule_conserves, schedule-IsConsistent,
}
use semester_5_coursework.Multitasking.Scheduler.Starvation.{
  schedule_blocked, schedule_revives, Extends,
}
use semester_5_coursework.Multitasking.Scheduler.Switch.{
  schedule_restores, schedule_loads, schedule_saves,
}
use semester_5_coursework.Queue.{null}

abbrev frame : Frame
frame = record {
  cr3 = 1;
  ds = 2;
  edi = 3;
  esi = 4;
  ebp = 5;
  esp_kernel = 6;
  ebx = 7;
  edx = 8;
  ecx = 9;
  eax = 10;
  interrupt = 32;
  error_code = 0;
  eip = 11;
  cs = 12;
  eflags = 13;
  esp_original = 14;
  ss = 15;
}

abbrev pcb_in : ProcessState → ℕ → Pcb
pcb_in st n = record (new_pcb n 0x1000 0x400000) { state = st }

abbrev machine_pcbs : Pcbs
machine_pcbs p =
    if p == 16
    then pcb_in running 1
    else if p == 32
    then pcb_in ready 2
    else if p == 48
    then pcb_in done 3
    else if p == 64
    then pcb_in done 4
    else pcb_in ready 5

abbrev machine : Scheduler
machine = record {
  pid = 6;
  all = 0 ∷ 16 ∷ 32 ∷ 48 ∷ 64 ∷ 80 ∷ 0 ∷ 0 ∷ [];
  current = 16;
  start_queue = 48 ∷ [];
  ready_queue = 32 ∷ [];
  waiting_queue = 64 ∷ 80 ∷ [];
  done_queue = [];
  pcbs = machine_pcbs;
  calls = [];
}

abbrev outcome_frame : Outcome → Frame
outcome_frame (resumed f s) = f
outcome_frame (panic s) = frame

abbrev outcome_state : Outcome → Scheduler
outcome_state (resumed f s) = s
outcome_state (panic s) = s

next_frame : Frame
unfolding schedule save_current admit_new resolve_waiting next_ready load_current reap
next_frame = outcome_frame (schedule frame machine)

next_machine : Scheduler
unfolding schedule save_current admit_new resolve_waiting next_ready load_current reap
next_machine = outcome_state (schedule frame machine)

machine_resumes : schedule frame machine ≡ resumed next_frame next_machine
unfolding next_frame next_machine
machine_resumes = refl

machine-IsConsistent : IsConsistent machine
machine-IsConsistent = record {
  current = λ n. tt;
  ready = (tt, tt);
  waiting = (tt, (tt, tt));
  done = tt;
  once = λ p n. ground arith;
  present = refl;
}

schedule_loads_example :
    (next_machine.current ≢ null)
    × ((next_machine.pcbs next_machine.current).state ≡ running)
    × (next_frame ≡ load_registers (next_machine.pcbs next_machine.current) frame)
schedule_loads_example = schedule_loads frame next_frame machine next_machine machine_resumes

schedule_saves_example :
    stateless (next_machine.pcbs 16) ≡ stateless (save_registers frame (machine.pcbs 16))
schedule_saves_example =
    schedule_saves frame next_frame machine next_machine 16 (λ z. ground arith) machine_resumes

-- The only process of a machine is resumed at once.
abbrev alone : Scheduler
alone = computing 6 [] 16 [] machine_pcbs []

alone_frame : Frame
unfolding schedule save_current admit_new resolve_waiting next_ready load_current reap
alone_frame = outcome_frame (schedule frame alone)

alone_after : Scheduler
unfolding schedule save_current admit_new resolve_waiting next_ready load_current reap
alone_after = outcome_state (schedule frame alone)

-- Two processes: the second runs, changes eax and is preempted, and the first continues.
abbrev pair : Scheduler
pair = computing 6 [] 16 (32 ∷ []) machine_pcbs []

pair_frame : Frame
unfolding schedule save_current admit_new resolve_waiting next_ready load_current reap
pair_frame = record (outcome_frame (schedule frame pair)) { eax = 99; ebx = 98 }

pair_after : Scheduler
unfolding schedule save_current admit_new resolve_waiting next_ready load_current reap
pair_after = outcome_state (schedule frame pair)

back_frame : Frame
unfolding schedule save_current admit_new resolve_waiting next_ready load_current reap pair_frame
    pair_after
back_frame = outcome_frame (schedule pair_frame pair_after)

back_after : Scheduler
unfolding schedule save_current admit_new resolve_waiting next_ready load_current reap pair_frame
    pair_after
back_after = outcome_state (schedule pair_frame pair_after)

pair_resumes : schedule frame pair ≡ resumed (outcome_frame (schedule frame pair)) pair_after
unfolding schedule save_current admit_new resolve_waiting next_ready load_current reap pair_after
pair_resumes = refl

back_resumes : schedule pair_frame pair_after ≡ resumed back_frame back_after
unfolding schedule save_current admit_new resolve_waiting next_ready load_current reap pair_frame
    pair_after back_frame back_after
back_resumes = refl

schedule_restores_example : back_frame ≡ record pair_frame {
  eip = 11;
  esp_original = 14;
  cr3 = 0x400000;
  eax = 10;
  ebx = 7;
  ecx = 9;
  edx = 8;
  edi = 3;
  esi = 4;
  ebp = 5;
  eflags = 13;
}
unfolding pair_frame pair_after back_after
schedule_restores_example =
    schedule_restores frame (outcome_frame (schedule frame pair)) pair_frame back_frame pair
      pair_after pair_after back_after (λ z. ground arith) pair_resumes refl (λ z. ground arith)
      (λ z. ground arith) back_resumes refl

schedule-IsConsistent_example : IsConsistent next_machine × (next_machine.done_queue ≡ [])
schedule-IsConsistent_example =
    schedule-IsConsistent frame next_frame machine next_machine machine-IsConsistent machine_resumes

schedule_conserves_example :
    members next_machine 48 + freed next_machine.calls 48
    ≡ members machine 48 + freed machine.calls 48
schedule_conserves_example =
    schedule_conserves frame next_frame machine next_machine 48 machine-IsConsistent machine_resumes
      (λ z. ground arith)

schedule_blocked_example :
    Extends (64 ∷ 80 ∷ []) next_machine.waiting_queue
    × (0 < count 80 (64 ∷ 80 ∷ []) → next_machine.current ≢ 80)
schedule_blocked_example =
    schedule_blocked frame next_frame machine next_machine 64 80 (80 ∷ []) machine-IsConsistent refl
      refl machine_resumes

schedule_revives_example :
    ((next_machine.current ≡ 48) × ((next_machine.pcbs 48).state ≡ running))
    ⊎ ((0 < count 48 next_machine.ready_queue) × ((next_machine.pcbs 48).state ≡ ready))
schedule_revives_example =
    schedule_revives frame next_frame machine next_machine 48 (λ z. ground arith) (omega arith)
      machine_resumes

-- Two ready processes, at 32 and 80: the second runs after two ticks.
round_robin_example :
    (s' : Scheduler) × (ticks
        (frame ∷ frame ∷ [])
        (computing 6 [] 16 (32 ∷ 80 ∷ []) machine_pcbs [])
      ≡ some s')
    × (s'.current ≡ 80)
round_robin_example =
    round_robin (32 ∷ []) [] 80 16 6 [] machine_pcbs [] (frame ∷ frame ∷ [])
      (refl, λ p. ground arith) refl (refl, (refl, tt)) refl
