-- ===== src/Interrupt/Dispatch/Tests.antt =====
-- Two processes, of which the first makes system calls.
use semester_5_coursework.Multitasking.Scheduler
use semester_5_coursework.Prelude.{
  ◌+◌, ◌*◌, ◌/◌, ◌∙◌, ◌-◌, ◌==◌, ltb, ◌<◌, if◌then◌else◌, ℕ, length-replicate, ◌≡◌, replicate,
  arith, Option, refl, none, some, [], ◌∷◌,
}
use semester_5_coursework.Filesystem.Fat32.Volume.{Disk, Volume}
use semester_5_coursework.Interrupt.Dispatch.{dispatch, report, handler, sys_getpid}
use semester_5_coursework.Interrupt.Dispatch.Reaches.{handler-Reachable, SparesKernel}
use semester_5_coursework.Interrupt.Dispatch.Registers.{handler-GoesOn, GoesOn}
use semester_5_coursework.Interrupt.Dispatch.Returns.{AreWords, handler-returns}
use semester_5_coursework.Interrupt.Syscall.{find_slot, notify_parent_complete, exit}
use semester_5_coursework.Interrupt.Syscall.Created.{IsCalling, IsFresh}
use semester_5_coursework.Interrupt.Syscall.Reachable.{
  Reachable, booted, next, created, scheduled, boot,
}
use semester_5_coursework.Interrupt.System.{perform, reschedule, System, Return, returned, halted}
use semester_5_coursework.Memory.Paging.{destroy_directory, destroy_tables, destroy_table}
use semester_5_coursework.Memory.Physical.{free}
use semester_5_coursework.Memory.Paging.Default.{IsDefault}
use semester_5_coursework.Memory.Paging.Seen.{translate-IsDefault}
use semester_5_coursework.Memory.Paging.Translate.{translate}
use semester_5_coursework.Multitasking.Process.{Frame, Pcbs}
use semester_5_coursework.Multitasking.Scheduler.{
  save_current, Scheduler, create, schedule, admit_new, resolve_waiting, next_ready, reap,
  load_current, resumed, panic, new_pcb,
}
use semester_5_coursework.Multitasking.Scheduler.Members.{IsConsistent}
use semester_5_coursework.Queue.{Ptr}
use semester_5_coursework.Tty.{sxtoa, push_hex, sitoa, push_decimal, scroll, putchar, print, printf}

abbrev blocks : Pcbs
blocks p = new_pcb 0 0 0

abbrev frame : Frame
frame = record {
  cr3 = 0;
  ds = 0;
  edi = 0;
  esi = 0;
  ebp = 0;
  esp_kernel = 0;
  ebx = 0;
  edx = 0;
  ecx = 0;
  eax = 0;
  interrupt = 0x80;
  error_code = 0;
  eip = 0x1000;
  cs = 0x1b;
  eflags = 0x202;
  esp_original = 0xc01000;
  ss = 0x23;
}

made : Option (Ptr × Scheduler) → Scheduler
made none = boot blocks
made (some (p, s)) = s

first : Scheduler
unfolding made create
first = made (create 16 0x401000 0x402000 0x1000 (boot blocks))

both : Scheduler
unfolding made create first
both = made (create 32 0x403000 0x404000 0x2000 first)

frame_after : Scheduler.Outcome → Frame
frame_after (resumed f s) = f
frame_after (panic s) = frame

scheduler_after : Scheduler.Outcome → Scheduler
scheduler_after (resumed f s) = s
scheduler_after (panic s) = s

calling : Scheduler
unfolding scheduler_after both schedule
calling = scheduler_after (schedule frame both)

first-Reachable : Reachable first
unfolding first made create
first-Reachable =
    next (boot blocks) first (booted blocks)
      (created 16 0x401000 0x402000 0x1000 16 (boot blocks) first ((λ z. omega arith), refl) refl)

both-Reachable : Reachable both
unfolding both first made create
both-Reachable =
    next first both first-Reachable
      (created 32 0x403000 0x404000 0x2000 32 first both ((λ z. omega arith), refl) refl)

calling-Reachable : Reachable calling
unfolding calling both first made create schedule scheduler_after frame_after admit_new
    resolve_waiting next_ready reap load_current
calling-Reachable =
    next both calling both-Reachable
      (scheduled frame (frame_after (schedule frame both)) both calling refl)

calling-IsCalling : IsCalling calling
unfolding calling both first made create schedule scheduler_after admit_new resolve_waiting
    next_ready reap load_current
calling-IsCalling = ((λ z. omega arith), refl)

block-IsFresh : IsFresh 48 calling
unfolding calling both first made create schedule scheduler_after admit_new resolve_waiting
    next_ready reap load_current
block-IsFresh = ((λ z. omega arith), refl)

-- The directory of the second process, at 0x403000, is a default one; that of the first is empty.
abbrev words : ℕ → ℕ
words p =
    if p == 0x403000
    then 0x405005
    else if p == 0x403004
    then 0x406001
    else if p == 0x403008
    then 0x407001
    else if p == 0x40300c
    then 0x408007
    else if p == 0x408ffc
    then 0xb8007
    else if ltb p 0x405000
    then 0
    else if ltb p 0x406000
    then (p - 0x405000) / 4 * 0x1000 + 5
    else if ltb p 0x407000
    then 0x400000 + (p - 0x406000) / 4 * 0x1000 + 1
    else if ltb p 0x408000
    then 0x800000 + (p - 0x407000) / 4 * 0x1000 + 1
    else 0

words-IsDefault : IsDefault words 0x403000 0x408000
words-IsDefault = record {
  table0 = 0x405000;
  table1 = 0x406000;
  table2 = 0x407000;
  kernel = record {
    frame = (refl, omega arith, omega arith);
    linked = refl;
    mapped = λ k less. ground arith;
  };
  pool = record {
    frame = (refl, omega arith, omega arith);
    linked = refl;
    mapped = λ k less. ground arith;
  };
  heap = record {
    frame = (refl, omega arith, omega arith);
    linked = refl;
    mapped = λ k less. ground arith;
  };
  frame = (refl, omega arith, omega arith);
  user = refl;
  screen = refl;
  no_page = λ k less. ground arith;
  no_table = λ k low high. ground arith;
}

kernel_mapped :
    (a : ℕ)
    → a < 0xc0_0000
    → (write : ℕ) × (user : ℕ) × (translate words 0x403000 a ≡ some (a, write, user))
kernel_mapped a low = (
  0,
  (if ltb a 0x40_0000 then 1 else 0),
  translate-IsDefault words 0x403000 0x408000 a (refl, omega arith, omega arith) words-IsDefault
        (omega arith)
      ∙ ground arith,
)

abbrev system : Scheduler → System
system s = record {
  scheduler = s;
  paging = record { bitmap = 0x1ff ∷ replicate 31 0; word = words };
  files = replicate 32 none;
  tty = record { cells = replicate 2000 7; color = 15; row = 3; col = 0 };
  user = λ p. 0;
}

no_disk : Disk
no_disk lba = replicate 512 0

abbrev volume : Volume
volume = record {
  boot_record = record {
    bpb = record {
      start_code = [];
      identifier = [];
      bytes_per_sector = 512;
      sectors_per_cluster = 1;
      reserved_sectors = 1;
      fats_count = 1;
      root_dir_entries_count = 0;
      total_sectors = 0;
      mdt = 0;
      sectors_per_fat = 0;
      sectors_per_track = 0;
      heads_count = 0;
      hidden_sectors = 0;
      large_sector_count = 0;
    };
    extended = record {
      sectors_per_fat = 1;
      flags = 0;
      version = 0;
      root_directory_cluster = 2;
      fsinfo_sector = 0;
      backup_boot_sector = 0;
      reserved = [];
      drive_number = 0;
      nt_flags = 0;
      signature = 0;
      serial_id = 0;
      label = [];
      system_id = [];
      boot_code = [];
      boot_signature = 0;
    };
  };
  fs = record { first_data_sector = 2; root_dir_sector = 2 };
}

returned_frame : Option Return → Frame
returned_frame none = frame
returned_frame (some (returned f s)) = f
returned_frame (some (halted s)) = frame

returned_system : Option Return → System → System
returned_system none s = s
returned_system (some (returned f s')) s = s'
returned_system (some (halted s')) s = s'

-- getpid.
abbrev getpid_frame : Frame
getpid_frame = record frame { eax = 5 }

after_getpid : Option Return
after_getpid = handler no_disk volume 48 getpid_frame (system calling)

getpid_returns :
    handler no_disk volume 48 getpid_frame (system calling)
    ≡ some (returned (returned_frame after_getpid) (returned_system after_getpid (system calling)))
unfolding returned_frame returned_system after_getpid handler report printf print putchar scroll
    push_decimal sitoa push_hex sxtoa dispatch
getpid_returns = refl

handler-GoesOn_example :
    GoesOn getpid_frame
      (system calling)
      (returned (returned_frame after_getpid) (returned_system after_getpid (system calling)))
handler-GoesOn_example =
    handler-GoesOn no_disk volume 48 sys_getpid getpid_frame (system calling)
      (returned (returned_frame after_getpid) (returned_system after_getpid (system calling))) refl
      refl getpid_returns

-- exit: the second process runs next, and the first is removed.
after_exit : Option Return
after_exit = handler no_disk volume 48 frame (system calling)

exit_returns :
    handler no_disk volume 48 frame (system calling)
    ≡ some (returned (returned_frame after_exit) (returned_system after_exit (system calling)))
unfolding returned_frame returned_system after_exit handler report printf print putchar scroll
    push_decimal sitoa push_hex sxtoa dispatch calling both first made create schedule
    scheduler_after admit_new resolve_waiting next_ready reap load_current reschedule exit perform
    notify_parent_complete find_slot save_current destroy_directory destroy_tables destroy_table
    free
exit_returns = refl

exit-SparesKernel :
    SparesKernel
      (system calling)
      (returned_frame after_exit)
      (returned_system after_exit (system calling))
unfolding returned_frame returned_system after_exit handler report printf print putchar scroll
    push_decimal sitoa push_hex sxtoa dispatch calling both first made create schedule
    scheduler_after admit_new resolve_waiting next_ready reap load_current reschedule exit perform
    notify_parent_complete find_slot save_current destroy_directory destroy_tables destroy_table
    free
exit-SparesKernel = record { bytes = λ a low. refl; words = λ a out. refl; mapping = kernel_mapped }

handler-Reachable_example :
    Reachable (returned_system after_exit (system calling)).scheduler
    × IsConsistent (returned_system after_exit (system calling)).scheduler
handler-Reachable_example =
    handler-Reachable no_disk volume 48 frame (returned_frame after_exit) (system calling)
      (returned_system after_exit (system calling)) calling-Reachable calling-IsCalling
      block-IsFresh refl exit_returns exit-SparesKernel

getpid_frame-AreWords : AreWords getpid_frame
getpid_frame-AreWords = record {
  eax = omega arith;
  esp = omega arith;
  cs = omega arith;
  eip = omega arith;
}

handler-returns_example :
    (ret : Return) × (handler no_disk volume 48 getpid_frame (system calling) ≡ some ret)
    × GoesOn getpid_frame (system calling) ret
handler-returns_example =
    handler-returns no_disk volume 48 sys_getpid getpid_frame (system calling) refl refl
      getpid_frame-AreWords
      (record {
        size = length-replicate {A = ℕ} 2000 7;
        col = omega arith;
        row = omega arith;
        last = λ e. absurd (omega arith);
      })
