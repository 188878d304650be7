-- ===== src/Interrupt/System.antt =====
-- The state that the system calls share, and how the calls of one component reach another: what the
-- scheduler asks of kernel/memory/paging.c is done on the page tables.
use semester_5_coursework.Memory.Paging
use semester_5_coursework.Prelude.{◌>>=◌, length, drop, ℕ, Option, List, some, [], ◌∷◌}
use semester_5_coursework.Filesystem.Fat32.{Files}
use semester_5_coursework.Interrupt.Descriptors.{User}
use semester_5_coursework.Memory.Paging.{Paging, default_directory, frame_of, slot}
use semester_5_coursework.Multitasking.Process.{Frame}
use semester_5_coursework.Multitasking.Scheduler.{
  Scheduler, Call, create_page, destroy_directory, free, create, schedule, resumed, panic, Outcome,
}
use semester_5_coursework.Queue.{Ptr}
use semester_5_coursework.Tty.{Tty}

-- The components' states, and the memory of the process that calls.
pub record System : Type 0 where
  pub scheduler : Scheduler
  pub paging : Paging
  pub files : Files
  pub tty : Tty
  pub user : User

-- The calls that the scheduler has recorded, on the page tables. Freeing a control block changes no
-- page table.
unfoldable pub perform : List Call → Paging → Option Paging
perform [] m = some m
perform (create_page index table flags ∷ calls) m =
    perform calls (Paging.create_page index table flags m).1
perform (destroy_directory directory ∷ calls) m = do
  m' ← Paging.destroy_directory directory m
  perform calls m'
perform (free p ∷ calls) m = perform calls m

-- The calls that a step of the scheduler has added.
abbrev pub new_calls : Scheduler → Scheduler → List Call
new_calls s s' = drop (length s.calls) s'.calls

-- `scheduler.create`: the directory is that of `paging.default_directory`, and the first page of its
-- table 3 is the stack. `fresh` is the block that the heap returns.
unfoldable pub create_process : (fresh entry : ℕ) → System → Option (Ptr × System)
unfolding perform
create_process fresh entry s = do
  let made = default_directory s.paging
  let table = frame_of (made.1.word (slot made.0 3))
  (p, scheduler) ← create fresh made.0 table entry s.scheduler
  paging ← perform (new_calls s.scheduler scheduler) made.1
  some (p, record s { scheduler = scheduler; paging = paging })

-- `scheduler.schedule`: the frame of the next process, or `halted`.
pub data Return : Type 0 where
  returned : Frame → System → Return
  halted : System → Return

abbrev pub rescheduled : System → Outcome → Option Return
rescheduled s (resumed frame scheduler) = do
  paging ← perform (new_calls s.scheduler scheduler) s.paging
  some (returned frame (record s { scheduler = scheduler; paging = paging }))
rescheduled s (panic scheduler) = some (halted (record s { scheduler = scheduler }))

unfoldable pub reschedule : Frame → System → Option Return
unfolding perform
reschedule frame s = rescheduled s (schedule frame s.scheduler)
