-- ===== src/Interrupt/Break.antt =====
-- The system call that extends a process's heap: `sbrk` of kernel/interrupt/syscall.c, over the page
-- tables of Memory.Paging. The argument is the 32-bit pattern of an `int`.
pub mod Pages
pub mod Extend
mod Tests
use mathlib.Core.Bool.{true}
use semester_5_coursework.Prelude.{
  true, ◌%◌, leb, ◌/◌, ◌*◌, ◌-◌, false, ◌^◌, ◌==◌, ltb, ◌+◌, if◌then◌else◌, Bool, ℕ, Option, refl,
  [], ◌∷◌, none, some, zero, suc,
}
use semester_5_coursework.Memory.Paging.{
  Paging, create_page, slot, frame_of, present_readwrite_user,
}
use semester_5_coursework.Multitasking.Process.{Pcb}

-- `(incr + 0x1000 - 1) / 0x1000`, which rounds towards 0: a count of pages, and whether it is
-- negative. `none` is a sum outside of `int`.
abbrev pub page_count : ℕ → Option (Bool × ℕ)
page_count incr =
    if ltb incr (2 ^ 31)
    then (if ltb (incr + 0xfff) (2 ^ 31) then some (false, (incr + 0xfff) / 0x1000) else none)
    else if leb (2 ^ 32) (incr + 0xfff)
    then some (false, (incr + 0xfff - 2 ^ 32) / 0x1000)
    else some (true, (2 ^ 32 - (incr + 0xfff)) / 0x1000)

-- The loop: the pages from entry `index` on.
pub extend : (rounds index table : ℕ) → Paging → Paging
extend zero index table m = m
extend (suc rounds) index table m =
    extend rounds (index + 1) table (create_page index table present_readwrite_user m).1

-- `none` is the sum outside of `int`; a negative count runs no round and moves the end down.
abbrev pub move_end : Pcb → Paging → Option (Bool × ℕ) → Option (ℕ × Pcb × Paging)
move_end c m none = none
move_end c m (some (true, num)) =
    some (c.heap_end, record c { heap_end = (c.heap_end + 2 ^ 32 - 0x1000 * num) % 2 ^ 32 }, m)
move_end c m (some (false, num)) =
    let table = frame_of (m.word (slot c.cr3 (c.heap_end / 0x400000))) in
    some (
      c.heap_end,
      record c { heap_end = (c.heap_end + 0x1000 * num) % 2 ^ 32 },
      extend num (c.heap_end % 0x400000 / 0x1000) table m,
    )

-- `sbrk` on the control block of the current process.
unfoldable pub sbrk : (incr : ℕ) → Pcb → Paging → Option (ℕ × Pcb × Paging)
unfolding extend
sbrk incr c m = if incr == 0 then some (c.heap_end, c, m) else move_end c m (page_count incr)
