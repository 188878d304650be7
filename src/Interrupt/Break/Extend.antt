-- ===== src/Interrupt/Break/Extend.antt =====
-- How far `sbrk` extends the heap.
use semester_5_coursework.Prelude.{
  ◌∙◌, ap, arith, false, ◌==◌, ◌/◌, ◌%◌, ◌≡◌, ◌*◌, ◌≤◌, ◌^◌, ◌+◌, ◌<◌, ℕ, some,
}
use semester_5_coursework.Interrupt.Break.{sbrk, extend, move_end, page_count}
use semester_5_coursework.Interrupt.Break.Pages.{HasPages, IsExtended, extend-IsExtended}
use semester_5_coursework.Memory.Paging.Fresh.{IsFrame}
use semester_5_coursework.Memory.Paging.{Paging, slot, frame_of}
use semester_5_coursework.Multitasking.Process.{Pcb}

-- `sbrk` of a positive number of bytes, where neither the sum that rounds it up nor the new end of the
-- heap overflows, returns the old end and moves it up by the least number of whole pages that hold the
-- bytes. When the table of the old end is a page of the pool, its entries from that of the old end on
-- are enough, and the allocator has as many pages, then each of these entries leads to a fresh page of
-- zeros that the process may write, the allocator has taken just these pages, and no other word of
-- memory changes; nothing else of the process changes.
pub sbrk-extend :
    (incr num table : ℕ) (c : Pcb) (m : Paging)
    → 0 < incr
    → incr + 0xfff < 2 ^ 31
    → c.heap_end + incr + 0xfff < 2 ^ 32
    → incr ≤ 0x1000 * num
    → 0x1000 * num < incr + 0x1000
    → frame_of (m.word (slot c.cr3 (c.heap_end / 0x400000))) ≡ table
    → IsFrame table
    → c.heap_end % 0x400000 / 0x1000 + num ≤ 1024
    → HasPages num table m.bitmap
    → (m' : Paging) × (sbrk incr c m
        ≡ some (c.heap_end, record c { heap_end = c.heap_end + 0x1000 * num }, m'))
      × IsExtended num (c.heap_end % 0x400000 / 0x1000) table m m'
unfolding sbrk
sbrk-extend incr num table c m p small room low high at_table t fits pages =
    let nz : (incr == 0) ≡ false = ground arith in
    let count : (incr + 0xfff) / 0x1000 ≡ num = omega arith in
    let rounded : page_count incr ≡ some (false, (incr + 0xfff) / 0x1000) = ground arith in
    let exact : page_count incr ≡ some (false, num) =
      rounded ∙ ap (λ (n : ℕ). some (false, n)) count in
    let end : (c.heap_end + 0x1000 * num) % 2 ^ 32 ≡ c.heap_end + 0x1000 * num = omega arith in
    let index = c.heap_end % 0x400000 / 0x1000 in
    (
      extend num index table m,
      rw nz (
          ap (move_end c m) exact ∙ (λ i.
            some (c.heap_end, record c { heap_end = end i }, extend num index (at_table i) m))),
      extend-IsExtended num index table m t fits pages,
    )
