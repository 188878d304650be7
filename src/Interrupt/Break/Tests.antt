-- ===== src/Interrupt/Break/Tests.antt =====
-- Five thousand bytes for a new process, and small changes.
use Prim.Native.Nat.{zero}
use semester_5_coursework.Prelude.{
  suc, ◌≢◌, arith, ◌/◌, ◌%◌, ◌+◌, ◌<◌, ◌==◌, ◌*◌, ◌-◌, if◌then◌else◌, ◌≡◌, ◌^◌, ℕ, replicate, refl,
  ◌∷◌, some, true, false,
}
use semester_5_coursework.Interrupt.Break.{sbrk, page_count}
use semester_5_coursework.Interrupt.Break.Extend.{sbrk-extend}
use semester_5_coursework.Interrupt.Break.Pages.{HasPages, IsExtended, page_at}
use semester_5_coursework.Memory.Paging.Fresh.{after}
use semester_5_coursework.Memory.Physical.{malloc, find_free, find_bit}
use semester_5_coursework.Memory.Paging.{Paging}
use semester_5_coursework.Multitasking.Process.{Pcb}
use semester_5_coursework.Multitasking.Scheduler.{new_pcb}

abbrev process : Pcb
process = new_pcb 1 0x1000 0x400000

abbrev memory : Paging
memory = record { bitmap = 3 ∷ replicate 31 0; word = λ p. if p == 0x40000c then 0x401007 else 0 }

-- The two pages are those behind the directory's and the table's.
two_pages : (malloc memory.bitmap).0 ≡ 0x402000
unfolding malloc find_free find_bit
two_pages = refl

second_page : (malloc (after 1 memory.bitmap)).0 ≡ 0x403000
unfolding malloc find_free find_bit after
second_page = refl

memory-HasPages : HasPages 2 0x401000 memory.bitmap
unfolding after
memory-HasPages = record { size = refl; found = present; apart = other }
  where
    present : (k : ℕ) → k < 2 → page_at memory.bitmap k ≢ 0
    present zero less e = omega (arith, e, two_pages)
    present (suc zero) less e = omega (arith, e, second_page)
    present (suc (suc k)) less e = absurd (omega arith)

    other : (k : ℕ) → k < 2 → page_at memory.bitmap k ≢ 0x401000
    other zero less e = omega (arith, e, two_pages)
    other (suc zero) less e = omega (arith, e, second_page)
    other (suc (suc k)) less e = absurd (omega arith)

sbrk-extend_example :
    (m' : Paging) × (sbrk 5000 process memory
      ≡ some (process.heap_end, record process { heap_end = process.heap_end + 0x1000 * 2 }, m'))
    × IsExtended 2 (process.heap_end % 0x400000 / 0x1000) 0x401000 memory m'
sbrk-extend_example =
    sbrk-extend 5000 2 0x401000 process memory (omega arith) (omega arith) (omega arith)
      (omega arith) (omega arith) refl (refl, omega arith, omega arith) (omega arith)
      memory-HasPages

minus_one_byte : page_count 0xffff_ffff ≡ some (false, 0)
minus_one_byte = refl

minus_two_pages : page_count (2 ^ 32 - 0x2000) ≡ some (true, 1)
minus_two_pages = refl
