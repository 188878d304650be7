-- ===== src/Hardware/Pio.antt =====
-- The disk driver, kernel/hardware/pio.c. The queue of tasks is the list that it implements (Queue),
-- of tasks in place of pointers to them; what the driver does to the ports is a list of accesses.
pub mod Commands
mod Tests
use semester_5_coursework.Prelude.{
  ◌%◌, ◌^◌, ◌/◌, ◌*◌, ltb, bit_and, ◌+◌, ◌++◌, if◌then◌else◌, bit_or, ℕ, Option, List, refl, [],
  ◌∷◌, none, some, zero, suc,
}

-- `pio_task_type_t`
pub data TaskType : Type 0 where
  pio_read pio_write : TaskType

-- `pio_task_t`
pub record PioTask : Type 0 where
  pub type : TaskType
  pub buffer : ℕ
  pub lba : ℕ
  pub count_total : ℕ
  pub count_done : ℕ

-- `outb` to a port, `wait` until the disk has data, and `insw` of 256 words to an address.
pub data Access : Type 0 where
  outb : ℕ → ℕ → Access
  wait : Access
  insw : ℕ → ℕ → Access

pub record Pio : Type 0 where
  pub tasks : List PioTask
  pub current : Option PioTask

-- The loop over the sectors, from number `i` on.
pub read_sectors : ℕ → ℕ → ℕ → List Access
read_sectors zero buffer i = []
read_sectors (suc rounds) buffer i =
    wait ∷ insw 0x1f0 (buffer + i * 512) ∷ read_sectors rounds buffer (i + 1)

-- An `int` that counts: a negative one is no round.
abbrev pub rounds_of : ℕ → ℕ
rounds_of count = if ltb count (2 ^ 31) then count else 0

abbrev pub commands : PioTask → List Access
commands task =
    outb 0x1f6 (bit_or 0xe0 (bit_and (task.lba / 2 ^ 24) 0xf))
    ∷ outb 0x1f2 (task.count_total % 2 ^ 8)
    ∷ outb 0x1f3 (bit_and task.lba 0xff)
    ∷ outb 0x1f4 (bit_and (task.lba / 2 ^ 8) 0xff)
    ∷ outb 0x1f5 (bit_and (task.lba / 2 ^ 16) 0xff)
    ∷ outb 0x1f7 0x20
    ∷ read_sectors (rounds_of task.count_total) task.buffer 0

-- The task that `execute_task` takes up, and what is left in the queue. `none` is the access through
-- the null pointer when there is no task.
abbrev pub next_task : Option PioTask → List PioTask → Option (PioTask × List PioTask)
next_task (some task) tasks = some (task, tasks)
next_task none [] = none
next_task none (task ∷ tasks) = some (task, tasks)

unfoldable pub execute_task : Pio → Option (List Access × Pio)
unfolding read_sectors
execute_task p = elim (next_task p.current p.tasks) [
  | none ↦ none
  | some (task, tasks) ↦ some (commands task, record { tasks = tasks; current = none })
]

abbrev pub new_task : TaskType → (buffer lba count : ℕ) → PioTask
new_task type buffer lba count = record {
  type = type;
  buffer = buffer;
  lba = lba;
  count_total = count;
  count_done = 0;
}

unfoldable pub read : (dst lba count : ℕ) → Pio → Option (List Access × Pio)
unfolding execute_task
read dst lba count p =
    execute_task (record p { tasks = p.tasks ++ (new_task pio_read dst lba count ∷ []) })

unfoldable pub write : (src lba count : ℕ) → Pio → Option (List Access × Pio)
unfolding execute_task
write src lba count p =
    execute_task (record p { tasks = p.tasks ++ (new_task pio_write src lba count ∷ []) })

unfoldable pub init : Pio → Pio
init p = record p { tasks = [] }
