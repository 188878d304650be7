-- ===== src/Interrupt/Syscall/Tests.antt =====
-- The system calls at a parent, at address 32, and its child of pid 2, at address 16.
use Prim.Native.Nat.{zero}
use semester_5_coursework.Prelude.{
  set, get_or-replicate, ◌≤◌, ◌<◌, ◌≡◌, ◌==◌, arith, replicate, refl, ℕ, ◌≢◌, if◌then◌else◌, ◌∷◌,
  [], suc, get_or, some,
}
use semester_5_coursework.Bits.{bit_of_zero, bit}
use semester_5_coursework.Interrupt.Syscall.{
  fork, release_slot, add_child, wait_pcb, exit, kill, find_slot,
}
use semester_5_coursework.Interrupt.Syscall.Complete.{kill_child_lost, exit_wakes, Woken}
use semester_5_coursework.Interrupt.Syscall.Family.{IsFamily}
use semester_5_coursework.Interrupt.Syscall.Forked.{fork-IsForked, IsForked}
use semester_5_coursework.Interrupt.Syscall.Reachable.{
  Reachable, booted, next, created, boot, Reachable-IsConsistent,
}
use semester_5_coursework.Interrupt.Syscall.Wait.{wait_pcb_total, Waits}
use semester_5_coursework.Multitasking.Process.{
  Pcbs, Pcb, waiting, done, running, ready, set_pcb, ProcessState,
}
use semester_5_coursework.Multitasking.Scheduler.{create_page, create, Scheduler, new_pcb, get}
use semester_5_coursework.Multitasking.Scheduler.Members.{IsConsistent}
use semester_5_coursework.Queue.{Ptr}

abbrev child : Pcb
child = record (new_pcb 2 0x1000 0x400000) { state = running; parent = 32 }

abbrev parent_in : ProcessState → ℕ → Pcb
parent_in st completed = record (new_pcb 1 0x1000 0x400000) {
  state = st;
  child = 2 ∷ 3 ∷ replicate 30 0;
  child_bitmap = 3;
  child_completed_bitmap = completed;
}

abbrev pair : Ptr → ProcessState → Pcb → Scheduler
pair current st c = record {
  pid = 3;
  all = 0 ∷ 32 ∷ 16 ∷ 0 ∷ [];
  current = current;
  start_queue = [];
  ready_queue = [];
  waiting_queue = [];
  done_queue = [];
  pcbs = λ p. if p == 16 then c else parent_in st 0;
  calls = [];
}

slot_of_child : find_slot 2 (2 ∷ 3 ∷ replicate 30 0) 0 ≡ some 0
unfolding find_slot
slot_of_child = refl

parent_in-IsFamily : (st : ProcessState) → IsFamily (parent_in st 2)
unfolding bit
parent_in-IsFamily st = record {
  slots = refl;
  bitmap = omega arith;
  completed = omega arith;
  held = λ i p b. held i p b;
  free = λ i p b. free_slot i p b;
  subset = λ i. subset i;
}
  where
    high : (i : ℕ) → bit 0 i ≡ 0
    high i = bit_of_zero i

    held : (i : ℕ) → i < 32 → bit 3 i ≡ 1 → get_or {A = ℕ} (2 ∷ 3 ∷ replicate 30 0) i 0 ≢ 0
    held zero p b = λ z. ground arith
    held (suc zero) p b = λ z. ground arith
    held (suc (suc i)) p b = absurd (omega (arith, b, high i))

    free_slot : (i : ℕ) → i < 32 → bit 3 i ≡ 0 → get_or {A = ℕ} (2 ∷ 3 ∷ replicate 30 0) i 0 ≡ 0
    free_slot zero p b = absurd (ground arith)
    free_slot (suc zero) p b = absurd (ground arith)
    free_slot (suc (suc i)) p b = get_or-replicate 30 i 0

    subset : (i : ℕ) → bit 2 i ≤ bit 3 i
    subset zero = omega arith
    subset (suc zero) = omega arith
    subset (suc (suc i)) = omega (arith, high i)

wait_pcb_total_example :
    (result : ℕ) × (c' : Pcb) × (wait_pcb (parent_in running 2) ≡ some (result, c'))
    × Waits (parent_in running 2) result c'
wait_pcb_total_example = wait_pcb_total (parent_in running 2) (parent_in-IsFamily running)

-- The completed child is the one of slot 1, of pid 3.
wait_collects : (r : Pcb) × (wait_pcb (parent_in running 2) ≡ some (3, r))
unfolding wait_pcb
wait_collects = (release_slot 1 (parent_in running 2), refl)

exit_wakes_example :
    let s = pair 16 waiting child in
    Woken 2 0 (parent_in waiting 0) ((exit 7 s).pcbs 32)
    × ((exit 7 s).pcbs 16 ≡ record child { state = done; exit_code = 7 })
exit_wakes_example =
    exit_wakes 7 0 (pair 16 waiting child) (λ z. ground arith) (λ z. ground arith) slot_of_child
      refl

kill_child_lost_example :
    let s = pair 32 running (record child { state = ready }) in
    (s' : Scheduler) × (kill 2 9 s ≡ some (0, s'))
    × ((s'.pcbs 16).state ≡ done)
    × (s'.pcbs 32 ≡ parent_in running 0)
    × (wait_pcb (s'.pcbs 32) ≡ some (0, parent_in waiting 0))
unfolding get
kill_child_lost_example =
    kill_child_lost 2 9 0 16 (pair 32 running (record child { state = ready })) refl
      (λ z. ground arith) (λ z. ground arith) (λ z. ground arith) refl slot_of_child refl
      (λ z. ground arith) refl

fork-IsForked_example :
    (s' : Scheduler) × (fork 48 0x600000 0x601000 0x1234 (pair 16 waiting child) ≡ some (3, s'))
    × IsForked 3 0x1234 16 child (s'.pcbs 48)
    × (s'.pcbs 16 ≡ add_child 3 child)
    × (s'.start_queue ≡ 48 ∷ [])
fork-IsForked_example =
    fork-IsForked 48 0x600000 0x601000 0x1234 (pair 16 waiting child) (λ e. ground arith)
      (omega arith) (λ e. ground arith)

-- The first process, made and started.
abbrev blank : Pcbs
blank p = child

abbrev one_new : Scheduler
one_new = record (boot blank) {
  pid = 2;
  all = set (replicate 128 0) 1 16;
  pcbs = set_pcb blank 16 (new_pcb 1 0x1000 0x400000);
  calls = create_page 0 0x401000 7 ∷ [];
  start_queue = 16 ∷ [];
}

one_new-Reachable : Reachable one_new
unfolding create
one_new-Reachable =
    next (boot blank) one_new (booted blank)
      (created 16 0x400000 0x401000 0x1000 16 (boot blank) one_new (λ e. ground arith, refl) refl)

Reachable-IsConsistent_example : IsConsistent one_new
Reachable-IsConsistent_example = Reachable-IsConsistent one_new one_new-Reachable
