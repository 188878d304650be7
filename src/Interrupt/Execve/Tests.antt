-- ===== src/Interrupt/Execve/Tests.antt =====
-- A program of a header only, A.OUT in cluster 3.
use semester_5_coursework.Interrupt.Syscall.{notify_parent_create}
use semester_5_coursework.Prelude.{
  ◌≡◌, List, ℕ, replicate, arith, Option, refl, zero, suc, none, some, [], ◌∷◌,
}
use semester_5_coursework.Filesystem.Fat32.{
  copy_to, free_fd, read, read_file, close, lseek, split, filename,
}
use semester_5_coursework.Filesystem.Fat32.Opening.{open_file, find_file, locate, memcmp, load_file}
use semester_5_coursework.Filesystem.Fat32.Volume.{Disk, init, cluster_sector}
use semester_5_coursework.Interrupt.Execve.{execve, exec_file, load_elf}
use semester_5_coursework.Interrupt.Execve.Cases.{Outcome, execve-cases}
use semester_5_coursework.Interrupt.System.{System, create_process, perform}
use semester_5_coursework.Memory.Paging.{default_directory, create_directory}
use semester_5_coursework.Multitasking.Elf.{is_elf}
use semester_5_coursework.Multitasking.Scheduler.{new_pcb, create}

unfoldable boot_sector : List ℕ
unfolding copy_to
boot_sector =
    let geometry = copy_to (replicate 512 0) 11 (0 ∷ 2 ∷ 1 ∷ 1 ∷ 0 ∷ 1 ∷ []) in
    copy_to (copy_to geometry 36 (1 ∷ [])) 44 (2 ∷ [])

unfoldable directory_sector : List ℕ
unfolding copy_to
directory_sector =
    let named =
      copy_to (replicate 512 0) 0 (65 ∷ 32 ∷ 32 ∷ 32 ∷ 32 ∷ 32 ∷ 32 ∷ 32 ∷ 79 ∷ 85 ∷ 84 ∷ []) in
    copy_to (copy_to (copy_to named 16 (1 ∷ [])) 26 (3 ∷ [])) 28 (52 ∷ [])

unfoldable program_sector : List ℕ
unfolding copy_to
program_sector =
    let magic = copy_to (replicate 512 0) 0 (127 ∷ 69 ∷ 76 ∷ 70 ∷ []) in
    copy_to (copy_to magic 16 (2 ∷ 0 ∷ 3 ∷ 0 ∷ [])) 24 (0 ∷ 16 ∷ 208 ∷ 0 ∷ [])

unfoldable program_disk : Disk
unfolding boot_sector directory_sector program_sector
program_disk zero = boot_sector
program_disk (suc zero) = replicate 512 0
program_disk (suc (suc zero)) = directory_sector
program_disk (suc (suc (suc n))) = program_sector

-- The caller, at address 16.
abbrev system : System
system = record {
  scheduler = record {
    pid = 2;
    all = 0 ∷ 16 ∷ 0 ∷ 0 ∷ [];
    current = 16;
    start_queue = [];
    ready_queue = [];
    waiting_queue = [];
    done_queue = [];
    pcbs = λ p. new_pcb 1 0x1000 0x401000;
    calls = [];
  };
  paging = record { bitmap = replicate 32 0; word = λ p. 0 };
  files = replicate 32 none;
  tty = record { cells = []; color = 15; row = 0; col = 0 };
  user = λ p. 0;
}

run : Option (ℕ × System)
run = execve program_disk (init program_disk) 32 (47 ∷ 65 ∷ 46 ∷ 79 ∷ 85 ∷ 84 ∷ []) system

result_of : Option (ℕ × System) → ℕ
result_of none = 0
result_of (some (n, s)) = n

system_of : Option (ℕ × System) → System
system_of none = system
system_of (some (n, s)) = s

execve_returns :
    execve program_disk (init program_disk) 32 (47 ∷ 65 ∷ 46 ∷ 79 ∷ 85 ∷ 84 ∷ []) system
    ≡ some (result_of run, system_of run)
unfolding run result_of system_of execve exec_file load_elf create_process create perform
    default_directory create_directory open_file free_fd find_file locate memcmp load_file split
    filename program_disk copy_to cluster_sector init read read_file lseek close is_elf
execve_returns = refl

execve-cases_example :
    Outcome program_disk
      (init program_disk)
      32
      (47 ∷ 65 ∷ 46 ∷ 79 ∷ 85 ∷ 84 ∷ [])
      system
      (result_of run)
      (system_of run)
execve-cases_example =
    execve-cases program_disk (init program_disk) 32 (47 ∷ 65 ∷ 46 ∷ 79 ∷ 85 ∷ 84 ∷ []) system
      (result_of run) (system_of run) refl (λ z. omega arith) execve_returns

execve_pid : result_of run ≡ 2
unfolding run result_of execve exec_file load_elf create_process create perform default_directory
    create_directory open_file free_fd find_file locate memcmp load_file split filename program_disk
    copy_to cluster_sector init read read_file lseek close is_elf notify_parent_create
execve_pid = refl
