-- ===== src/Interrupt/Execve/Loaded.antt =====
-- What loading a program leaves of the system, whatever the file is.
use semester_5_coursework.Prelude.{
  ltb, Bool-cases, set, ◌^◌, ◌%◌, ◌+◌, ◌++◌, ap₂, ◌∙◌, sym, ap, >>=-eq-some, ◌≡◌, length, ℕ, some,
  [], ◌∷◌, inl, inr,
}
use semester_5_coursework.Filesystem.Fat32.{Files}
use semester_5_coursework.Filesystem.Fat32.Opening.Open.{IsFree}
use semester_5_coursework.Interrupt.Execve.{
  load_elf, load_segments, map_sections, read_table, start_loaded,
}
use semester_5_coursework.Interrupt.Execve.Table.{
  IsOver, read_table-IsOver, load_segments-IsOver, close-IsOver,
}
use semester_5_coursework.Interrupt.Syscall.{exec_from}
use semester_5_coursework.Interrupt.System.{System, create_process, perform, new_calls}
use semester_5_coursework.Memory.Paging.{Paging, default_directory, frame_of, slot}
use semester_5_coursework.Multitasking.Elf.{ElfHeader}
use semester_5_coursework.Multitasking.Process.{set_pcb}
use semester_5_coursework.Multitasking.Scheduler.{Scheduler, create, new_pcb, create_page}
use semester_5_coursework.Queue.{Ptr}

-- The process that `create_process` makes, and the rest of the system.
pub record IsCreated (fresh entry : ℕ) (s : System) (p : Ptr) (made : System) : Type 0 where
  pub directory : ℕ
  pub table : ℕ
  pub by_create : create fresh directory table entry s.scheduler ≡ some (p, made.scheduler)
  pub files : made.files ≡ s.files
  pub tty : made.tty ≡ s.tty

pub create_process-IsCreated :
    (fresh entry : ℕ) (s : System) (p : Ptr) (made : System)
    → create_process fresh entry s ≡ some (p, made)
    → IsCreated fresh entry s p made
unfolding create_process
create_process-IsCreated fresh entry s p made e =
    let dir = default_directory s.paging in
    let table = frame_of (dir.1.word (slot dir.0 3)) in
    let ((q, scheduler), run, rest) =
      >>=-eq-some (create fresh dir.0 table entry s.scheduler) _ e in
    let (paging, performed, last) =
      >>=-eq-some (perform (new_calls s.scheduler scheduler) dir.1) _ rest in
    let same : record s { scheduler = scheduler; paging = paging } ≡ made = cc last in
    let at_p : q ≡ p = cc last in
    let scheduler' : scheduler ≡ made.scheduler = ap (λ (x : System). x.scheduler) same in
    record {
      directory = dir.0;
      table = table;
      by_create = run ∙ ap₂ (λ (x : Ptr) (y : Scheduler). some (x, y)) at_p scheduler';
      files = ap (λ (x : System). x.files) (sym same);
      tty = ap (λ (x : System). x.tty) (sym same);
    }

-- A program that is loaded: its process is created and started, and the file is closed.
pub record IsLoaded (fresh fd : ℕ) (header : ElfHeader) (files : Files) (s : System) (result : ℕ)
    (s' : System) : Type 0 where
  pub p : Ptr
  pub made : System
  pub created : IsCreated fresh header.program_entry_offset s p made
  pub number : result ≡ (exec_from made.scheduler.current (p, made.scheduler)).0
  pub scheduler : s'.scheduler ≡ (exec_from made.scheduler.current (p, made.scheduler)).1
  pub table : s'.files ≡ files
  pub tty : s'.tty ≡ s.tty

start_loaded-IsLoaded :
    (fresh fd : ℕ) (header : ElfHeader) (files : Files) (s : System) (p : Ptr) (made : System)
    (files' : Files) (paging : Paging) (result : ℕ) (s' : System)
    → length files ≡ 32
    → IsFree files fd
    → IsOver files fd files'
    → IsCreated fresh header.program_entry_offset s p made
    → start_loaded fd p (record made { files = files'; paging = paging }) ≡ (result, s')
    → IsLoaded fresh fd header files s result s'
start_loaded-IsLoaded fresh fd header files s p made files' paging result s' size free over made'
      e =
    record {
      p = p;
      made = made;
      created = made';
      number = ap (λ (x : ℕ × System). x.0) (sym e);
      scheduler = ap (λ (x : ℕ × System). x.1.scheduler) (sym e);
      table =
          ap (λ (x : ℕ × System). x.1.files) (sym e)
          ∙ ap (λ (x : ℕ × Files). x.1) (close-IsOver files fd size free files' over);
      tty = ap (λ (x : ℕ × System). x.1.tty) (sym e) ∙ made'.tty;
    }

pub load_elf-IsLoaded :
    (fresh fd : ℕ) (header : ElfHeader) (files : Files) (s : System) (result : ℕ) (s' : System)
    → length files ≡ 32
    → IsFree files fd
    → IsOver files fd s.files
    → load_elf fresh fd header s ≡ some (result, s')
    → IsLoaded fresh fd header files s result s'
unfolding load_elf
load_elf-IsLoaded fresh fd header files s result s' size free over e =
    let ((headers, files1), run1, rest1) =
      >>=-eq-some
        (read_table fd header.program_header_table_offset header.program_header_entry_size
          header.program_header_entry_count 32 s.files)
        _ e in
    let over1 =
      read_table-IsOver files fd size free header.program_header_table_offset
        header.program_header_entry_size header.program_header_entry_count 32 s.files headers files1
        over run1 in
    let ((p, made), run2, rest2) =
      >>=-eq-some (create_process fresh header.program_entry_offset s) _ rest1 in
    let directory = (made.scheduler.pcbs p).cr3 in
    let ((files2, paging), run3, rest3) =
      >>=-eq-some
        (load_segments header.program_header_entry_count 0 fd directory headers
          (files1, made.paging))
        _ rest2 in
    let over2 =
      load_segments-IsOver files fd size free header.program_header_entry_count 0 directory headers
        (files1, made.paging) (files2, paging) over1 run3 in
    let ((sections, files3), run4, rest4) =
      >>=-eq-some
        (read_table fd header.section_header_table_offset header.section_header_entry_size
          header.section_header_entry_count 40 files2)
        _ rest3 in
    let over3 =
      read_table-IsOver files fd size free header.section_header_table_offset
        header.section_header_entry_size header.section_header_entry_count 40 files2 sections files3
        over2 run4 in
    let mapped = map_sections header.section_header_entry_count 0 directory sections paging in
    start_loaded-IsLoaded fresh fd header files s p made files3
      (map_sections header.section_header_entry_count 0 directory sections paging) result s' size
      free over3 (create_process-IsCreated fresh header.program_entry_offset s p made run2)
      (cc rest4)

-- The scheduler when a process has been created.
pub record IsMade (fresh directory entry : ℕ) (s : Scheduler) (p : Ptr) (s' : Scheduler)
    : Type 0 where
  pub at : p ≡ fresh
  pub current : s'.current ≡ s.current
  pub pcbs : s'.pcbs ≡ set_pcb s.pcbs fresh (new_pcb s.pid entry directory)
  pub queue : s'.start_queue ≡ s.start_queue ++ (fresh ∷ [])

pub create-IsMade :
    (fresh directory table entry : ℕ) (s : Scheduler) (p : Ptr) (s' : Scheduler)
    → create fresh directory table entry s ≡ some (p, s')
    → IsMade fresh directory entry s p s'
unfolding create
create-IsMade fresh directory table entry s p s' e =
    let made = record s {
      pid = (s.pid + 1) % 2 ^ 32;
      all = set s.all s.pid fresh;
      pcbs = set_pcb s.pcbs fresh (new_pcb s.pid entry directory);
      calls = s.calls ++ (create_page 0 table 7 ∷ []);
      start_queue = s.start_queue ++ (fresh ∷ []);
    } in
    elim (Bool-cases (ltb s.pid (length s.all))) [
      | inr out ↦ cc (rw (out, create) at e)
      | inl room ↦
          let e' : some (fresh, made) ≡ some (p, s') = rw (room, create) at e in
          let same : made ≡ s' = cc e' in
          record {
            at = cc e';
            current = ap (λ (x : Scheduler). x.current) (sym same);
            pcbs = ap (λ (x : Scheduler). x.pcbs) (sym same);
            queue = ap (λ (x : Scheduler). x.start_queue) (sym same);
          }
    ]
