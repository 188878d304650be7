-- ===== src/Interrupt/Execve/Cases.antt =====
-- Every outcome of `execve`.
use mathlib.Core.Path.{subst}
use semester_5_coursework.Prelude.{
  ==_iff, leb, arith, ◌==◌, require, Bool-cases, >>=-eq-some, length, ap₂, ap, ◌∙◌, ◌⊎◌, ◌++◌, sym,
  ◌≢◌, ◌≡◌, ℕ, List, refl, true, false, some, [], ◌∷◌, inl, inr,
}
use semester_5_coursework.Filesystem.Fat32.{Files, minus_one, read, close}
use semester_5_coursework.Filesystem.Fat32.Opening.{open_file}
use semester_5_coursework.Filesystem.Fat32.Opening.Open.{IsOpened, open_file-cases}
use semester_5_coursework.Filesystem.Fat32.Volume.{Disk, Volume}
use semester_5_coursework.Interrupt.Execve.{execve, exec_opened, exec_file, exec_header, load_elf}
use semester_5_coursework.Interrupt.Execve.Loaded.{IsLoaded, load_elf-IsLoaded, create-IsMade}
use semester_5_coursework.Interrupt.Execve.Table.{read-IsOver, close-IsOver}
use semester_5_coursework.Interrupt.Syscall.{add_child, exec_from}
use semester_5_coursework.Interrupt.Syscall.Executed.{executed_pcb, waiting_pcb, exec_from-both}
use semester_5_coursework.Interrupt.Syscall.Forked.{set_pcb_self, set_pcb_other}
use semester_5_coursework.Interrupt.System.{System}
use semester_5_coursework.Multitasking.Elf.{ElfHeader, elf_header_at, is_elf}
use semester_5_coursework.Multitasking.Process.{Pcb, set_pcb}
use semester_5_coursework.Multitasking.Scheduler.{Scheduler, create, new_pcb}
use semester_5_coursework.Queue.{Ptr}

-- The started process, in the scheduler: it is new, with the caller as its parent, and enters the
-- program; the caller has it as a child and waits.
pub record IsExecuted (fresh entry : ℕ) (s : Scheduler) (result : ℕ) (s' : Scheduler) : Type 0 where
  pub directory : ℕ
  pub table : ℕ
  pub made : Scheduler
  pub p : Ptr
  pub by_create : create fresh directory table entry s ≡ some (p, made)
  pub ends : s' ≡ (exec_from made.current (p, made)).1
  pub number : result ≡ s.pid
  pub child : s'.pcbs fresh ≡ executed_pcb s.current (new_pcb s.pid entry directory)
  pub caller : s'.pcbs s.current ≡ waiting_pcb (add_child s.pid (s.pcbs s.current))
  pub queue : s'.start_queue ≡ s.start_queue ++ (fresh ∷ [])

exec_from-IsExecuted :
    (fresh directory table entry : ℕ) (s : Scheduler) (p : Ptr) (s1 : Scheduler)
    → fresh ≢ s.current
    → create fresh directory table entry s ≡ some (p, s1)
    → let (result, s') = exec_from s1.current (p, s1) in IsExecuted fresh entry s result s'
exec_from-IsExecuted fresh directory table entry s p s1 ne by_create =
    let made = create-IsMade fresh directory table entry s p s1 by_create in
    let started = new_pcb s.pid entry directory in
    let apart : p ≢ s1.current = λ e. ne (sym made.at ∙ e ∙ made.current) in
    let both = exec_from-both s1.current p s1 apart in
    let s' = (exec_from s1.current (p, s1)).1 in
    let new : s1.pcbs p ≡ started =
      ap (λ (m : Ptr → Pcb). m p) made.pcbs
      ∙ ap (set_pcb s.pcbs fresh started) made.at
      ∙ set_pcb_self s.pcbs fresh started in
    let old : s1.pcbs s1.current ≡ s.pcbs s.current =
      ap (λ (m : Ptr → Pcb). m s1.current) made.pcbs
      ∙ ap (set_pcb s.pcbs fresh started) made.current
      ∙ set_pcb_other s.pcbs fresh s.current started ne in
    record {
      directory = directory;
      table = table;
      made = s1;
      p = p;
      by_create = by_create;
      ends = refl;
      number = both.0 ∙ ap (λ (c : Pcb). c.pid) new;
      child = ap s'.pcbs (sym made.at) ∙ both.1 ∙ ap₂ executed_pcb made.current new;
      caller =
          ap s'.pcbs (sym made.current)
          ∙ both.2
          ∙ ap₂ (λ (x y : Pcb). waiting_pcb (add_child x.pid y)) new old;
      queue = made.queue;
    }

-- Why a call is refused: the caller has 32 children, the path opens no file, or the file is no ELF
-- program for x86.
pub data IsRefused (disk : Disk) (v : Volume) (name : List ℕ) (s : System) : Type 0 where
  full : (s.scheduler.pcbs s.scheduler.current).child_bitmap ≡ 0xffff_ffff → IsRefused disk v name s
  missing :
      (files' : Files)
      → open_file disk v name s.files ≡ some (minus_one, files')
      → IsRefused disk v name s
  no_program :
      (fd : ℕ) (files' : Files) (n : ℕ) (bytes : List ℕ) (files'' : Files)
      → open_file disk v name s.files ≡ some (fd, files')
      → read fd 52 files' ≡ some (n, bytes, files'')
      → is_elf (elf_header_at bytes) ≡ false
      → IsRefused disk v name s

-- The file of the path starts with the header of such a program.
pub record IsProgram (disk : Disk) (v : Volume) (name : List ℕ) (s : System) (header : ElfHeader)
    : Type 0 where
  pub fd : ℕ
  pub opened : Files
  pub count : ℕ
  pub bytes : List ℕ
  pub rest : Files
  pub opens : open_file disk v name s.files ≡ some (fd, opened)
  pub reads : read fd 52 opened ≡ some (count, bytes, rest)
  pub header_read : header ≡ elf_header_at bytes
  pub valid : is_elf header ≡ true

-- What a call that returns has done.
abbrev pub Outcome : Disk → Volume → (fresh : ℕ) → List ℕ → System → ℕ → System → Type 0
Outcome disk v fresh name s result s' =
    (IsRefused disk v name s × (result ≡ minus_one) × (s' ≡ s))
    ⊎ ((header : ElfHeader) × IsProgram disk v name s header
        × IsExecuted fresh header.program_entry_offset s.scheduler result s'.scheduler
        × (s'.files ≡ s.files)
        × (s'.tty ≡ s.tty))

-- The scheduler of a loaded program.
loaded-IsExecuted :
    (fresh fd : ℕ) (header : ElfHeader) (files : Files) (s : System) (result : ℕ) (s' : System)
    → fresh ≢ s.scheduler.current
    → IsLoaded fresh fd header files s result s'
    → IsExecuted fresh header.program_entry_offset s.scheduler result s'.scheduler
loaded-IsExecuted fresh fd header files s result s' ne loaded =
    let entry = header.program_entry_offset in
    let s1 = loaded.made.scheduler in
    let created = loaded.created in
    subst (λ (x : Scheduler). IsExecuted fresh entry s.scheduler result x) (sym loaded.scheduler)
      (subst
        (λ (n : ℕ). IsExecuted fresh entry s.scheduler n (exec_from s1.current (loaded.p, s1)).1)
        (sym loaded.number)
        (exec_from-IsExecuted fresh created.directory created.table entry s.scheduler loaded.p s1 ne
          created.by_create))

-- From the open file on: `s1` is the system with the program's entry in the table.
exec_file-Outcome :
    (disk : Disk) (v : Volume) (fresh fd : ℕ) (name : List ℕ) (s : System) (files' : Files)
    (result : ℕ) (s' : System)
    → length s.files ≡ 32
    → fresh ≢ s.scheduler.current
    → open_file disk v name s.files ≡ some (fd, files')
    → IsOpened s.files fd files'
    → exec_file fresh fd (record s { files = files' }) ≡ some (result, s')
    → Outcome disk v fresh name s result s'
unfolding exec_file
exec_file-Outcome disk v fresh fd name s files' result s' size ne opens opened e =
    let ((n, bytes, files''), reads, rest) = >>=-eq-some (read fd 52 files') _ e in
    let (done, room, last) = >>=-eq-some (require (leb 52 (length bytes))) _ rest in
    let header = elf_header_at bytes in
    let s1 = record s { files = files'' } in
    let over =
      read-IsOver s.files fd size opened.free 52 files' n bytes files'' (opened.file, opened.table)
        reads in
    elim (Bool-cases (is_elf header)) [
      | inr invalid ↦
          let refused : some (minus_one, record s { files = (close fd files'').1 })
              ≡ some (result, s') =
            rw (invalid, exec_header) at last in
          let back : record s { files = (close fd files'').1 } ≡ s =
            ap (λ (l : ℕ × Files). record s { files = l.1 })
              (close-IsOver s.files fd size opened.free files'' over) in
          let same : record s { files = (close fd files'').1 } ≡ s' = cc refused in
          let code : minus_one ≡ result = cc refused in
          inl (no_program fd files' n bytes files'' opens reads invalid, sym code, sym same ∙ back)
      | inl valid ↦
          let run : load_elf fresh fd header s1 ≡ some (result, s') =
            rw (valid, exec_header) at last in
          let loaded =
            load_elf-IsLoaded fresh fd header s.files s1 result s' size opened.free over run in
          inr (
            header,
            record {
              fd = fd;
              opened = files';
              count = n;
              bytes = bytes;
              rest = files'';
              opens = opens;
              reads = reads;
              header_read = refl;
              valid = valid;
            },
            loaded-IsExecuted fresh fd header s.files s1 result s' ne loaded,
            loaded.table,
            loaded.tty,
          )
    ]

exec_opened-Outcome :
    (disk : Disk) (v : Volume) (fresh fd : ℕ) (name : List ℕ) (s : System) (files' : Files)
    (result : ℕ) (s' : System)
    → length s.files ≡ 32
    → fresh ≢ s.scheduler.current
    → open_file disk v name s.files ≡ some (fd, files')
    → exec_opened fresh fd (record s { files = files' }) ≡ some (result, s')
    → Outcome disk v fresh name s result s'
exec_opened-Outcome disk v fresh fd name s files' result s' size ne opens e =
    elim (open_file-cases disk v name s.files fd files' size opens) [
      | inl (failed, unchanged) ↦
          let refused : some (minus_one, record s { files = files' }) ≡ some (result, s') =
            rw (failed, exec_opened) at e in
          let same : record s { files = files' } ≡ s' = cc refused in
          let code : minus_one ≡ result = cc refused in
          let back : record s { files = files' } ≡ s =
            ap (λ (l : Files). record s { files = l }) unchanged in
          inl (
            missing files' (opens ∙ ap (λ (n : ℕ). some (n, files')) failed),
            sym code,
            sym same ∙ back,
          )
      | inr opened ↦
          let is_fd : (fd == minus_one) ≡ false = ground (arith, opened.free.high, size) in
          exec_file-Outcome disk v fresh fd name s files' result s' size ne opens opened
            (rw (is_fd, exec_opened) at e)
    ]

-- Whatever the disk, the path and the file: when `execve` returns, either it was refused, since the
-- caller has 32 children, the path opens no file or the file is no program, and has returned -1 and
-- changed nothing; or the file starts with the header of a program, and it returns the next pid, which
-- is that of a new process with the caller as its parent that enters the program, while the caller
-- has it as a child and waits. The table of files, of 32 entries, and the screen are as before. The
-- new block is not the caller's.
pub execve-cases :
    (disk : Disk) (v : Volume) (fresh : ℕ) (name : List ℕ) (s : System) (result : ℕ) (s' : System)
    → length s.files ≡ 32
    → fresh ≢ s.scheduler.current
    → execve disk v fresh name s ≡ some (result, s')
    → Outcome disk v fresh name s result s'
unfolding execve
execve-cases disk v fresh name s result s' size ne e =
    elim (Bool-cases ((s.scheduler.pcbs s.scheduler.current).child_bitmap == 0xffff_ffff)) [
      | inl no_room ↦
          let refused : some (minus_one, s) ≡ some (result, s') = rw (no_room, execve) at e in
          let same : s ≡ s' = cc refused in
          let code : minus_one ≡ result = cc refused in
          inl (
            full (
                (==_iff (s.scheduler.pcbs s.scheduler.current).child_bitmap 0xffff_ffff).0 no_room),
            sym code,
            sym same,
          )
      | inr room ↦
          let ((fd, files'), opens, rest) =
            >>=-eq-some (open_file disk v name s.files)
              (λ (x : ℕ × Files). exec_opened fresh x.0 (record s { files = x.1 }))
              (rw (room, execve) at e) in
          exec_opened-Outcome disk v fresh fd name s files' result s' size ne opens rest
    ]
