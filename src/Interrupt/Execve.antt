-- ===== src/Interrupt/Execve.antt =====
-- The system call `execve` of kernel/interrupt/syscall.c. The blocks that the heap returns for the
-- headers are fresh; what is read of one beyond the bytes of the file is `none`, and so is each read
-- outside of a file's buffer. The name is the string at an address.
pub mod Table
pub mod Loaded
pub mod Cases
mod Tests
use semester_5_coursework.Prelude.{
  ◌-◌, ltb, ◌^◌, ◌&&◌, length, ◌==◌, ◌*◌, leb, bit_and, ◌/◌, ◌+◌, ◌%◌, if◌then◌else◌, Option, List,
  ℕ, ◌>>=◌, ◌>>◌, require, refl, zero, suc, true, false, none, some, [], ◌∷◌,
}
use semester_5_coursework.Filesystem.Fat32.{Files, minus_one, greater, read, close, lseek}
use semester_5_coursework.Filesystem.Fat32.Opening.{open_file}
use semester_5_coursework.Filesystem.Fat32.Volume.{Disk, Volume, word32}
use semester_5_coursework.Interrupt.Descriptors.{User}
use semester_5_coursework.Interrupt.Syscall.{exec_from}
use semester_5_coursework.Interrupt.System.{System, create_process}
use semester_5_coursework.Memory.Paging.{
  Paging, create_page, frame_of, slot, present_user, present_readwrite_user,
}
use semester_5_coursework.Multitasking.Elf.{
  ElfHeader, ProgramHeader, SectionHeader, elf_header_at, program_header_at, section_header_at,
  is_elf, header_type_load, header_flag_writable, section_type_nobits, section_flag_alloc,
}
use semester_5_coursework.Multitasking.Process.{Pcb}
use semester_5_coursework.Multitasking.Scheduler.{Scheduler}
use semester_5_coursework.Queue.{Ptr}

-- `memset` of a page and the bytes that a read puts at its start, by words. What it does to the other
-- components' states, when the page is not one of the pool, is not followed (`Dispatch.Reaches`).
abbrev pub fill_page : (page : ℕ) → List ℕ → (ℕ → ℕ) → ℕ → ℕ
fill_page page bytes m p =
    if leb page p && ltb p (page + 4096) then word32 bytes (p - page) else m p

-- `p / 0x400000`, and the index of a page in its table.
abbrev pub table_at : (directory address : ℕ) → Paging → ℕ
table_at directory address m = frame_of (m.word (slot directory (address / 0x40_0000)))

abbrev pub page_index : (address : ℕ) → ℕ
page_index address = address % 0x40_0000 / 0x1000

-- One round of the loop over the pages of a segment.
unfoldable pub load_page :
    (fd table index flags offset size : ℕ) → Files × Paging → Option (Files × Paging)
load_page fd table index flags offset size (files, m) = do
  let made = create_page index table flags m
  (result, bytes, files') ←
      read fd (if greater size 0x1000 then 0x1000 else size) (lseek fd offset files).1
  some (files', record made.1 { word = fill_page made.0 bytes made.1.word })

-- The loop, from page `j` on.
pub load_pages :
    (rounds j fd table flags size : ℕ) → ProgramHeader → Files × Paging → Option (Files × Paging)
unfolding load_page
load_pages zero j fd table flags size header st = some st
load_pages (suc rounds) j fd table flags size header st = do
  st' ←
      load_page fd table (page_index header.p_vaddr + j) flags
        ((header.p_offset + j * 0x1000) % 2 ^ 32) size st
  load_pages rounds (j + 1) fd table flags (if greater size 0x1000 then size - 0x1000 else size)
      header st'

abbrev pub page_flags : ProgramHeader → ℕ
page_flags header =
    if bit_and header.flags header_flag_writable == 0 then present_user else present_readwrite_user

-- Only segments that are to be loaded; the number of pages is computed on 32 bits.
unfoldable pub load_segment :
    (fd directory : ℕ) → ProgramHeader → Files × Paging → Option (Files × Paging)
unfolding load_pages
load_segment fd directory header st =
    if header.type == header_type_load
    then load_pages ((header.p_filesz + 0xfff) % 2 ^ 32 / 0x1000) 0 fd
        (table_at directory header.p_vaddr st.1) (page_flags header) header.p_filesz header st
    else some st

pub load_segments : (rounds i fd directory : ℕ) → List ℕ → Files × Paging → Option (Files × Paging)
unfolding load_segment
load_segments zero i fd directory headers st = some st
load_segments (suc rounds) i fd directory headers st = do
  st' ← load_segment fd directory (program_header_at headers i) st
  load_segments rounds (i + 1) fd directory headers st'

-- A section that takes memory and has no bytes in the file gets one page.
unfoldable pub map_section : (directory : ℕ) → SectionHeader → Paging → Paging
map_section directory section m =
    if section.sh_type == section_type_nobits
    then (if section.sh_size == 0
        then m
        else if bit_and section_flag_alloc section.sh_flags == 0
        then m
        else let made =
            create_page (page_index section.sh_addr) (table_at directory section.sh_addr m)
              present_readwrite_user m in
          record made.1 { word = fill_page made.0 [] made.1.word })
    else m

pub map_sections : (rounds i directory : ℕ) → List ℕ → Paging → Paging
unfolding map_section
map_sections zero i directory headers m = m
map_sections (suc rounds) i directory headers m =
    map_sections rounds (i + 1) directory headers
      (map_section directory (section_header_at headers i) m)

-- `lseek` and `read` of a table of `count` headers: what is read has `size` bytes for each, and
-- `stride` of them are used.
abbrev pub read_table : (fd offset size count stride : ℕ) → Files → Option (List ℕ × Files)
read_table fd offset size count stride files = do
  (result, bytes, files') ← read fd (size * count) (lseek fd offset files).1
  require (leb (stride * count) (length bytes))
  some (bytes, files')

-- The end of `execve`: the new process is entered, and the two words on top of its stack, which is at
-- the virtual address of the caller's, are cleared.
abbrev pub clear_words : (address : ℕ) → User → User
clear_words address user q = if leb address q && ltb q (address + 8) then 0 else user q

abbrev pub start_loaded : (fd : ℕ) → Ptr → System → ℕ × System
start_loaded fd p s =
    let (pid, scheduler) = exec_from s.scheduler.current (p, s.scheduler) in
    (
      pid,
      record s {
        scheduler = scheduler;
        files = (close fd s.files).1;
        user = clear_words ((scheduler.pcbs p).stack + 4 * 1022) s.user;
      },
    )

unfoldable pub load_elf : (fresh fd : ℕ) → ElfHeader → System → Option (ℕ × System)
unfolding load_segments map_sections
load_elf fresh fd header s = do
  (headers, files1) ←
      read_table fd header.program_header_table_offset header.program_header_entry_size
        header.program_header_entry_count 32 s.files
  (p, made) ← create_process fresh header.program_entry_offset s
  let directory = (made.scheduler.pcbs p).cr3
  (files2, paging) ←
      load_segments header.program_header_entry_count 0 fd directory headers (files1, made.paging)
  (sections, files3) ←
      read_table fd header.section_header_table_offset header.section_header_entry_size
        header.section_header_entry_count 40 files2
  let mapped = map_sections header.section_header_entry_count 0 directory sections paging
  some (start_loaded fd p (record made { files = files3; paging = mapped }))

-- From the header that was read: a file that is no program is closed.
abbrev pub exec_header : (fresh fd : ℕ) → ElfHeader → System → Option (ℕ × System)
exec_header fresh fd header s =
    if is_elf header
    then load_elf fresh fd header s
    else some (minus_one, record s { files = (close fd s.files).1 })

unfoldable pub exec_file : (fresh fd : ℕ) → System → Option (ℕ × System)
exec_file fresh fd s = do
  (result, bytes, files) ← read fd 52 s.files
  require (leb 52 (length bytes))
  exec_header fresh fd (elf_header_at bytes) (record s { files = files })

abbrev pub exec_opened : (fresh fd : ℕ) → System → Option (ℕ × System)
exec_opened fresh fd s = if fd == minus_one then some (minus_one, s) else exec_file fresh fd s

unfoldable pub execve :
    (disk : Disk) → Volume → (fresh : ℕ) → (name : List ℕ) → System → Option (ℕ × System)
execve disk v fresh name s =
    if (s.scheduler.pcbs s.scheduler.current).child_bitmap == 0xffff_ffff
    then some (minus_one, s)
    else do
      (fd, files) ← open_file disk v name s.files
      exec_opened fresh fd (record s { files = files })
