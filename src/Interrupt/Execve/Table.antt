-- ===== src/Interrupt/Execve/Table.antt =====
-- What reading a program does to the table of files: only the program's own entry changes, and closing
-- it gives the table back.
use mathlib.Core.Path.{subst}
use semester_5_coursework.Prelude.{
  ◌/◌, ◌-◌, ◌^◌, leb, ◌%◌, require, ◌==◌, ◌+◌, ◌*◌, if◌then◌else◌, Bool-cases, >>=-eq-some, set-set,
  get_or-set_self, ◌∙◌, sym, arith, set, ap, List, ◌≡◌, length, Option, ℕ, refl, zero, suc, none,
  some, inl, inr,
}
use semester_5_coursework.Filesystem.Fat32.{
  greater, File, Files, lookup, read, read_file, store_read, close, lseek,
}
use semester_5_coursework.Filesystem.Fat32.Opening.Open.{IsFree, close-opened}
use semester_5_coursework.Interrupt.Execve.{
  load_page, load_pages, load_segment, load_segments, read_table, page_flags, page_index, table_at,
}
use semester_5_coursework.Memory.Paging.{Paging}
use semester_5_coursework.Multitasking.Elf.{ProgramHeader, program_header_at, header_type_load}

-- The table with some file at a descriptor.
abbrev pub IsOver : Files → ℕ → Files → Type 0
IsOver files fd files' = (f : File) × (files' ≡ set files fd (some f))

stored-IsOver :
    (files : Files) (fd : ℕ) (f : File) (o : Option (ℕ × List ℕ × File)) (result : ℕ)
    (bytes : List ℕ) (files' : Files)
    → store_read fd (set files fd (some f)) o ≡ some (result, bytes, files')
    → IsOver files fd files'
stored-IsOver files fd f none result bytes files' e = cc
stored-IsOver files fd f (some (n, bs, f')) result bytes files' e =
    let same : set (set files fd (some f)) fd (some f') ≡ files' = cc in
    (f', sym same ∙ set-set files fd (some f) (some f'))

module _ (files : Files) (fd : ℕ) (size : length files ≡ 32) (free : IsFree files fd) where
  lookup-IsOver : (f : File) → lookup (set files fd (some f)) fd ≡ some f
  lookup-IsOver f =
      ground (arith, get_or-set_self files fd (some f) none free.high, size, free.high)

  pub read-IsOver :
      (count : ℕ) (files1 : Files) (result : ℕ) (bytes : List ℕ) (files2 : Files)
      → IsOver files fd files1
      → read fd count files1 ≡ some (result, bytes, files2)
      → IsOver files fd files2
  unfolding read
  read-IsOver count files1 result bytes files2 (f, same) e =
      let here = lookup-IsOver f in
      let run : read fd count (set files fd (some f))
          ≡ store_read fd (set files fd (some f)) (read_file count f) =
        rw (here, read) refl in
      stored-IsOver files fd f (read_file count f) result bytes files2
        (sym run ∙ ap (read fd count) (sym same) ∙ e)

  pub lseek-IsOver :
      (pos : ℕ) (files1 : Files) → IsOver files fd files1 → IsOver files fd (lseek fd pos files1).1
  unfolding lseek
  lseek-IsOver pos files1 (f, same) =
      let here = lookup-IsOver f in
      let f' : File = record f { pos = pos } in
      let run : (lseek fd pos (set files fd (some f))).1
          ≡ set (set files fd (some f)) fd (some f') =
        rw (here, lseek) refl in
      (f', ap (λ (l : Files). (lseek fd pos l).1) same ∙ run ∙ set-set files fd (some f) (some f'))

  pub close-IsOver : (files1 : Files) → IsOver files fd files1 → close fd files1 ≡ (0, files)
  close-IsOver files1 (f, same) = ap (close fd) same ∙ close-opened files fd f size free

  pub read_table-IsOver :
      (offset bytes count stride : ℕ) (files1 : Files) (headers : List ℕ) (files2 : Files)
      → IsOver files fd files1
      → read_table fd offset bytes count stride files1 ≡ some (headers, files2)
      → IsOver files fd files2
  read_table-IsOver offset bytes count stride files1 headers files2 over e =
      let ((result, bs, files'), run, rest) =
        >>=-eq-some (read fd (bytes * count) (lseek fd offset files1).1) _ e in
      let (done, room, last) = >>=-eq-some (require (leb (stride * count) (length bs))) _ rest in
      let same : files' ≡ files2 = cc last in
      subst (IsOver files fd) same (
        read-IsOver (bytes * count) (lseek fd offset files1).1 result bs files'
          (lseek-IsOver offset files1 over) run)

  unchanged-IsOver :
      (st st' : Files × Paging) → IsOver files fd st.0 → some st ≡ some st' → IsOver files fd st'.0
  unchanged-IsOver st st' over e =
      let same : st ≡ st' = cc e in subst (λ (x : Files × Paging). IsOver files fd x.0) same over

  load_page-IsOver :
      (table index flags offset count : ℕ) (st st' : Files × Paging)
      → IsOver files fd st.0
      → load_page fd table index flags offset count st ≡ some st'
      → IsOver files fd st'.0
  unfolding load_page
  load_page-IsOver table index flags offset count (files1, m) (files2, m') over e =
      let n = if greater count 0x1000 then 0x1000 else count in
      let ((result, bs, files'), run, rest) =
        >>=-eq-some (read fd n (lseek fd offset files1).1) _ e in
      let same : files' ≡ files2 = cc rest in
      subst (IsOver files fd) same (
        read-IsOver n (lseek fd offset files1).1 result bs files' (lseek-IsOver offset files1 over)
          run)

  load_pages-IsOver :
      (rounds j table flags count : ℕ) (header : ProgramHeader) (st st' : Files × Paging)
      → IsOver files fd st.0
      → load_pages rounds j fd table flags count header st ≡ some st'
      → IsOver files fd st'.0
  unfolding load_pages
  load_pages-IsOver zero j table flags count header st st' over e = unchanged-IsOver st st' over e
  load_pages-IsOver (suc rounds) j table flags count header st st' over e =
      let (st1, page, rest) =
        >>=-eq-some
          (load_page fd table (page_index header.p_vaddr + j) flags
            ((header.p_offset + j * 0x1000) % 2 ^ 32) count st)
          _ e in
      let over1 =
        load_page-IsOver table (page_index header.p_vaddr + j) flags
          ((header.p_offset + j * 0x1000) % 2 ^ 32) count st st1 over page in
      load_pages-IsOver rounds (j + 1) table flags
        (if greater count 0x1000 then count - 0x1000 else count) header st1 st' over1 rest

  load_segment-IsOver :
      (directory : ℕ) (header : ProgramHeader) (st st' : Files × Paging)
      → IsOver files fd st.0
      → load_segment fd directory header st ≡ some st'
      → IsOver files fd st'.0
  unfolding load_segment
  load_segment-IsOver directory header st st' over e =
      elim (Bool-cases (header.type == header_type_load)) [
        | inl load ↦
            load_pages-IsOver ((header.p_filesz + 0xfff) % 2 ^ 32 / 0x1000) 0
              (table_at directory header.p_vaddr st.1) (page_flags header) header.p_filesz header st
              st' over (rw (load, load_segment) at e)
        | inr other ↦ unchanged-IsOver st st' over (rw (other, load_segment) at e)
      ]

  pub load_segments-IsOver :
      (rounds i directory : ℕ) (headers : List ℕ) (st st' : Files × Paging)
      → IsOver files fd st.0
      → load_segments rounds i fd directory headers st ≡ some st'
      → IsOver files fd st'.0
  unfolding load_segments
  load_segments-IsOver zero i directory headers st st' over e = unchanged-IsOver st st' over e
  load_segments-IsOver (suc rounds) i directory headers st st' over e =
      let (st1, segment, rest) =
        >>=-eq-some (load_segment fd directory (program_header_at headers i) st) _ e in
      load_segments-IsOver rounds (i + 1) directory headers st1 st'
        (load_segment-IsOver directory (program_header_at headers i) st st1 over segment) rest
