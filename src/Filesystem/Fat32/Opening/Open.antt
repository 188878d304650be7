-- ===== src/Filesystem/Fat32/Opening/Open.antt =====
-- What `open` does with a path and the table of files.
use mathlib.Core.Path.{subst}
use semester_5_coursework.Prelude.{
  set-get_or, set-set, get_or-drop, length-drop, get_or-set_self, Option-cases, ◌⊎◌, set, drop, ap,
  ◌∙◌, length-take, arith, ◌-◌, sym, length-append, ◌+◌, ◌*◌, ◌≡◌, ◌^◌, get_or, ◌≤◌, ◌<◌, take,
  length, Option, ℕ, List, refl, zero, suc, none, some, [], ◌∷◌, inl, inr,
}
use semester_5_coursework.Filesystem.Fat32.{File, Files, minus_one, lookup, find_fd, free_fd, close}
use semester_5_coursework.Filesystem.Fat32.Opening.{
  open_file, load_file, load_found, find_path, opened,
}
use semester_5_coursework.Filesystem.Fat32.Opening.Load.{content, fat_entry, IsDisk}
use semester_5_coursework.Filesystem.Fat32.Reading.{IsOpen}
use semester_5_coursework.Filesystem.Fat32.Volume.{
  Disk, Volume, DirectoryEntry, first_cluster, cluster_sector,
}

length-content :
    (disk : Disk) (v : Volume) (n c : ℕ) → IsDisk disk → length (content disk v n c) ≡ 512 * n
length-content disk v zero c full = refl
length-content disk v (suc n) c full =
    let sector = disk (cluster_sector v c) in
    let rest = content disk v n (fat_entry disk v c) in
    length-append {0} sector rest
    ∙ omega (arith, full (cluster_sector v c), length-content disk v n (fat_entry disk v c) full)

-- The file that `open` makes of an entry whose chain has enough clusters.
abbrev pub file_of : Disk → Volume → ℕ → DirectoryEntry → File
file_of disk v n entry = record {
  buffer = take entry.filesize (content disk v n (first_cluster entry));
  size = entry.filesize;
  pos = 0;
}

pub file_of-IsOpen :
    (disk : Disk) (v : Volume) (n : ℕ) (entry : DirectoryEntry)
    → IsDisk disk
    → entry.filesize < 2 ^ 31
    → entry.filesize ≤ 512 * n
    → IsOpen (file_of disk v n entry)
file_of-IsOpen disk v n entry full top covers =
    let bytes = content disk v n (first_cluster entry) in
    let len = length-content disk v n (first_cluster entry) full in
    record {
      size = sym (length-take entry.filesize bytes ∙ ground (arith, len, covers));
      small = top;
      pos = omega arith;
    }

-- A descriptor that `open` takes: free, and behind those of standard input and output.
pub record IsFree (files : Files) (fd : ℕ) : Type 0 where
  pub low : 3 ≤ fd
  pub high : fd < length files
  pub free : get_or files fd none ≡ none

find_fd-free :
    (l : List (Option File)) (i fd : ℕ)
    → find_fd l i ≡ some fd
    → (i ≤ fd) × (fd < i + length l) × (get_or l (fd - i) none ≡ none)
unfolding find_fd
find_fd-free [] i fd e = cc
find_fd-free (none ∷ l) i fd e =
    let same : i ≡ fd = ground arith in
    let here : fd - i ≡ 0 = omega arith in
    (omega arith, omega arith, ap (λ (k : ℕ). get_or (none ∷ l) k none) here)
find_fd-free (some f ∷ l) i fd e =
    let (low, high, free) = find_fd-free l (i + 1) fd e in
    let next : fd - i ≡ suc (fd - (i + 1)) = omega (arith, low) in
    (
      omega (arith, low),
      omega (arith, high),
      ap (λ (k : ℕ). get_or (some f ∷ l) k none) next ∙ free,
    )

pub free_fd-IsFree : (files : Files) (fd : ℕ) → free_fd files ≡ some fd → IsFree files fd
unfolding free_fd
free_fd-IsFree files fd e =
    let (low, high, free) = find_fd-free (drop 3 files) 3 fd e in
    let back : 3 + (fd - 3) ≡ fd = omega (arith, low) in
    record {
      low = low;
      high = omega (arith, high, length-drop 3 files);
      free =
          ap (λ (k : ℕ). get_or files k none) (sym back)
          ∙ sym (get_or-drop 3 files (fd - 3) none)
          ∙ free;
    }

-- The table with a file opened: closing it gives the table back.
pub record IsOpened (files : Files) (fd : ℕ) (files' : Files) : Type 0 where
  pub free : IsFree files fd
  pub file : File
  pub start : file.pos ≡ 0
  pub table : files' ≡ set files fd (some file)
  pub closes : close fd files' ≡ (0, files)

pub close-opened :
    (files : Files) (fd : ℕ) (f : File)
    → length files ≡ 32
    → IsFree files fd
    → close fd (set files fd (some f)) ≡ (0, files)
unfolding close
close-opened files fd f size free =
    let here : lookup (set files fd (some f)) fd ≡ some f =
      ground (arith, get_or-set_self files fd (some f) none free.high, size, free.high) in
    let back : set (set files fd (some f)) fd none ≡ files =
      set-set files fd (some f) none
      ∙ ap (set files fd) (sym free.free)
      ∙ set-get_or files fd none in
    rw (here, close) (ap (λ (l : Files). (0, l)) back)

-- What may come of an open, once there is a free descriptor.
abbrev Outcome : Files → ℕ → ℕ → Files → Type 0
Outcome files fd r files' =
    ((r ≡ minus_one) × (files' ≡ files))
    ⊎ ((f : File) × (f.pos ≡ 0) × (r ≡ fd) × (files' ≡ set files fd (some f)))

opened-Outcome :
    (entry : DirectoryEntry) (fd : ℕ) (files : Files) (o : Option (ℕ × List ℕ)) (r : ℕ)
    (files' : Files)
    → opened entry fd files o ≡ some (r, files')
    → Outcome files fd r files'
opened-Outcome entry fd files none r files' e = cc
opened-Outcome entry fd files (some (code, buffer)) r files' e =
    inr (record { buffer = buffer; size = entry.filesize; pos = 0 }, refl, cc, cc)

load_found-Outcome :
    (disk : Disk) (v : Volume) (fd : ℕ) (files : Files) (o : Option (Option DirectoryEntry)) (r : ℕ)
    (files' : Files)
    → load_found disk v fd files o ≡ some (r, files')
    → Outcome files fd r files'
load_found-Outcome disk v fd files none r files' e = cc
load_found-Outcome disk v fd files (some none) r files' e = inl (cc, cc)
load_found-Outcome disk v fd files (some (some entry)) r files' e =
    opened-Outcome entry fd files (load_file disk v entry) r files' e

-- However the disk and the path are: when `open` returns, it has returned -1 and left the table of
-- files as it was, or it has returned a descriptor from 3 on that was free, and has put a file
-- there that stands at its start, such that closing the descriptor gives the table back.
pub open_file-cases :
    (disk : Disk) (v : Volume) (path : List ℕ) (files : Files) (r : ℕ) (files' : Files)
    → length files ≡ 32
    → open_file disk v path files ≡ some (r, files')
    → ((r ≡ minus_one) × (files' ≡ files)) ⊎ IsOpened files r files'
unfolding open_file
open_file-cases disk v path files r files' size e = elim (Option-cases (free_fd files)) [
  | inl full ↦
      let same : open_file disk v path files ≡ some (minus_one, files) =
        rw (full, open_file) refl in
      inl (cc (same, e), cc (same, e))
  | inr (fd, found) ↦
      let same : open_file disk v path files ≡ load_found disk v fd files (find_path disk v path) =
        rw (found, open_file) refl in
      elim (load_found-Outcome disk v fd files (find_path disk v path) r files' (sym same ∙ e)) [
        | inl failed ↦ inl failed
        | inr (f, start, at_fd, table) ↦
            let free : IsFree files r =
              subst (IsFree files) (sym at_fd) (free_fd-IsFree files fd found) in
            let table' : files' ≡ set files r (some f) =
              table ∙ ap (λ (i : ℕ). set files i (some f)) (sym at_fd) in
            inr (record {
              free = free;
              file = f;
              start = start;
              table = table';
              closes = ap (close r) table' ∙ close-opened files r f size free;
            })
      ]
]
