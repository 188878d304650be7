-- ===== src/Filesystem/Fat32/Opening.antt =====
-- `locate`, `load_file` and `open` of kernel/filesystem/fat32.c, on a disk of sectors. A buffer that
-- the heap returns is fresh bytes.
pub mod Locate
pub mod Load
pub mod Resolve
pub mod Open
pub mod Contents
mod Tests
use semester_5_coursework.Prelude.{
  ◌*◌, ◌^◌, drop, ◌%◌, take, ◌==◌, ◌-◌, ltb, ◌/◌, ◌+◌, set, replicate, length, leb, if◌then◌else◌,
  ℕ, Option, List, refl, zero, suc, true, false, none, some, [], ◌∷◌, inl, inr,
}
use semester_5_coursework.Filesystem.Fat32.{
  File, Files, minus_one, greater, slice, split, filename, copy_to, free_fd,
}
use semester_5_coursework.Filesystem.Fat32.Volume.{
  Disk, Volume, DirectoryEntry, entry_at, word32, first_cluster, attribute_directory,
  cluster_sector, int_div, int_mod,
}

-- `memcmp` of two arrays of one length.
unfoldable pub memcmp : List ℕ → List ℕ → ℕ
memcmp [] ys = 0
memcmp (x ∷ xs) [] = 0
memcmp (x ∷ xs) (y ∷ ys) = let rest = memcmp xs ys in if x == y then rest else minus_one

-- The loop over the entries of a sector, from an index on: the entry, none before the one without a
-- date, or `none` where it goes on behind the 16 entries that were read.
pub scan : (rounds : ℕ) → List ℕ → (index : ℕ) → (name : List ℕ) → Option (Option DirectoryEntry)
scan zero s index name = none
scan (suc rounds) s index name =
    let rest = scan rounds s (index + 1) name in
    let entry = entry_at s index in
    if entry.creation_date == 0
    then some none
    else if memcmp entry.filename name == 0
    then some (some entry)
    else rest

-- A failure, `some none`, is the code -1. The buffer has `bytes_per_sector` bytes and gets 512.
unfoldable pub locate :
    Disk → Volume → (dir_cluster : ℕ) → (name extension : List ℕ) → Option (Option DirectoryEntry)
unfolding scan
locate disk v dir_cluster name extension = elim (filename name extension) [
  | none ↦ some none
  | some file_name ↦
      if ltb v.boot_record.bpb.bytes_per_sector 512
      then none
      else scan 16 (disk (cluster_sector v dir_cluster)) 0 file_name
]

-- The entry of the file allocation table: the buffer has `bytes_per_sector` bytes, 0 but for the 512
-- that are read. `none` is a division by zero or an index outside.
abbrev pub next_cluster : Disk → Volume → (cluster : ℕ) → Option ℕ
next_cluster disk v cluster =
    let b = v.boot_record.bpb in
    let words = b.bytes_per_sector / 4 in
    if ltb b.bytes_per_sector 512
    then none
    else if ltb (int_mod cluster words) words
    then some (
        word32 (disk ((b.reserved_sectors + int_div cluster words) % 2 ^ 32))
          (4 * int_mod cluster words))
    else none

-- The loop of `load_file`, from a cluster on: its code and the buffer. Each round takes
-- `bytes_per_sector` from the size.
pub load_from :
    (rounds : ℕ) → Disk → Volume → (cluster offset size : ℕ) → List ℕ → Option (ℕ × List ℕ)
load_from zero disk v cluster offset size buffer = none
load_from (suc rounds) disk v cluster offset size buffer =
    let step = v.boot_record.bpb.bytes_per_sector in
    let sector = disk (cluster_sector v cluster) in
    elim (greater size 0) [
      | false ↦ some (minus_one, buffer)
      | true ↦ elim (greater size step) [
        | true ↦ elim (next_cluster disk v cluster) [
          | none ↦ none
          | some next ↦
              load_from rounds disk v next (offset + step) (size - step)
                (copy_to buffer offset sector)
        ]
        | false ↦ if ltb step 512 then none else elim (slice sector 0 size) [
          | none ↦ none
          | some part ↦ some (0, copy_to buffer offset part)
        ]
      ]
    ]

-- As many rounds as the size and one are enough (Load).
unfoldable pub load_file : Disk → Volume → DirectoryEntry → Option (ℕ × List ℕ)
unfolding load_from
load_file disk v entry =
    load_from (suc entry.filesize) disk v (first_cluster entry) 0 entry.filesize
      (replicate entry.filesize 0)

-- `name` has 9 bytes and `ext` has 4, with the NUL: `none` where a part is longer.
abbrev pub part : (limit : ℕ) → List ℕ → (start len : ℕ) → Option (List ℕ)
part limit path start len = if ltb limit len then none else some (take len (drop start path))

-- The last component of a path: the name before the first dot, and the extension behind it. A
-- directory of that name is a failure too.
abbrev pub no_directory : Option (Option DirectoryEntry) → Option (Option DirectoryEntry)
no_directory none = none
no_directory (some none) = some none
no_directory (some (some entry)) =
    if entry.attributes == attribute_directory then some none else some (some entry)

unfoldable pub find_file :
    Disk → Volume → (path : List ℕ) → (start len dir_cluster : ℕ) → Option (Option DirectoryEntry)
find_file disk v path start len dir_cluster =
    let dot = split path 46 start in
    elim (part 8 path start dot) [
      | none ↦ none
      | some name ↦ elim (part 3 path (start + dot + 1) (len - dot - 1)) [
        | none ↦ none
        | some extension ↦ no_directory (locate disk v dir_cluster name extension)
      ]
    ]

-- The loop of `open` over the components of a path, from an index on.
pub walk :
    (rounds : ℕ)
    → Disk
    → Volume
    → (path : List ℕ) → (start dir_cluster : ℕ) → Option (Option DirectoryEntry)
walk zero disk v path start dir_cluster = none
walk (suc rounds) disk v path start dir_cluster =
    let len = split path 47 start in
    elim (leb (length path) (start + len)) [
      | true ↦ find_file disk v path start len dir_cluster
      | false ↦ elim (part 8 path start len) [
        | none ↦ none
        | some name ↦ elim (locate disk v dir_cluster name []) [
          | none ↦ none
          | some none ↦ some none
          | some (some entry) ↦ walk rounds disk v path (start + len + 1) (first_cluster entry)
        ]
      ]
    ]

-- The file that `open` puts in the table: the code of `load_file` is dropped.
abbrev pub opened : DirectoryEntry → ℕ → Files → Option (ℕ × List ℕ) → Option (ℕ × Files)
opened entry fd files none = none
opened entry fd files (some (code, buffer)) =
    some (fd, set files fd (some (record { buffer = buffer; size = entry.filesize; pos = 0 })))

abbrev pub load_found :
    Disk → Volume → ℕ → Files → Option (Option DirectoryEntry) → Option (ℕ × Files)
load_found disk v fd files none = none
load_found disk v fd files (some none) = some (minus_one, files)
load_found disk v fd files (some (some entry)) = opened entry fd files (load_file disk v entry)

-- The first character of the path is not looked at; behind an empty path there is no string.
abbrev pub find_path : Disk → Volume → List ℕ → Option (Option DirectoryEntry)
find_path disk v [] = none
find_path disk v (c ∷ path) =
    walk (suc (length path)) disk v path 0 v.boot_record.extended.root_directory_cluster

unfoldable pub open_file : Disk → Volume → (path : List ℕ) → Files → Option (ℕ × Files)
unfolding walk
open_file disk v path files = elim (free_fd files) [
  | none ↦ some (minus_one, files)
  | some fd ↦ load_found disk v fd files (find_path disk v path)
]
