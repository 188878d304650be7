-- ===== src/Filesystem/Fat32/Opening/Contents.antt =====
-- Opening a file by its path, reading it and closing it.
use native.Mathlib.Decide.{ℕ_discrete}
use semester_5_coursework.Prelude.{
  set-set, sym, get_or-set_self, arith, ap, ◌∙◌, ◌+◌, length-set, set, ◌*◌, drop, ◌≤◌, take, ◌^◌,
  get_or, ◌<◌, ◌≡◌, length, List, ℕ, refl, suc, none, some, [], ◌∷◌,
}
use semester_5_coursework.Filesystem.Fat32.{File, Files, lookup, free_fd, read, store_read, close}
use semester_5_coursework.Filesystem.Fat32.Opening.{
  open_file, load_file, load_found, find_path, opened,
}
use semester_5_coursework.Filesystem.Fat32.Opening.Load.{
  content, IsChain, IsDisk, load_file-reads, load_file-empty,
}
use semester_5_coursework.Filesystem.Fat32.Opening.Open.{
  file_of, file_of-IsOpen, free_fd-IsFree, close-opened,
}
use semester_5_coursework.Filesystem.Fat32.Opening.Resolve.{Resolves, walk-Resolves}
use semester_5_coursework.Filesystem.Fat32.Reading.{IsOpen, read_file-IsOpen}
use semester_5_coursework.Filesystem.Fat32.Volume.{Disk, Volume, DirectoryEntry, first_cluster}

-- The file that `opened` makes of what is loaded, an empty file included.
opened-file_of :
    (n fd : ℕ) (disk : Disk) (v : Volume) (entry : DirectoryEntry) (files : Files)
    → v.boot_record.bpb.bytes_per_sector ≡ 512
    → IsDisk disk
    → IsChain disk v n (first_cluster entry)
    → entry.filesize < 2 ^ 31
    → entry.filesize ≤ 512 * n
    → opened entry fd files (load_file disk v entry)
      ≡ some (fd, set files fd (some (file_of disk v n entry)))
opened-file_of n fd disk v entry files sectors full chain top covers =
    elim (ℕ_discrete entry.filesize 0) [
      | yes empty ↦
          let nothing : take entry.filesize (content disk v n (first_cluster entry)) ≡ [] =
            ap (λ (m : ℕ). take m (content disk v n (first_cluster entry))) empty in
          ap (opened entry fd files) (load_file-empty disk v entry empty)
          ∙ ap
              (λ (l : List ℕ).
                some
                  (fd, set files fd (some (record { buffer = l; size = entry.filesize; pos = 0 }))))
              (sym nothing)
      | no some_there ↦
          ap (opened entry fd files)
            (load_file-reads n disk v entry sectors full chain (omega arith) top covers)
    ]

-- From the root directory of a volume with sectors of 512 bytes, `open` opens the file that the path
-- leads to, behind its first character: it takes the first free descriptor, and the file has the
-- bytes of the entry's chain of clusters, one sector for each, up to the size, and stands at its
-- start. It needs a free descriptor and a chain that is long enough.
pub open_file-file_of :
    (n fd c : ℕ) (disk : Disk) (v : Volume) (path : List ℕ) (entry : DirectoryEntry) (files : Files)
    → v.boot_record.bpb.bytes_per_sector ≡ 512
    → IsDisk disk
    → free_fd files ≡ some fd
    → Resolves disk v path v.boot_record.extended.root_directory_cluster entry
    → IsChain disk v n (first_cluster entry)
    → entry.filesize < 2 ^ 31
    → entry.filesize ≤ 512 * n
    → open_file disk v (c ∷ path) files ≡ some (fd, set files fd (some (file_of disk v n entry)))
unfolding open_file
open_file-file_of n fd c disk v path entry files sectors full free found chain top covers =
    let root = v.boot_record.extended.root_directory_cluster in
    let same : open_file disk v (c ∷ path) files
        ≡ load_found disk v fd files (find_path disk v (c ∷ path)) =
      rw (free, open_file) refl in
    same
    ∙ ap (load_found disk v fd files)
        (walk-Resolves (suc (length path)) disk v path path 0 root entry refl (omega arith) found)
    ∙ opened-file_of n fd disk v entry files sectors full chain top covers

pub read-IsOpen :
    (fd count : ℕ) (files : Files) (f : File)
    → length files ≡ 32
    → fd < 32
    → get_or files fd none ≡ some f
    → count < 2 ^ 31
    → IsOpen f
    → let bytes = take count (drop f.pos f.buffer) in
      read fd count files
      ≡ some (length bytes, bytes, set files fd (some (record f { pos = f.pos + length bytes })))
unfolding read
read-IsOpen fd count files f size low here small v =
    let there : lookup files fd ≡ some f = ground (arith, here, low) in
    let run = (read_file-IsOpen count f small v).0 in
    rw (there, read) (ap (store_read fd files) run)

-- Opening a file in this way and reading from it gives its first bytes, as many as are asked for or
-- are there, and closing it then gives back the table of files. It needs what opening does: sectors
-- of 512 bytes, a table of 32 entries with a free descriptor, a path that leads to the file, a size
-- below 2^31 and a chain that is long enough.
pub read-open_file :
    (n fd c count : ℕ) (disk : Disk) (v : Volume) (path : List ℕ) (entry : DirectoryEntry)
    (files : Files)
    → v.boot_record.bpb.bytes_per_sector ≡ 512
    → IsDisk disk
    → length files ≡ 32
    → free_fd files ≡ some fd
    → Resolves disk v path v.boot_record.extended.root_directory_cluster entry
    → IsChain disk v n (first_cluster entry)
    → entry.filesize < 2 ^ 31
    → entry.filesize ≤ 512 * n
    → count < 2 ^ 31
    → let bytes = take count (take entry.filesize (content disk v n (first_cluster entry))) in
      (files' : Files) × (files'' : Files) × (open_file disk v (c ∷ path) files ≡ some (fd, files'))
      × (read fd count files' ≡ some (length bytes, bytes, files''))
      × (close fd files'' ≡ (0, files))
read-open_file n fd c count disk v path entry files sectors full size free found chain top covers
      small =
    let f = file_of disk v n entry in
    let files' = set files fd (some f) in
    let is_free = free_fd-IsFree files fd free in
    let bytes = take count f.buffer in
    let f' : File = record f { pos = 0 + length bytes } in
    (
      files',
      set files' fd (some f'),
      open_file-file_of n fd c disk v path entry files sectors full free found chain top covers,
      read-IsOpen fd count files' f (length-set files fd (some f) ∙ size)
          (omega (arith, is_free.high, size)) (get_or-set_self files fd (some f) none is_free.high)
          small (file_of-IsOpen disk v n entry full top covers),
      ap (close fd) (set-set files fd (some f) (some f')) ∙ close-opened files fd f' size is_free,
    )
