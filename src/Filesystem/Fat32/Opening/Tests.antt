-- ===== src/Filesystem/Fat32/Opening/Tests.antt =====
-- A disk with one file, A.OUT of three bytes in cluster 3.
use semester_5_coursework.Prelude.{
  length, ◌⊎◌, take, set, arith, ℕ, ◌≡◌, replicate, List, refl, zero, suc, none, some, [], ◌∷◌, inr,
}
use semester_5_coursework.Filesystem.Fat32.{
  Files, minus_one, copy_to, free_fd, read, close, filename, split,
}
use semester_5_coursework.Filesystem.Fat32.Opening.{locate, load_file, open_file, find_file, memcmp}
use semester_5_coursework.Filesystem.Fat32.Opening.Contents.{open_file-file_of, read-open_file}
use semester_5_coursework.Filesystem.Fat32.Opening.Load.{content, IsDisk, load_file-reads}
use semester_5_coursework.Filesystem.Fat32.Opening.Locate.{Located, locate-Located}
use semester_5_coursework.Filesystem.Fat32.Opening.Open.{file_of, IsOpened, open_file-cases}
use semester_5_coursework.Filesystem.Fat32.Opening.Resolve.{Resolves, file, IsFilePath}
use semester_5_coursework.Filesystem.Fat32.Volume.{
  Disk, Volume, DirectoryEntry, init, cluster_sector,
}

-- 512 bytes per sector, one sector per cluster, one reserved sector, one table of one sector, and the
-- root directory in cluster 2.
unfoldable boot_sector : List ℕ
unfolding copy_to
boot_sector =
    let geometry = copy_to (replicate 512 0) 11 (0 ∷ 2 ∷ 1 ∷ 1 ∷ 0 ∷ 1 ∷ []) in
    copy_to (copy_to geometry 36 (1 ∷ [])) 44 (2 ∷ [])

unfoldable directory_sector : List ℕ
unfolding copy_to
directory_sector =
    let named =
      copy_to (replicate 512 0) 0 (65 ∷ 32 ∷ 32 ∷ 32 ∷ 32 ∷ 32 ∷ 32 ∷ 32 ∷ 79 ∷ 85 ∷ 84 ∷ []) in
    copy_to (copy_to (copy_to named 16 (1 ∷ [])) 26 (3 ∷ [])) 28 (3 ∷ [])

unfoldable small_disk : Disk
unfolding boot_sector directory_sector
small_disk zero = boot_sector
small_disk (suc zero) = replicate 512 0
small_disk (suc (suc zero)) = directory_sector
small_disk (suc (suc (suc n))) = replicate 512 7

small_disk-IsDisk : IsDisk small_disk
unfolding small_disk copy_to
small_disk-IsDisk zero = refl
small_disk-IsDisk (suc zero) = refl
small_disk-IsDisk (suc (suc zero)) = refl
small_disk-IsDisk (suc (suc (suc n))) = refl

abbrev volume : Volume
volume = record {
  boot_record = record {
    bpb = record {
      start_code = 0 ∷ 0 ∷ 0 ∷ [];
      identifier = replicate 8 0;
      bytes_per_sector = 512;
      sectors_per_cluster = 1;
      reserved_sectors = 1;
      fats_count = 1;
      root_dir_entries_count = 0;
      total_sectors = 0;
      mdt = 0;
      sectors_per_fat = 0;
      sectors_per_track = 0;
      heads_count = 0;
      hidden_sectors = 0;
      large_sector_count = 0;
    };
    extended = record {
      sectors_per_fat = 1;
      flags = 0;
      version = 0;
      root_directory_cluster = 2;
      fsinfo_sector = 0;
      backup_boot_sector = 0;
      reserved = replicate 12 0;
      drive_number = 0;
      nt_flags = 0;
      signature = 0;
      serial_id = 0;
      label = replicate 11 0;
      system_id = replicate 8 0;
      boot_code = replicate 420 0;
      boot_signature = 0;
    };
  };
  fs = record { first_data_sector = 2; root_dir_sector = 2 };
}

init_reads : init small_disk ≡ volume
unfolding init small_disk copy_to
init_reads = refl

abbrev entry : DirectoryEntry
entry = record {
  filename = 65 ∷ 32 ∷ 32 ∷ 32 ∷ 32 ∷ 32 ∷ 32 ∷ 32 ∷ 79 ∷ 85 ∷ 84 ∷ [];
  attributes = 0;
  reserved = 0;
  wtf = 0;
  creation_time = 0;
  creation_date = 1;
  access_date = 0;
  first_cluster_high = 0;
  modify_time = 0;
  modify_date = 0;
  first_cluster_low = 3;
  filesize = 3;
}

-- "A" and "OUT".
locate_out : locate small_disk volume 2 (65 ∷ []) (79 ∷ 85 ∷ 84 ∷ []) ≡ some (some entry)
unfolding locate filename small_disk copy_to cluster_sector memcmp
locate_out = refl

abbrev no_files : Files
no_files = replicate 32 none

free_three : free_fd no_files ≡ some 3
unfolding free_fd
free_three = refl

a_out-IsFilePath : IsFilePath (65 ∷ 46 ∷ 79 ∷ 85 ∷ 84 ∷ []) (65 ∷ []) (79 ∷ 85 ∷ 84 ∷ [])
a_out-IsFilePath = record {
  form = inr refl;
  no_dot = omega arith;
  no_slash = omega arith;
  short = omega arith;
}

a_out-Resolves : Resolves small_disk volume (65 ∷ 46 ∷ 79 ∷ 85 ∷ 84 ∷ []) 2 entry
a_out-Resolves =
    file (65 ∷ 46 ∷ 79 ∷ 85 ∷ 84 ∷ []) 2 entry (65 ∷ []) (79 ∷ 85 ∷ 84 ∷ []) a_out-IsFilePath
      locate_out (λ e. omega arith)

locate-Located_example :
    ((filename (65 ∷ []) [] ≡ none) × (locate small_disk volume 2 (65 ∷ []) [] ≡ some none))
    ⊎ ((f : List ℕ) × (filename (65 ∷ []) [] ≡ some f)
        × Located
            (small_disk (cluster_sector volume 2))
            0
            f
            (locate small_disk volume 2 (65 ∷ []) []))
locate-Located_example =
    locate-Located small_disk volume 2 (65 ∷ []) [] refl
      (small_disk-IsDisk (cluster_sector volume 2))

load_file-reads_example :
    load_file small_disk volume entry ≡ some (0, take 3 (content small_disk volume 1 3))
load_file-reads_example =
    load_file-reads 1 small_disk volume entry refl small_disk-IsDisk (omega arith) (omega arith)
      (omega arith) (omega arith)

open_file-file_of_example :
    open_file small_disk volume (47 ∷ 65 ∷ 46 ∷ 79 ∷ 85 ∷ 84 ∷ []) no_files
    ≡ some (3, set no_files 3 (some (file_of small_disk volume 1 entry)))
open_file-file_of_example =
    open_file-file_of 1 3 47 small_disk volume (65 ∷ 46 ∷ 79 ∷ 85 ∷ 84 ∷ []) entry no_files refl
      small_disk-IsDisk free_three a_out-Resolves (omega arith) (omega arith) (omega arith)

read-open_file_example :
    let bytes = take 2 (take 3 (content small_disk volume 1 3)) in
    (files' : Files) × (files'' : Files) × (open_file small_disk volume
        (47 ∷ 65 ∷ 46 ∷ 79 ∷ 85 ∷ 84 ∷ [])
        no_files
      ≡ some (3, files'))
    × (read 3 2 files' ≡ some (length bytes, bytes, files''))
    × (close 3 files'' ≡ (0, no_files))
read-open_file_example =
    read-open_file 1 3 47 2 small_disk volume (65 ∷ 46 ∷ 79 ∷ 85 ∷ 84 ∷ []) entry no_files refl
      small_disk-IsDisk refl free_three a_out-Resolves (omega arith) (omega arith) (omega arith)
      (omega arith)

content_sevens : take 3 (content small_disk volume 1 3) ≡ 7 ∷ 7 ∷ 7 ∷ []
unfolding small_disk cluster_sector
content_sevens = refl

open_file-cases_example :
    ((3 ≡ minus_one) × (set no_files 3 (some (file_of small_disk volume 1 entry)) ≡ no_files))
    ⊎ IsOpened no_files 3 (set no_files 3 (some (file_of small_disk volume 1 entry)))
open_file-cases_example =
    open_file-cases small_disk volume (47 ∷ 65 ∷ 46 ∷ 79 ∷ 85 ∷ 84 ∷ []) no_files 3
      (set no_files 3 (some (file_of small_disk volume 1 entry))) refl open_file-file_of_example

-- "B": no such file.
open_missing : open_file small_disk volume (47 ∷ 66 ∷ []) no_files ≡ some (minus_one, no_files)
unfolding open_file free_fd split find_file locate filename small_disk copy_to cluster_sector memcmp
open_missing = refl
