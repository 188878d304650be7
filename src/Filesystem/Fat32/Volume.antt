-- ===== src/Filesystem/Fat32/Volume.antt =====
-- The disk side of kernel/filesystem/fat32.c: the packed structures of fat32.h, read from the bytes
-- of a sector, and the addresses computed from them. A `Disk` is what `pio.read` gives for one
-- sector: its 512 bytes.
use semester_5_coursework.Prelude.{
  ◌/◌, ◌-◌, ◌^◌, ltb, drop, ◌+◌, ◌%◌, take, if◌then◌else◌, get_or, bit_or, ◌*◌, ℕ, List,
}

abbrev pub Disk : Type 0
Disk = ℕ → List ℕ

-- Little-endian words, and arrays, at an offset.
abbrev pub byte : List ℕ → ℕ → ℕ
byte s i = get_or s i 0

abbrev pub word16 : List ℕ → ℕ → ℕ
word16 s i = byte s i + 0x100 * byte s (i + 1)

abbrev pub word32 : List ℕ → ℕ → ℕ
word32 s i = word16 s i + 0x1_0000 * word16 s (i + 2)

abbrev pub bytes : List ℕ → (offset count : ℕ) → List ℕ
bytes s offset count = take count (drop offset s)

-- `fat32_bios_parameter_block_t`
pub record BiosParameterBlock : Type 0 where
  pub start_code : List ℕ
  pub identifier : List ℕ
  pub bytes_per_sector : ℕ
  pub sectors_per_cluster : ℕ
  pub reserved_sectors : ℕ
  pub fats_count : ℕ
  pub root_dir_entries_count : ℕ
  pub total_sectors : ℕ
  pub mdt : ℕ
  pub sectors_per_fat : ℕ
  pub sectors_per_track : ℕ
  pub heads_count : ℕ
  pub hidden_sectors : ℕ
  pub large_sector_count : ℕ

abbrev pub bpb_at : List ℕ → BiosParameterBlock
bpb_at s = record {
  start_code = bytes s 0 3;
  identifier = bytes s 3 8;
  bytes_per_sector = word16 s 11;
  sectors_per_cluster = byte s 13;
  reserved_sectors = word16 s 14;
  fats_count = byte s 16;
  root_dir_entries_count = word16 s 17;
  total_sectors = word16 s 19;
  mdt = byte s 21;
  sectors_per_fat = word16 s 22;
  sectors_per_track = word16 s 24;
  heads_count = word16 s 26;
  hidden_sectors = word32 s 28;
  large_sector_count = word32 s 32;
}

-- `fat32_extended_boot_record_t`, of which `reserved` is `__reserved`.
pub record ExtendedBootRecord : Type 0 where
  pub sectors_per_fat : ℕ
  pub flags : ℕ
  pub version : ℕ
  pub root_directory_cluster : ℕ
  pub fsinfo_sector : ℕ
  pub backup_boot_sector : ℕ
  pub reserved : List ℕ
  pub drive_number : ℕ
  pub nt_flags : ℕ
  pub signature : ℕ
  pub serial_id : ℕ
  pub label : List ℕ
  pub system_id : List ℕ
  pub boot_code : List ℕ
  pub boot_signature : ℕ

abbrev pub extended_at : List ℕ → ExtendedBootRecord
extended_at s = record {
  sectors_per_fat = word32 s 36;
  flags = word16 s 40;
  version = word16 s 42;
  root_directory_cluster = word32 s 44;
  fsinfo_sector = word16 s 48;
  backup_boot_sector = word16 s 50;
  reserved = bytes s 52 12;
  drive_number = byte s 64;
  nt_flags = byte s 65;
  signature = byte s 66;
  serial_id = word32 s 67;
  label = bytes s 71 11;
  system_id = bytes s 82 8;
  boot_code = bytes s 90 420;
  boot_signature = word16 s 510;
}

-- `fat32_boot_record_t`
pub record BootRecord : Type 0 where
  pub bpb : BiosParameterBlock
  pub extended : ExtendedBootRecord

-- `fat32_directory_entry_t`, of which `reserved` and `wtf` are `__reserved` and `__wtf`.
pub record DirectoryEntry : Type 0 where
  pub filename : List ℕ
  pub attributes : ℕ
  pub reserved : ℕ
  pub wtf : ℕ
  pub creation_time : ℕ
  pub creation_date : ℕ
  pub access_date : ℕ
  pub first_cluster_high : ℕ
  pub modify_time : ℕ
  pub modify_date : ℕ
  pub first_cluster_low : ℕ
  pub filesize : ℕ

-- The entry of a sector with the given index.
abbrev pub entry_at : List ℕ → ℕ → DirectoryEntry
entry_at s index =
    let i = 32 * index in
    record {
      filename = bytes s i 11;
      attributes = byte s (i + 11);
      reserved = byte s (i + 12);
      wtf = byte s (i + 13);
      creation_time = word16 s (i + 14);
      creation_date = word16 s (i + 16);
      access_date = word16 s (i + 18);
      first_cluster_high = word16 s (i + 20);
      modify_time = word16 s (i + 22);
      modify_date = word16 s (i + 24);
      first_cluster_low = word16 s (i + 26);
      filesize = word32 s (i + 28);
    }

abbrev pub attribute_directory : ℕ
attribute_directory = 0x10

abbrev pub first_cluster : DirectoryEntry → ℕ
first_cluster entry = bit_or entry.first_cluster_low (entry.first_cluster_high * 2 ^ 16)

-- `fat32_fs_t`
pub record Fs : Type 0 where
  pub first_data_sector : ℕ
  pub root_dir_sector : ℕ

-- `__boot_record` and `__fs`.
pub record Volume : Type 0 where
  pub boot_record : BootRecord
  pub fs : Fs

-- `a / b` and `a % b` of an `int` by a positive one: they round to 0.
abbrev pub int_div : ℕ → ℕ → ℕ
int_div a b = if ltb a (2 ^ 31) then a / b else (2 ^ 32 - (2 ^ 32 - a) / b) % 2 ^ 32

abbrev pub int_mod : ℕ → ℕ → ℕ
int_mod a b = if ltb a (2 ^ 31) then a % b else (2 ^ 32 - (2 ^ 32 - a) % b) % 2 ^ 32

abbrev pub cluster2lba : BootRecord → (cluster : ℕ) → ℕ
cluster2lba b cluster =
    int_div (cluster * b.bpb.sectors_per_cluster * b.bpb.bytes_per_sector % 2 ^ 32) 512

-- `first_data_sector + cluster2lba(cluster - 2)`
unfoldable pub cluster_sector : Volume → (cluster : ℕ) → ℕ
cluster_sector v cluster =
    (v.fs.first_data_sector + cluster2lba v.boot_record ((cluster + 2 ^ 32 - 2) % 2 ^ 32)) % 2 ^ 32

abbrev pub read_boot_record : Disk → BootRecord
read_boot_record disk = record { bpb = bpb_at (disk 0); extended = extended_at (disk 0) }

abbrev pub read_root_directory : BootRecord → Fs
read_root_directory b =
    let first = (b.extended.sectors_per_fat * b.bpb.fats_count + b.bpb.reserved_sectors) % 2 ^ 32 in
    let root = (b.extended.root_directory_cluster + 2 ^ 32 - 2) % 2 ^ 32 in
    record { first_data_sector = first; root_dir_sector = (first + cluster2lba b root) % 2 ^ 32 }

unfoldable pub init : Disk → Volume
init disk = let b = read_boot_record disk in record { boot_record = b; fs = read_root_directory b }
