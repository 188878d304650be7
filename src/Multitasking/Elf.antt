-- ===== src/Multitasking/Elf.antt =====
-- The structures of include/kernel/multitasking/elf.h, read from the bytes of a file, and `is_elf` of
-- kernel/multitasking/elf.c.
use semester_5_coursework.Prelude.{◌&&◌, ◌==◌, ◌+◌, ◌*◌, get_or, ℕ, List, Bool}
use semester_5_coursework.Filesystem.Fat32.Volume.{byte, word16, word32, bytes}

-- `elf_header_t`, of 52 bytes; `reserved` is `__reserved`.
pub record ElfHeader : Type 0 where
  pub magic : List ℕ
  pub word_size : ℕ
  pub endianness : ℕ
  pub elf_header_version : ℕ
  pub os_abi : ℕ
  pub reserved : List ℕ
  pub type : ℕ
  pub instruction_set : ℕ
  pub elf_version : ℕ
  pub program_entry_offset : ℕ
  pub program_header_table_offset : ℕ
  pub section_header_table_offset : ℕ
  pub flags : ℕ
  pub elf_header_size : ℕ
  pub program_header_entry_size : ℕ
  pub program_header_entry_count : ℕ
  pub section_header_entry_size : ℕ
  pub section_header_entry_count : ℕ
  pub section_index_to_the_section_header_string_table : ℕ

abbrev pub elf_header_at : List ℕ → ElfHeader
elf_header_at s = record {
  magic = bytes s 0 4;
  word_size = byte s 4;
  endianness = byte s 5;
  elf_header_version = byte s 6;
  os_abi = byte s 7;
  reserved = bytes s 8 8;
  type = word16 s 16;
  instruction_set = word16 s 18;
  elf_version = word32 s 20;
  program_entry_offset = word32 s 24;
  program_header_table_offset = word32 s 28;
  section_header_table_offset = word32 s 32;
  flags = word32 s 36;
  elf_header_size = word16 s 40;
  program_header_entry_size = word16 s 42;
  program_header_entry_count = word16 s 44;
  section_header_entry_size = word16 s 46;
  section_header_entry_count = word16 s 48;
  section_index_to_the_section_header_string_table = word16 s 50;
}

-- `elf_program_header_entry_t`, of 32 bytes.
pub record ProgramHeader : Type 0 where
  pub type : ℕ
  pub p_offset : ℕ
  pub p_vaddr : ℕ
  pub p_paddr : ℕ
  pub p_filesz : ℕ
  pub p_memsz : ℕ
  pub flags : ℕ
  pub alignment : ℕ

abbrev pub program_header_at : List ℕ → (index : ℕ) → ProgramHeader
program_header_at s index =
    let i = 32 * index in
    record {
      type = word32 s i;
      p_offset = word32 s (i + 4);
      p_vaddr = word32 s (i + 8);
      p_paddr = word32 s (i + 12);
      p_filesz = word32 s (i + 16);
      p_memsz = word32 s (i + 20);
      flags = word32 s (i + 24);
      alignment = word32 s (i + 28);
    }

-- `elf_section_header_t`, of 40 bytes.
pub record SectionHeader : Type 0 where
  pub sh_name : ℕ
  pub sh_type : ℕ
  pub sh_flags : ℕ
  pub sh_addr : ℕ
  pub sh_offset : ℕ
  pub sh_size : ℕ
  pub sh_link : ℕ
  pub sh_info : ℕ
  pub sh_addralign : ℕ
  pub sh_entsize : ℕ

abbrev pub section_header_at : List ℕ → (index : ℕ) → SectionHeader
section_header_at s index =
    let i = 40 * index in
    record {
      sh_name = word32 s i;
      sh_type = word32 s (i + 4);
      sh_flags = word32 s (i + 8);
      sh_addr = word32 s (i + 12);
      sh_offset = word32 s (i + 16);
      sh_size = word32 s (i + 20);
      sh_link = word32 s (i + 24);
      sh_info = word32 s (i + 28);
      sh_addralign = word32 s (i + 32);
      sh_entsize = word32 s (i + 36);
    }

abbrev pub type_executable : ℕ
type_executable = 2

abbrev pub instruction_set_x86 : ℕ
instruction_set_x86 = 3

abbrev pub header_type_load : ℕ
header_type_load = 1

abbrev pub header_flag_writable : ℕ
header_flag_writable = 2

abbrev pub section_type_nobits : ℕ
section_type_nobits = 8

abbrev pub section_flag_alloc : ℕ
section_flag_alloc = 2

-- The magic bytes are 0x7f and "ELF".
unfoldable pub is_elf : ElfHeader → Bool
is_elf h =
    (get_or h.magic 0 0 == 0x7f)
    && (get_or h.magic 1 0 == 69)
    && (get_or h.magic 2 0 == 76)
    && (get_or h.magic 3 0 == 70)
    && (h.instruction_set == instruction_set_x86)
    && (h.type == type_executable)
