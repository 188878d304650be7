-- ===== src/Memory/Gdt/Tests.antt =====
-- The entries of the kernel's code and of a task state segment.
use semester_5_coursework.Prelude.{◌≡◌, replicate, get_or, List, refl}
use semester_5_coursework.Memory.Gdt.{Descriptor, write, init}

abbrev empty_entry : Descriptor
empty_entry = record {
  limit_low = 0;
  base_low = 0;
  base_mid = 0;
  access = 0;
  flags = 0;
  base_high = 0;
}

abbrev table : List Descriptor
table = replicate 6 empty_entry

-- The byte is 0xfc, where the processor expects 0xcf.
code-flags : (get_or (init table) 1 empty_entry).flags ≡ 0xfc
unfolding init write
code-flags = refl
