-- ===== src/Memory/Gdt.antt =====
-- The global descriptor table, kernel/memory/gdt.c, and the entry of kernel/memory/tss.c. Words are
-- 32-bit patterns and bytes 8-bit ones.
pub mod Fields
mod Tests
use semester_5_coursework.Prelude.{bit_or, ◌^◌, ◌/◌, ◌-◌, ◌*◌, set, bit_and, ℕ, List, refl, [], ◌∷◌}

-- `gdt_descriptor_t`
pub record Descriptor : Type 0 where
  pub limit_low : ℕ
  pub base_low : ℕ
  pub base_mid : ℕ
  pub access : ℕ
  pub flags : ℕ
  pub base_high : ℕ

-- The entry that `write` makes of its arguments.
abbrev pub descriptor : (base limit access flags : ℕ) → Descriptor
descriptor base limit access flags = record {
  base_low = bit_and base 0xffff;
  base_mid = bit_and (base / 2 ^ 16) 0xff;
  base_high = bit_and (base / 2 ^ 24) 0xff;
  limit_low = bit_and limit 0xffff;
  access = access;
  flags = bit_or (bit_and (limit / 2 ^ 12) 0xf0) (bit_and flags 0xf);
}

-- `write`, on the table `__gdt`; an index outside of it does not occur.
unfoldable pub write : (index base limit access flags : ℕ) → List Descriptor → List Descriptor
write index base limit access flags gdt = set gdt index (descriptor base limit access flags)

-- `init` of gdt.c: the null entry, and code and data of the kernel and of processes.
unfoldable pub init : List Descriptor → List Descriptor
init gdt = write 4 0 0xfffff 0xf2 0xc (
    write 3 0 0xfffff 0xfa 0xc
      (write 2 0 0xfffff 0x92 0xc (write 1 0 0xfffff 0x9a 0xc (write 0 0 0 0 0 gdt))))

-- `init` of tss.c, for the task state segment at the address: 27 words of four bytes.
unfoldable pub add_tss : (tss : ℕ) → List Descriptor → List Descriptor
add_tss tss gdt = write 5 tss (27 * 4 - 1) 0x89 0 gdt
