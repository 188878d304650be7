-- ===== src/Memory/Gdt/Fields.antt =====
-- What the fields of an entry of the descriptor table hold.
use semester_5_coursework.Prelude.{
  get_or-set_ne, ◌∙◌, bit_or, ap, get_or-set_self, arith, ap₂, ◌≢◌, bit_and, ◌*◌, ◌%◌, get_or, ◌^◌,
  length, ◌≡◌, ◌<◌, ◌/◌, ◌+◌, ℕ, List, refl,
}
use semester_5_coursework.Bits.Masks.{or-below, and-above, and-nibble, and-byte, and-half}
use semester_5_coursework.Memory.Gdt.{Descriptor, descriptor, write}

high_nibble : (x : ℕ) → bit_and x 0xf0 ≡ x / 2 ^ 4 % 2 ^ 4 * 2 ^ 4
high_nibble x =
    let parts : x ≡ x / 2 ^ 4 * 2 ^ 4 + x % 2 ^ 4 = omega arith in
    ap (λ (y : ℕ). bit_and y 0xf0) parts
    ∙ and-above 4 (x / 2 ^ 4) (x % 2 ^ 4) 0xf (omega arith)
    ∙ ap (λ (y : ℕ). y * 2 ^ 4) (and-nibble (x / 2 ^ 4))

-- The base address that a processor reads from an entry.
abbrev pub base_of : Descriptor → ℕ
base_of d = d.base_low + 2 ^ 16 * d.base_mid + 2 ^ 24 * d.base_high

-- The table entry that is written holds the base address, in its three parts, the low 16 bits of the
-- limit and the access byte; every other entry stays.
pub write-base_of :
    (gdt : List Descriptor) (index other base limit access flags : ℕ) (d : Descriptor)
    → index < length gdt
    → base < 2 ^ 32
    → (base_of (get_or (write index base limit access flags gdt) index d) ≡ base)
      × ((get_or (write index base limit access flags gdt) index d).limit_low ≡ limit % 2 ^ 16)
      × ((get_or (write index base limit access flags gdt) index d).access ≡ access)
      × (index ≢ other
          → get_or (write index base limit access flags gdt) other d ≡ get_or gdt other d)
unfolding write
write-base_of gdt index other base limit access flags d h b =
    let wrote = get_or-set_self gdt index (descriptor base limit access flags) d h in
    rw wrote (
      omega (arith, and-half base, and-byte (base / 2 ^ 16), and-byte (base / 2 ^ 24)),
      and-half limit,
      refl,
      λ ne. get_or-set_ne gdt index other (descriptor base limit access flags) d ne,
    )

-- The byte of the flags holds the high four bits of the limit in its high half and the flags in its
-- low half.
pub descriptor-halves :
    (base limit access flags : ℕ)
    → ((descriptor base limit access flags).flags / 16 ≡ limit / 2 ^ 16 % 16)
      × ((descriptor base limit access flags).flags % 16 ≡ flags % 16)
descriptor-halves base limit access flags =
    let high = limit / 2 ^ 12 / 2 ^ 4 % 2 ^ 4 in
    let low = flags % 2 ^ 4 in
    let byte : (descriptor base limit access flags).flags ≡ high * 2 ^ 4 + low =
      ap₂ bit_or (high_nibble (limit / 2 ^ 12)) (and-nibble flags)
      ∙ or-below 4 high low (omega arith) in
    (omega (arith, byte), omega (arith, byte))
