-- ===== src/Memory/Paging/Entry.antt =====
-- An entry of a page table: its page and its flags.
use semester_5_coursework.Prelude.{
  sym, false, ◌==◌, ap₂, ◌∙◌, ◌*◌, ◌/◌, arith, ◌⊎◌, bit_and, ap, ◌≤◌, ◌+◌, bit_or, ◌≢◌, ◌<◌, ◌≡◌,
  ◌^◌, ◌%◌, length, ℕ, List, refl, some, inl, inr,
}
use semester_5_coursework.Bits.Masks.{and-above, and-mask, or-below, and-page}
use semester_5_coursework.Memory.Paging.{
  Paging, create_page, destroy_page, slot, frame_of, store, clear_page, release,
}
use semester_5_coursework.Memory.Physical.{malloc}
use semester_5_coursework.Memory.Physical.Pages.{malloc_cases, free-malloc}

-- A page's address and 12 bits of flags, in one word and apart again.
pub entry-parts :
    (page flags : ℕ)
    → page % 2 ^ 12 ≡ 0
    → page < 2 ^ 32
    → (bit_or page (bit_and flags 0xfff) ≡ page + flags % 2 ^ 12)
      × (frame_of (bit_or page (bit_and flags 0xfff)) ≡ page)
entry-parts page flags a b =
    let q = page / 2 ^ 12 in
    let r = flags % 2 ^ 12 in
    let whole : page ≡ q * 2 ^ 12 = omega arith in
    let union : bit_or page (bit_and flags 0xfff) ≡ q * 2 ^ 12 + r =
      ap₂ bit_or whole (and-page flags) ∙ or-below 12 q r (omega arith) in
    let small : q ≡ 0 * 2 ^ 20 + q = omega arith in
    let masked : bit_and q 0xfffff ≡ q =
      ap (λ (x : ℕ). bit_and x 0xfffff) small ∙ and-mask 20 0 q (omega arith) in
    (
      omega (arith, union, whole),
      ap frame_of union
          ∙ and-above 12 q r 0xfffff (omega arith)
          ∙ ap (λ (x : ℕ). x * 2 ^ 12) masked
          ∙ sym whole,
    )

pub malloc-aligned :
    (s : List ℕ)
    → length s ≡ 32
    → (malloc s).0 ≢ 0
    → ((malloc s).0 % 2 ^ 12 ≡ 0) × (0x400000 ≤ (malloc s).0) × ((malloc s).0 < 0x800000)
malloc-aligned s n h = elim (malloc_cases s) [
  | inl full ↦ absurd (h (ap (λ (r : ℕ × List ℕ). r.0) full.null))
  | inr (i, j, r) ↦
      let bounds : (i < 32) × (j < 32) = (omega (arith, r.in_range), omega (arith, r.in_range)) in
      (omega (arith, r.address), omega (arith, r.address), omega (arith, r.address, bounds))
]

destroy_page-found :
    (index table page : ℕ) (m : Paging)
    → frame_of (m.word (slot table index)) ≡ page
    → page ≢ 0
    → page ≢ 0xb8000
    → destroy_page index table m ≡ release page (slot table index) m
unfolding destroy_page
destroy_page-found index table page m f a b =
    let there : (page == 0) ≡ false = ground arith in
    let screen : (page == 0xb8000) ≡ false = ground arith in rw (f, there, screen) refl

-- `create_page` puts the address of a fresh page of the pool with the low twelve bits of the flags in
-- the entry; when a page is free, `destroy_page` of that entry gives the page back: the allocator is
-- as before, the entry is 0, and outside the page and the entry the memory never changed.
pub destroy-create_page :
    (index table flags : ℕ) (m : Paging)
    → length m.bitmap ≡ 32
    → (malloc m.bitmap).0 ≢ 0
    → let (page, m') = create_page index table flags m in
      (m'.word (slot table index) ≡ page + flags % 2 ^ 12)
      × (0x400000 ≤ page)
      × (page < 0x800000)
      × (m'' : Paging) × (destroy_page index table m' ≡ some m'')
      × (m''.bitmap ≡ m.bitmap)
      × (m''.word (slot table index) ≡ 0)
      × ((p : ℕ) → p ≢ slot table index → p < page ⊎ page + 4096 ≤ p → m''.word p ≡ m.word p)
unfolding create_page destroy_page
destroy-create_page index table flags m n h =
    let page = (malloc m.bitmap).0 in
    let aligned = malloc-aligned m.bitmap n h in
    let entry = bit_or page (bit_and flags 0xfff) in
    let parts = entry-parts page flags (aligned.0) (omega (arith, aligned)) in
    let s = slot table index in
    let zeroed = clear_page page m.word in
    let here : store s entry zeroed s ≡ entry = ground arith in
    let found : frame_of (store s entry zeroed s) ≡ page = ap frame_of here ∙ parts.1 in
    let m' : Paging = record { bitmap = (malloc m.bitmap).1; word = store s entry zeroed } in
    let freed = free-malloc m.bitmap n h in
    (
      here ∙ parts.0,
      aligned.1,
      aligned.2,
      record { bitmap = m.bitmap; word = store s 0 (store s entry zeroed) },
      destroy_page-found index table page m' found h (omega (arith, aligned))
          ∙ (rw (freed, release) refl),
      refl,
      ground arith,
      λ p ne out. ground arith,
    )
