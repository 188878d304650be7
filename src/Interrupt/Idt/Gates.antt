-- ===== src/Interrupt/Idt/Gates.antt =====
-- The gates that `init` installs are those of the interrupts that are handled.
use semester_5_coursework.Prelude.{
  ◌/◌, sym, get_or-set_self, ap, inr, inl, ◌==◌, length-set, get_or-set_ne, ◌∙◌, Bool-cases, set,
  arith, ◌≡◌, ◌*◌, get_or, ◌⊎◌, ◌≤◌, ◌^◌, length, ◌<◌, ◌+◌, List, ℕ, refl, zero, suc,
}
use semester_5_coursework.Bits.Masks.{and-half}
use semester_5_coursework.Interrupt.Idt.{Gate, gate, install, init}

-- The address that a processor jumps to.
abbrev pub offset_of : Gate → ℕ
offset_of g = g.offset_low + 2 ^ 16 * g.offset_high

gate-offset_of :
    (offset attributes : ℕ) → offset < 2 ^ 32 → offset_of (gate offset attributes) ≡ offset
gate-offset_of offset attributes h = omega (arith, and-half offset, and-half (offset / 2 ^ 16))

length-install :
    (isr : ℕ → ℕ) (n i : ℕ) (idt : List Gate) → length (install isr n i idt) ≡ length idt
unfolding install
length-install isr zero i idt = refl
length-install isr (suc n) i idt =
    length-install isr n (i + 1) (set idt i (gate (isr i) 0x8e))
    ∙ length-set idt i (gate (isr i) 0x8e)

install-before :
    (isr : ℕ → ℕ) (n i v : ℕ) (idt : List Gate) (d : Gate)
    → v < i ⊎ i + n ≤ v
    → get_or (install isr n i idt) v d ≡ get_or idt v d
unfolding install
install-before isr zero i v idt d h = refl
install-before isr (suc n) i v idt d h =
    install-before isr n (i + 1) v (set idt i (gate (isr i) 0x8e)) d (ground arith)
    ∙ get_or-set_ne idt i v (gate (isr i) 0x8e) d (λ e. ground arith)

install-within :
    (isr : ℕ → ℕ) (n i v : ℕ) (idt : List Gate) (d : Gate)
    → i ≤ v
    → v < i + n
    → v < length idt
    → get_or (install isr n i idt) v d ≡ gate (isr v) 0x8e
unfolding install
install-within isr zero i v idt d p q h = absurd (omega arith)
install-within isr (suc n) i v idt d p q h = elim (Bool-cases (i == v)) [
  | inl e ↦
      let same : i ≡ v = ground arith in
      install-before isr n (i + 1) v (set idt i (gate (isr i) 0x8e)) d (ground arith)
      ∙ ap (λ (w : ℕ). get_or (set idt i (gate (isr i) 0x8e)) w d) (sym same)
      ∙ get_or-set_self idt i (gate (isr i) 0x8e) d (omega arith)
      ∙ ap (λ (w : ℕ). gate (isr w) 0x8e) same
  | inr e ↦
      install-within isr n (i + 1) v (set idt i (gate (isr i) 0x8e)) d (ground arith) (omega arith)
        (omega (arith, length-set idt i (gate (isr i) 0x8e)))
]

-- A vector that has a handler.
abbrev pub IsHandled : ℕ → Type 0
IsHandled v = v < 0x30 ⊎ v ≡ 0x80

-- After `init`, the gate of every exception, every hardware interrupt and the system call leads to
-- the address that `isr` has for it, and every other gate is as it was.
pub init-offset_of :
    (isr : ℕ → ℕ) (idt : List Gate) (v : ℕ) (d : Gate)
    → length idt ≡ 256
    → isr v < 2 ^ 32
    → (IsHandled v → offset_of (get_or (init isr idt) v d) ≡ isr v)
      × (¬ IsHandled v → get_or (init isr idt) v d ≡ get_or idt v d)
unfolding init
init-offset_of isr idt v d n h =
    let t = install isr 0x30 0 idt in
    let size = length-install isr 0x30 0 idt in
    (
      λ k. elim k [
        | inl p ↦
            ap offset_of (
              get_or-set_ne t 0x80 v (gate (isr 0x80) 0xef) d (λ e. omega arith)
              ∙ install-within isr 0x30 0 v idt d (omega arith) (omega arith) (omega arith))
            ∙ gate-offset_of (isr v) 0x8e h
        | inr e ↦
            ap offset_of (
              ap (λ (w : ℕ). get_or (set t 0x80 (gate (isr 0x80) 0xef)) w d) e
              ∙ get_or-set_self t 0x80 (gate (isr 0x80) 0xef) d (omega arith)
              ∙ ap (λ (w : ℕ). gate (isr w) 0xef) (sym e))
            ∙ gate-offset_of (isr v) 0xef h
      ],
      λ k.
          let above : 0x30 ≤ v = ground arith in
          get_or-set_ne t 0x80 v (gate (isr 0x80) 0xef) d (λ e. k (inr (sym e)))
          ∙ install-before isr 0x30 0 v idt d (inr above),
    )
