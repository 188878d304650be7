-- ===== src/Interrupt/Idt.antt =====
-- The interrupt table of kernel/interrupt/idt.c, and where an interrupt is handled:
-- `interrupt_handler` and, for hardware interrupts, `handler` of kernel/hardware/hal.c. The table
-- `isr` of kernel/arch/x86/isr.s is a parameter.
pub mod Gates
mod Tests
use semester_5_coursework.Prelude.{
  ◌^◌, ◌/◌, ◌-◌, ◌+◌, set, ◌==◌, ltb, bit_and, List, ℕ, if◌then◌else◌, refl, [], ◌∷◌, zero, suc,
}
use semester_5_coursework.Multitasking.Process.{Frame}

-- `idt_descriptor_t`
pub record Gate : Type 0 where
  pub offset_low : ℕ
  pub selector : ℕ
  pub reserved : ℕ
  pub attributes : ℕ
  pub offset_high : ℕ

abbrev pub gate : (offset attributes : ℕ) → Gate
gate offset attributes = record {
  selector = 0x08;
  attributes = attributes;
  reserved = 0;
  offset_high = bit_and (offset / 2 ^ 16) 0xffff;
  offset_low = bit_and offset 0xffff;
}

-- The loop of `init`, from vector `i` on.
pub install : (isr : ℕ → ℕ) → (rounds i : ℕ) → List Gate → List Gate
install isr zero i idt = idt
install isr (suc rounds) i idt = install isr rounds (i + 1) (set idt i (gate (isr i) 0x8e))

unfoldable pub init : (isr : ℕ → ℕ) → List Gate → List Gate
unfolding install
init isr idt = set (install isr 0x30 0 idt) 0x80 (gate (isr 0x80) 0xef)

-- The handler that an interrupt reaches; the IRQ's number for one that is only reported.
pub data Handler : Type 0 where
  exception : Handler
  pit : Handler
  keyboard : Handler
  pio : Handler
  unhandled : ℕ → Handler
  syscall : Handler
  ignored : Handler

-- `handler` of hal.c.
abbrev pub hal_handler : ℕ → Handler
hal_handler irq =
    if irq == 0
    then pit
    else if irq == 1
    then keyboard
    else if irq == 14
    then pio
    else unhandled irq

unfoldable pub interrupt_handler : Frame → Handler
interrupt_handler frame =
    if ltb frame.interrupt 0x20
    then exception
    else if ltb frame.interrupt 0x30
    then hal_handler (frame.interrupt - 0x20)
    else if 0x80 == frame.interrupt
    then syscall
    else ignored
