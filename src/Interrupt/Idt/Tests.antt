-- ===== src/Interrupt/Idt/Tests.antt =====
-- The gate of the timer and the interrupts at the borders.
use semester_5_coursework.Prelude.{arith, length-replicate, ◌+◌, replicate, ◌≡◌, ℕ, get_or, refl}
use semester_5_coursework.Interrupt.Idt.{Gate, init, ignored, pit, unhandled, interrupt_handler}
use semester_5_coursework.Interrupt.Idt.Gates.{IsHandled, offset_of, init-offset_of}
use semester_5_coursework.Multitasking.Process.{Frame}

abbrev no_gate : Gate
no_gate = record { offset_low = 0; selector = 0; reserved = 0; attributes = 0; offset_high = 0 }

abbrev stub : ℕ → ℕ
stub v = 0x120000 + v

init-offset_of_example :
    (IsHandled 0x20
      → offset_of (get_or (init stub (replicate 256 no_gate)) 0x20 no_gate) ≡ stub 0x20)
    × (¬ IsHandled 0x20
        → get_or (init stub (replicate 256 no_gate)) 0x20 no_gate
          ≡ get_or (replicate 256 no_gate) 0x20 no_gate)
init-offset_of_example =
    init-offset_of stub (replicate 256 no_gate) 0x20 no_gate (length-replicate 256 no_gate)
      (omega arith)

abbrev frame_of : ℕ → Frame
frame_of n = record {
  cr3 = 0;
  ds = 0;
  edi = 0;
  esi = 0;
  ebp = 0;
  esp_kernel = 0;
  ebx = 0;
  edx = 0;
  ecx = 0;
  eax = 0;
  interrupt = n;
  error_code = 0;
  eip = 0;
  cs = 0;
  eflags = 0;
  esp_original = 0;
  ss = 0;
}

timer : interrupt_handler (frame_of 0x20) ≡ pit
unfolding interrupt_handler
timer = refl

last_irq : interrupt_handler (frame_of 0x2f) ≡ unhandled 15
unfolding interrupt_handler
last_irq = refl

free_vector : interrupt_handler (frame_of 0x30) ≡ ignored
unfolding interrupt_handler
free_vector = refl
