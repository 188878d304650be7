-- ===== src/Interrupt/Dispatch/Returns.antt =====
-- The system calls that always return.
use native.Mathlib.Decide.{dec_lt}
use semester_5_coursework.Prelude.{
  get_elem?-beyond, get_elem?, ℕ, Bool, ◌∙◌, Option, ap, arith, ◌≡◌, ◌^◌, ◌≢◌, ◌<◌, refl, true,
  false, some, [], ◌∷◌, ◌>>=◌, codes,
}
use semester_5_coursework.Filesystem.Fat32.Volume.{Disk, Volume}
use semester_5_coursework.Interrupt.Dispatch.{
  Number, numbers, handler, dispatch, dispatch_number, report, sys_exit, sys_close, sys_execve,
  sys_fork, sys_fstat, sys_getpid, sys_isatty, sys_kill, sys_link, sys_lseek, sys_open, sys_read,
  sys_sbrk, sys_stat, sys_times, sys_unlink, sys_wait, sys_write,
}
use semester_5_coursework.Interrupt.Dispatch.Registers.{GoesOn, may_yield, dispatch-GoesOn}
use semester_5_coursework.Interrupt.System.{System, Return}
use semester_5_coursework.Multitasking.Process.{Frame}
use semester_5_coursework.Tty.{Tty, printf, word}
use semester_5_coursework.Tty.Cursor.{IsOnScreen}
use semester_5_coursework.Tty.Total.{printf-IsOnScreen}

-- The registers that the handler prints are 32-bit words.
pub record AreWords (frame : Frame) : Type 0 where
  pub eax : frame.eax < 2 ^ 32
  pub esp : frame.esp_original < 2 ^ 32
  pub cs : frame.cs < 2 ^ 32
  pub eip : frame.eip < 2 ^ 32

pub report-IsOnScreen :
    (frame : Frame) (t : Tty)
    → AreWords frame
    → frame.eax ≢ 2 ^ 31
    → IsOnScreen t
    → (t' : Tty) × (report frame t ≡ some t') × IsOnScreen t'
unfolding report
report-IsOnScreen frame t words least v =
    let (t1, first, v1) =
      printf-IsOnScreen (codes "Syscall %d happened!\n") (word frame.eax ∷ []) t v
        (((λ z. omega arith), words.eax, (λ z. least)), tt) in
    let (t2, second, v2) =
      printf-IsOnScreen (codes "    Stack @%x, %x:%x\n")
        (word frame.esp_original ∷ word frame.cs ∷ word frame.eip ∷ []) t1 v1
        (
          ((λ z. omega arith), words.esp, (λ z. absurd (omega arith))),
          (
            ((λ z. omega arith), words.cs, (λ z. absurd (omega arith))),
            (((λ z. omega arith), words.eip, (λ z. absurd (omega arith))), tt),
          ),
        ) in
    (
      t2,
      ap
            (λ (o : Option Tty).
              o
              >>= printf (codes "    Stack @%x, %x:%x\n")
                  (word frame.esp_original ∷ word frame.cs ∷ word frame.eip ∷ []))
            first
          ∙ second,
      v2,
    )

-- The calls that are defined whatever their arguments are.
abbrev pub always_returns : Number → Bool
always_returns sys_close = true
always_returns sys_fstat = true
always_returns sys_getpid = true
always_returns sys_isatty = true
always_returns sys_link = true
always_returns sys_lseek = true
always_returns sys_stat = true
always_returns sys_times = true
always_returns sys_unlink = true
always_returns sys_write = true
always_returns _ = false

dispatch-total :
    (disk : Disk) (v : Volume) (fresh : ℕ) (number : Number) (frame : Frame) (s : System)
    → always_returns number ≡ true
    → (may_yield number ≡ false)
      × (ret : Return) × (dispatch disk v fresh number frame s ≡ some ret)
unfolding dispatch
dispatch-total disk v fresh sys_exit frame s e = cc
dispatch-total disk v fresh sys_execve frame s e = cc
dispatch-total disk v fresh sys_fork frame s e = cc
dispatch-total disk v fresh sys_kill frame s e = cc
dispatch-total disk v fresh sys_open frame s e = cc
dispatch-total disk v fresh sys_read frame s e = cc
dispatch-total disk v fresh sys_sbrk frame s e = cc
dispatch-total disk v fresh sys_wait frame s e = cc
dispatch-total disk v fresh sys_close frame s e = (refl, _, refl)
dispatch-total disk v fresh sys_fstat frame s e = (refl, _, refl)
dispatch-total disk v fresh sys_getpid frame s e = (refl, _, refl)
dispatch-total disk v fresh sys_isatty frame s e = (refl, _, refl)
dispatch-total disk v fresh sys_link frame s e = (refl, _, refl)
dispatch-total disk v fresh sys_lseek frame s e = (refl, _, refl)
dispatch-total disk v fresh sys_stat frame s e = (refl, _, refl)
dispatch-total disk v fresh sys_times frame s e = (refl, _, refl)
dispatch-total disk v fresh sys_unlink frame s e = (refl, _, refl)
dispatch-total disk v fresh sys_write frame s e = (refl, _, refl)

numbers-small : (n : ℕ) (number : Number) → get_elem? numbers n ≡ some number → n < 18
numbers-small n number e = elim (dec_lt n 18) [
  | yes small ↦ small
  | no large ↦ absurd (get_elem?-beyond numbers n number (omega arith) e)
]

-- The calls close, fstat, getpid, isatty, link, lseek, stat, times, unlink and write always return to
-- the process that makes them, whatever their arguments are, with a result in eax and nothing else of
-- the frame changed, when the cursor is on the screen and the registers are 32-bit words.
pub handler-returns :
    (disk : Disk) (v : Volume) (fresh : ℕ) (number : Number) (frame : Frame) (s : System)
    → get_elem? numbers frame.eax ≡ some number
    → always_returns number ≡ true
    → AreWords frame
    → IsOnScreen s.tty
    → (ret : Return) × (handler disk v fresh frame s ≡ some ret) × GoesOn frame s ret
unfolding handler
handler-returns disk v fresh number frame s named total words on_screen =
    let small = numbers-small frame.eax number named in
    let (tty, printed, _) =
      report-IsOnScreen frame s.tty words (λ z. omega (arith, small)) on_screen in
    let s1 = record s { tty = tty } in
    let (stays, ret, run) = dispatch-total disk v fresh number frame s1 total in
    let same : dispatch_number disk v fresh (get_elem? numbers frame.eax) frame s1 ≡ some ret =
      ap (λ (o : Option Number). dispatch_number disk v fresh o frame s1) named ∙ run in
    (
      ret,
      ap
            (λ (o : Option Tty). o >>= λ (t : Tty).
              dispatch_number disk v fresh (get_elem? numbers frame.eax) frame
                (record s { tty = t }))
            printed
          ∙ same,
      dispatch-GoesOn disk v fresh number frame s1 ret stays run,
    )
