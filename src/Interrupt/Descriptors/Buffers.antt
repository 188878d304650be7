-- ===== src/Interrupt/Descriptors/Buffers.antt =====
-- What `write` shows and `read` delivers, of the caller's memory.
use semester_5_coursework.Prelude.{
  length-take, ltb, ◌-◌, ◌%◌, ◌∙◌, set, drop, ap, ◌≢◌, take, ◌⊎◌, get_or, arith, ◌^◌, ◌==◌, ◌+◌,
  length, ◌≤◌, ◌≡◌, ◌<◌, List, ℕ, refl, zero, suc, true, false, none, some, [], ◌∷◌, inl, inr,
}
use semester_5_coursework.Filesystem.Fat32.{File, Files}
use semester_5_coursework.Filesystem.Fat32.Names.{IsFreeOf}
use semester_5_coursework.Filesystem.Fat32.Opening.Contents.{read-IsOpen}
use semester_5_coursework.Filesystem.Fat32.Reading.{IsOpen}
use semester_5_coursework.Hardware.Pio.{rounds_of}
use semester_5_coursework.Interrupt.Descriptors.{
  User, byte_at, put_bytes, write, read, copy_out, copied,
}
use semester_5_coursework.Tty.{Tty, putchar, print}

-- So many bytes of a process's memory from an address on.
abbrev pub bytes_from : (count : ℕ) → User → ℕ → List ℕ
bytes_from zero user p = []
bytes_from (suc n) user p = byte_at user p ∷ bytes_from n user (p + 1)

put_bytes-print :
    (n : ℕ) (user : User) (p : ℕ) (t : Tty)
    → IsFreeOf 0 (bytes_from n user p)
    → put_bytes n user p t ≡ print (bytes_from n user p) t
unfolding put_bytes print
put_bytes-print zero user p t free = refl
put_bytes-print (suc n) user p t (differ, free) =
    let no_end : (byte_at user p == 0) ≡ false = ground (arith, differ) in
    rw no_end (put_bytes-print n user (p + 1) (putchar (byte_at user p) t) free)

-- A `write` of bytes that are not 0 to standard output or standard error prints the bytes at the
-- address, as many as it is told, and returns their number; to any other descriptor it returns 0 and
-- prints nothing.
pub write-print :
    (fd buf cnt : ℕ) (user : User) (t : Tty)
    → cnt < 2 ^ 31
    → IsFreeOf 0 (bytes_from cnt user buf)
    → ((fd ≡ 1) ⊎ (fd ≡ 2) → write fd buf cnt user t ≡ (cnt, print (bytes_from cnt user buf) t))
      × (fd ≢ 1 → fd ≢ 2 → write fd buf cnt user t ≡ (0, t))
unfolding write
write-print fd buf cnt user t small free =
    let count : rounds_of cnt ≡ cnt = ground arith in
    let shown : put_bytes (rounds_of cnt) user buf t ≡ print (bytes_from cnt user buf) t =
      ap (λ (n : ℕ). put_bytes n user buf t) count ∙ put_bytes-print cnt user buf t free in
    let pair : ◌≡◌ {A = ℕ × Tty} (cnt, put_bytes (rounds_of cnt) user buf t)
        (cnt, print (bytes_from cnt user buf) t) =
      ap (λ (x : Tty). (cnt, x)) shown in
    (
      λ h. elim h [
        | inl one ↦ let e : (fd == 1) ≡ true = ground arith in rw e pair
        | inr two ↦
            let e : (fd == 2) ≡ true = ground arith in
            let e' : (fd == 1) ≡ false = ground arith in rw (e', e) pair
      ],
      λ a b. ground arith,
    )

-- A `read` from an open file puts its next bytes into the caller's memory from the address on, as many
-- as are asked for or are left, and changes no other byte there; it returns their number, and the file
-- stands behind them.
pub read-delivers :
    (fd buf cnt : ℕ) (user : User) (files : Files) (f : File)
    → 3 ≤ fd
    → fd < 32
    → length files ≡ 32
    → get_or files fd none ≡ some f
    → IsOpen f
    → cnt < 2 ^ 31
    → buf < 2 ^ 32
    → let bytes = take cnt (drop f.pos f.buffer) in
      (user' : User) × (read fd buf cnt user files
        ≡ some (length bytes, user', set files fd (some (record f { pos = f.pos + length bytes }))))
      × ((i : ℕ) → i < length bytes → user' ((buf + i) % 2 ^ 32) ≡ get_or bytes i 0)
      × ((q : ℕ) → q < 2 ^ 32 → length bytes ≤ (q + 2 ^ 32 - buf) % 2 ^ 32 → user' q ≡ user q)
unfolding read
read-delivers fd buf cnt user files f low high size here v small at_buf =
    let bytes = take cnt (drop f.pos f.buffer) in
    let run = read-IsOpen fd cnt files f size high here small v in
    let file : (ltb fd 3) ≡ false = ground arith in
    let len : length bytes ≤ cnt = omega (arith, length-take cnt (drop f.pos f.buffer)) in
    (
      copy_out bytes buf user,
      rw file (ap (copied buf user) run),
      λ i less.
          let offset : ((buf + i) % 2 ^ 32 + 2 ^ 32 - buf) % 2 ^ 32 ≡ i = omega (arith, len) in
          let inside : ltb (((buf + i) % 2 ^ 32 + 2 ^ 32 - buf) % 2 ^ 32) (length bytes) ≡ true =
            ground (arith, offset, less) in
          rw inside (ap (λ (k : ℕ). get_or bytes k 0) offset),
      λ q top out. ground (arith, out),
    )
