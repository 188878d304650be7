-- ===== src/Memory/Bytes.antt =====
-- Memory by bytes, and the 32-bit words in it: what the accesses of kernel/memory/heap.c to the
-- fields of a header read and write.
use semester_5_coursework.Prelude.{
  ◌⊎◌, ◌≤◌, ◌^◌, ◌==◌, ◌/◌, ◌*◌, arith, ◌≡◌, ◌<◌, ◌+◌, ◌%◌, if◌then◌else◌, ℕ,
}

-- A byte counts modulo 256.
abbrev pub Bytes : Type 0
Bytes = ℕ → ℕ

-- Little-endian words.
unfoldable pub read_word : Bytes → ℕ → ℕ
read_word m p =
    m p % 0x100
    + 0x100 * (m (p + 1) % 0x100)
    + 0x1_0000 * (m (p + 2) % 0x100)
    + 0x100_0000 * (m (p + 3) % 0x100)

unfoldable pub write_word : (p value : ℕ) → Bytes → Bytes
write_word p value m q =
    if p == q
    then value % 0x100
    else if p + 1 == q
    then value / 0x100 % 0x100
    else if p + 2 == q
    then value / 0x1_0000 % 0x100
    else if p + 3 == q
    then value / 0x100_0000 % 0x100
    else m q

pub read_word-lt : (m : Bytes) (p : ℕ) → read_word m p < 2 ^ 32
unfolding read_word
read_word-lt m p = omega arith

-- Outside of a word that is written the bytes stay.
pub write_word-other :
    (p v : ℕ) (m : Bytes) (q : ℕ) → (q < p) ⊎ (p + 4 ≤ q) → write_word p v m q ≡ m q
unfolding write_word
write_word-other p v m q out = ground arith

-- Equal bytes make equal words.
pub read_word-same :
    (m m' : Bytes) (q : ℕ)
    → ((i : ℕ) → i < 4 → m (q + i) ≡ m' (q + i))
    → read_word m q ≡ read_word m' q
unfolding read_word
read_word-same m m' q same =
    let zero : q + 0 ≡ q = omega arith in
    let first : m q ≡ m' q = rw zero at (same 0 (omega arith)) in
    omega (arith, first, same 1 (omega arith), same 2 (omega arith), same 3 (omega arith))

pub read_word-other :
    (p v : ℕ) (m : Bytes) (q : ℕ)
    → (q + 4 ≤ p) ⊎ (p + 4 ≤ q)
    → read_word (write_word p v m) q ≡ read_word m q
read_word-other p v m q out =
    read_word-same (write_word p v m) m q (λ i less. write_word-other p v m (q + i) (ground arith))

written :
    (p v : ℕ) (m : Bytes)
    → (write_word p v m p ≡ v % 0x100)
      × (write_word p v m (p + 1) ≡ v / 0x100 % 0x100)
      × (write_word p v m (p + 2) ≡ v / 0x1_0000 % 0x100)
      × (write_word p v m (p + 3) ≡ v / 0x100_0000 % 0x100)
unfolding write_word
written p v m = (ground arith, ground arith, ground arith, ground arith)

pub read_word_self : (p v : ℕ) (m : Bytes) → read_word (write_word p v m) p ≡ v % 2 ^ 32
unfolding read_word
read_word_self p v m = let bytes = written p v m in omega (arith, bytes)
