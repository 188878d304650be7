-- ===== src/Filesystem/Fat32.antt =====
-- Files and names of kernel/filesystem/fat32.c. An `int` is its 32-bit pattern; a string is its bytes
-- without the NUL. A file's buffer is the bytes that `load_file` has read.
pub mod Reading
pub mod Names
pub mod Volume
pub mod Opening
mod Tests
use semester_5_coursework.Prelude.{
  ◌-◌, ◌%◌, take, replicate, ◌^◌, length, get_or, ◌==◌, ◌/◌, ◌+◌, ltb, leb, ◌*◌, set, if◌then◌else◌,
  drop, Option, Bool, ℕ, List, refl, [], ◌∷◌, none, some, zero, suc,
}

-- `fat32_file_t`; its `fd` is the index in the table.
pub record File : Type 0 where
  pub buffer : List ℕ
  pub size : ℕ
  pub pos : ℕ

-- `__files`: 32 entries, `none` for a null pointer.
abbrev pub Files : Type 0
Files = List (Option File)

abbrev pub minus_one : ℕ
minus_one = 0xffff_ffff

-- `a > b` on two `int`s.
abbrev pub greater : ℕ → ℕ → Bool
greater a b = ltb ((b + 2 ^ 31) % 2 ^ 32) ((a + 2 ^ 31) % 2 ^ 32)

-- The bytes that `memcpy` reads from `&buffer[pos]`: none for a negative count, and `none` outside of
-- the buffer.
abbrev pub slice : List ℕ → (pos count : ℕ) → Option (List ℕ)
slice buffer pos count =
    if leb (2 ^ 31) count
    then some []
    else if count == 0
    then some []
    else if leb (pos + count) (length buffer)
    then some (take count (drop pos buffer))
    else none

-- `read` of an open file: the result, the bytes copied and the file.
abbrev pub with_bytes : ℕ → ℕ → File → Option (List ℕ) → Option (ℕ × List ℕ × File)
with_bytes result pos file none = none
with_bytes result pos file (some bytes) = some (result, bytes, record file { pos = pos })

unfoldable pub read_file : (size : ℕ) → File → Option (ℕ × List ℕ × File)
read_file size file =
    let len = (file.size + 2 ^ 32 - file.pos) % 2 ^ 32 in
    if greater size len
    then with_bytes len file.size file (slice file.buffer file.pos len)
    else with_bytes size ((file.pos + size) % 2 ^ 32) file (slice file.buffer file.pos size)

-- The entry of a descriptor; a negative one, as a pattern, is not below 32 either.
abbrev pub lookup : Files → ℕ → Option File
lookup files fd = if ltb fd 32 then get_or files fd none else none

abbrev pub store_read : ℕ → Files → Option (ℕ × List ℕ × File) → Option (ℕ × List ℕ × Files)
store_read fd files none = none
store_read fd files (some (result, bytes, file)) = some (result, bytes, set files fd (some file))

unfoldable pub read : (fd size : ℕ) → Files → Option (ℕ × List ℕ × Files)
unfolding read_file
read fd size files = elim (lookup files fd) [
  | none ↦ some (minus_one, [], files)
  | some file ↦ store_read fd files (read_file size file)
]

unfoldable pub close : (fd : ℕ) → Files → ℕ × Files
close fd files = elim (lookup files fd) [
  | none ↦ (minus_one, files)
  | some file ↦ (0, set files fd none)
]

unfoldable pub lseek : (fd pos : ℕ) → Files → ℕ × Files
lseek fd pos files = elim (lookup files fd) [
  | none ↦ (minus_one, files)
  | some file ↦ (0, set files fd (some (record file { pos = pos })))
]

-- The loop of `open` over the table, from entry `i` on: the first free one.
pub find_fd : List (Option File) → ℕ → Option ℕ
find_fd [] i = none
find_fd (none ∷ files) i = some i
find_fd (some file ∷ files) i = find_fd files (i + 1)

-- The descriptors of standard input and output are left free.
unfoldable pub free_fd : Files → Option ℕ
unfolding find_fd
free_fd files = find_fd (drop 3 files) 3

-- `split`: how many bytes from `start` on come before the delimiter or the end.
pub run_length : List ℕ → ℕ → ℕ
run_length [] delimiter = 0
run_length (c ∷ cs) delimiter =
    let rest = run_length cs delimiter in if c == delimiter then 0 else suc rest

unfoldable pub split : List ℕ → (delimiter start : ℕ) → ℕ
unfolding run_length
split s delimiter start = run_length (drop start s) delimiter

-- `memcpy` into an array.
unfoldable pub copy_to : List ℕ → ℕ → List ℕ → List ℕ
copy_to dst i [] = dst
copy_to dst i (c ∷ cs) = copy_to (set dst i c) (i + 1) cs

-- The name that `locate` looks for: `none` where it returns -1.
unfoldable pub filename : (name extension : List ℕ) → Option (List ℕ)
unfolding copy_to
filename name extension =
    if ltb 11 (length name + length extension)
    then none
    else some (copy_to (copy_to (replicate 11 32) 0 name) (11 - length extension) extension)
