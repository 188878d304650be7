-- ===== src/Memory/Heap.antt =====
-- The kernel's heap, kernel/memory/heap.c: blocks of at least 256 bytes, each with a header of 12
-- bytes in front, in a memory by bytes: a write of a header's field changes all that is read of its
-- four bytes. A size is the 32-bit pattern of an `int` that is not negative.
pub mod Chain
pub mod Allocate
pub mod Returns
pub mod Exhausted
pub mod Split
pub mod Returned
pub mod Initial
mod Tests
use semester_5_coursework.Prelude.{
  ◌*◌, ◌%◌, ◌^◌, ◌==◌, ◌-◌, ltb, leb, ◌+◌, ℕ, if◌then◌else◌, refl, [], ◌∷◌, none, some, zero, suc,
  true, false,
}
use semester_5_coursework.Memory.Bytes.{Bytes, read_word, write_word}
use semester_5_coursework.Queue.{Ptr}

-- `heap_block_header_t`
pub record Header : Type 0 where
  pub size : ℕ
  pub available : ℕ
  pub next : Ptr

abbrev pub Headers : Type 0
Headers = Ptr → Header

-- The fields, in the order of the packed struct.
abbrev pub header_at : Bytes → Headers
header_at m p = record {
  size = read_word m p;
  available = read_word m (p + 4);
  next = read_word m (p + 8);
}

-- `initial_header`, and the memory.
pub record Heap : Type 0 where
  pub initial : Ptr
  pub bytes : Bytes

abbrev pub headers : Heap → Headers
headers s = header_at s.bytes

abbrev pub set_size : Ptr → ℕ → Bytes → Bytes
set_size p v m = write_word p v m

abbrev pub set_available : Ptr → ℕ → Bytes → Bytes
set_available p v m = write_word (p + 4) v m

abbrev pub set_next : Ptr → Ptr → Bytes → Bytes
set_next p v m = write_word (p + 8) v m

abbrev pub start : Ptr
start = 0x80_0000

abbrev pub end : Ptr
end = 0xc0_0000

abbrev pub min_size : ℕ
min_size = 256

abbrev pub header_size : ℕ
header_size = 12

-- What a search ends with: a header, the null pointer, or no end within the rounds.
pub data Search : Type 0 where
  found : Ptr → Search
  not_found : Search
  out_of_fuel : Search

-- `heap_chain_fit`. A call of itself is for the rest of the size; `size` rounds and one are enough
-- where no free block is empty (`Chain`).
pub chain_fit : (rounds : ℕ) → Headers → Ptr → (size : ℕ) → Search
chain_fit zero h header size = out_of_fuel
chain_fit (suc rounds) h header size =
    if (h header).available == 0 then not_found else elim (leb size (h header).size) [
      | true ↦ found header
      | false ↦ chain_fit rounds h (h header).next (size - (h header).size)
    ]

-- `heap_join_chain`: the three writes, and pointer subtraction on 32 bits.
unfoldable pub join_chain : Ptr → Ptr → Bytes → Bytes
join_chain first last m =
    let m1 = set_available first 0 m in
    let m2 = set_next first (header_at m1 last).next m1 in
    set_size first (((header_at m2 last).next + 2 ^ 33 - first - header_size) % 2 ^ 32) m2

-- The inner loop of `malloc`, past the free blocks.
pub skip_free : (rounds : ℕ) → Headers → Ptr → Search
skip_free zero h header = out_of_fuel
skip_free (suc rounds) h header = elim ((h header).available == 1) [
  | true ↦ skip_free rounds h (h header).next
  | false ↦ found header
]

pub data Result : Type 0 where
  returned : Ptr → Heap → Result
  unfinished : Result

-- The loop of `malloc` from a header on. Each search has `size + 1` rounds; the loop has as many
-- rounds as are given, and so has each run of the inner one. It ends only with a block.
pub malloc_from : (rounds : ℕ) → (size : ℕ) → Heap → Ptr → Result
malloc_from zero size s header = unfinished
malloc_from (suc rounds) size s header = elim (chain_fit (suc size) (headers s) header size) [
  | out_of_fuel ↦ unfinished
  | found last ↦
      let joined = join_chain header last s.bytes in
      returned (header + header_size)
        (record { initial = (header_at joined header).next; bytes = joined })
  | not_found ↦ elim (skip_free rounds (headers s) header) [
    | out_of_fuel ↦ unfinished
    | not_found ↦ unfinished
    | found taken ↦ malloc_from rounds size s (headers s taken).next
  ]
]

unfoldable pub malloc : (rounds : ℕ) → (size : ℕ) → Heap → Result
unfolding malloc_from
malloc rounds size s = malloc_from rounds size s s.initial

-- One round of the loop of `free`: the first 256 bytes become a block, and the rest another.
unfoldable pub split_block : Ptr → Bytes → Bytes
split_block header m =
    let rest = header + min_size in
    let m1 = set_size rest ((header_at m header).size - min_size) m in
    let m2 = set_next rest (header_at m1 header).next m1 in
    let m3 = set_next header rest m2 in set_size header (min_size - header_size) m3

-- The loop: the size goes down by 256 each time, so that `size` rounds are enough (`Split`).
pub split_blocks : (rounds : ℕ) → Ptr → Bytes → Bytes
unfolding split_block
split_blocks zero header m = m
split_blocks (suc rounds) header m = elim (ltb (2 * min_size) (header_at m header).size) [
  | true ↦ split_blocks rounds (header + min_size) (split_block header m)
  | false ↦ m
]

unfoldable pub free : Ptr → Heap → Heap
unfolding split_blocks
free ptr s =
    if ltb ptr start
    then s
    else if ltb end ptr
    then s
    else let header = ptr - header_size in
      let freed = set_available header 1 s.bytes in
      record s { bytes = split_blocks (header_at freed header).size header freed }

-- The header that `init` makes at an address: the last one is taken, and leads to the first.
unfoldable pub make_block : Ptr → Bytes → Bytes
make_block p m =
    let m1 = set_available p 1 m in
    let is_last = leb end (p + min_size) in
    let m2 = if is_last then set_available p 0 m1 else m1 in
    let m3 = set_next p (if is_last then start else p + min_size) m2 in
    set_size p (min_size - header_size) m3

-- The loop of `init`, from an address on.
pub divide : (rounds : ℕ) → Ptr → Bytes → Bytes
unfolding make_block
divide zero p m = m
divide (suc rounds) p m = divide rounds (p + min_size) (make_block p m)

-- `init`, without the self-test that it ends with: 16384 blocks.
unfoldable pub init : Heap → Heap
unfolding divide
init s = record s { bytes = divide 16384 start s.bytes }
