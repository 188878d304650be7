-- ===== src/Memory/Heap/Tests.antt =====
-- The heap that `init` makes, one with a single taken block, and one with a block to be given back.
use semester_5_coursework.Prelude.{◌≤◌, ◌∙◌, ◌⊎◌, ap, ◌≡◌, ◌<◌, arith, ℕ, refl, zero, suc}
use semester_5_coursework.Memory.Bytes.{Bytes, read_word, write_word}
use semester_5_coursework.Memory.Heap.{
  split_block, split_blocks, Heap, returned, unfinished, malloc, free, start, init, headers,
}
use semester_5_coursework.Memory.Heap.Allocate.{IsBlock}
use semester_5_coursework.Memory.Heap.Chain.{IsChain, FreeRun, one, more, follow}
use semester_5_coursework.Memory.Heap.Exhausted.{malloc-exhausted}
use semester_5_coursework.Memory.Heap.Initial.{init-IsChain, init-Divided}
use semester_5_coursework.Memory.Heap.Returned.{free-IsGivenBack}
use semester_5_coursework.Memory.Heap.Returns.{malloc-IsBlock}
use semester_5_coursework.Memory.Heap.Split.{IsGivenBack}
use semester_5_coursework.Queue.{Ptr}

abbrev zeros : Bytes
zeros p = 0

abbrev unused : Heap
unused = record { initial = start; bytes = zeros }

-- The first two blocks that `init` makes.
two_blocks : FreeRun (headers (init unused)) start 488 0x80_0100
two_blocks =
    let first = init-Divided unused 0 (omega arith) in
    let second = init-Divided unused 1 (omega arith) in
    more start 0x80_0100 0x80_0100 488 244 (λ z. omega (arith, z, first)) (omega (arith, first))
      (one 0x80_0100 244 (λ z. omega (arith, z, second)) (omega (arith, second)))
      (omega (arith, first))

init-IsChain_example : IsChain (headers (init unused)) start
init-IsChain_example = init-IsChain unused

malloc-IsBlock_example :
    (ptr : Ptr) × (s' : Heap) × (malloc 1 400 (init unused) ≡ returned ptr s')
    × IsBlock (init unused) 400 ptr s'
unfolding init
malloc-IsBlock_example =
    malloc-IsBlock 1 0 400 488 (init unused) 0x80_0100 (init-IsChain unused) two_blocks
      (omega arith) (omega arith)

-- A single block of 244 bytes, taken, that leads to itself.
abbrev full : Heap
full = record { initial = start; bytes = write_word start 244 (write_word 0x80_0008 start zeros) }

taken_alone : (headers full start).available ≡ 0
unfolding read_word write_word
taken_alone = refl

leads_back : (headers full start).next ≡ start
unfolding read_word write_word
leads_back = refl

follow-full : (m : ℕ) → follow (headers full) m start ≡ start
follow-full zero = refl
follow-full (suc m) = ap (follow (headers full) m) leads_back ∙ follow-full m

malloc-exhausted_example : malloc 1000 10 full ≡ unfinished
malloc-exhausted_example =
    malloc-exhausted 1000 10 full
      (λ m. ap (λ (p : Ptr). (headers full p).available) (follow-full m) ∙ taken_alone)

-- A block of 756 bytes.
abbrev large_block : Heap
large_block = record {
  initial = start;
  bytes = write_word 0x80_0100 756 (write_word 0x80_0108 0x80_0400 zeros);
}

large_size : (headers large_block 0x80_0100).size ≡ 756
unfolding read_word write_word
large_size = refl

large_next : (headers large_block 0x80_0100).next ≡ 0x80_0400
unfolding read_word write_word
large_next = refl

free-IsGivenBack_example :
    ((0x80_010c < 0x80_0000) ⊎ (0xc0_0000 < 0x80_010c) → free 0x80_010c large_block ≡ large_block)
    × (0x80_0000 ≤ 0x80_010c
        → 0x80_010c ≤ 0xc0_0000
        → IsGivenBack large_block 0x80_0100 (free 0x80_010c large_block))
free-IsGivenBack_example =
    free-IsGivenBack 0x80_010c large_block (λ lo hi. omega (arith, large_size))
      (λ lo hi. omega (arith, large_size, large_next))

-- The second of the two blocks that are made of it is marked as the memory was.
free_splits :
    headers (free 0x80_010c large_block) 0x80_0200
    ≡ record { size = 500; available = 0; next = 0x80_0400 }
unfolding free split_block split_blocks read_word write_word
free_splits = refl
