-- ===== src/Memory/Heap/Returned.antt =====
-- What `free` does with an address.
use mathlib.Core.Path.{subst}
use semester_5_coursework.Prelude.{◌^◌, sym, arith, ◌⊎◌, ◌≡◌, ◌+◌, ◌≤◌, ◌<◌, ◌-◌}
use semester_5_coursework.Memory.Heap.{
  Heap, header_size, set_available, header_at, headers, split_blocks, free, start, end,
}
use semester_5_coursework.Memory.Heap.Split.{IsGivenBack, freed-IsGivenBack}
use semester_5_coursework.Queue.{Ptr}

free-outside : (ptr : Ptr) (s : Heap) → (ptr < start) ⊎ (end < ptr) → free ptr s ≡ s
unfolding free
free-outside ptr s out = ground arith

free-inside :
    (ptr : Ptr) (s : Heap)
    → start ≤ ptr
    → ptr ≤ end
    → let header = ptr - header_size in
      let freed = set_available header 1 s.bytes in
      free ptr s ≡ record s { bytes = split_blocks (header_at freed header).size header freed }
unfolding free
free-inside ptr s lo hi = ground arith

-- An address outside the heap is ignored, whatever the memory holds. One inside, for which the header
-- before it has a size that is not negative and leads to where the block ends, gives back the block:
-- from the header on it is smaller blocks without a gap, 256 bytes each but for the last. The first of
-- them is free; the others' headers keep the mark that the memory there held. No byte changes below the
-- block and from its end on, and the initial header stays.
pub free-IsGivenBack :
    (ptr : Ptr) (s : Heap)
    → (start ≤ ptr → ptr ≤ end → (headers s (ptr - header_size)).size < 2 ^ 31)
    → (start ≤ ptr
        → ptr ≤ end
        → (headers s (ptr - header_size)).next
          ≡ ptr - header_size + header_size + (headers s (ptr - header_size)).size)
    → ((ptr < start) ⊎ (end < ptr) → free ptr s ≡ s)
      × (start ≤ ptr → ptr ≤ end → IsGivenBack s (ptr - header_size) (free ptr s))
free-IsGivenBack ptr s small snug = (
  free-outside ptr s,
  λ lo hi.
      subst (IsGivenBack s (ptr - header_size)) (sym (free-inside ptr s lo hi))
        (freed-IsGivenBack s (ptr - header_size) (snug lo hi)),
)
