-- ===== src/Memory/Heap/Exhausted.antt =====
-- A heap with no free block.
use semester_5_coursework.Prelude.{◌∙◌, ◌≡◌, ℕ, refl, zero, suc}
use semester_5_coursework.Memory.Heap.{headers, Heap, malloc, malloc_from, skip_free, unfinished}
use semester_5_coursework.Memory.Heap.Allocate.{malloc_from-not_found}
use semester_5_coursework.Memory.Heap.Chain.{chain_fit-taken, follow}
use semester_5_coursework.Memory.Heap.Returns.{skip_free-taken}
use semester_5_coursework.Queue.{Ptr}

-- Without a round left for the inner loop.
malloc_from-one :
    (size : ℕ) (s : Heap) (p : Ptr)
    → ((headers s) p).available ≡ 0
    → malloc_from (suc zero) size s p ≡ unfinished
unfolding malloc_from skip_free
malloc_from-one size s p taken =
    rw (chain_fit-taken size (headers s) p size taken, malloc_from, skip_free) refl

malloc_from-exhausted :
    (k size : ℕ) (s : Heap) (p : Ptr)
    → ((m : ℕ) → ((headers s) (follow (headers s) m p)).available ≡ 0)
    → malloc_from k size s p ≡ unfinished
unfolding malloc_from
malloc_from-exhausted zero size s p none_free = refl
malloc_from-exhausted (suc zero) size s p none_free = malloc_from-one size s p (none_free 0)
malloc_from-exhausted (suc (suc k)) size s p none_free =
    malloc_from-not_found (suc k) size s p p (chain_fit-taken size (headers s) p size (none_free 0))
      (skip_free-taken k (headers s) p (none_free 0))
    ∙ malloc_from-exhausted (suc k) size s ((headers s) p).next (λ m. none_free (suc m))

-- When every header that the chain reaches from the initial one is taken, `malloc` does not end,
-- however many rounds it runs.
pub malloc-exhausted :
    (k size : ℕ) (s : Heap)
    → ((m : ℕ) → ((headers s) (follow (headers s) m s.initial)).available ≡ 0)
    → malloc k size s ≡ unfinished
unfolding malloc
malloc-exhausted k size s none_free = malloc_from-exhausted k size s s.initial none_free
