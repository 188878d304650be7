-- ===== src/Memory/Heap/Returns.antt =====
-- When `malloc` returns.
use mathlib.Core.Path.{subst}
use semester_5_coursework.Prelude.{
  ◌+◌, sym, ◌∙◌, ◌⊎◌, ◌≤◌, ◌<◌, arith, ◌≡◌, ℕ, refl, zero, suc, inl, inr,
}
use semester_5_coursework.Memory.Heap.{
  headers, Headers, Heap, Search, found, not_found, out_of_fuel, chain_fit, malloc, malloc_from,
  skip_free, returned,
}
use semester_5_coursework.Memory.Heap.Allocate.{
  IsBlock, joined-IsBlock, malloc_from-found, malloc_from-not_found,
}
use semester_5_coursework.Memory.Heap.Chain.{
  FreeRun, more, follow, IsChain, IsChain-next, chain_fit-FreeRun, chain_fit-ends,
  chain_fit-not_found,
}
use semester_5_coursework.Queue.{Ptr}

-- What lies between a header and one `m` links on: free blocks only, or a taken one at which the
-- inner loop stops, fewer links before it.
data Ahead (h : Headers) (k m n : ℕ) (p q r : Ptr) : Type 0 where
  all_free : (n' : ℕ) → n ≤ n' → FreeRun h p n' r → Ahead h k m n p q r
  stops :
      (t : Ptr) (m' : ℕ)
      → skip_free k h p ≡ found t
      → m' < m
      → follow h m' (h t).next ≡ q
      → IsChain h (h t).next
      → Ahead h k m n p q r

pub skip_free-taken :
    (k : ℕ) (h : Headers) (p : Ptr) → (h p).available ≡ 0 → skip_free (suc k) h p ≡ found p
unfolding skip_free
skip_free-taken k h p taken = ground arith

skip_free-free :
    (k : ℕ) (h : Headers) (p : Ptr)
    → (h p).available ≡ 1
    → skip_free (suc k) h p ≡ skip_free k h (h p).next
unfolding skip_free
skip_free-free k h p free = ground arith

follow-Ahead :
    (h : Headers) (k m n : ℕ) (p q r : Ptr)
    → IsChain h p
    → m ≤ k
    → follow h m p ≡ q
    → FreeRun h q n r
    → Ahead h k m n p q r
follow-Ahead h k zero n p q r chain le e run =
    all_free n (omega arith) (subst (λ (x : Ptr). FreeRun h x n r) (sym e) run)
follow-Ahead h zero (suc m) n p q r chain le e run = absurd (omega arith)
follow-Ahead h (suc k) (suc m) n p q r chain le e run = elim (chain 0).flag [
  | inl taken ↦ stops p m (skip_free-taken k h p taken) (omega arith) e (IsChain-next h p chain)
  | inr free ↦
      elim (follow-Ahead h k m n (h p).next q r (IsChain-next h p chain) (omega arith) e run) [
        | all_free n' covers run' ↦
            all_free ((h p).size + n') (omega arith) (
              more p (h p).next r ((h p).size + n') n' (λ z. omega (arith, z, free)) refl run' refl)
        | stops t m' s less e' chain' ↦
            stops t m' (skip_free-free k h p free ∙ s) (omega arith) e' chain'
      ]
]

Search-cases : (x : Search) → ((q : Ptr) × (x ≡ found q)) ⊎ (x ≡ not_found) ⊎ (x ≡ out_of_fuel)
Search-cases (found q) = inl (q, refl)
Search-cases not_found = inr (inl refl)
Search-cases out_of_fuel = inr (inr refl)

malloc_from-IsBlock :
    (k m size n : ℕ) (s : Heap) (p q r : Ptr)
    → IsChain (headers s) p
    → m < k
    → follow (headers s) m p ≡ q
    → FreeRun (headers s) q n r
    → size ≤ n
    → (ptr : Ptr) × (s' : Heap) × (malloc_from k size s p ≡ returned ptr s') × IsBlock s size ptr s'
malloc_from-IsBlock zero m size n s p q r chain le e run covers = absurd (omega arith)
malloc_from-IsBlock (suc k) m size n s p q r chain le e run covers =
    elim (Search-cases (chain_fit (suc size) (headers s) p size)) [
      | inl (t, f) ↦
          let (bytes, run', covers') = chain_fit-FreeRun (suc size) (headers s) p t size f in
          (
            _,
            _,
            malloc_from-found k size s p t f,
            joined-IsBlock s size bytes p t chain run' covers',
          )
      | inr (inr f) ↦ absurd (chain_fit-ends (suc size) (headers s) p size chain (omega arith) f)
      | inr (inl f) ↦ elim (follow-Ahead (headers s) k m n p q r chain (omega arith) e run) [
        | all_free n' more_bytes run' ↦
            absurd (omega (arith, chain_fit-not_found (suc size) (headers s) p r size n' f run'))
        | stops t m' stop less e' chain' ↦
            let (ptr, s', returns, block) =
              malloc_from-IsBlock k m' size n s ((headers s) t).next q r chain' (omega arith) e' run
                covers in
            (ptr, s', malloc_from-not_found k size s p t f stop ∙ returns, block)
      ]
    ]

-- Where each header that the chain reaches from the initial one is marked as free or as taken and has a
-- size that is not negative, and its block, if it is free, is not empty and ends where the next header
-- stands, `malloc` returns a block of at least the size whenever some run of free blocks of that size
-- starts at a header that the chain reaches. The number of links to it, and one, are enough rounds. Outside of the new block's header no
-- byte changes.
pub malloc-IsBlock :
    (k m size n : ℕ) (s : Heap) (last : Ptr)
    → IsChain (headers s) s.initial
    → FreeRun (headers s) (follow (headers s) m s.initial) n last
    → size ≤ n
    → m < k
    → (ptr : Ptr) × (s' : Heap) × (malloc k size s ≡ returned ptr s') × IsBlock s size ptr s'
unfolding malloc
malloc-IsBlock k m size n s last chain run covers enough =
    malloc_from-IsBlock k m size n s s.initial (follow (headers s) m s.initial) last chain enough
      refl run covers
