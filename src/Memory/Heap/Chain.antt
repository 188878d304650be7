-- ===== src/Memory/Heap/Chain.antt =====
-- Runs of free blocks, and the search for one.
use mathlib.Core.Path.{subst}
use native.Mathlib.Decide.{ℕ_discrete, dec_lt}
use semester_5_coursework.Prelude.{
  ◌^◌, ◌⊎◌, ◌∙◌, sym, ap, ◌-◌, ◌≤◌, ◌+◌, arith, ◌≡◌, ◌<◌, ◌≢◌, ℕ, refl, zero, suc,
}
use semester_5_coursework.Memory.Heap.{
  header_size, Headers, found, not_found, out_of_fuel, chain_fit,
}
use semester_5_coursework.Queue.{Ptr}

-- Free blocks from one header to another, along the chain, with the sum of their sizes.
pub data FreeRun (h : Headers) : Ptr → ℕ → Ptr → Type 0 where
  one : (p : Ptr) (n : ℕ) → (h p).available ≢ 0 → n ≡ (h p).size → FreeRun h p n p
  more :
      (p next q : Ptr) (n m : ℕ)
      → (h p).available ≢ 0
      → next ≡ (h p).next
      → FreeRun h next m q
      → n ≡ (h p).size + m
      → FreeRun h p n q

-- The header so many links along the chain.
abbrev pub follow : Headers → ℕ → Ptr → Ptr
follow h zero p = p
follow h (suc m) p = follow h m (h p).next

-- A header is marked as free or as taken, and its size is not negative; a free block is not empty, and
-- ends where the next header stands.
pub record IsSound (h : Headers) (p : Ptr) : Type 0 where
  pub flag : ((h p).available ≡ 0) ⊎ ((h p).available ≡ 1)
  pub small : (h p).size < 2 ^ 31
  pub room : (h p).available ≢ 0 → 0 < (h p).size
  pub snug : (h p).available ≢ 0 → (h p).next ≡ p + header_size + (h p).size

-- Every header that the chain reaches from one is sound.
abbrev pub IsChain : Headers → Ptr → Type 0
IsChain h p = (m : ℕ) → IsSound h (follow h m p)

pub IsChain-next : (h : Headers) (p : Ptr) → IsChain h p → IsChain h (h p).next
IsChain-next h p chain m = chain (suc m)

-- The three ways of one round.
pub chain_fit-taken :
    (k : ℕ) (h : Headers) (p : Ptr) (size : ℕ)
    → (h p).available ≡ 0
    → chain_fit (suc k) h p size ≡ not_found
unfolding chain_fit
chain_fit-taken k h p size taken = ground arith

chain_fit-fits :
    (k : ℕ) (h : Headers) (p : Ptr) (size : ℕ)
    → (h p).available ≢ 0
    → size ≤ (h p).size
    → chain_fit (suc k) h p size ≡ found p
unfolding chain_fit
chain_fit-fits k h p size free fits = ground arith

chain_fit-small :
    (k : ℕ) (h : Headers) (p : Ptr) (size : ℕ)
    → (h p).available ≢ 0
    → (h p).size < size
    → chain_fit (suc k) h p size ≡ chain_fit k h (h p).next (size - (h p).size)
unfolding chain_fit
chain_fit-small k h p size free small = ground arith

-- A header that is found ends a run of free blocks that together have the size.
pub chain_fit-FreeRun :
    (k : ℕ) (h : Headers) (p q : Ptr) (size : ℕ)
    → chain_fit k h p size ≡ found q
    → (n : ℕ) × FreeRun h p n q × (size ≤ n)
unfolding chain_fit
chain_fit-FreeRun zero h p q size e = cc
chain_fit-FreeRun (suc k) h p q size e = elim (ℕ_discrete (h p).available 0) [
  | yes taken ↦ cc (chain_fit-taken k h p size taken, e)
  | no free ↦ elim (dec_lt (h p).size size) [
    | no fits ↦
        let same : p ≡ q = cc (chain_fit-fits k h p size free (omega arith), e) in
        ((h p).size, subst (FreeRun h p (h p).size) same (one p (h p).size free refl), omega arith)
    | yes small ↦
        let (n, run, covers) =
          chain_fit-FreeRun k h (h p).next q (size - (h p).size)
            (sym (chain_fit-small k h p size free small) ∙ e) in
        (
          (h p).size + n,
          more p (h p).next q ((h p).size + n) n free refl run refl,
          omega (arith, covers),
        )
  ]
]

-- A search with more rounds than the size ends.
pub chain_fit-ends :
    (k : ℕ) (h : Headers) (p : Ptr) (size : ℕ)
    → IsChain h p
    → size < k
    → chain_fit k h p size ≢ out_of_fuel
chain_fit-ends zero h p size chain enough e = absurd (omega arith)
chain_fit-ends (suc k) h p size chain enough e = elim (ℕ_discrete (h p).available 0) [
  | yes taken ↦ cc (chain_fit-taken k h p size taken, e)
  | no free ↦ elim (dec_lt (h p).size size) [
    | no fits ↦ cc (chain_fit-fits k h p size free (omega arith), e)
    | yes small ↦
        chain_fit-ends k h (h p).next (size - (h p).size) (IsChain-next h p chain)
          (omega (arith, (chain 0).room free)) (sym (chain_fit-small k h p size free small) ∙ e)
  ]
]

-- Where the search gives up, no run from its start has the size.
pub chain_fit-not_found :
    (k : ℕ) (h : Headers) (p q : Ptr) (size n : ℕ)
    → chain_fit k h p size ≡ not_found
    → FreeRun h p n q
    → n < size
unfolding chain_fit
chain_fit-not_found zero h p q size n e run = cc
chain_fit-not_found (suc k) h p q size n e (one _ _ free same) = elim (dec_lt (h p).size size) [
  | no fits ↦ cc (chain_fit-fits k h p size free (omega arith), e)
  | yes small ↦ omega arith
]
chain_fit-not_found (suc k) h p q size n e (more _ next _ _ m free link run same) =
    elim (dec_lt (h p).size size) [
      | no fits ↦ cc (chain_fit-fits k h p size free (omega arith), e)
      | yes small ↦
          let rest =
            chain_fit-not_found k h next q (size - (h p).size) m
              (ap (λ (x : Ptr). chain_fit k h x (size - (h p).size)) link
                ∙ sym (chain_fit-small k h p size free small)
                ∙ e)
              run in
          omega (arith, rest)
    ]
