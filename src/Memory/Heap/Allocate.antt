-- ===== src/Memory/Heap/Allocate.antt =====
-- What `malloc` returns, and that it returns.
use semester_5_coursework.Prelude.{
  inr, sym, inl, ◌⊎◌, ◌∙◌, ap, ◌%◌, ◌-◌, arith, ◌^◌, ◌<◌, ◌≤◌, ◌≡◌, ◌+◌, ℕ, refl, suc,
}
use semester_5_coursework.Memory.Heap.{
  header_at, headers, Headers, Heap, found, not_found, chain_fit, join_chain, header_size,
  malloc_from, skip_free, returned,
}
use semester_5_coursework.Memory.Heap.Chain.{FreeRun, one, more, IsChain, IsChain-next}
use semester_5_coursework.Queue.{Ptr}
use semester_5_coursework.Memory.Bytes.{
  Bytes, read_word, write_word, read_word-lt, read_word-other, read_word_self, write_word-other,
}
use mathlib.Core.Path.{subst}

-- The block that an allocation of the size has made: it starts at the header `first` of a run of
-- free blocks and takes them all, up to where the next header stands.
pub record IsBlock (s : Heap) (size : ℕ) (ptr : Ptr) (s' : Heap) : Type 0 where
  pub first : Ptr
  pub last : Ptr
  pub bytes : ℕ
  pub run : FreeRun (headers s) first bytes last
  pub address : ptr ≡ first + header_size
  pub large : size ≤ (headers s' first).size
  pub stop : ptr + (headers s' first).size ≡ (headers s last).next
  pub taken : (headers s' first).available ≡ 0
  pub next : (headers s' first).next ≡ (headers s last).next
  pub initial : s'.initial ≡ (headers s last).next
  pub others : (q : ℕ) → (q < first) ⊎ (first + header_size ≤ q) → s'.bytes q ≡ s.bytes q

-- A run of free blocks has its bytes between its headers, and ends with its first header or behind it.
FreeRun-extent :
    (h : Headers) (p q : Ptr) (n : ℕ)
    → IsChain h p
    → FreeRun h p n q
    → (p + header_size + n ≤ (h q).next) × ((p ≡ q) ⊎ (p + header_size ≤ q))
FreeRun-extent h p q n chain (one _ _ free same) =
    (omega (arith, (chain 0).snug free, same), inl refl)
FreeRun-extent h p q n chain (more _ next _ _ m free link run same) =
    let rest =
      FreeRun-extent h next q m (subst (IsChain h) (sym link) (IsChain-next h p chain)) run in
    let snug = (chain 0).snug free in
    (omega (arith, rest.0, snug, link, same), ground (arith, rest.1, snug, link))

-- What `heap_join_chain` writes.
record Joins (p q : Ptr) (m m' : Bytes) : Type 0 where
  size : (header_at m' p).size ≡ ((header_at m q).next + 2 ^ 33 - p - header_size) % 2 ^ 32
  available : (header_at m' p).available ≡ 0
  next : (header_at m' p).next ≡ (header_at m q).next
  others : (a : ℕ) → (a < p) ⊎ (p + header_size ≤ a) → m' a ≡ m a

join_chain-Joins :
    (p q : Ptr) (m : Bytes) → (p ≡ q) ⊎ (p + header_size ≤ q) → Joins p q m (join_chain p q m)
unfolding join_chain
join_chain-Joins p q m apart =
    let link = read_word m (q + 8) in
    let m1 = write_word (p + 4) 0 m in
    let kept : read_word m1 (q + 8) ≡ link = read_word-other (p + 4) 0 m (q + 8) (ground arith) in
    let m2 = write_word (p + 8) (read_word m1 (q + 8)) m1 in
    let bound = read_word-lt m (q + 8) in
    let self : read_word m2 (p + 8) ≡ link =
      read_word_self (p + 8) (read_word m1 (q + 8)) m1 ∙ omega (arith, kept, bound) in
    let again : read_word m2 (q + 8) ≡ link = elim apart [
      | inl e ↦ ap (λ (x : Ptr). read_word m2 (x + 8)) (sym e) ∙ self
      | inr far ↦
          read_word-other (p + 8) (read_word m1 (q + 8)) m1 (q + 8) (inr (omega arith)) ∙ kept
    ] in
    let value = (read_word m2 (q + 8) + 2 ^ 33 - p - header_size) % 2 ^ 32 in
    record {
      size = read_word_self p value m2 ∙ omega (arith, again);
      available =
          read_word-other p value m2 (p + 4) (inr (omega arith))
          ∙ read_word-other (p + 8) (read_word m1 (q + 8)) m1 (p + 4) (inl (omega arith))
          ∙ read_word_self (p + 4) 0 m;
      next = read_word-other p value m2 (p + 8) (inr (omega arith)) ∙ self;
      others = λ a out.
          write_word-other p value m2 a (ground arith)
          ∙ write_word-other (p + 8) (read_word m1 (q + 8)) m1 a (ground arith)
          ∙ write_word-other (p + 4) 0 m a (ground arith);
    }

pub joined-IsBlock :
    (s : Heap) (size n : ℕ) (p q : Ptr)
    → IsChain (headers s) p
    → FreeRun (headers s) p n q
    → size ≤ n
    → IsBlock s size (p + header_size) (record {
      initial = (header_at (join_chain p q s.bytes) p).next;
      bytes = join_chain p q s.bytes;
    })
joined-IsBlock s size n p q chain run covers =
    let extent = FreeRun-extent (headers s) p q n chain run in
    let joins = join_chain-Joins p q s.bytes (extent.1) in
    let bound = read_word-lt s.bytes (q + 8) in
    let bytes : (header_at (join_chain p q s.bytes) p).size ≡ (headers s q).next - p - header_size =
      joins.size ∙ omega (arith, extent.0, bound) in
    record {
      first = p;
      last = q;
      bytes = n;
      run = run;
      address = refl;
      large = omega (arith, bytes, extent.0);
      stop = omega (arith, bytes, extent.0);
      taken = joins.available;
      next = joins.next;
      initial = joins.next;
      others = joins.others;
    }

-- The two ways on after a search.
pub malloc_from-found :
    (k size : ℕ) (s : Heap) (p q : Ptr)
    → chain_fit (suc size) (headers s) p size ≡ found q
    → malloc_from (suc k) size s p
      ≡ returned (p + header_size) (record {
        initial = (header_at (join_chain p q s.bytes) p).next;
        bytes = join_chain p q s.bytes;
      })
unfolding malloc_from
malloc_from-found k size s p q e = rw (e, malloc_from) refl

pub malloc_from-not_found :
    (k size : ℕ) (s : Heap) (p r : Ptr)
    → chain_fit (suc size) (headers s) p size ≡ not_found
    → skip_free k (headers s) p ≡ found r
    → malloc_from (suc k) size s p ≡ malloc_from k size s ((headers s) r).next
unfolding malloc_from
malloc_from-not_found k size s p r e f = rw (e, f, malloc_from) refl
