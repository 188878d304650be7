-- ===== src/Memory/Heap/Initial.antt =====
-- The chain of blocks that `init` makes.
use mathlib.Core.Path.{subst}
use native.Mathlib.Decide.{ℕ_discrete}
use semester_5_coursework.Prelude.{
  Bool-cases, sym, leb, ap, ◌≤◌, ◌∙◌, ◌^◌, ◌*◌, if◌then◌else◌, ◌≡◌, ◌<◌, ◌+◌, arith, ℕ, refl, zero,
  suc, inl, inr,
}
use semester_5_coursework.Memory.Bytes.{
  Bytes, read_word, write_word, read_word-other, read_word_self, write_word-other, read_word-same,
}
use semester_5_coursework.Memory.Heap.{
  Header, Heap, header_at, headers, make_block, divide, init, start, end, min_size,
}
use semester_5_coursework.Memory.Heap.Chain.{follow, IsSound, IsChain}
use semester_5_coursework.Queue.{Ptr}

-- The header that `init` puts at an address.
abbrev pub Divided : Ptr → Header → Type 0
Divided p c =
    (c.size ≡ 244)
    × (c.available ≡ (if leb end (p + min_size) then 0 else 1))
    × (c.next ≡ (if leb end (p + min_size) then start else p + min_size))

make_block-Divided :
    (p : Ptr) (m : Bytes) → p + min_size < 2 ^ 32 → Divided p (header_at (make_block p m) p)
unfolding make_block
make_block-Divided p m bound =
    let m1 = write_word (p + 4) 1 m in
    let link = if leb end (p + 256) then start else p + 256 in
    let m2 = if leb end (p + 256) then write_word (p + 4) 0 m1 else m1 in
    let m3 = write_word (p + 8) link m2 in
    let small : link < 2 ^ 32 = ground arith in
    let mark : read_word m2 (p + 4) ≡ (if leb end (p + 256) then 0 else 1) =
      elim (Bool-cases (leb end (p + 256))) [
        | inl is_last ↦ rw is_last (read_word_self (p + 4) 0 m1)
        | inr not_last ↦ rw not_last (read_word_self (p + 4) 1 m)
      ] in
    (
      read_word_self p 244 m3,
      read_word-other p 244 m3 (p + 4) (inr (omega arith))
          ∙ read_word-other (p + 8) link m2 (p + 4) (inl (omega arith))
          ∙ mark,
      read_word-other p 244 m3 (p + 8) (inr (omega arith))
          ∙ read_word_self (p + 8) link m2
          ∙ omega (arith, small),
    )

make_block-below : (p q : ℕ) (m : Bytes) → q < p → make_block p m q ≡ m q
unfolding make_block
make_block-below p q m b =
    let m1 = write_word (p + 4) 1 m in
    let link = if leb end (p + 256) then start else p + 256 in
    let m2 = if leb end (p + 256) then write_word (p + 4) 0 m1 else m1 in
    let m3 = write_word (p + 8) link m2 in
    let kept : m2 q ≡ m q = elim (Bool-cases (leb end (p + 256))) [
      | inl is_last ↦ rw is_last (
          write_word-other (p + 4) 0 m1 q (inl (omega arith))
          ∙ write_word-other (p + 4) 1 m q (inl (omega arith)))
      | inr not_last ↦ rw not_last (write_word-other (p + 4) 1 m q (inl (omega arith)))
    ] in
    write_word-other p 244 m3 q (inl b)
    ∙ write_word-other (p + 8) link m2 q (inl (omega arith))
    ∙ kept

divide-below : (n : ℕ) (p q : ℕ) (m : Bytes) → q < p → divide n p m q ≡ m q
unfolding divide
divide-below zero p q m b = refl
divide-below (suc n) p q m b =
    divide-below n (p + 256) q (make_block p m) (omega arith) ∙ make_block-below p q m b

divide-header :
    (n : ℕ) (p : Ptr) (m : Bytes) (q : ℕ) → q + 4 ≤ p → read_word (divide n p m) q ≡ read_word m q
divide-header n p m q below =
    read_word-same (divide n p m) m q (λ i less. divide-below n p (q + i) m (omega arith))

divide-Divided :
    (n i : ℕ) (p : Ptr) (m : Bytes)
    → i < n
    → p + 256 * n < 2 ^ 32
    → Divided (p + 256 * i) (header_at (divide n p m) (p + 256 * i))
unfolding divide
divide-Divided zero i p m less bound = absurd (omega arith)
divide-Divided (suc n) zero p m less bound =
    let address : p + 256 * 0 ≡ p = omega arith in
    let made = make_block-Divided p m (omega arith) in
    rw address (
      divide-header n (p + 256) (make_block p m) p (omega arith) ∙ made.0,
      divide-header n (p + 256) (make_block p m) (p + 4) (omega arith) ∙ made.1,
      divide-header n (p + 256) (make_block p m) (p + 8) (omega arith) ∙ made.2,
    )
divide-Divided (suc n) (suc i) p m less bound =
    let address : p + 256 * suc i ≡ p + 256 + 256 * i = omega arith in
    rw address (divide-Divided n i (p + 256) (make_block p m) (omega arith) (omega arith))

-- Each of the 16384 headers of `init` has 244 bytes and, but for the last, is free and leads to the
-- next one; the last is taken and leads to the first.
pub init-Divided :
    (s : Heap) (i : ℕ) → i < 16384 → Divided (start + 256 * i) (headers (init s) (start + 256 * i))
unfolding init
init-Divided s i less = divide-Divided 16384 i start s.bytes less (omega arith)

init-IsSound : (s : Heap) (i : ℕ) → i < 16384 → IsSound (headers (init s)) (start + 256 * i)
init-IsSound s i less =
    let made = init-Divided s i less in
    record {
      flag = ground (arith, made.1);
      small = omega (arith, made.0);
      room = λ free. omega (arith, made.0);
      snug = λ free. ground (arith, made, free);
    }

init-follow :
    (s : Heap) (m i : ℕ)
    → i < 16384
    → (j : ℕ) × (j < 16384) × (follow (headers (init s)) m (start + 256 * i) ≡ start + 256 * j)
init-follow s zero i less = (i, less, refl)
init-follow s (suc m) i less =
    let made = init-Divided s i less in
    elim (ℕ_discrete i 16383) [
      | yes e ↦
          let link : (headers (init s) (start + 256 * i)).next ≡ start + 256 * 0 =
            ground (arith, made.2) in
          let (j, bound, ends) = init-follow s m 0 (omega arith) in
          (j, bound, ap (follow (headers (init s)) m) link ∙ ends)
      | no ne ↦
          let link : (headers (init s) (start + 256 * i)).next ≡ start + 256 * (i + 1) =
            ground (arith, made.2) in
          let (j, bound, ends) = init-follow s m (i + 1) (omega arith) in
          (j, bound, ap (follow (headers (init s)) m) link ∙ ends)
    ]

-- After `init`, whatever the memory held, every header that the chain reaches from the first one is
-- marked as free or as taken and has a size that is not negative, and a free block is not empty and ends
-- where the next header stands: what `malloc` asks for.
pub init-IsChain : (s : Heap) → IsChain (headers (init s)) start
init-IsChain s m =
    let (j, bound, ends) = init-follow s m 0 (omega arith) in
    let first : start + 256 * 0 ≡ start = refl in
    subst (IsSound (headers (init s))) (sym ends) (init-IsSound s j bound)
