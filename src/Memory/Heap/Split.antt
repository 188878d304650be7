-- ===== src/Memory/Heap/Split.antt =====
-- Giving a block back.
use mathlib.Core.Path.{subst}
use native.Mathlib.Decide.{dec_lt, ℕ_discrete}
use semester_5_coursework.Prelude.{
  ◌⊎◌, ◌^◌, ◌*◌, ◌%◌, inr, inl, ◌==◌, sym, if◌then◌else◌, ◌∙◌, ap, arith, ◌-◌, ◌+◌, ◌≡◌, ◌≤◌, ◌<◌,
  ℕ, refl, zero, suc,
}
use semester_5_coursework.Memory.Heap.{
  Headers, Heap, min_size, header_size, split_block, split_blocks, set_available, header_at,
  headers,
}
use semester_5_coursework.Queue.{Ptr}
use semester_5_coursework.Memory.Bytes.{
  Bytes, read_word, write_word, read_word-lt, read_word-other, read_word_self, write_word-other,
  read_word-same,
}

-- Blocks without a gap from a header to an end: 256 bytes each with the header, but for the last,
-- whose size is at most 512. Each header is as available as `flags` says.
pub data Tiled (flags : Ptr → ℕ) (h : Headers) : Ptr → Ptr → Type 0 where
  last :
      (p e : Ptr)
      → (h p).size ≤ 512
      → (h p).next ≡ e
      → e ≡ p + header_size + (h p).size
      → (h p).available ≡ flags p
      → Tiled flags h p e
  more :
      (p e : Ptr)
      → (h p).size ≡ min_size - header_size
      → (h p).next ≡ p + min_size
      → (h p).available ≡ flags p
      → Tiled flags h (p + min_size) e
      → Tiled flags h p e

-- One round.
split_blocks-large :
    (k : ℕ) (p : Ptr) (m : Bytes)
    → 512 < (header_at m p).size
    → split_blocks (suc k) p m ≡ split_blocks k (p + min_size) (split_block p m)
unfolding split_blocks
split_blocks-large k p m large = ground arith

split_blocks-small :
    (k : ℕ) (p : Ptr) (m : Bytes) → (header_at m p).size ≤ 512 → split_blocks k p m ≡ m
unfolding split_blocks
split_blocks-small zero p m small = refl
split_blocks-small (suc k) p m small = ground arith

-- The two headers that one round writes.
record Splits (p : Ptr) (m m' : Bytes) : Type 0 where
  size : (header_at m' p).size ≡ 244
  next : (header_at m' p).next ≡ (p + 256) % 2 ^ 32
  rest_size : (header_at m' (p + 256)).size ≡ ((header_at m p).size - 256) % 2 ^ 32
  rest_next : (header_at m' (p + 256)).next ≡ (header_at m p).next
  marks : (i : ℕ) → (header_at m' (p + 256 * i)).available ≡ (header_at m (p + 256 * i)).available
  others : (a : ℕ) → (a < p) ⊎ (p + 268 ≤ a) → m' a ≡ m a

split_block-Splits : (p : Ptr) (m : Bytes) → Splits p m (split_block p m)
unfolding split_block
split_block-Splits p m =
    let rest = p + 256 in
    let size = read_word m p - 256 in
    let m1 = write_word rest size m in
    let link = read_word m1 (p + 8) in
    let m2 = write_word (rest + 8) link m1 in
    let m3 = write_word (p + 8) rest m2 in
    let kept : link ≡ read_word m (p + 8) =
      read_word-other rest size m (p + 8) (inl (omega arith)) in
    let bound = read_word-lt m (p + 8) in
    record {
      size = read_word_self p 244 m3;
      next = read_word-other p 244 m3 (p + 8) (inr (omega arith)) ∙ read_word_self (p + 8) rest m2;
      rest_size =
          read_word-other p 244 m3 rest (inr (omega arith))
          ∙ read_word-other (p + 8) rest m2 rest (inr (omega arith))
          ∙ read_word-other (rest + 8) link m1 rest (inl (omega arith))
          ∙ read_word_self rest size m;
      rest_next =
          read_word-other p 244 m3 (rest + 8) (inr (omega arith))
          ∙ read_word-other (p + 8) rest m2 (rest + 8) (inr (omega arith))
          ∙ read_word_self (rest + 8) link m1
          ∙ omega (arith, kept, bound);
      marks = λ i.
          let q = p + 256 * i + 4 in
          read_word-other p 244 m3 q (inr (omega arith))
          ∙ read_word-other (p + 8) rest m2 q (ground arith)
          ∙ read_word-other (rest + 8) link m1 q (ground arith)
          ∙ read_word-other rest size m q (ground arith);
      others = λ a out.
          write_word-other p 244 m3 a (ground arith)
          ∙ write_word-other (p + 8) rest m2 a (ground arith)
          ∙ write_word-other (rest + 8) link m1 a (ground arith)
          ∙ write_word-other rest size m a (ground arith);
    }

-- Below the block nothing changes.
split_blocks-below : (k : ℕ) (p q : ℕ) (m : Bytes) → q < p → split_blocks k p m q ≡ m q
unfolding split_blocks
split_blocks-below zero p q m b = refl
split_blocks-below (suc k) p q m b = elim (dec_lt 512 (header_at m p).size) [
  | yes large ↦
      ap (λ (g : Bytes). g q) (split_blocks-large k p m large)
      ∙ split_blocks-below k (p + 256) q (split_block p m) (omega arith)
      ∙ (split_block-Splits p m).others q (inl b)
  | no small ↦ ap (λ (g : Bytes). g q) (split_blocks-small (suc k) p m (omega arith))
]

-- From the end of the block on nothing changes.
split_blocks-above :
    (k : ℕ) (p q : ℕ) (m : Bytes)
    → p + header_size + (header_at m p).size ≤ q
    → split_blocks k p m q ≡ m q
unfolding split_blocks
split_blocks-above zero p q m a = refl
split_blocks-above (suc k) p q m a = elim (dec_lt 512 (header_at m p).size) [
  | yes large ↦
      let splits = split_block-Splits p m in
      let bound = read_word-lt m p in
      ap (λ (g : Bytes). g q) (split_blocks-large k p m large)
      ∙ split_blocks-above k (p + 256) q (split_block p m) (omega (arith, splits.rest_size, bound))
      ∙ splits.others q (inr (omega arith))
  | no small ↦ ap (λ (g : Bytes). g q) (split_blocks-small (suc k) p m (omega arith))
]

-- The header of the first block is not touched by the rounds on the rest.
split_blocks-header :
    (k : ℕ) (p : Ptr) (m : Bytes) (q : ℕ)
    → q + 4 ≤ p
    → read_word (split_blocks k p m) q ≡ read_word m q
split_blocks-header k p m q below =
    read_word-same (split_blocks k p m) m q
      (λ i less. split_blocks-below k p (q + i) m (omega arith))

-- The marks of the headers that a split may make.
abbrev HasMarks : (Ptr → ℕ) → Ptr → Bytes → Type 0
HasMarks flags p m = (i : ℕ) → (header_at m (p + 256 * i)).available ≡ flags (p + 256 * i)

first_mark :
    (flags : Ptr → ℕ) (p : Ptr) (m : Bytes)
    → HasMarks flags p m
    → (header_at m p).available ≡ flags p
first_mark flags p m same = let first : p + 256 * 0 ≡ p = omega arith in rw first at (same 0)

split_block-HasMarks :
    (flags : Ptr → ℕ) (p : Ptr) (m : Bytes)
    → HasMarks flags p m
    → HasMarks flags (p + 256) (split_block p m)
split_block-HasMarks flags p m same i =
    let place : p + 256 + 256 * i ≡ p + 256 * suc i = omega arith in
    rw place ((split_block-Splits p m).marks (suc i) ∙ same (suc i))

-- A small block is not split.
Tiled-small :
    (flags : Ptr → ℕ) (k : ℕ) (p e : Ptr) (m : Bytes)
    → HasMarks flags p m
    → (header_at m p).next ≡ e
    → e ≡ p + header_size + (header_at m p).size
    → (header_at m p).size ≤ 512
    → Tiled flags (header_at (split_blocks k p m)) p e
Tiled-small flags k p e m same link snug small =
    subst (λ (g : Bytes). Tiled flags (header_at g) p e) (sym (split_blocks-small k p m small))
      (last p e small link snug (first_mark flags p m same))

-- A round, when the rest is split.
Tiled-large :
    (flags : Ptr → ℕ) (k : ℕ) (p e : Ptr) (m : Bytes)
    → HasMarks flags p m
    → p + 256 < 2 ^ 32
    → 512 < (header_at m p).size
    → Tiled flags (header_at (split_blocks k (p + 256) (split_block p m))) (p + 256) e
    → Tiled flags (header_at (split_blocks (suc k) p m)) p e
Tiled-large flags k p e m same limit large inner =
    let splits = split_block-Splits p m in
    let m' = split_block p m in
    subst (λ (g : Bytes). Tiled flags (header_at g) p e) (sym (split_blocks-large k p m large))
      (more p e (split_blocks-header k (p + 256) m' p (omega arith) ∙ splits.size)
        (split_blocks-header k (p + 256) m' (p + 8) (omega arith) ∙ splits.next ∙ omega arith)
        (split_blocks-header k (p + 256) m' (p + 4) (omega arith) ∙ first_mark_kept flags p m same)
        inner)
  where
    first_mark_kept :
        (flags : Ptr → ℕ) (p : Ptr) (m : Bytes)
        → HasMarks flags p m
        → (header_at (split_block p m) p).available ≡ flags p
    first_mark_kept flags p m same =
        let first : p + 256 * 0 ≡ p = omega arith in
        rw first at ((split_block-Splits p m).marks 0) ∙ first_mark flags p m same

split_blocks-Tiled :
    (flags : Ptr → ℕ) (k : ℕ) (p e : Ptr) (m : Bytes)
    → HasMarks flags p m
    → (header_at m p).next ≡ e
    → e ≡ p + header_size + (header_at m p).size
    → (header_at m p).size ≤ k
    → Tiled flags (header_at (split_blocks k p m)) p e
split_blocks-Tiled flags zero p e m same link snug enough =
    Tiled-small flags zero p e m same link snug (omega arith)
split_blocks-Tiled flags (suc k) p e m same link snug enough =
    elim (dec_lt 512 (header_at m p).size) [
      | no small ↦ Tiled-small flags (suc k) p e m same link snug (omega arith)
      | yes large ↦
          let splits = split_block-Splits p m in
          let bound = read_word-lt m p in
          let limit = read_word-lt m (p + 8) in
          Tiled-large flags k p e m same (omega (arith, limit, link, snug)) large (
            split_blocks-Tiled flags k (p + 256) e (split_block p m)
              (split_block-HasMarks flags p m same) (splits.rest_next ∙ link)
              (omega (arith, splits.rest_size, bound)) (omega (arith, splits.rest_size, bound)))
    ]

-- The marks that `free` leaves: the block's own header is free, and any other place reads as before.
abbrev pub left_flags : Headers → Ptr → Ptr → ℕ
left_flags h p q = if p == q then 1 else (h q).available

-- What a call of `free` does with a block at a header.
pub record IsGivenBack (s : Heap) (p : Ptr) (s' : Heap) : Type 0 where
  pub initial : s'.initial ≡ s.initial
  pub blocks :
      Tiled (left_flags (headers s) p) (headers s') p (p + header_size + (headers s p).size)
  pub below : (q : ℕ) → q < p → s'.bytes q ≡ s.bytes q
  pub above : (q : ℕ) → p + header_size + (headers s p).size ≤ q → s'.bytes q ≡ s.bytes q

pub freed-IsGivenBack :
    (s : Heap) (p : Ptr)
    → (headers s p).next ≡ p + header_size + (headers s p).size
    → let freed = set_available p 1 s.bytes in
      IsGivenBack s p (record s { bytes = split_blocks (header_at freed p).size p freed })
freed-IsGivenBack s p snug =
    let freed = set_available p 1 s.bytes in
    let size : (header_at freed p).size ≡ (headers s p).size =
      read_word-other (p + 4) 1 s.bytes p (inl (omega arith)) in
    let link : (header_at freed p).next ≡ (headers s p).next =
      read_word-other (p + 4) 1 s.bytes (p + 8) (inr (omega arith)) in
    let first : (header_at freed p).available ≡ 1 = read_word_self (p + 4) 1 s.bytes in
    let mark : HasMarks (left_flags (headers s) p) p freed = λ i. elim (ℕ_discrete i 0) [
      | yes e ↦
          let here : p + 256 * i ≡ p = omega (arith, e) in
          ap (λ (x : Ptr). (header_at freed x).available) here ∙ first ∙ ground arith
      | no ne ↦
          read_word-other (p + 4) 1 s.bytes (p + 256 * i + 4) (inr (omega (arith, ne)))
          ∙ ground arith
    ] in
    record {
      initial = refl;
      blocks =
          split_blocks-Tiled (left_flags (headers s) p) (header_at freed p).size p
            (p + header_size + (headers s p).size) freed mark (link ∙ snug) (omega (arith, size))
            (omega arith);
      below = λ q b.
          split_blocks-below (header_at freed p).size p q freed b
          ∙ write_word-other (p + 4) 1 s.bytes q (inl (omega arith));
      above = λ q b.
          split_blocks-above (header_at freed p).size p q freed (omega (arith, size))
          ∙ write_word-other (p + 4) 1 s.bytes q (inr (omega arith));
    }
