-- ===== src/Queue/Tests.antt =====
-- The linked queue at small heaps.
use semester_5_coursework.Prelude.{
  none, ◌==◌, if◌then◌else◌, ◌≢◌, some, arith, ◌≡◌, refl, ℕ, ◌∷◌, [],
}
use semester_5_coursework.Queue.{node, Queue, Nodes, push, pop}
use semester_5_coursework.Queue.Chain.{NotIn, IsQueue, Cells}
use semester_5_coursework.Queue.Refine.{pop_refines, contents, push_refines}

-- Two nodes, at 256 and 512, with the payloads 7 and 8.
abbrev two_nodes : Nodes
two_nodes p =
    if p == 256 then some (node 7 512 0) else if p == 512 then some (node 8 0 256) else none

abbrev two : Queue
two = record { head = 256; tail = 512 }

abbrev cells : Cells
cells = (256, 7) ∷ (512, 8) ∷ []

two-IsQueue : IsQueue two_nodes two cells
two-IsQueue = record {
  head = refl;
  links = (λ z. ground arith, refl, (λ z. ground arith, refl, refl));
  distinct = ((λ z. ground arith, tt), (tt, tt));
}

push_refines_example :
    (q' : Queue) × (h' : Nodes) × (push 768 two 9 two_nodes ≡ some (q', h'))
    × IsQueue h' q' ((256, 7) ∷ (512, 8) ∷ (768, 9) ∷ [])
    × (contents ((256, 7) ∷ (512, 8) ∷ (768, 9) ∷ []) ≡ 7 ∷ 8 ∷ 9 ∷ [])
    × ((p : ℕ) → p ≢ 768 → NotIn p cells → h' p ≡ two_nodes p)
push_refines_example =
    push_refines 768 9 two two_nodes cells (λ z. ground arith) two-IsQueue
      (λ z. ground arith, (λ z. ground arith, tt))

pop_refines_example :
    (q' : Queue) × (h' : Nodes) × (ys : Cells) × (pop two two_nodes ≡ some (7, q', h'))
    × IsQueue h' q' ys
    × (contents ys ≡ 8 ∷ [])
    × ((p : ℕ) → NotIn p cells → h' p ≡ two_nodes p)
pop_refines_example = pop_refines two two_nodes cells two-IsQueue
