-- ===== src/Queue/Chain.antt =====
-- When the nodes on the heap form the doubly linked list of a queue.
use semester_5_coursework.Prelude.{◌≡◌, ◌≢◌, Option, some, List, [], ◌∷◌, arith}
use semester_5_coursework.Queue.{Ptr, null, Node, node, Queue, Nodes, write}

-- The nodes of a queue in order, each with its payload.
abbrev pub Cells : Type 0
Cells = List (Ptr × Ptr)

abbrev pub address : Ptr × Ptr → Ptr
address c = c.0

abbrev pub payload : Ptr × Ptr → Ptr
payload c = c.1

abbrev pub front : Cells → Ptr
front [] = null
front ((a, v) ∷ xs) = a

-- No cell stands at the address.
abbrev pub NotIn : Ptr → Cells → Type 0
NotIn p [] = Unit
NotIn p ((a, v) ∷ xs) = (p ≢ a) × NotIn p xs

abbrev pub Distinct : Cells → Type 0
Distinct [] = Unit
Distinct ((a, v) ∷ xs) = NotIn a xs × Distinct xs

-- The cells are linked in both directions, from behind `prev` to `last`.
abbrev pub Linked : Nodes → Ptr → Cells → Ptr → Type 0
Linked h prev [] last = last ≡ prev
Linked h prev ((a, v) ∷ xs) last =
    (a ≢ null) × (h a ≡ some (node v (front xs) prev)) × Linked h a xs last

pub record IsQueue (h : Nodes) (q : Queue) (xs : Cells) : Type 0 where
  pub head : q.head ≡ front xs
  pub links : Linked h null xs q.tail
  pub distinct : Distinct xs

pub write_ne : (h : Nodes) (p q : Ptr) (c : Option Node) → q ≢ p → write h p c q ≡ h q
write_ne h p q c e = ground arith

-- The last of a list of cells is not an address outside it.
pub NotIn-last :
    (h : Nodes) (p prev a v last : Ptr) (xs : Cells)
    → NotIn p ((a, v) ∷ xs)
    → Linked h prev ((a, v) ∷ xs) last
    → p ≢ last
NotIn-last h p prev a v last [] n l = ground arith
NotIn-last h p prev a v last ((b, u) ∷ xs) n l = NotIn-last h p a b u last xs n.1 l.2

-- A write outside the cells leaves their links alone.
pub Linked-write :
    (h : Nodes) (p prev last : Ptr) (c : Option Node) (xs : Cells)
    → NotIn p xs
    → Linked h prev xs last
    → Linked (write h p c) prev xs last
Linked-write h p prev last c [] n l = l
Linked-write h p prev last c ((a, v) ∷ xs) n l =
    (l.0, ground arith, Linked-write h p a last c xs n.1 l.2)
