-- ===== src/Queue/Refine.antt =====
-- The linked queue does what its specification says: each call returns what `Fifo` returns, and
-- leaves the nodes of the new contents, linked in both directions.
use semester_5_coursework.Queue.Fifo
use semester_5_coursework.Prelude.{
  ◌≡◌, ◌≢◌, refl, sym, ◌∙◌, none, some, List, [], ◌∷◌, ◌++◌, map, map-append, arith,
}
use semester_5_coursework.Queue.{
  Ptr, null, Node, node, Queue, Nodes, write, queue_init, push, pop, peek,
}
use semester_5_coursework.Queue.Chain.{
  Cells, payload, front, NotIn, Distinct, Linked, IsQueue, NotIn-last, Linked-write, write_ne,
}

abbrev pub contents : Cells → List Ptr
contents = map payload

-- A fresh node behind the last one, as `push` links it.
module _ (fresh w : Ptr) (ne : fresh ≢ null) where
  abbrev appended : Nodes → Ptr → Node → Nodes
  appended h last t =
      write (write h fresh (some (node w null last))) last (some (record t { next = fresh }))

  Linked-append :
      (h : Nodes) (prev last a v : Ptr) (xs : Cells)
      → Linked h prev ((a, v) ∷ xs) last
      → NotIn fresh ((a, v) ∷ xs)
      → Distinct ((a, v) ∷ xs)
      → (t : Node) × (h last ≡ some t)
        × (last ≢ null)
        × Linked (appended h last t) prev (((a, v) ∷ xs) ++ ((fresh, w) ∷ [])) fresh
  Linked-append h prev last a v [] l n d =
      (node v null prev, ground arith, ground arith, (l.0, ground arith, (ne, ground arith, refl)))
  Linked-append h prev last a v ((b, u) ∷ xs) l n d =
      let rest = Linked-append h a last b u xs l.2 n.1 d.1 in
      let a≢last : a ≢ last = NotIn-last h a a b u last xs d.0 l.2 in
      (rest.0, rest.1, rest.2, (l.0, ground (arith, a≢last, n.0), rest.3))

NotIn-append : (p a v : Ptr) (xs : Cells) → NotIn p xs → p ≢ a → NotIn p (xs ++ ((a, v) ∷ []))
NotIn-append p a v [] n e = (e, tt)
NotIn-append p a v ((b, u) ∷ xs) n e = (n.0, NotIn-append p a v xs n.1 e)

Distinct-append :
    (a v : Ptr) (xs : Cells) → NotIn a xs → Distinct xs → Distinct (xs ++ ((a, v) ∷ []))
Distinct-append a v [] n d = (tt, tt)
Distinct-append a v ((b, u) ∷ xs) n d =
    (NotIn-append b a v xs d.0 (λ e. n.0 (sym e)), Distinct-append a v xs n.1 d.1)

-- `queue_init` gives the empty queue.
pub queue_init-IsQueue : (h : Nodes) → IsQueue h queue_init []
unfolding queue_init
queue_init-IsQueue h = record { head = refl; links = refl; distinct = tt }

-- The second branch of `push`, where the last node is there to be linked.
push-linked :
    (fresh w : Ptr) (q : Queue) (h : Nodes) (t : Node)
    → q.head ≢ null
    → q.tail ≢ null
    → fresh ≢ q.tail
    → h q.tail ≡ some t
    → push fresh q w h
      ≡ some (
        record q { tail = fresh },
        write (write h fresh (some (node w null q.tail))) q.tail (some (record t { next = fresh })),
      )
unfolding push
push-linked fresh w q h t hd tl ne e = ground arith

-- `push` of a node that is not null and not in the queue succeeds, appends the payload and leaves
-- the nodes that are not in the queue.
pub push_refines :
    (fresh w : Ptr) (q : Queue) (h : Nodes) (xs : Cells)
    → fresh ≢ null
    → IsQueue h q xs
    → NotIn fresh xs
    → (q' : Queue) × (h' : Nodes) × (push fresh q w h ≡ some (q', h'))
      × IsQueue h' q' (xs ++ ((fresh, w) ∷ []))
      × (contents (xs ++ ((fresh, w) ∷ [])) ≡ Fifo.push (contents xs) w)
      × ((p : Ptr) → p ≢ fresh → NotIn p xs → h' p ≡ h p)
unfolding push
push_refines fresh w q h [] ne v n = (
  record { head = fresh; tail = fresh },
  write h fresh (some (node w null null)),
  ground (arith, v.head),
  record { head = refl; links = (ne, ground arith, refl); distinct = (tt, tt) },
  refl,
  λ p e out. ground arith,
)
push_refines fresh w q h ((a, u) ∷ xs) ne v n =
    let link = Linked-append fresh w ne h null q.tail a u xs v.links n v.distinct in
    let last : fresh ≢ q.tail = NotIn-last h fresh null a u q.tail xs n v.links in
    (
      record q { tail = fresh },
      appended fresh w ne h q.tail link.0,
      push-linked fresh w q h link.0 (λ e. v.links.0 (sym v.head ∙ e)) link.2 last link.1,
      record {
        head = v.head;
        links = link.3;
        distinct = Distinct-append fresh w ((a, u) ∷ xs) n v.distinct;
      },
      map-append payload ((a, u) ∷ xs) ((fresh, w) ∷ []),
      λ p e out.
          write_ne (write h fresh (some (node w null q.tail))) q.tail p
            (some (record (link.0) { next = fresh }))
            (NotIn-last h p null a u q.tail xs out v.links)
          ∙ write_ne h fresh p (some (node w null q.tail)) e,
    )

-- `pop` of a queue succeeds, returns the oldest payload, or null where there is none, leaves a queue
-- of the others in their order, and leaves the nodes that are not in the queue.
pub pop_refines :
    (q : Queue) (h : Nodes) (xs : Cells)
    → IsQueue h q xs
    → (q' : Queue) × (h' : Nodes) × (ys : Cells) × (pop q h
        ≡ some (Fifo.peek (contents xs), q', h'))
      × IsQueue h' q' ys
      × (contents ys ≡ (Fifo.pop (contents xs)).1)
      × ((p : Ptr) → NotIn p xs → h' p ≡ h p)
unfolding pop
pop_refines q h [] v = (q, h, [], ground (arith, v.head), v, refl, λ p out. refl)
pop_refines q h ((a, u) ∷ []) v = (
  record { head = null; tail = null },
  write h q.head none,
  [],
  ground (arith, v.head, v.links),
  record { head = refl; links = refl; distinct = tt },
  refl,
  λ p out. ground (arith, v.head),
)
pop_refines q h ((a, u) ∷ (b, w) ∷ xs) v =
    let first = write h b (some (node w (front xs) null)) in
    let rest : Linked (write first q.head none) b xs q.tail = rw v.head (
      Linked-write first a b q.tail none xs (v.distinct.0.1) (
        Linked-write h b b q.tail (some (node w (front xs) null)) xs (v.distinct.1.0)
          (v.links.2.2))) in
    (
      record q { head = b },
      write first q.head none,
      (b, w) ∷ xs,
      ground (arith, v.head, v.links, v.distinct),
      record {
        head = refl;
        links = (v.links.2.0, ground (arith, v.head, v.distinct), rest);
        distinct = v.distinct.1;
      },
      refl,
      λ p out. ground (arith, v.head),
    )

-- `peek` returns the payload that `pop` would, and changes nothing.
pub peek_refines :
    (q : Queue) (h : Nodes) (xs : Cells)
    → IsQueue h q xs
    → peek q h ≡ some (Fifo.peek (contents xs))
unfolding peek
peek_refines q h [] v = ground (arith, v.head)
peek_refines q h ((a, u) ∷ xs) v = ground (arith, v.head, v.links)
