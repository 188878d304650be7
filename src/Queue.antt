-- ===== src/Queue.antt =====
-- The queue of kernel/queue.c: a doubly linked list of nodes on the kernel's heap. `push` takes the
-- node that halloc.malloc returned; the heap is a function from addresses to the nodes in use.
pub mod Fifo
pub mod Chain
pub mod Refine
mod Tests
use semester_5_coursework.Prelude.{ℕ, Option, none, some, ◌==◌, if◌then◌else◌}

abbrev pub Ptr : Type 0
Ptr = ℕ

abbrev pub null : Ptr
null = 0

-- `queue_node_t`
pub record Node : Type 0 where
  pub payload : Ptr
  pub next : Ptr
  pub prev : Ptr

abbrev pub node : Ptr → Ptr → Ptr → Node
node v n p = record { payload = v; next = n; prev = p }

-- The fields of `queue_t` that change; its three function pointers are those of `queue_init`.
pub record Queue : Type 0 where
  pub head : Ptr
  pub tail : Ptr

abbrev pub Nodes : Type 0
Nodes = Ptr → Option Node

abbrev pub write : Nodes → Ptr → Option Node → Nodes
write h p c a = if a == p then c else h a

-- A read through the null pointer, or of a freed node, is a fault: `none`.
abbrev pub load : Nodes → Ptr → Option Node
load h p = if p == null then none else h p

infixl 5 ◌>>=◌
abbrev pub ◌>>=◌ : {A B : Type 0} → Option A → (A → Option B) → Option B
none >>= f = none
some a >>= f = f a

unfoldable pub queue_init : Queue
queue_init = record { head = null; tail = null }

unfoldable pub push : (fresh : Ptr) → Queue → Ptr → Nodes → Option (Queue × Nodes)
push fresh q payload h =
    if q.head == null
    then some (record { head = fresh; tail = fresh }, write h fresh (some (node payload null null)))
    else do
      let h' = write h fresh (some (node payload null q.tail))
      t ← load h' q.tail
      some (record q { tail = fresh }, write h' q.tail (some (record t { next = fresh })))

-- The write to `queue->head->prev`, when the queue has a second node.
unlink_head : Ptr → Nodes → Option Nodes
unlink_head p h = do n ← load h p; some (write h p (some (record n { prev = null })))

unfoldable pub pop : Queue → Nodes → Option (Ptr × Queue × Nodes)
unfolding unlink_head
pop q h = if q.head == null then some (null, q, h) else do
  n ← load h q.head
  if n.next == null
      then some (n.payload, record { head = null; tail = null }, write h q.head none)
      else do
        h' ← unlink_head n.next h
        some (n.payload, record q { head = n.next }, write h' q.head none)

unfoldable pub peek : Queue → Nodes → Option Ptr
peek q h = if q.head == null then some null else do n ← load h q.head; some n.payload
