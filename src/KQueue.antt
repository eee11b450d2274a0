-- ===== src/KQueue.antt =====
-- kernel/kqueue.h: the circular doubly linked queues of the kernel, on explicit memory. `Links` is the
-- `next` and `prev` member of every KQUEUE; each function writes the members that the C code writes, in
-- its order. The removed entry keeps its own links, as in the C code.
pub mod Chain
pub mod Queue
pub mod Remove
use ittrium.Common.{◌≡◌, refl, Bool, true, false, ite, ℕ}
use ittrium.Node.{Node, qnode, priq, node_discrete, update}

pub record Links : Type 0 where
  pub next : Node → Node
  pub prev : Node → Node

abbrev pub set_next : Node → Node → Links → Links
set_next a v h = record h { next = update h.next a v }

abbrev pub set_prev : Node → Node → Links → Links
set_prev a v h = record h { prev = update h.prev a v }

unfoldable pub kqueue_init : Node → Links → Links
kqueue_init queue h = set_prev queue queue (set_next queue queue h)

unfoldable pub kqueue_insert : Node → Node → Links → Links
kqueue_insert entry queue h =
    let h1 = set_prev entry (h.prev queue) h in
    let h2 = set_next entry queue h1 in
    let h3 = set_next (h2.prev queue) entry h2 in set_prev queue entry h3

unfoldable pub kqueue_remove : Node → Links → Links
kqueue_remove entry h = ite (node_discrete (h.next entry) entry) h (
    let h1 = set_next (h.prev entry) (h.next entry) h in
    set_prev (h1.next entry) (h1.prev entry) h1)

-- The entry that was removed, with the memory after it.
unfoldable pub kqueue_remove_next : Node → Links → Node × Links
kqueue_remove_next queue h =
    let entry = h.next queue in
    let h1 = set_next queue (h.next entry) h in (entry, set_prev (h1.next entry) queue h1)

unfoldable pub kqueue_empty : Node → Links → Bool
kqueue_empty queue h = ite (node_discrete (h.next queue) queue) true false
