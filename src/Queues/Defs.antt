-- ===== src/Queues/Defs.antt =====
-- The invariant of the queues.
use ittrium.Common.{◌≡◌, ◌≢◌, subst, Option, some, List, ◌∷◌, All, In, NotIn, All-out}
use ittrium.Node.{Node}
use ittrium.KQueue.{Links}
use ittrium.KQueue.Queue.{IsQueue}

pub record Queues (h : Links) (own : Node → Option Node) (items : Node → List Node) : Type 0 where
  pub queue : (q : Node) → own q ≡ some q → IsQueue h q (items q)
  pub owned : (q : Node) → own q ≡ some q → All (λ x. own x ≡ some q) (items q)
  pub entry : (x q : Node) → own x ≡ some q → x ≢ q → In x (items q)
  pub headed : (x q : Node) → own x ≡ some q → own q ≡ some q

module _ {h : Links} {own : Node → Option Node} {items : Node → List Node}
    (k : Queues h own items) where
  -- An address that does not stand in the queue `q` is neither its head nor an entry.
  pub NotIn-queue : (q x : Node) → own q ≡ some q → own x ≢ some q → NotIn x (q ∷ items q)
  NotIn-queue q x o n = (
    (λ e. n (subst (λ y. own y ≡ some q) e o)),
    All-out (λ y. own y ≡ some q) x (items q) n (k.owned q o),
  )
