-- ===== src/Queues/Remove.antt =====
-- kqueue_remove among all the queues.
use ittrium.Common.{
  ◌≡◌, ◌≢◌, ◌∙◌, sym, subst, Option, none, some, some_inj, List, ◌∷◌, ◌++◌, [], All, In, NotIn,
  All-drop, All-out, All-In, All-split, In-drop, In-middle, NotIn-append, NotIn-In, Distinct-split,
}
use ittrium.Node.{Node, node_discrete, update, update-same, update-other, update-elim}
use ittrium.KQueue.{Links, kqueue_remove}
use ittrium.KQueue.Chain.{All-last, All-first}
use ittrium.KQueue.Queue.{IsQueue}
use ittrium.KQueue.Remove.{entry-links, remove-Relinked, kqueue_remove-mem, remove-other}
use ittrium.Queues.Defs.{Queues, NotIn-queue}

module _ {h : Links} {own : Node → Option Node} {items : Node → List Node} (k : Queues h own items)
    (e q : Node) (xs ys : List Node) (head : own q ≡ some q) (here : items q ≡ xs ++ e ∷ ys) where
  abbrev own' : Node → Option Node
  own' = update own e none

  abbrev items' : Node → List Node
  items' = update items q (xs ++ ys)

  whole : IsQueue h q (xs ++ e ∷ ys)
  whole = subst (IsQueue h q) here (k.queue q head)

  members : All (λ x. own x ≡ some q) (xs ++ e ∷ ys)
  members = subst (All (λ x. own x ≡ some q)) here (k.owned q head)

  own'-other : (x : Node) → x ≢ e → own' x ≡ own x
  own'-other x n = update-other own e none x (λ s. n (sym s))

  own'-out : own' e ≡ none
  own'-out = update-same own e none

  -- What stands in a queue afterwards stood there before.
  before : (x r : Node) → own' x ≡ some r → (x ≢ e) × (own x ≡ some r)
  before x r o = elim (node_discrete x e) [
    | yes s ↦ cc (subst (λ y. own' y ≡ some r) s o, own'-out)
    | no n ↦ (n, sym (own'-other x n) ∙ o)
  ]

  entry-NotIn : NotIn e (xs ++ ys)
  entry-NotIn =
      let (dx, dy, mx, my, cross) = Distinct-split e xs ys whole.distinct.1 in
      NotIn-append e xs ys mx my

  kept :
      (r : Node) (zs : List Node)
      → NotIn e zs
      → All (λ x. own x ≡ some r) zs
      → All (λ x. own' x ≡ some r) zs
  kept r [] n t = tt
  kept r (z ∷ zs) n t = (own'-other z n.0 ∙ t.0, kept r zs n.1 t.1)

  pub neighbours : (own (h.prev e) ≡ some q) × (own (h.next e) ≡ some q)
  neighbours =
      let (p, n, ne, pe) = entry-links h e q xs ys whole in
      let (before, behind) = All-split (λ x. own x ≡ some q) xs (e ∷ ys) members in
      (
        rw p (All-last (λ x. own x ≡ some q) q xs head before),
        rw n (All-first (λ x. own x ≡ some q) q ys head behind.1),
      )

  IsQueue-other : (r : Node) → q ≢ r → own r ≡ some r → IsQueue (kqueue_remove e h) r (items r)
  IsQueue-other r n o =
      let (p, f, ne, pe) = entry-links h e q xs ys whole in
      remove-other h e r (items r) ne pe
        (NotIn-queue k r (h.prev e) o (λ s. n (some_inj (sym neighbours.0 ∙ s))))
        (NotIn-queue k r (h.next e) o (λ s. n (some_inj (sym neighbours.1 ∙ s)))) (k.queue r o)

  entry_self : (x : Node) → own' x ≡ some q → x ≢ q → In x (xs ++ ys)
  entry_self x o d =
      let (n, p) = before x q o in In-drop x e xs ys n (subst (In x) here (k.entry x q p d))

  e-out : (r : Node) → q ≢ r → own r ≡ some r → NotIn e (items r)
  e-out r n o =
      All-out (λ x. own x ≡ some r) e (items r)
        (λ s. n (some_inj (sym (All-In (λ x. own x ≡ some q) e _ members (In-middle e xs ys)) ∙ s)))
        (k.owned r o)

  pub member : own e ≡ some q
  member = All-In (λ x. own x ≡ some q) e _ members (In-middle e xs ys)

  no-head : q ≢ e
  no-head s =
      NotIn-In q (xs ++ e ∷ ys) whole.distinct.0
        (subst (λ y. In y (xs ++ e ∷ ys)) (sym s) (In-middle e xs ys))

  -- With several queues in one memory, kqueue_remove of an entry of q takes it out of q, keeps the
  -- order of the others, and leaves all the other queues as they are.
  pub remove-Queues : Queues (kqueue_remove e h) own' items'
  remove-Queues = record {
    queue = λ r o.
        update-elim (λ y l. own' y ≡ some y → IsQueue (kqueue_remove e h) y l) items q _ r
          (λ _. kqueue_remove-mem h e q xs ys whole) (λ n p. IsQueue-other r n (before r r p).1) o;
    owned = λ r o.
        update-elim (λ y l. own' y ≡ some y → All (λ x. own' x ≡ some y) l) items q _ r
          (λ _. kept q (xs ++ ys) entry-NotIn (All-drop (λ x. own x ≡ some q) e xs ys members))
          (λ n p. let o' = (before r r p).1 in kept r (items r) (e-out r n o') (k.owned r o')) o;
    entry = λ x r o d.
        update-elim (λ y l. own' x ≡ some y → x ≢ y → In x l) items q _ r (entry_self x)
          (λ n p m. k.entry x r (before x r p).1 m) o d;
    headed = λ x r o.
        let o' = k.headed x r (before x r o).1 in
        own'-other r (λ s. no-head (some_inj (sym member ∙ subst (λ y. own y ≡ some y) s o'))) ∙ o';
  }

  -- A node outside every queue keeps its link.
  pub remove-out : (z : Node) → own z ≡ none → (kqueue_remove e h).next z ≡ h.next z
  remove-out z o =
      let (_, _, ne, pe) = entry-links h e q xs ys whole in
      let (owned, _) = neighbours in
      (remove-Relinked h e ne pe).2 z (λ s. cc (subst (λ y. own y ≡ none) s o))
