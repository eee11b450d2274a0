-- ===== src/Queues/Insert.antt =====
-- kqueue_insert among all the queues.
use ittrium.Common.{
  ◌≡◌, ◌≢◌, ◌∙◌, sym, subst, Option, none, some, some_inj, List, [], ◌∷◌, ◌++◌, All, In, All-map,
  All-append, In-append_left, In-middle,
}
use ittrium.Node.{Node, node_discrete, update, update-same, update-other, update-elim}
use ittrium.KQueue.{Links, kqueue_insert}
use ittrium.KQueue.Chain.{prev-Chain, All-last}
use ittrium.KQueue.Queue.{IsQueue, Off, insert-same, kqueue_insert-append, insert-other}
use ittrium.Queues.Defs.{Queues, NotIn-queue}

module _ {h : Links} {own : Node → Option Node} {items : Node → List Node} (k : Queues h own items)
    (e q : Node) (loose : own e ≡ none) (head : own q ≡ some q) where
  abbrev own' : Node → Option Node
  own' = update own e (some q)

  abbrev items' : Node → List Node
  items' = update items q (items q ++ e ∷ [])

  e≢q : e ≢ q
  e≢q r = cc (subst (λ x. own x ≡ none) r loose)

  own'-other : (x : Node) → x ≢ e → own' x ≡ own x
  own'-other x n = update-other own e (some q) x (λ s. n (sym s))

  own'-new : own' e ≡ some q
  own'-new = update-same own e (some q)

  -- What stands in another queue than `e` stands there still.
  grow : (x r : Node) → own x ≡ some r → own' x ≡ some r
  grow x r o = own'-other x (λ s. cc (subst (λ y. own y ≡ some r) s o)) ∙ o

  -- A head is a head as before.
  head' : (r : Node) → own' r ≡ some r → own r ≡ some r
  head' r o = elim (node_discrete r e) [
    | yes s ↦ absurd (e≢q (some_inj (sym (subst (λ y. own' y ≡ some y) s o) ∙ own'-new)))
    | no n ↦ sym (own'-other r n) ∙ o
  ]

  pub last-owned : own (h.prev q) ≡ some q
  last-owned =
      rw (prev-Chain h q q (items q) (k.queue q head).chain)
        (All-last (λ x. own x ≡ some q) q (items q) head (k.owned q head))

  apart : (x y r : Node) → r ≢ q → own x ≡ some r → own y ≡ some q → x ≢ y
  apart x y r n o p s = n (some_inj (sym (subst (λ z. own z ≡ some r) s o) ∙ p))

  off : (r : Node) → r ≢ q → (x : Node) → own x ≡ some r → Off h e q x
  off r n x o = (
    (λ s. cc (subst (λ y. own y ≡ some r) s o)),
    apart x q r n o head,
    apart x (h.prev q) r n o last-owned,
  )

  IsQueue-other : (r : Node) → r ≢ q → own r ≡ some r → IsQueue (kqueue_insert e q h) r (items r)
  IsQueue-other r n o =
      insert-other h e q r (items r)
        (off r n r o, All-map _ (Off h e q) (items r) (off r n) (k.owned r o)) (k.queue r o)

  IsQueue-self : IsQueue (kqueue_insert e q h) q (items q ++ e ∷ [])
  IsQueue-self =
      kqueue_insert-append h e q (items q) (NotIn-queue k q e head (λ s. cc)) (k.queue q head)

  kept : (r : Node) → own r ≡ some r → All (λ x. own' x ≡ some r) (items r)
  kept r o = All-map _ _ (items r) (λ x p. grow x r p) (k.owned r o)

  entry_self : (x : Node) → own' x ≡ some q → x ≢ q → In x (items q ++ e ∷ [])
  entry_self x o d = elim (node_discrete x e) [
    | yes s ↦ subst (λ y. In y (items q ++ e ∷ [])) (sym s) (In-middle e (items q) [])
    | no n ↦ In-append_left x (items q) (e ∷ []) (k.entry x q (sym (own'-other x n) ∙ o) d)
  ]

  entry_other : (x r : Node) → q ≢ r → own' x ≡ some r → x ≢ r → In x (items r)
  entry_other x r n o d = elim (node_discrete x e) [
    | yes s ↦ absurd (n (some_inj (sym own'-new ∙ subst (λ y. own' y ≡ some r) s o)))
    | no m ↦ k.entry x r (sym (own'-other x m) ∙ o) d
  ]

  -- With several queues in one memory, if e stands in none of them, kqueue_insert of e before the
  -- head of q appends e to q and leaves all the other queues as they are.
  pub insert-Queues : Queues (kqueue_insert e q h) own' items'
  insert-Queues = record {
    queue = λ r o.
        update-elim (λ y l. own' y ≡ some y → IsQueue (kqueue_insert e q h) y l) items q _ r
          (λ _. IsQueue-self) (λ n p. IsQueue-other r (λ s. n (sym s)) (head' r p)) o;
    owned = λ r o.
        update-elim (λ y l. own' y ≡ some y → All (λ x. own' x ≡ some y) l) items q _ r
          (λ _. All-append _ (items q) (e ∷ []) (kept q head) (own'-new, tt))
          (λ n p. kept r (head' r p)) o;
    entry = λ x r o d.
        update-elim (λ y l. own' x ≡ some y → x ≢ y → In x l) items q _ r (entry_self x)
          (entry_other x r) o d;
    headed = λ x r o.
        update-elim (λ y w. w ≡ some r → own' r ≡ some r) own e (some q) x
          (λ f. subst (λ y. own' y ≡ some y) (some_inj f) (grow q q head))
          (λ _ f. grow r r (k.headed x r f)) o;
  }

  -- A node outside every queue keeps its link.
  pub insert-out : (z : Node) → own z ≡ none → z ≢ e → (kqueue_insert e q h).next z ≡ h.next z
  insert-out z o n =
      (insert-same h e q (z ∷ []) ((n, apart-none head, apart-none last-owned), tt)).0.0
    where
      apart-none : {x : Node} → own x ≡ some q → z ≢ x
      apart-none p s = cc (subst (λ y. own y ≡ none) s o)
