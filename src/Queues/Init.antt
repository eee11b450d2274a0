-- ===== src/Queues/Init.antt =====
-- kqueue_init among all the queues.
use ittrium.Common.{
  ◌≡◌, ◌≢◌, ◌∙◌, sym, subst, Option, none, some, some_inj, List, [], ◌∷◌, All, All-map, In, NotIn,
}
use ittrium.Node.{Node, update, update-same, update-other, update-elim}
use ittrium.KQueue.{Links, kqueue_init}
use ittrium.KQueue.Chain.{frame}
use ittrium.KQueue.Queue.{IsQueue}
use ittrium.KQueue.Remove.{kqueue_init-IsQueue}
use ittrium.Queues.Defs.{Queues, NotIn-queue}

pub init-out : (h : Links) (q z : Node) → z ≢ q → (kqueue_init q h).next z ≡ h.next z
unfolding kqueue_init
init-out h q z n = update-other h.next q q z (λ e. n (sym e))

init-prev : (h : Links) (q z : Node) → z ≢ q → (kqueue_init q h).prev z ≡ h.prev z
unfolding kqueue_init
init-prev h q z n = update-other h.prev q q z (λ e. n (sym e))

init-same :
    (h : Links) (q : Node) (xs : List Node)
    → NotIn q xs
    → All (λ x. ((kqueue_init q h).next x ≡ h.next x) × ((kqueue_init q h).prev x ≡ h.prev x)) xs
init-same h q [] n = tt
init-same h q (x ∷ xs) n = ((init-out h q x n.0, init-prev h q x n.0), init-same h q xs n.1)

module _ {h : Links} {own : Node → Option Node} {items : Node → List Node} (k : Queues h own items)
    (q : Node) (loose : own q ≡ none) where
  apart : (x r : Node) → own x ≡ some r → q ≢ x
  apart x r o e = cc (subst (λ y. own y ≡ none) e loose)

  -- What stands in a queue other than `q` stood there before.
  before : (x r : Node) → q ≢ r → update own q (some q) x ≡ some r → own x ≡ some r
  before x r n o =
      update-elim (λ y w. w ≡ some r → own y ≡ some r) own q (some q) x
        (λ f. absurd (n (some_inj f))) (λ _ f. f) o

  kept : (x r : Node) → own x ≡ some r → update own q (some q) x ≡ some r
  kept x r o = update-other own q (some q) x (apart x r o) ∙ o

  IsQueue-other : (r : Node) → own r ≡ some r → IsQueue (kqueue_init q h) r (items r)
  IsQueue-other r o =
      let i = k.queue r o in
      let out : NotIn q (r ∷ items r) = NotIn-queue k r q o (λ f. cc (loose, f)) in
      let same = init-same h q (r ∷ items r) out in
      record {
        chain = frame h (kqueue_init q h) r r (items r) same.0.0 same.0.1 same.1 i.chain;
        distinct = i.distinct;
      }

  -- A loose node becomes the head of an empty queue.
  pub init-Queues : Queues (kqueue_init q h) (update own q (some q)) (update items q [])
  init-Queues = record {
    queue = λ r o.
        update-elim (λ y l. update own q (some q) y ≡ some y → IsQueue (kqueue_init q h) y l) items
          q [] r (λ _. kqueue_init-IsQueue h q) (λ n f. IsQueue-other r (before r r n f)) o;
    owned = λ r o.
        update-elim
          (λ y l. update own q (some q) y ≡ some y → All (λ x. update own q (some q) x ≡ some y) l)
          items q [] r (λ _. tt)
          (λ n f. All-map _ _ (items r) (λ x. kept x r) (k.owned r (before r r n f))) o;
    entry = λ x r o d.
        update-elim (λ y l. update own q (some q) x ≡ some y → x ≢ y → In x l) items q [] r
          (λ f m. absurd (nothing x f m)) (λ n f m. k.entry x r (before x r n f) m) o d;
    headed = λ x r o.
        update-elim (λ y w. w ≡ some r → update own q (some q) r ≡ some r) own q (some q) x
          (λ f.
            subst (λ y. update own q (some q) y ≡ some y) (some_inj f) (update-same own q (some q)))
          (λ _ f. kept r r (k.headed x r f)) o;
  }
    where
      nothing : (x : Node) → update own q (some q) x ≡ some q → x ≢ q → ⊥
      nothing x f m =
          let o : own x ≡ some q = sym (update-other own q (some q) x (λ e. m (sym e))) ∙ f in
          cc (loose, k.headed x q o)

  -- A loose node linked to itself is loose still.
  pub self-Queues : Queues (kqueue_init q h) own items
  self-Queues = record {
    queue = λ r o. IsQueue-other r o;
    owned = k.owned;
    entry = k.entry;
    headed = k.headed;
  }
