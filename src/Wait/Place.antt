-- ===== src/Wait/Place.antt =====
-- Where an entry stands when kqueue_remove of kernel/kqueue.h takes it out of a queue that is not a
-- line of the ready queue: in the queue, or linked to itself as kqueue_init leaves it.
use mathlib.Core.Path.{fun_ext}
use ittrium.Common.{ℕ, ◌≡◌, ◌≢◌, ◌∙◌, refl, sym, ap, subst, Option, none, some, List, ◌∷◌, ◌++◌}
use ittrium.Node.{Node, priq, update, update-other, update-elim}
use ittrium.KQueue.{Links, kqueue_remove}
use ittrium.KQueue.Remove.{kqueue_remove_self}
use ittrium.Types.{Config, Kernel}
use ittrium.Queues.{Queues, member}
use ittrium.Rdyq.{on_links}
use ittrium.Rdyq.Ready.{IsReady}
use ittrium.Rdyq.Top.{best, rdyq_top-best}
use ittrium.Rdyq.Elsewhere.{remove-elsewhere}
use ittrium.Task.Schedule.{IsScheduled}

-- The entry `x` is linked to itself, or stands between `before` and `behind` in a queue.
pub data Place (h : Links) (own : Node → Option Node) (items : Node → List Node) (x : Node)
    : Type 0 where
  alone : own x ≡ none → h.next x ≡ x → Place h own items x
  within :
      (q : Node) (before behind : List Node)
      → own q ≡ some q
      → items q ≡ before ++ x ∷ behind
      → ((p : ℕ) → q ≢ priq p)
      → Place h own items x

-- The entries of the queues once it is out.
abbrev pub without :
    {h : Links} {own : Node → Option Node} {items : Node → List Node} {x : Node}
    → Place h own items x
    → Node
    → List Node
without {items} (Place.alone _ _) = items
without {items} (Place.within q before behind _ _ _) = update items q (before ++ behind)

none-id : (own : Node → Option Node) (x : Node) → own x ≡ none → update own x none ≡ own
none-id own x e = fun_ext λ y. update-elim (λ z w. w ≡ own z) own x none y (sym e) (λ _. refl)

-- The lines are the same after it.
pub without-line :
    {h : Links} {own : Node → Option Node} {items : Node → List Node} {x : Node}
    (w : Place h own items x) (p : ℕ)
    → without w (priq p) ≡ items (priq p)
without-line (Place.alone _ _) p = refl
without-line {items} (Place.within q before behind _ _ n) p =
    update-other items q (before ++ behind) (priq p) (n p)

module _ ⦃c : Config⦄ where
  best-lines :
      (items items' : Node → List Node) (r : ℕ)
      → ((p : ℕ) → items' (priq p) ≡ items (priq p))
      → best items' r ≡ best items r
  best-lines items items' r same = rw (same r)

module _ ⦃c : Config⦄ {s : Kernel} {own : Node → Option Node} {items : Node → List Node} where
  -- What does not touch the lines does not change the scheduled task.
  pub elsewhere-IsScheduled :
      IsScheduled s own items
      → (s' : Kernel) {own' : Node → Option Node} {items' : Node → List Node}
      → IsReady s' own' items'
      → s'.schedtsk ≡ s.schedtsk
      → s'.top_priority ≡ s.top_priority
      → ((p : ℕ) → items' (priq p) ≡ items (priq p))
      → IsScheduled s' own' items'
  elsewhere-IsScheduled k s' {own'} {items'} r d t same = record {
    ready = r;
    sched =
        d
        ∙ k.sched
        ∙ rdyq_top-best k.ready
        ∙ sym (rdyq_top-best r ∙ ap (best items') t ∙ best-lines items items' s.top_priority same);
  }

  -- Taking the entry out.
  pub remove-IsScheduled :
      IsScheduled s own items
      → (x : Node) (w : Place s.links own items x)
      → IsScheduled (on_links (kqueue_remove x) s) (update own x none) (without w)
  remove-IsScheduled k x (Place.alone o e) =
      subst (λ f. IsScheduled (on_links (kqueue_remove x) s) f items) (sym (none-id own x o))
        (subst (λ h. IsScheduled (record s { links = h }) own items)
          (sym (kqueue_remove_self s.links x e)) k)
  remove-IsScheduled k x (Place.within q before behind head here apart) =
      elsewhere-IsScheduled k (on_links (kqueue_remove x) s)
        (remove-elsewhere k.ready x q before behind head here apart) refl refl
        (λ p. update-other items q (before ++ behind) (priq p) (apart p))

module _ {h : Links} {own : Node → Option Node} {items : Node → List Node}
    (k : Queues h own items) where
  -- An entry of another queue stays in its place when `e` is taken out.
  pub within-after :
      (e q : Node) (w : Place h own items e)
      → own q ≡ some q
      → own e ≢ some q
      → (update own e none q ≡ some q) × (without w q ≡ items q)
  within-after e q (Place.alone o s) head n = (
    update-other own e none q (λ r. cc (subst (λ y. own y ≡ some q) (sym r) head, o)) ∙ head,
    refl,
  )
  within-after e q (Place.within r before behind headr here apart) head n =
      let m = member k e r before behind headr here in
      (
        update-other own e none q (λ f. n (subst (λ y. own y ≡ some q) (sym f) head)) ∙ head,
        update-other items r (before ++ behind) q (λ f. n (subst (λ y. own e ≡ some y) f m)),
      )
