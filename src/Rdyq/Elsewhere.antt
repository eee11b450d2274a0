-- ===== src/Rdyq/Elsewhere.antt =====
-- Changes to the queues that are not lines of the ready queue: the free lists, the timer queue and the
-- wait queues of the objects.
use mathlib.Core.Path.{fun_ext}
use ittrium.Common.{
  ℕ, ◌<◌, ◌≡◌, ◌≢◌, ◌∙◌, refl, sym, ap, subst, Option, none, some, some_inj, List, [], ◌∷◌, ◌++◌,
}
use ittrium.Node.{Node, priq, update, update-other, update-elim}
use ittrium.KQueue.{Links, kqueue_init, kqueue_insert, kqueue_remove}
use ittrium.Types.{Config, Kernel}
use ittrium.Queues.{
  Queues, insert-Queues, remove-Queues, insert-out, remove-out, init-Queues, self-Queues, init-out,
  member,
}
use ittrium.Rdyq.{on_links}
use ittrium.Rdyq.Ready.{IsReady, marks, mark}

module _ ⦃c : Config⦄ {s : Kernel} {own : Node → Option Node} {items : Node → List Node}
    (k : IsReady s own items) where
  -- What has to be shown when only links change, and no line.
  links-IsReady :
      (h : Links) (own' : Node → Option Node) (items' : Node → List Node)
      → Queues h own' items'
      → ((p : ℕ) → p < c.tmax_tpri → own' (priq p) ≡ some (priq p))
      → h.next (priq c.tmax_tpri) ≡ s.links.next (priq c.tmax_tpri)
      → own' (priq c.tmax_tpri) ≡ none
      → ((x : Node) (p : ℕ) → own' x ≡ some (priq p) → own x ≡ some (priq p))
      → ((p : ℕ) → items' (priq p) ≡ items (priq p))
      → IsReady (record s { links = h }) own' items'
  links-IsReady h own' items' q lines out loose before same =
      let m : marks items' ≡ marks items = fun_ext λ p. ap mark (same p) in
      record {
        queues = q;
        lines = lines;
        sentinel = out ∙ k.sentinel;
        loose = loose;
        tskpri = λ x p o n. k.tskpri x p (before x p o) n;
        marked = rw m k.marked;
        top = rw m k.top;
      }

  -- A loose entry joins the end of a queue that is not a line.
  pub insert-elsewhere :
      (e q : Node)
      → own e ≡ none
      → own q ≡ some q
      → e ≢ priq c.tmax_tpri
      → ((p : ℕ) → q ≢ priq p)
      → IsReady
          (on_links (kqueue_insert e q) s)
          (update own e (some q))
          (update items q (items q ++ e ∷ []))
  insert-elsewhere e q loose head out apart =
      links-IsReady (kqueue_insert e q s.links) (update own e (some q))
        (update items q (items q ++ e ∷ [])) (insert-Queues k.queues e q loose head)
        (λ p l.
          update-other own e (some q) (priq p)
            (λ n. cc (subst (λ y. own y ≡ none) n loose, k.lines p l))
          ∙ k.lines p l)
        (insert-out k.queues e q loose head (priq c.tmax_tpri) k.loose (λ n. out (sym n)))
        (update-other own e (some q) (priq c.tmax_tpri) out ∙ k.loose)
        (λ x p o.
          update-elim (λ y w. w ≡ some (priq p) → own y ≡ some (priq p)) own e (some q) x
            (λ f. absurd (apart p (some_inj f))) (λ _ f. f) o)
        (λ p. update-other items q (items q ++ e ∷ []) (priq p) (apart p))

  -- An entry leaves a queue that is not a line.
  pub remove-elsewhere :
      (e q : Node) (xs ys : List Node)
      → own q ≡ some q
      → items q ≡ xs ++ e ∷ ys
      → ((p : ℕ) → q ≢ priq p)
      → IsReady (on_links (kqueue_remove e) s) (update own e none) (update items q (xs ++ ys))
  remove-elsewhere e q xs ys head here apart =
      let m = member k.queues e q xs ys head here in
      links-IsReady (kqueue_remove e s.links) (update own e none) (update items q (xs ++ ys))
        (remove-Queues k.queues e q xs ys head here)
        (λ p l.
          update-other own e none (priq p) (λ n.
            apart p (some_inj (sym m ∙ subst (λ y. own y ≡ some (priq p)) (sym n) (k.lines p l))))
          ∙ k.lines p l)
        (remove-out k.queues e q xs ys head here (priq c.tmax_tpri) k.loose)
        (update-elim (λ y w. own y ≡ none → w ≡ none) own e none (priq c.tmax_tpri) (λ _. refl)
          (λ _ f. f) k.loose)
        (λ x p o.
          update-elim (λ y w. w ≡ some (priq p) → own y ≡ some (priq p)) own e none x (λ f. cc f)
            (λ _ f. f) o)
        (λ p. update-other items q (xs ++ ys) (priq p) (apart p))

  -- A loose node becomes the head of an empty queue.
  pub init-elsewhere :
      (q : Node)
      → own q ≡ none
      → ((p : ℕ) → q ≢ priq p)
      → IsReady (on_links (kqueue_init q) s) (update own q (some q)) (update items q [])
  init-elsewhere q loose apart =
      links-IsReady (kqueue_init q s.links) (update own q (some q)) (update items q [])
        (init-Queues k.queues q loose)
        (λ p l. update-other own q (some q) (priq p) (apart p) ∙ k.lines p l)
        (init-out s.links q (priq c.tmax_tpri) (λ n. apart c.tmax_tpri (sym n)))
        (update-other own q (some q) (priq c.tmax_tpri) (apart c.tmax_tpri) ∙ k.loose)
        (λ x p o.
          update-elim (λ y w. w ≡ some (priq p) → own y ≡ some (priq p)) own q (some q) x
            (λ f. absurd (apart p (some_inj f))) (λ _ f. f) o)
        (λ p. update-other items q [] (priq p) (apart p))

  -- A loose node is linked to itself, and stays loose.
  pub self-elsewhere :
      (q : Node)
      → own q ≡ none
      → q ≢ priq c.tmax_tpri
      → IsReady (on_links (kqueue_init q) s) own items
  self-elsewhere q loose out =
      links-IsReady (kqueue_init q s.links) own items (self-Queues k.queues q loose) k.lines
        (init-out s.links q (priq c.tmax_tpri) (λ n. out (sym n))) k.loose (λ _ _ o. o) (λ _. refl)
