-- ===== src/Task/Rotate.antt =====
-- The rotation of a line, rdyq_rotate of kernel/rdyq.h with the reschedule of kernel/task.c.
use mathlib.Core.Path.{fun_ext}
use ittrium.Common.{
  ℕ, ◌<◌, ◌≡◌, ◌≢◌, ◌∙◌, refl, sym, ap, subst, arith, Option, none, some, List, [], ◌∷◌, ◌++◌, All,
}
use ittrium.Node.{Node, priq, update, update-same, update-other, update-update, update-id}
use ittrium.KQueue.{Links, kqueue_insert, kqueue_remove}
use ittrium.KQueue.Queue.{IsQueue}
use ittrium.KQueue.Remove.{kqueue_empty-nil, kqueue_empty-cons, kqueue_remove_next-remove}
use ittrium.Types.{Config, Kernel}
use ittrium.Queues.{Queues, insert-Queues, remove-Queues, insert-out, remove-out}
use ittrium.Rdyq.{rdyq_rotate}
use ittrium.Rdyq.Ready.{IsReady, marks, marks-update, mark}
use ittrium.Rdyq.Dequeue.{mark-middle}
use ittrium.Task.{rdyq_rotate_at}
use ittrium.Task.Schedule.{IsScheduled}
use ittrium.Task.Change.{reschedule-IsScheduled}

-- The first entry of a line goes to its end.
abbrev pub rotated : List Node → List Node
rotated [] = []
rotated (x ∷ xs) = xs ++ x ∷ []

module _ ⦃c : Config⦄ {s : Kernel} {own : Node → Option Node} {items : Node → List Node}
    (k : IsReady s own items) (p : ℕ) (fits : p < c.tmax_tpri) where
  rotate-nil : items (priq p) ≡ [] → rdyq_rotate p s ≡ s
  unfolding rdyq_rotate
  rotate-nil e = rw (
      kqueue_empty-nil s.links (priq p)
        (subst (IsQueue s.links (priq p)) e (k.queues.queue (priq p) (k.lines p fits))))

  module _ (x : Node) (xs : List Node) (line : items (priq p) ≡ x ∷ xs) where
    head : own (priq p) ≡ some (priq p)
    head = k.lines p fits

    whole : IsQueue s.links (priq p) (x ∷ xs)
    whole = subst (IsQueue s.links (priq p)) line (k.queues.queue (priq p) head)

    member : own x ≡ some (priq p)
    member = (subst (All (λ y. own y ≡ some (priq p))) line (k.queues.owned (priq p) head)).0

    -- The links after the rotation.
    turned : Links
    turned = kqueue_insert x (priq p) (kqueue_remove x s.links)

    rotate-links : rdyq_rotate p s ≡ record s { links = turned }
    unfolding rdyq_rotate turned
    rotate-links = rw (
      kqueue_empty-cons s.links (priq p) x xs whole,
      kqueue_remove_next-remove s.links (priq p) x xs whole,
    )

    kept-head : update own x none (priq p) ≡ some (priq p)
    kept-head = update-other own x none (priq p) whole.distinct.0.0 ∙ head

    taken : Queues (kqueue_remove x s.links) (update own x none) (update items (priq p) xs)
    taken = remove-Queues k.queues x (priq p) [] xs head line

    turned-Queues : Queues turned own (update items (priq p) (xs ++ x ∷ []))
    unfolding turned
    turned-Queues =
        let q = insert-Queues taken x (priq p) (update-same own x none) kept-head in
        let o = update-update own x none (some (priq p)) ∙ update-id own x (some (priq p)) member in
        let i =
          ap (λ l. update (update items (priq p) xs) (priq p) (l ++ x ∷ []))
            (update-same items (priq p) xs)
          ∙ update-update items (priq p) xs (xs ++ x ∷ []) in
        subst (λ f. Queues turned f (update items (priq p) (xs ++ x ∷ []))) o
          (subst (Queues turned (update (update own x none) x (some (priq p)))) i q)

    outside : (z : Node) → own z ≡ none → turned.next z ≡ s.links.next z
    unfolding turned
    outside z o =
        let n : z ≢ x = λ e. cc (member, subst (λ y. own y ≡ none) e o) in
        insert-out taken x (priq p) (update-same own x none) kept-head z
          (update-other own x none z (λ e. n (sym e)) ∙ o) n
        ∙ remove-out k.queues x (priq p) [] xs head line z o

    same-marks : marks (update items (priq p) (xs ++ x ∷ [])) ≡ marks items
    same-marks =
        marks-update items p (xs ++ x ∷ [])
        ∙ fun_ext (λ r.
          let m : marks items p ≡ 1 = ap mark line in
          let n : mark (xs ++ x ∷ []) ≡ 1 = mark-middle xs [] x in ground arith)

    rotate-cons : IsReady (rdyq_rotate p s) own (update items (priq p) (xs ++ x ∷ []))
    rotate-cons = rw rotate-links (record {
      queues = turned-Queues;
      lines = k.lines;
      sentinel = outside (priq c.tmax_tpri) k.loose ∙ k.sentinel;
      loose = k.loose;
      tskpri = k.tskpri;
      marked = rw same-marks k.marked;
      top = rw same-marks k.top;
    })

  -- On a consistent ready queue and a priority that fits, rdyq_rotate_at moves the first task of
  -- that line, if any, to its end, keeps the ready queue consistent and leaves schedtsk on the best
  -- ready task.
  pub rdyq_rotate_at-IsScheduled :
      IsScheduled (rdyq_rotate_at p s) own (update items (priq p) (rotated (items (priq p))))
  unfolding rdyq_rotate_at
  rdyq_rotate_at-IsScheduled =
      reschedule-IsScheduled (rdyq_rotate p s) (split (items (priq p)) refl)
    where
      split :
          (l : List Node)
          → items (priq p) ≡ l
          → IsReady (rdyq_rotate p s) own (update items (priq p) (rotated l))
      split [] e = rw (rotate-nil e, update-id items (priq p) [] e) k
      split (x ∷ xs) e = rotate-cons x xs e
