-- ===== src/Task/Change.antt =====
-- task_change_pri and reschedule of kernel/task.c on a scheduled kernel.
use ittrium.Common.{
  ℕ, ◌<◌, ◌≡◌, ◌≢◌, refl, sym, ap, subst, Option, none, some, List, [], ◌∷◌, ◌++◌, Bool-cases, inl,
  inr,
}
use ittrium.Node.{Node, priq, update, update-same, update-elim}
use ittrium.Types.{Config, Kernel, Tcb}
use ittrium.Rdyq.{set_tcb, rdyq_top, rdyq_insert, rdyq_remove}
use ittrium.Rdyq.Ready.{IsReady}
use ittrium.Rdyq.Enqueue.{insert-parts}
use ittrium.Rdyq.Dequeue.{rdyq_remove-IsReady, member}
use ittrium.Task.{node_eq, task_change_pri, reschedule}
use ittrium.Task.Schedule.{IsScheduled, IsReady-same, insert-IsScheduled, node_eq-yes}

module _ ⦃c : Config⦄ where
  -- Any write to the block of a task that stands in no queue.
  pub loose-IsReady :
      (s : Kernel) (t : Node) (b : Tcb) {own : Node → Option Node} {items : Node → List Node}
      → own t ≡ none
      → IsReady s own items
      → IsReady (set_tcb t b s) own items
  loose-IsReady s t b {own} n k = record {
    queues = k.queues;
    lines = k.lines;
    sentinel = k.sentinel;
    loose = k.loose;
    tskpri = λ x r.
        update-elim (λ y w. own y ≡ some (priq r) → y ≢ priq r → w.tskpri ≡ r) s.tcb t b x
          (λ o _. cc) (λ _. k.tskpri x r);
    marked = k.marked;
    top = k.top;
  }

  pub reschedule-IsScheduled :
      (s : Kernel) {own : Node → Option Node} {items : Node → List Node}
      → IsReady s own items
      → IsScheduled (reschedule s) own items
  unfolding reschedule rdyq_top
  reschedule-IsScheduled s k = elim (Bool-cases (node_eq s.schedtsk (rdyq_top s))) [
    | inl e ↦ rw e (record { ready = k; sched = node_eq-yes _ _ e })
    | inr e ↦ rw e (record {
      ready = IsReady-same s (record s { schedtsk = rdyq_top s }) refl (λ _. refl) refl refl k;
      sched = refl;
    })
  ]

  -- If t stands in the line of its priority and both that and the new priority fit, task_change_pri
  -- moves t to the end of the line of the new priority, keeps the ready queue consistent and leaves
  -- schedtsk on the best ready task.
  pub task_change_pri-IsScheduled :
      {s : Kernel} {own : Node → Option Node} {items : Node → List Node}
      → IsScheduled s own items
      → (t : Node) (priority : ℕ) (xs ys : List Node) → (s.tcb t).tskpri < c.tmax_tpri
      → priority < c.tmax_tpri
      → items (priq (s.tcb t).tskpri) ≡ xs ++ t ∷ ys
      → let kept = update items (priq (s.tcb t).tskpri) (xs ++ ys) in
        IsScheduled
          (task_change_pri t priority s)
          (update (update own t none) t (some (priq priority)))
          (update kept (priq priority) (kept (priq priority) ++ t ∷ []))
  unfolding task_change_pri rdyq_top
  task_change_pri-IsScheduled {s} {own} {items} k t priority xs ys old new here =
      let r = rdyq_remove-IsReady k.ready t old xs ys here in
      let s1 = rdyq_remove t s in
      let b : Tcb = record (s1.tcb t) { tskpri = priority } in
      let s2 : Kernel = record (set_tcb t b s1) { schedtsk = rdyq_top (set_tcb t b s1) } in
      let out : update own t none t ≡ none = update-same own t none in
      let r2 =
        IsReady-same (set_tcb t b s1) s2 refl (λ _. refl) refl refl (loose-IsReady s1 t b out r) in
      let k2 : IsScheduled s2 _ _ = record { ready = r2; sched = refl } in
      let pri : (s2.tcb t).tskpri ≡ priority = ap (λ w. w.tskpri) (update-same s1.tcb t b) in
      let task : t ≢ priq c.tmax_tpri = λ e.
        cc (member k.ready t old xs ys here, subst (λ y. own y ≡ none) (sym e) k.ready.loose) in
      let fits = subst (λ p. p < c.tmax_tpri) (sym pri) new in
      let (_, tcb, _, _, _, sched) = insert-parts r2 t out task fits in
      let done = insert-IsScheduled k2 t out task fits in
      let kept = update items (priq (s.tcb t).tskpri) (xs ++ ys) in
      subst
        (λ p.
          IsScheduled (task_change_pri t priority s) (update (update own t none) t (some (priq p)))
            (update kept (priq p) (kept (priq p) ++ t ∷ [])))
        pri
        (elim (Bool-cases (rdyq_insert t s2).1) [
          | inl e ↦
              rw e
                (done (record (rdyq_insert t s2).0 { schedtsk = t }) refl tcb refl refl (rw e refl))
          | inr e ↦ rw e (done (rdyq_insert t s2).0 refl tcb refl refl (rw e sched))
        ])
