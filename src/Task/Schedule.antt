-- ===== src/Task/Schedule.antt =====
-- task_make_ready and task_make_unready of kernel/task.c, and what it is that a kernel is scheduled.
use ittrium.Common.{
  ◌<◌, ◌≡◌, ◌≢◌, ◌∙◌, refl, sym, ap, subst, arith, true, false, Option, none, some, List, [], ◌∷◌,
  ◌++◌, ltb, if◌then◌else◌, Bool-cases, inl, inr,
}
use ittrium.Node.{Node, priq, update, update-same, update-elim}
use ittrium.Types.{Config, Kernel, Tcb, Stat}
use ittrium.Rdyq.{set_tcb, rdyq_top, rdyq_insert, rdyq_remove, line_emptied, rdyq_bitmap_clear}
use ittrium.Rdyq.Ready.{IsReady}
use ittrium.Rdyq.Enqueue.{rdyq_insert-IsReady, insert-parts}
use ittrium.Rdyq.Dequeue.{rdyq_remove-IsReady}
use ittrium.Rdyq.Top.{best, rdyq_top-best, best-append, best-drop, IsBest, best-IsBest}
use ittrium.Task.{node_eq, task_make_ready, task_make_unready}

pub node_eq-yes : (a b : Node) → node_eq a b ≡ true → a ≡ b
node_eq-yes a b e = ground arith

pub node_eq-no : (a b : Node) → node_eq a b ≡ false → a ≢ b
node_eq-no a b e = ground arith

module _ ⦃c : Config⦄ where
  -- The ready queue is consistent, and `schedtsk` is its best task.
  pub record IsScheduled (s : Kernel) (own : Node → Option Node) (items : Node → List Node)
      : Type 0 where
    pub ready : IsReady s own items
    pub sched : s.schedtsk ≡ rdyq_top s

  -- Only the links, the bitmap, `top_priority` and the tasks' priorities matter to the ready queue.
  pub IsReady-same :
      (s s' : Kernel) {own : Node → Option Node} {items : Node → List Node}
      → s'.links ≡ s.links
      → ((x : Node) → (s'.tcb x).tskpri ≡ (s.tcb x).tskpri)
      → s'.bitmap ≡ s.bitmap
      → s'.top_priority ≡ s.top_priority
      → IsReady s own items
      → IsReady s' own items
  IsReady-same s s' l t b p k = record {
    queues = rw l k.queues;
    lines = k.lines;
    sentinel = rw l k.sentinel;
    loose = k.loose;
    tskpri = λ x r o n. t x ∙ k.tskpri x r o n;
    marked = rw b k.marked;
    top = rw p k.top;
  }

  -- A write to a task block that leaves its priority alone.
  pub set_tcb-IsReady :
      (s : Kernel) (t : Node) (b : Tcb) {own : Node → Option Node} {items : Node → List Node}
      → b.tskpri ≡ (s.tcb t).tskpri
      → IsReady s own items
      → IsReady (set_tcb t b s) own items
  set_tcb-IsReady s t b e k =
      IsReady-same s (set_tcb t b s) refl
        (λ x. update-elim (λ y w. w.tskpri ≡ (s.tcb y).tskpri) s.tcb t b x e (λ _. refl)) refl refl
        k

  remove-schedtsk : (t : Node) (s : Kernel) → (rdyq_remove t s).schedtsk ≡ s.schedtsk
  unfolding rdyq_remove line_emptied rdyq_bitmap_clear
  remove-schedtsk t s = ground arith

  pub remove-tcb : (t : Node) (s : Kernel) → (rdyq_remove t s).tcb ≡ s.tcb
  unfolding rdyq_remove line_emptied rdyq_bitmap_clear
  remove-tcb t s = ground arith

  -- The best ready task is what scheduling promises.
  pub schedtsk-IsBest :
      {s : Kernel} {own : Node → Option Node} {items : Node → List Node}
      → IsScheduled s own items
      → IsBest items s.schedtsk
  schedtsk-IsBest {s} {items} k =
      subst (IsBest items) (sym (k.sched ∙ rdyq_top-best k.ready))
        (best-IsBest items s.top_priority k.ready.top)

  module _ {s : Kernel} {own : Node → Option Node} {items : Node → List Node} where
    -- The insertion of a loose task, with the assignment of `schedtsk` that follows it.
    pub insert-IsScheduled :
        IsScheduled s own items
        → (t : Node) → own t ≡ none
        → t ≢ priq c.tmax_tpri
        → (s.tcb t).tskpri < c.tmax_tpri
        → (s' : Kernel) → s'.links ≡ (rdyq_insert t s).0.links
        → s'.tcb ≡ s.tcb
        → s'.bitmap ≡ (rdyq_insert t s).0.bitmap
        → s'.top_priority ≡ (rdyq_insert t s).0.top_priority
        → s'.schedtsk ≡ (if (rdyq_insert t s).1 then t else s.schedtsk)
        → IsScheduled s'
            (update own t (some (priq (s.tcb t).tskpri)))
            (update items (priq (s.tcb t).tskpri) (items (priq (s.tcb t).tskpri) ++ t ∷ []))
    insert-IsScheduled k t loose task fits s' l b m p d =
        let (_, tcb, _, top, first, _) = insert-parts k.ready t loose task fits in
        let r =
          IsReady-same (rdyq_insert t s).0 s' l (λ x. ap (λ f. (f x).tskpri) (b ∙ sym tcb)) m p
            (rdyq_insert-IsReady k.ready t loose task fits) in
        record {
          ready = r;
          sched =
              d
              ∙ rw first (
                  ap (λ x. if ltb (s.tcb t).tskpri s.top_priority then t else x)
                    (k.sched ∙ rdyq_top-best k.ready))
              ∙ sym (
                  rdyq_top-best r
                  ∙ ap
                      (best (
                        update items (priq (s.tcb t).tskpri)
                          (items (priq (s.tcb t).tskpri) ++ t ∷ [])))
                      (p ∙ top)
                  ∙ best-append items t (s.tcb t).tskpri s.top_priority fits k.ready.top);
        }

  -- A write to a task block that leaves its priority alone keeps the schedule.
  pub set_tcb-IsScheduled :
      (s : Kernel) (t : Node) (b : Tcb) {own : Node → Option Node} {items : Node → List Node}
      → b.tskpri ≡ (s.tcb t).tskpri
      → IsScheduled s own items
      → IsScheduled (set_tcb t b s) own items
  unfolding rdyq_top
  set_tcb-IsScheduled s t b e k = record {
    ready = set_tcb-IsReady s t b e k.ready;
    sched = k.sched;
  }

  module _ {s : Kernel} {own : Node → Option Node} {items : Node → List Node}
      (k : IsScheduled s own items) (t : Node) where
    -- If t stands in no queue, is not the address behind the last line and its priority fits,
    -- task_make_ready appends t to the line of its priority, keeps the ready queue consistent and
    -- leaves schedtsk on the best ready task.
    pub task_make_ready-IsScheduled :
        own t ≡ none
        → t ≢ priq c.tmax_tpri
        → (s.tcb t).tskpri < c.tmax_tpri
        → IsScheduled
            (task_make_ready t s)
            (update own t (some (priq (s.tcb t).tskpri)))
            (update items (priq (s.tcb t).tskpri) (items (priq (s.tcb t).tskpri) ++ t ∷ []))
    unfolding task_make_ready
    task_make_ready-IsScheduled loose task fits =
        let s0 : Kernel = set_tcb t (record (s.tcb t) { state = Stat.rdy }) s in
        let same : (s0.tcb t).tskpri ≡ (s.tcb t).tskpri =
          ap (λ b. b.tskpri) (update-same s.tcb t (record (s.tcb t) { state = Stat.rdy })) in
        let k0 = set_tcb-IsScheduled s t (record (s.tcb t) { state = Stat.rdy }) refl k in
        let fits0 = subst (λ p. p < c.tmax_tpri) (sym same) fits in
        let (_, tcb, _, _, _, sched) = insert-parts k0.ready t loose task fits0 in
        let done = insert-IsScheduled k0 t loose task fits0 in
        subst
          (λ p.
            IsScheduled (task_make_ready t s) (update own t (some (priq p)))
              (update items (priq p) (items (priq p) ++ t ∷ [])))
          same
          (elim (Bool-cases (rdyq_insert t s0).1) [
            | inl e ↦
                rw e (
                  done (record (rdyq_insert t s0).0 { schedtsk = t }) refl tcb refl refl
                    (rw e refl))
            | inr e ↦ rw e (done (rdyq_insert t s0).0 refl tcb refl refl (rw e sched))
          ])

    -- If t stands in the line of its priority, which fits, task_make_unready takes it out, keeps
    -- the order of the others and the ready queue consistent, and leaves schedtsk on the best of
    -- the remaining ready tasks.
    pub task_make_unready-IsScheduled :
        (xs ys : List Node)
        → (s.tcb t).tskpri < c.tmax_tpri
        → items (priq (s.tcb t).tskpri) ≡ xs ++ t ∷ ys
        → IsScheduled
            (task_make_unready t s)
            (update own t none)
            (update items (priq (s.tcb t).tskpri) (xs ++ ys))
    unfolding task_make_unready rdyq_top
    task_make_unready-IsScheduled xs ys fits here =
        let r = rdyq_remove-IsReady k.ready t fits xs ys here in
        let same = remove-schedtsk t s in
        elim (Bool-cases (node_eq (rdyq_remove t s).schedtsk t)) [
          | inl e ↦ rw e (record {
            ready =
                IsReady-same (rdyq_remove t s)
                  (record (rdyq_remove t s) { schedtsk = rdyq_top (rdyq_remove t s) }) refl
                  (λ _. refl) refl refl r;
            sched = refl;
          })
          | inr e ↦
              let other : best items s.top_priority ≢ t =
                λ q. node_eq-no _ _ e (same ∙ k.sched ∙ rdyq_top-best k.ready ∙ q) in
              rw e (record {
                ready = r;
                sched =
                    same
                    ∙ k.sched
                    ∙ rdyq_top-best k.ready
                    ∙ sym (
                        rdyq_top-best r
                        ∙ best-drop items t (s.tcb t).tskpri s.top_priority _ xs ys fits here
                            k.ready.top r.top other);
              })
        ]
