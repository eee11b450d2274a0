-- ===== src/Dispatch/Running.antt =====
-- dispatch of config/linux-user/cpu_support.c on a scheduled kernel.
use ittrium.Common.{if-elim, refl, ◌≡◌, ◌≢◌, ◌∙◌, sym, ap, subst, arith, Option, List}
use ittrium.Node.{Node, priq}
use ittrium.Types.{Config, Kernel}
use ittrium.Rdyq.{rdyq_top}
use ittrium.Rdyq.Top.{IsBest}
use ittrium.Task.Schedule.{IsReady-same, IsScheduled, schedtsk-IsBest}
use ittrium.Task.{node_eq}
use ittrium.Dispatch.{dispatch, dispatch_ercd, Outcome}

dispatch-runtsk : (s : Kernel) → s.int_nesting ≡ 0 → (dispatch s).runtsk ≡ s.schedtsk
unfolding dispatch
dispatch-runtsk s e = ground arith

pub dispatch-nested : (s : Kernel) → s.int_nesting ≢ 0 → dispatch s ≡ s
unfolding dispatch
dispatch-nested s n = ground arith

-- dispatch changes `runtsk` and none of these.
pub dispatch-parts :
    (s : Kernel)
    → ((dispatch s).links ≡ s.links)
      × ((dispatch s).tcb ≡ s.tcb)
      × ((dispatch s).bitmap ≡ s.bitmap)
      × ((dispatch s).top_priority ≡ s.top_priority)
      × ((dispatch s).schedtsk ≡ s.schedtsk)
      × ((dispatch s).semcnt ≡ s.semcnt)
      × ((dispatch s).maxsem ≡ s.maxsem)
      × ((dispatch s).obj ≡ s.obj)
unfolding dispatch
dispatch-parts s = (
  ground arith,
  ground arith,
  ground arith,
  ground arith,
  ground arith,
  ground arith,
  ground arith,
  ground arith,
)

pub dispatch_ercd-state : (s : Kernel) → (dispatch_ercd s).0 ≡ dispatch s
unfolding dispatch_ercd
dispatch_ercd-state s =
    if-elim {A = Kernel × Outcome} (λ r. r.0 ≡ dispatch s) (node_eq (dispatch s).runtsk s.runtsk)
      (λ _. refl) (λ _. refl)

module _ ⦃c : Config⦄ where
  -- If the ready queue is consistent, schedtsk is its best task and no interrupt is being handled,
  -- the task that runs after dispatch is the first one of the best line that holds a task, and none
  -- runs if no task is ready.
  pub dispatch-IsBest :
      (s : Kernel) {own : Node → Option Node} {items : Node → List Node}
      → IsScheduled s own items
      → s.int_nesting ≡ 0
      → IsBest items (dispatch s).runtsk
  dispatch-IsBest s {own} {items} k e =
      subst (IsBest items) (sym (dispatch-runtsk s e)) (schedtsk-IsBest k)

  -- The ready queue and `schedtsk` are as before.
  pub dispatch-IsScheduled :
      (s : Kernel) {own : Node → Option Node} {items : Node → List Node}
      → IsScheduled s own items
      → IsScheduled (dispatch s) own items
  unfolding rdyq_top
  dispatch-IsScheduled s k =
      let (l, t, b, p, d, _, _, _) = dispatch-parts s in
      record {
        ready = IsReady-same s (dispatch s) l (λ x. ap (λ f. (f x).tskpri) t) b p k.ready;
        sched =
            d
            ∙ k.sched
            ∙ ap (λ h. h.next (priq s.top_priority)) (sym l)
            ∙ ap (λ r. (dispatch s).links.next (priq r)) (sym p);
      }
