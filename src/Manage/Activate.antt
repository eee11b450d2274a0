-- ===== src/Manage/Activate.antt =====
-- act_tsk and ext_tsk of kernel/tsk_manage.c: the start and the end of a task.
use ittrium.Common.{
  ◌<◌, ◌≡◌, ◌≢◌, ◌∙◌, refl, ap, arith, true, false, Option, none, some, List, [], ◌∷◌, ◌++◌,
  Bool-cases, inl, inr, ltb, ◌==◌,
}
use ittrium.Common.Int.{ℤ}
use ittrium.Node.{Node, null, priq, update, update-same}
use ittrium.Types.{Config, Kernel, Tcb, Stat, Er, e_ok, Ttw}
use ittrium.Rdyq.{
  set_tcb, rdyq_insert, rdyq_bitmap_set, rdyq_top, rdyq_remove, line_emptied, rdyq_bitmap_clear,
}
use ittrium.Rdyq.Top.{IsBest}
use ittrium.Task.{task_make_ready, task_make_unready, task_make_dormant}
use ittrium.Task.Schedule.{
  IsScheduled, IsReady-same, task_make_ready-IsScheduled, task_make_unready-IsScheduled,
}
use ittrium.Task.Change.{loose-IsReady}
use ittrium.Wait.Block.{make_unready-parts}
use ittrium.Dispatch.{ret, dispatch, dispatch_if_ok}
use ittrium.Dispatch.Running.{dispatch-IsScheduled, dispatch-IsBest}
use ittrium.Manage.{act_tsk, act_tsk_core, bad_tskid_self, get_tcb_self, ext_tsk, restart}

module _ ⦃c : Config⦄ where
  make_ready-nesting : (t : Node) (s : Kernel) → (task_make_ready t s).int_nesting ≡ s.int_nesting
  unfolding task_make_ready rdyq_insert rdyq_bitmap_set
  make_ready-nesting t s =
      elim (Bool-cases
        (ltb (update s.tcb t (record (s.tcb t) { state = Stat.rdy }) t).tskpri s.top_priority)) [
          | inl e ↦ rw e
          | inr e ↦ rw e
        ]

  act_tsk-core :
      (id : ℤ) (s : Kernel)
      → bad_tskid_self id s ≡ false
      → (s.tcb (get_tcb_self id s)).state ≡ Stat.dmt
      → act_tsk id s ≡ (dispatch (task_make_ready (get_tcb_self id s) s), ret Er.e_ok)
  unfolding act_tsk act_tsk_core dispatch_if_ok
  act_tsk-core id s good dormant = rw (good, dormant)

  module _ {s : Kernel} {own : Node → Option Node} {items : Node → List Node}
      (k : IsScheduled s own items) where
    -- Outside interrupts, act_tsk of a valid ID whose task is dormant, stands in no queue, is not
    -- the address behind the last line and has a priority that fits returns E_OK, appends the task
    -- to the ready line of its priority, leaves the ready queue consistent and schedtsk on the best
    -- ready task, and that task runs.
    pub act_tsk-IsScheduled :
        (id : ℤ)
        → let t = get_tcb_self id s in
          bad_tskid_self id s ≡ false
          → (s.tcb t).state ≡ Stat.dmt
          → own t ≡ none
          → t ≢ priq c.tmax_tpri
          → (s.tcb t).tskpri < c.tmax_tpri
          → s.int_nesting ≡ 0
          → let line = priq (s.tcb t).tskpri in
            let items' = update items line (items line ++ t ∷ []) in
            ((act_tsk id s).1 ≡ ret e_ok)
            × IsScheduled (act_tsk id s).0 (update own t (some line)) items'
            × IsBest items' (act_tsk id s).0.runtsk
    act_tsk-IsScheduled id good dormant loose task fits outside =
        let t = get_tcb_self id s in
        let k1 = task_make_ready-IsScheduled k t loose task fits in
        rw (act_tsk-core id s good dormant) (
          refl,
          dispatch-IsScheduled (task_make_ready t s) k1,
          dispatch-IsBest (task_make_ready t s) k1 (make_ready-nesting t s ∙ outside),
        )

    -- The running task, and what is left of its block.
    abbrev self : Node
    self = s.runtsk

    abbrev stopped : Kernel
    stopped = task_make_unready self s

    abbrev dormant : Tcb
    dormant = record (stopped.tcb self) {
      state = Stat.dmt;
      tskpri = (stopped.tcb self).itskpri;
      wupcnt = 0;
      suscnt = 0;
      tskwait = Ttw.ttw_none;
    }

    abbrev ended : Kernel
    ended = set_tcb self dormant stopped

    unready-nesting : stopped.int_nesting ≡ s.int_nesting
    unfolding task_make_unready rdyq_remove line_emptied rdyq_bitmap_clear
    unready-nesting = ground arith

    ext_tsk-ended : (s.tcb self).actcnt ≡ 0 → ext_tsk s ≡ dispatch (record ended { runtsk = null })
    unfolding ext_tsk restart task_make_dormant
    ext_tsk-ended zero =
        let (b, _, _, _) = make_unready-parts self s in
        let q : (ended.tcb self).actcnt ≡ 0 =
          ap (λ w. w.actcnt) (update-same stopped.tcb self dormant)
          ∙ ap (λ f. (f self).actcnt) b
          ∙ zero in
        let e : (ended.tcb self).actcnt == 0 ≡ true = ground (arith, q) in rw e

    -- Outside interrupts, ext_tsk of a running task that stands in the line of its priority, which
    -- fits, and has no activation left takes it from its line, leaves the ready queue consistent
    -- and schedtsk on the best ready task, and that task runs, or none if no other is ready.
    pub ext_tsk-IsScheduled :
        (xs ys : List Node)
        → (s.tcb s.runtsk).tskpri < c.tmax_tpri
        → items (priq (s.tcb s.runtsk).tskpri) ≡ xs ++ s.runtsk ∷ ys
        → (s.tcb s.runtsk).actcnt ≡ 0
        → s.int_nesting ≡ 0
        → let items' = update items (priq (s.tcb s.runtsk).tskpri) (xs ++ ys) in
          IsScheduled (ext_tsk s) (update own s.runtsk none) items'
          × IsBest items' (ext_tsk s).runtsk
    unfolding rdyq_top
    ext_tsk-IsScheduled xs ys fits here zero outside =
        let k1 = task_make_unready-IsScheduled k self xs ys fits here in
        let r = loose-IsReady stopped self dormant (update-same own self none) k1.ready in
        let k2 : IsScheduled (record ended { runtsk = null }) (update own self none)
            (update items (priq (s.tcb self).tskpri) (xs ++ ys)) =
          record {
            ready =
                IsReady-same ended (record ended { runtsk = null }) refl (λ _. refl) refl refl r;
            sched = k1.sched;
          } in
        rw (ext_tsk-ended zero) (
          dispatch-IsScheduled (record ended { runtsk = null }) k2,
          dispatch-IsBest (record ended { runtsk = null }) k2 (unready-nesting ∙ outside),
        )
