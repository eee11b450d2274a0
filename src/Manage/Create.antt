-- ===== src/Manage/Create.antt =====
-- cre_tsk of kernel/tsk_manage.c.
use ittrium.Common.{
  ◌+◌, ◌≡◌, ◌≢◌, ◌∙◌, refl, ap, arith, false, Option, none, some, List, ◌∷◌, ◌++◌, ◌==◌,
}
use ittrium.Common.Int.{ℤ}
use ittrium.Node.{Node, free_tcb, update, update-same}
use ittrium.KQueue.{kqueue_remove}
use ittrium.Types.{Config, Kernel, Tcb, Stat, Er, e_ok, Ttw, index_of}
use ittrium.Rdyq.{set_tcb, on_links, rdyq_top}
use ittrium.Task.{task_make_dormant}
use ittrium.Task.Schedule.{IsScheduled}
use ittrium.Task.Change.{loose-IsReady}
use ittrium.Wait.Place.{Place, remove-IsScheduled}
use ittrium.Manage.{TCtsk, cre_tsk, bad_tskid, get_tcb, name_of}

module _ ⦃c : Config⦄ where
  loose-IsScheduled :
      (s : Kernel) (t : Node) (b : Tcb) {own : Node → Option Node} {items : Node → List Node}
      → own t ≡ none
      → IsScheduled s own items
      → IsScheduled (set_tcb t b s) own items
  unfolding rdyq_top
  loose-IsScheduled s t b n k = record { ready = loose-IsReady s t b n k.ready; sched = k.sched }

  module _ (id : ℤ) (pk : TCtsk) (s : Kernel) where
    abbrev t : Node
    t = get_tcb id

    abbrev taken : Kernel
    taken = on_links (kqueue_remove t) s

    filled : Tcb
    unfolding name_of
    filled = record (taken.tcb t) {
      exinf = pk.exinf;
      tskatr = pk.tskatr;
      task = pk.task;
      itskpri = index_of pk.itskpri;
      stksz = pk.stksz;
      actcnt = 0;
      run_ticks = 0;
      stk_base = pk.stk;
      stk = pk.stk + pk.stksz;
      name = name_of pk;
    }

    cre_tsk-made :
        bad_tskid id ≡ false
        → (s.tcb t).state ≡ Stat.noexs
        → pk.stk ≢ 0
        → cre_tsk id pk s ≡ (task_make_dormant t (set_tcb t filled taken), Er.e_ok)
    unfolding cre_tsk filled
    cre_tsk-made good free stack =
        let e : pk.stk == 0 ≡ false = ground (arith, stack) in simp (good, free, e, cre_tsk)

    -- On a consistent ready queue, cre_tsk of a valid ID whose task block does not exist and stands
    -- in the list of free ones, with a stack that is not null, returns E_OK, takes the block from
    -- that list, leaves the task dormant at its initial priority, and leaves the ready queue
    -- consistent and schedtsk on the best ready task.
    pub cre_tsk-IsScheduled :
        {own : Node → Option Node} {items : Node → List Node}
        → IsScheduled s own items
        → bad_tskid id ≡ false
        → (s.tcb (get_tcb id)).state ≡ Stat.noexs
        → pk.stk ≢ 0
        → (xs ys : List Node) → own free_tcb ≡ some free_tcb
        → items free_tcb ≡ xs ++ get_tcb id ∷ ys
        → let s' = (cre_tsk id pk s).0 in
          ((cre_tsk id pk s).1 ≡ e_ok)
          × ((s'.tcb (get_tcb id)).state ≡ Stat.dmt)
          × ((s'.tcb (get_tcb id)).tskpri ≡ index_of pk.itskpri)
          × IsScheduled s' (update own (get_tcb id) none) (update items free_tcb (xs ++ ys))
    unfolding task_make_dormant filled
    cre_tsk-IsScheduled {own} {items} k good free stack xs ys head here =
        let k1 = remove-IsScheduled k t (Place.within free_tcb xs ys head here (λ p e. cc (e))) in
        let out = update-same own t none in
        let s2 : Kernel = set_tcb t filled taken in
        let k2 = loose-IsScheduled taken t filled out k1 in
        let same : s2.tcb t ≡ filled = update-same taken.tcb t filled in
        let b : Tcb = record (s2.tcb t) {
          state = Stat.dmt;
          tskpri = (s2.tcb t).itskpri;
          wupcnt = 0;
          suscnt = 0;
          tskwait = Ttw.ttw_none;
        } in
        let last : (set_tcb t b s2).tcb t ≡ b = update-same s2.tcb t b in
        rw (cre_tsk-made good free stack) (
          refl,
          ap (λ w. w.state) last,
          ap (λ w. w.tskpri) last ∙ ap (λ w. w.itskpri) same,
          loose-IsScheduled s2 t b out k2,
        )
