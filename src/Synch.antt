-- ===== src/Synch.antt =====
-- kernel/tsk_dep_syn.c: delaying, suspending, sleeping and waking. The counts are numbers from 0 on;
-- rsm_tsk lowers a suspension count only of a suspended task, whose count is above 0.
pub mod Suspend
use ittrium.Common.{
  ℕ, ◌+◌, ◌-◌, leb, ltb, ◌==◌, ◌&&◌, if◌then◌else◌, Option, none, some, Bool, true, false,
}
use ittrium.Common.Int.{ℤ}
use ittrium.Node.{Node, null}
use ittrium.KQueue
use ittrium.Types.{Config, Kernel, Stat, Ttw, Er, e_ok, e_id, e_obj, e_noexs, e_qovr, is_wai}
use ittrium.Rdyq.{set_tcb, on_links}
use ittrium.Task.{task_make_ready, task_make_unready}
use ittrium.Timer.{tmo_fevr, is_pol, to_tmo}
use ittrium.Wait.{make_wait, wait_release_ok}
use ittrium.Dispatch.{Outcome, ret, dispatch_ercd, dispatch_ret, dispatch_if_ok}
use ittrium.Manage.{get_tcb_self, bad_tskid_self}

abbrev pub is_slp : Ttw → Bool
is_slp Ttw.ttw_slp = true
is_slp _ = false

module _ ⦃c : Config⦄ where
  -- The argument of make_wait is a TMO, so a longer delay is cut to 16 bits.
  unfoldable pub dly_tsk : ℕ → Kernel → Kernel × Outcome
  dly_tsk dlytim s =
      let t = s.runtsk in
      let s1 =
        set_tcb t (record (s.tcb t) { ercd = Er.e_ok; wait_obj = null; tskwait = Ttw.ttw_dly }) s in
      let s2 = make_wait (to_tmo dlytim) s1 in
      dispatch_ercd (on_links (KQueue.kqueue_init s2.runtsk) s2)

  unfoldable pub suspend : Node → Kernel → Kernel
  suspend t s =
      let s1 = set_tcb t (record (s.tcb t) { suscnt = (s.tcb t).suscnt + 1 }) s in
      elim ((s1.tcb t).state) [
        | Stat.run ↦ task_make_unready t (set_tcb t (record (s1.tcb t) { state = Stat.sus }) s1)
        | Stat.rdy ↦ task_make_unready t (set_tcb t (record (s1.tcb t) { state = Stat.sus }) s1)
        | _ ↦ set_tcb t (record (s1.tcb t) { state = Stat.was }) s1
      ]

  unfoldable pub sus_tsk : ℤ → Kernel → Kernel × Outcome
  sus_tsk tskid s =
      if bad_tskid_self tskid s
      then (s, ret e_id)
      else let t = get_tcb_self tskid s in
        elim ((s.tcb t).state) [
          | Stat.noexs ↦ dispatch_ret e_noexs s
          | Stat.dmt ↦ dispatch_ret e_obj s
          | _ ↦
              if c.tmax_actcnt == (s.tcb t).suscnt
              then dispatch_ret e_qovr s
              else dispatch_ret e_ok (suspend t s)
        ]

  unfoldable pub resume : Node → Kernel → Kernel
  resume t s =
      let s1 = set_tcb t (record (s.tcb t) { suscnt = (s.tcb t).suscnt - 1 }) s in
      if (s.tcb t).suscnt == 1
      then elim ((s1.tcb t).state) [
        | Stat.was ↦ set_tcb t (record (s1.tcb t) { state = Stat.wai }) s1
        | _ ↦ task_make_ready t s1
      ]
      else s1

  unfoldable pub rsm_tsk : ℤ → Kernel → Kernel × Outcome
  rsm_tsk tskid s =
      if bad_tskid_self tskid s
      then (s, ret e_id)
      else let t = get_tcb_self tskid s in
        elim ((s.tcb t).state) [
          | Stat.noexs ↦ dispatch_ret e_noexs s
          | Stat.sus ↦ dispatch_ret e_ok (resume t s)
          | Stat.was ↦ dispatch_ret e_ok (resume t s)
          | _ ↦ dispatch_ret e_obj s
        ]

  unfoldable pub tslp_tsk : ℤ → Kernel → Kernel × Outcome
  tslp_tsk tmout s =
      let t = s.runtsk in
      if ltb 0 (s.tcb t).wupcnt
      then dispatch_ercd
          (set_tcb t (record (s.tcb t) { wupcnt = (s.tcb t).wupcnt - 1; ercd = Er.e_ok }) s)
      else if is_pol tmout
      then dispatch_ercd (set_tcb t (record (s.tcb t) { ercd = Er.e_tmout }) s)
      else let s1 =
          set_tcb t (record (s.tcb t) { ercd = Er.e_tmout; wait_obj = null; tskwait = Ttw.ttw_slp })
            s in
        let s2 = make_wait tmout s1 in dispatch_ercd (on_links (KQueue.kqueue_init s2.runtsk) s2)

  unfoldable pub slp_tsk : Kernel → Kernel × Outcome
  slp_tsk s = tslp_tsk tmo_fevr s

  unfoldable pub wup_tsk_core : ℤ → Kernel → Kernel × Er
  wup_tsk_core tskid s =
      if bad_tskid_self tskid s
      then (s, e_id)
      else let t = get_tcb_self tskid s in
        elim ((s.tcb t).state) [
          | Stat.noexs ↦ (s, e_noexs)
          | Stat.dmt ↦ (s, e_obj)
          | state ↦
              if is_wai state && is_slp (s.tcb t).tskwait
              then (wait_release_ok t s, e_ok)
              else if leb c.tmax_actcnt (s.tcb t).wupcnt
              then (s, e_qovr)
              else (set_tcb t (record (s.tcb t) { wupcnt = (s.tcb t).wupcnt + 1 }) s, e_ok)
        ]

  unfoldable pub wup_tsk : ℤ → Kernel → Kernel × Outcome
  wup_tsk tskid s = dispatch_if_ok (wup_tsk_core tskid s)

  unfoldable pub iwup_tsk : ℤ → Kernel → Kernel × Er
  iwup_tsk tskid s = wup_tsk_core tskid s

  -- With the value stored through `p_wupcnt`, if any.
  unfoldable pub can_wup : ℤ → Bool → Kernel → Kernel × Er × Option ℕ
  can_wup tskid wanted s =
      if bad_tskid_self tskid s
      then (s, e_id, none)
      else let t = get_tcb_self tskid s in
        elim ((s.tcb t).state) [
          | Stat.noexs ↦ (s, e_noexs, none)
          | Stat.dmt ↦ (s, e_obj, none)
          | _ ↦ (
            set_tcb t (record (s.tcb t) { wupcnt = 0 }) s,
            e_ok,
            if wanted then some (s.tcb t).wupcnt else none,
          )
        ]
