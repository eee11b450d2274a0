-- ===== src/Eventflag.antt =====
-- kernel/eventflags.c.
use Prim.Native.Nat.{bit_and, bit_or}
use ittrium.Common.{
  ℕ, zero, suc, ◌+◌, Bool, ◌&&◌, ◌||◌, not, Option, none, some, ◌==◌, if◌then◌else◌, put,
}
use ittrium.Common.Int.{ℤ, pos, ltb_ℤ}
use ittrium.Node.{Node, flgq, update}
use ittrium.KQueue
use ittrium.Types.{
  Config, Kernel, Stat, Er, ErId, e_ok, e_rsatr, e_par, e_id, e_obj, e_noexs, e_noid, err, new_id,
  index_of,
}
use ittrium.Rdyq.{set_tcb, on_links}
use ittrium.Task.{node_eq, tnum_tskid}
use ittrium.Timer.{tmo_pol, tmo_fevr, is_pol}
use ittrium.Wait.{obj_make_wait, wait_release_ok, wait_delete, wait_tskid}
use ittrium.Dispatch.{Outcome, ret, dispatch_ercd, dispatch_ret, dispatch_if_ok}
use ittrium.Semaphore.{set_obj}

-- T_CFLG
pub record TCflg : Type 0 where
  pub flgatr : ℕ
  pub iflgptn : ℕ

abbrev pub get_flgcb_by_id : ℤ → Node
get_flgcb_by_id id = flgq (index_of id)

abbrev pub set_flgptn : Node → ℕ → Kernel → Kernel
set_flgptn o v s = record s { flgptn = update s.flgptn o v }

init_flgcb : ℕ → Kernel → Kernel
init_flgcb i s =
    on_links (KQueue.kqueue_init (flgq i))
      (set_obj (flgq i) (record (s.obj (flgq i)) { objid = i; state = Stat.noexs }) s)

init_flgcbs : ℕ → Kernel → Kernel
unfolding init_flgcb
init_flgcbs zero s = s
init_flgcbs (suc n) s = init_flgcb n (init_flgcbs n s)

-- TWF_ORW is 1, TWF_ANDW 0.
unfoldable pub eventflag_cond : ℕ → ℕ → ℕ → Bool
eventflag_cond flgptn waiptn wfmode =
    if not (bit_and wfmode 1 == 0)
    then not (bit_and flgptn waiptn == 0)
    else bit_and flgptn waiptn == waiptn

abbrev pub ta_clr : ℕ → Bool
ta_clr objatr = not (bit_and objatr 4 == 0)

-- TA_WSGL is 0.
abbrev pub ta_wsgl : ℕ → Bool
ta_wsgl objatr = not (bit_and objatr 0 == 0)

unfoldable pub clear_flgptn : Node → Kernel → Kernel
clear_flgptn o s = if ta_clr (s.obj o).objatr then set_flgptn o 0 s else s

module _ ⦃c : Config⦄ where
  abbrev pub tnum_flgid : ℕ
  tnum_flgid = c.tmax_flgid + c.trsv_flgid

  unfoldable pub eventflag_initialize : Kernel → Kernel
  unfolding init_flgcbs
  eventflag_initialize s = init_flgcbs tnum_flgid s

  abbrev pub bad_flgid : ℤ → Bool
  bad_flgid id = ltb_ℤ id (pos 1) || ltb_ℤ (pos tnum_flgid) id

  unfoldable pub cre_flg_core : ℤ → TCflg → Kernel → Kernel × Er
  cre_flg_core flgid pk s =
      if not (pk.flgatr == bit_and pk.flgatr 7)
      then (s, e_rsatr)
      else let o = get_flgcb_by_id flgid in
        elim ((s.obj o).state) [
          | Stat.noexs ↦
              let s1 = on_links (KQueue.kqueue_init o) s in
              (
                set_flgptn o pk.iflgptn
                    (set_obj o (record (s1.obj o) { objatr = pk.flgatr; state = Stat.rdy }) s1),
                e_ok,
              )
          | _ ↦ (s, e_obj)
        ]

  unfoldable pub cre_flg : ℤ → TCflg → Kernel → Kernel × Er
  cre_flg flgid pk s = if bad_flgid flgid then (s, e_id) else cre_flg_core flgid pk s

  -- The loop of acre_flg over `n` IDs from `i` on.
  acre_flg_loop : ℕ → ℕ → TCflg → Kernel → Kernel × ErId
  acre_flg_loop zero i pk s = (s, err e_noid)
  acre_flg_loop (suc n) i pk s =
      let rest = acre_flg_loop n (i + 1) pk s in
      elim ((s.obj (get_flgcb_by_id (pos i))).state) [
        | Stat.noexs ↦
            let (s1, er) = cre_flg_core (pos i) pk s in
            elim er [ Er.e_ok ↦ (s1, new_id (pos i)) | e ↦ (s1, err e) ]
        | _ ↦ rest
      ]

  unfoldable pub acre_flg : TCflg → Kernel → Kernel × ErId
  unfolding acre_flg_loop
  acre_flg pk s = acre_flg_loop c.trsv_flgid (c.tmax_flgid + 1) pk s

  -- The release of one waiting task whose condition holds.
  unfoldable pub flg_release : Node → Node → Kernel → Kernel
  flg_release o t s =
      let s1 = record s { flg_mem = put s.flg_mem (s.tcb t).p_flgptn (s.flgptn o) } in
      clear_flgptn o (wait_release_ok t s1)

  unfoldable pub flg_visit : Node → Node → Kernel → Kernel
  flg_visit o t s =
      if eventflag_cond (s.flgptn o) (s.tcb t).waiptn (s.tcb t).wfmode then flg_release o t s else s

  -- The loop of _set_flg from the entry `queue` on; it stops when the fuel is out.
  unfoldable pub set_flg_loop : ℕ → Node → Node → Kernel → Kernel
  set_flg_loop zero o queue s = s
  set_flg_loop (suc fuel) o queue s =
      let rest = set_flg_loop fuel o (s.links.next queue) (flg_visit o queue s) in
      if node_eq queue o then s else rest

  unfoldable pub iset_flg : ℤ → ℕ → Kernel → Kernel × Er
  iset_flg flgid setptn s =
      if bad_flgid flgid
      then (s, e_id)
      else let o = get_flgcb_by_id flgid in
        elim ((s.obj o).state) [
          | Stat.noexs ↦ (s, e_noexs)
          | _ ↦
              let s1 = set_flgptn o (bit_or (s.flgptn o) setptn) s in
              (set_flg_loop (tnum_tskid + 1) o (s1.links.next o) s1, e_ok)
        ]

  unfoldable pub set_flg : ℤ → ℕ → Kernel → Kernel × Outcome
  set_flg flgid setptn s = let (s1, ercd) = iset_flg flgid setptn s in dispatch_ret ercd s1

  unfoldable pub clr_flg : ℤ → ℕ → Kernel → Kernel × Er
  clr_flg flgid clrptn s =
      if bad_flgid flgid
      then (s, e_id)
      else let o = get_flgcb_by_id flgid in
        elim ((s.obj o).state) [
          | Stat.noexs ↦ (s, e_noexs)
          | _ ↦ (set_flgptn o (bit_and (s.flgptn o) clrptn) s, e_ok)
        ]

  -- `runtsk->ercd = e; return runtsk->ercd;`
  abbrev pub ercd_now : Er → Kernel → Kernel × Outcome
  ercd_now e s = (set_tcb s.runtsk (record (s.tcb s.runtsk) { ercd = e }) s, ret e)

  -- twai_flg on an existing eventflag.
  unfoldable pub flg_wait : Node → ℕ → ℕ → ℕ → ℤ → Kernel → Kernel × Outcome
  flg_wait o waiptn wfmode p_flgptn tmout s =
      if ta_wsgl (s.obj o).objatr && not (KQueue.kqueue_empty o s.links)
      then ercd_now Er.e_iluse s
      else if eventflag_cond (s.flgptn o) waiptn wfmode
      then ercd_now e_ok
          (clear_flgptn o (record s { flg_mem = put s.flg_mem p_flgptn (s.flgptn o) }))
      else if is_pol tmout
      then ercd_now Er.e_tmout s
      else dispatch_ercd (
          obj_make_wait o tmout (
            set_tcb s.runtsk
              (record (s.tcb s.runtsk) {
                ercd = Er.e_tmout;
                waiptn = waiptn;
                wfmode = wfmode;
                p_flgptn = p_flgptn;
              })
              s))

  unfoldable pub twai_flg : ℤ → ℕ → ℕ → ℕ → ℤ → Kernel → Kernel × Outcome
  twai_flg flgid waiptn wfmode p_flgptn tmout s =
      if bad_flgid flgid
      then (s, ret e_id)
      else if (not (wfmode == 0) && not (wfmode == 1)) || waiptn == 0
      then (s, ret e_par)
      else let o = get_flgcb_by_id flgid in
        elim ((s.obj o).state) [
          | Stat.noexs ↦ ercd_now e_noexs s
          | _ ↦ flg_wait o waiptn wfmode p_flgptn tmout s
        ]

  unfoldable pub wai_flg : ℤ → ℕ → ℕ → ℕ → Kernel → Kernel × Outcome
  wai_flg flgid waiptn wfmode p_flgptn s = twai_flg flgid waiptn wfmode p_flgptn tmo_fevr s

  unfoldable pub pol_flg : ℤ → ℕ → ℕ → ℕ → Kernel → Kernel × Outcome
  pol_flg flgid waiptn wfmode p_flgptn s = twai_flg flgid waiptn wfmode p_flgptn tmo_pol s

  -- With the T_RFLG that is filled in.
  unfoldable pub ref_flg : ℤ → Kernel → Er × Option (ℕ × ℕ)
  ref_flg flgid s =
      if bad_flgid flgid
      then (e_id, none)
      else let o = get_flgcb_by_id flgid in
        elim ((s.obj o).state) [
          | Stat.noexs ↦ (e_noexs, none)
          | _ ↦ (e_ok, some (wait_tskid o s, s.flgptn o))
        ]

  unfoldable pub del_flg : ℤ → Kernel → Kernel × Outcome
  del_flg flgid s =
      if bad_flgid flgid
      then (s, ret e_id)
      else let o = get_flgcb_by_id flgid in
        dispatch_if_ok (elim ((s.obj o).state) [
          | Stat.noexs ↦ (s, e_noexs)
          | _ ↦
              let s1 = wait_delete o s in
              (set_flgptn o 0 (set_obj o (record (s1.obj o) { state = Stat.noexs }) s1), e_ok)
        ])
