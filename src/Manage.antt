-- ===== src/Manage.antt =====
-- kernel/tsk_manage.c: creating, deleting, starting and ending tasks, and their priorities. The build
-- is one without BLK_MEM_SIZE and USE_SEPARATE_STACK; make_task_context, which fills in the saved
-- context of the port, changes no variable of the model.
pub mod Activate
pub mod Create
use Prim.Native.Nat.{bit_and}
use ittrium.Common.{
  ℕ, zero, suc, ◌+◌, ◌-◌, Bool, true, false, ◌&&◌, ◌||◌, not, Option, none, some, List, [], ◌∷◌,
  leb, ◌==◌, if◌then◌else◌,
}
use ittrium.Common.Int.{ℤ, pos, ltb_ℤ}
use ittrium.Node.{Node, null, qnode, free_tcb}
use ittrium.KQueue
use ittrium.Types.{
  Config, Kernel, Stat, Er, ErId, e_ok, e_id, e_par, e_obj, e_noexs, e_qovr, e_nomem, e_noid, err,
  new_id, is_wai, index_of,
}
use ittrium.Rdyq.{set_tcb, on_links}
use ittrium.Task.{
  node_eq, tnum_tskid, task_make_dormant, task_make_ready, task_make_unready, task_change_pri,
  rdyq_rotate_at, rdyq_rotate_current,
}
use ittrium.Wait.{wait_cancel}
use ittrium.Dispatch.{Outcome, ret, dispatch, dispatch_ret, dispatch_if_ok}

-- T_CTSK; `name` is the text behind the pointer without its final NUL, or `none` for a null pointer.
pub record TCtsk : Type 0 where
  pub tskatr : ℕ
  pub exinf : ℕ
  pub task : ℕ
  pub itskpri : ℤ
  pub stksz : ℕ
  pub stk : ℕ
  pub name : Option (List ℕ)

abbrev pub is_self : ℤ → Bool
is_self (pos zero) = true
is_self _ = false

abbrev pub get_tcb : ℤ → Node
get_tcb id = qnode (index_of id)

abbrev pub get_tcb_self : ℤ → Kernel → Node
get_tcb_self id s = if is_self id then s.runtsk else get_tcb id

-- The copy of a name: at most TSK_NAME_LEN - 1 characters, up to a NUL.
copy_name : ℕ → List ℕ → List ℕ
copy_name zero name = []
copy_name (suc n) [] = []
copy_name (suc n) (ch ∷ name) = if ch == 0 then [] else ch ∷ copy_name n name

name_of : TCtsk → List ℕ
unfolding copy_name
name_of pk = elim pk.name [
  | none ↦ []
  | some name ↦ if bit_and pk.tskatr 0x8000 == 0 then [] else copy_name 15 name
]

module _ ⦃c : Config⦄ where
  -- The ID test of cre_tsk and del_tsk.
  abbrev pub bad_tskid : ℤ → Bool
  bad_tskid id = ltb_ℤ (pos tnum_tskid) id || ltb_ℤ id (pos 1)

  -- The ID test of the calls that take TSK_SELF, which lets IDs below 0 pass.
  abbrev pub bad_tskid_self : ℤ → Kernel → Bool
  bad_tskid_self id s = ltb_ℤ (pos tnum_tskid) id || (is_self id && node_eq s.runtsk null)

  unfoldable pub cre_tsk : ℤ → TCtsk → Kernel → Kernel × Er
  unfolding name_of
  cre_tsk tskid pk s =
      if bad_tskid tskid
      then (s, e_id)
      else let t = get_tcb tskid in
        elim ((s.tcb t).state) [
          | Stat.noexs ↦
              if pk.stk == 0
              then (s, e_nomem)
              else let s1 = on_links (KQueue.kqueue_remove t) s in
                let s2 =
                  set_tcb t
                    (record (s1.tcb t) {
                      exinf = pk.exinf;
                      tskatr = pk.tskatr;
                      task = pk.task;
                      itskpri = index_of pk.itskpri;
                      stksz = pk.stksz;
                      actcnt = 0;
                      run_ticks = 0;
                      stk_base = pk.stk;
                      stk = pk.stk + pk.stksz;
                      name = name_of pk;
                    })
                    s1 in
                (task_make_dormant t s2, e_ok)
          | _ ↦ (s, e_obj)
        ]

  -- The loop of acre_tsk over `n` IDs from `i` on.
  acre_tsk_loop : ℕ → ℕ → TCtsk → Kernel → Kernel × ErId
  acre_tsk_loop zero i pk s = (s, err e_noid)
  acre_tsk_loop (suc n) i pk s =
      let rest = acre_tsk_loop n (i + 1) pk s in
      elim ((s.tcb (get_tcb (pos i))).state) [
        | Stat.noexs ↦
            let (s1, er) = cre_tsk (pos i) pk s in
            elim er [ Er.e_ok ↦ (s1, new_id (pos i)) | e ↦ (s1, err e) ]
        | _ ↦ rest
      ]

  unfoldable pub acre_tsk : TCtsk → Kernel → Kernel × ErId
  unfolding acre_tsk_loop
  acre_tsk pk s = acre_tsk_loop c.trsv_tskid (c.tmax_tskid + 1) pk s

  -- What del_tsk does with an existing task other than the running one.
  unfoldable pub delete_task : Node → Kernel → Kernel
  delete_task t s =
      let s1 = if is_wai (s.tcb t).state then wait_cancel t s else s in
      let s2 : Kernel = elim ((s1.tcb t).state) [
        | Stat.rdy ↦ task_make_unready t s1
        | Stat.run ↦ task_make_unready t s1
        | _ ↦ s1
      ] in
      let s3 =
        set_tcb t
          (record (s2.tcb t) {
            state = Stat.noexs;
            actcnt = 0;
            wait_obj = null;
            name = [];
            stk_base = 0;
            stksz = 0;
          })
          s2 in
      on_links (KQueue.kqueue_insert t free_tcb) s3

  unfoldable pub del_tsk : ℤ → Kernel → Kernel × Outcome
  del_tsk tskid s =
      if bad_tskid tskid
      then (s, ret e_id)
      else let t = get_tcb tskid in
        dispatch_if_ok (elim ((s.tcb t).state) [
          | Stat.noexs ↦ (s, e_noexs)
          | _ ↦ if node_eq t s.runtsk then (s, e_obj) else (delete_task t s, e_ok)
        ])

  unfoldable pub act_tsk_core : ℤ → Kernel → Kernel × Er
  act_tsk_core tskid s =
      if bad_tskid_self tskid s
      then (s, e_id)
      else let t = get_tcb_self tskid s in
        elim ((s.tcb t).state) [
          | Stat.noexs ↦ (s, e_noexs)
          | Stat.dmt ↦ (task_make_ready t s, e_ok)
          | _ ↦
              if leb c.tmax_actcnt (s.tcb t).actcnt
              then (s, e_qovr)
              else (set_tcb t (record (s.tcb t) { actcnt = (s.tcb t).actcnt + 1 }) s, e_ok)
        ]

  unfoldable pub act_tsk : ℤ → Kernel → Kernel × Outcome
  act_tsk tskid s = dispatch_if_ok (act_tsk_core tskid s)

  unfoldable pub iact_tsk : ℤ → Kernel → Kernel × Er
  iact_tsk tskid s = act_tsk_core tskid s

  abbrev pub bad_pri : ℤ → Bool
  bad_pri p = ltb_ℤ p (pos 1) || ltb_ℤ (pos c.tmax_tpri) p

  unfoldable pub chg_pri : ℤ → ℤ → Kernel → Kernel × Outcome
  chg_pri tskid tskpri s =
      if bad_tskid_self tskid s
      then (s, ret e_id)
      else if bad_pri tskpri && not (is_self tskpri)
      then (s, ret e_par)
      else let t = get_tcb_self tskid s in
        elim ((s.tcb t).state) [
          | Stat.noexs ↦ (s, ret e_noexs)
          | Stat.dmt ↦ (s, ret e_obj)
          | _ ↦
              dispatch_ret e_ok (
                task_change_pri t (if is_self tskpri then (s.tcb t).itskpri else index_of tskpri) s)
        ]

  unfoldable pub rot_rdq : ℤ → Kernel → Kernel × Outcome
  rot_rdq tskpri s =
      if is_self tskpri
      then dispatch_ret e_ok (rdyq_rotate_current s)
      else if bad_pri tskpri
      then (s, ret e_par)
      else dispatch_ret e_ok (rdyq_rotate_at (index_of tskpri) s)

  -- The restart of a task with activations left.
  restart : Node → Kernel → Kernel
  restart t s =
      if (s.tcb t).actcnt == 0
      then s
      else task_make_ready t (set_tcb t (record (s.tcb t) { actcnt = (s.tcb t).actcnt - 1 }) s)

  unfoldable pub ext_tsk : Kernel → Kernel
  unfolding restart
  ext_tsk s =
      let t = s.runtsk in
      let s1 = task_make_dormant t (task_make_unready t s) in
      dispatch (record (restart t s1) { runtsk = null })
