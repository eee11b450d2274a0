-- ===== src/Task.antt =====
-- kernel/task.c: the task table and the changes between the ready queue and the other states. The
-- build is one without BLK_MEM_SIZE. The stack's contents are not modelled, so task_make_dormant does
-- not fill the stack with 0xa5.
pub mod Schedule
pub mod Change
pub mod Rotate
pub mod Start
use ittrium.Common.{ℕ, zero, suc, ◌+◌, Bool, [], if◌then◌else◌, ite}
use ittrium.Node.{Node, null, qnode, free_tcb, node_discrete}
use ittrium.KQueue
use ittrium.Types.{Config, Kernel, Stat, Ttw}
use ittrium.Rdyq.{
  set_tcb, on_links, rdyq_init, rdyq_top, rdyq_top_pri, rdyq_insert, rdyq_remove, rdyq_rotate,
}

-- `p == q` on addresses, as a test.
abbrev pub node_eq : Node → Node → Bool
node_eq a b = ite (node_discrete a b) Bool.true Bool.false

unfoldable pub task_make_dormant : Node → Kernel → Kernel
task_make_dormant t s =
    set_tcb t
      (record (s.tcb t) {
        state = Stat.dmt;
        tskpri = (s.tcb t).itskpri;
        wupcnt = 0;
        suscnt = 0;
        tskwait = Ttw.ttw_none;
      })
      s

module _ ⦃c : Config⦄ where
  init_tcb : ℕ → Kernel → Kernel
  init_tcb i s = on_links (KQueue.kqueue_insert (qnode i) free_tcb) (
      set_tcb (qnode i)
        (record (s.tcb (qnode i)) {
          tskid = i + 1;
          state = Stat.noexs;
          stk_base = 0;
          stksz = 0;
          run_ticks = 0;
          name = [];
        })
        s)

  init_table : ℕ → Kernel → Kernel
  unfolding init_tcb
  init_table zero s = s
  init_table (suc n) s = init_tcb n (init_table n s)

  abbrev pub tnum_tskid : ℕ
  tnum_tskid = c.tmax_tskid + c.trsv_tskid

  unfoldable pub task_initialize : Kernel → Kernel
  unfolding init_table
  task_initialize s =
      let s1 = rdyq_init (record s { runtsk = null; schedtsk = null }) in
      init_table tnum_tskid (on_links (KQueue.kqueue_init free_tcb) s1)

  unfoldable pub reschedule : Kernel → Kernel
  reschedule s = if node_eq s.schedtsk (rdyq_top s) then s else record s { schedtsk = rdyq_top s }

  unfoldable pub task_make_ready : Node → Kernel → Kernel
  task_make_ready t s =
      let (s1, top) = rdyq_insert t (set_tcb t (record (s.tcb t) { state = Stat.rdy }) s) in
      if top then record s1 { schedtsk = t } else s1

  unfoldable pub task_make_unready : Node → Kernel → Kernel
  task_make_unready t s =
      let s1 = rdyq_remove t s in
      if node_eq s1.schedtsk t then record s1 { schedtsk = rdyq_top s1 } else s1

  unfoldable pub task_change_pri : Node → ℕ → Kernel → Kernel
  task_change_pri t priority s =
      let s1 = rdyq_remove t s in
      let s2 = set_tcb t (record (s1.tcb t) { tskpri = priority }) s1 in
      let (s3, top) = rdyq_insert t (record s2 { schedtsk = rdyq_top s2 }) in
      if top then record s3 { schedtsk = t } else s3

  unfoldable pub rdyq_rotate_at : ℕ → Kernel → Kernel
  rdyq_rotate_at priority s = reschedule (rdyq_rotate priority s)

  unfoldable pub rdyq_rotate_current : Kernel → Kernel
  rdyq_rotate_current s =
      if node_eq s.schedtsk null then s else reschedule (rdyq_rotate (rdyq_top_pri s) s)
