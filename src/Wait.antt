-- ===== src/Wait.antt =====
-- kernel/wait.h and kernel/wait.c: putting the running task to wait on an object, and releasing tasks.
-- A loop over a queue of task blocks takes as fuel the number of task blocks, which no queue of
-- distinct blocks exceeds.
pub mod Place
pub mod Release
pub mod Block
pub mod Fifo
pub mod Priority
use Prim.Native.Nat.{bit_and}
use ittrium.Common.{ℕ, zero, suc, ◌+◌, Bool, not, ltb, ◌==◌, if◌then◌else◌}
use ittrium.Common.Int.{ℤ}
use ittrium.Node.{Node}
use ittrium.KQueue
use ittrium.Types.{Config, Kernel, Stat, Ttw, Er, Callback, event_of}
use ittrium.Rdyq.{set_tcb, on_links}
use ittrium.Task.{node_eq, tnum_tskid, task_make_ready, task_make_unready}
use ittrium.Timer.{timer_insert, timer_delete}

abbrev pub ta_tpri : ℕ → Bool
ta_tpri objatr = not (bit_and objatr 1 == 0)

module _ ⦃c : Config⦄ where
  unfoldable pub task_leave_wait : Node → Kernel → Kernel
  task_leave_wait t s =
      let s1 = set_tcb t (record (s.tcb t) { tskwait = Ttw.ttw_none }) s in
      elim ((s1.tcb t).state) [
        | Stat.wai ↦ task_make_ready t s1
        | _ ↦ set_tcb t (record (s1.tcb t) { state = Stat.sus }) s1
      ]

  unfoldable pub wait_cancel : Node → Kernel → Kernel
  wait_cancel t s = on_links (KQueue.kqueue_remove t) (timer_delete (event_of t) s)

  unfoldable pub wait_release : Node → Kernel → Kernel
  wait_release t s =
      task_leave_wait t (on_links (KQueue.kqueue_remove t) (timer_delete (event_of t) s))

  unfoldable pub wait_release_ok : Node → Kernel → Kernel
  wait_release_ok t s = wait_release t (set_tcb t (record (s.tcb t) { ercd = Er.e_ok }) s)

  unfoldable pub wait_release_tmout : Node → Kernel → Kernel
  wait_release_tmout t s = task_leave_wait t (on_links (KQueue.kqueue_remove t) s)

  -- The loop of kqueue_find_pri from `entry` on; it stands still when the fuel is out.
  unfoldable pub find_pri_loop : ℕ → Node → ℕ → Node → Kernel → Node
  find_pri_loop zero queue prio entry s = entry
  find_pri_loop (suc fuel) queue prio entry s =
      let rest = find_pri_loop fuel queue prio (s.links.next entry) s in
      if node_eq entry queue then entry else if ltb prio (s.tcb entry).tskpri then entry else rest

  unfoldable pub kqueue_find_pri : Node → ℕ → Kernel → Node
  kqueue_find_pri queue prio s = find_pri_loop (tnum_tskid + 1) queue prio (s.links.next queue) s

  unfoldable pub kqueue_insert_pri : Node → Node → Kernel → Kernel
  kqueue_insert_pri t queue s =
      on_links (KQueue.kqueue_insert t (kqueue_find_pri queue (s.tcb t).tskpri s)) s

  unfoldable pub obj_change_pri : Node → Node → Kernel → Kernel
  obj_change_pri gcb t s = kqueue_insert_pri t gcb (on_links (KQueue.kqueue_remove t) s)

  unfoldable pub obj_chg_pri : Node → Kernel → Kernel
  obj_chg_pri t s = obj_change_pri (s.tcb t).wait_obj t s

  unready : Kernel → Kernel
  unready s =
      let s1 = task_make_unready s.runtsk s in
      set_tcb s1.runtsk (record (s1.tcb s1.runtsk) { state = Stat.wai }) s1

  -- The switch of make_wait on the state of the running task.
  unfoldable pub leave_running : Kernel → Kernel
  unfolding unready
  leave_running s = elim ((s.tcb s.runtsk).state) [
    | Stat.run ↦ unready s
    | Stat.rdy ↦ unready s
    | Stat.sus ↦ set_tcb s.runtsk (record (s.tcb s.runtsk) { state = Stat.was }) s
    | _ ↦ s
  ]

  unfoldable pub make_wait : ℤ → Kernel → Kernel
  make_wait tmout s =
      let s1 = leave_running s in
      timer_insert (event_of s1.runtsk) tmout Callback.release_tmout s1.runtsk s1

  -- The loop of wait_delete; it stops when the fuel is out.
  unfoldable pub wait_delete_loop : ℕ → Node → Kernel → Kernel
  wait_delete_loop zero waitq s = s
  wait_delete_loop (suc fuel) waitq s =
      let t = s.links.next waitq in
      let s1 = set_tcb t (record (s.tcb t) { ercd = Er.e_dlt }) s in
      let rest = wait_delete_loop fuel waitq (wait_release t s1) in
      if KQueue.kqueue_empty waitq s.links then s else rest

  unfoldable pub wait_delete : Node → Kernel → Kernel
  wait_delete waitq s = wait_delete_loop (tnum_tskid + 1) waitq s

  unfoldable pub wait_tskid : Node → Kernel → ℕ
  wait_tskid waitq s =
      if KQueue.kqueue_empty waitq s.links then 0 else (s.tcb (s.links.next waitq)).tskid

  unfoldable pub obj_make_wait : Node → ℤ → Kernel → Kernel
  obj_make_wait gcb tmout s =
      let s1 = set_tcb s.runtsk (record (s.tcb s.runtsk) { wait_obj = gcb }) s in
      let s2 = make_wait tmout s1 in
      if ta_tpri (s2.obj gcb).objatr
      then kqueue_insert_pri s2.runtsk gcb s2
      else on_links (KQueue.kqueue_insert s2.runtsk gcb) s2
