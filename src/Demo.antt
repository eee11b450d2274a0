-- ===== src/Demo.antt =====
-- A configuration after example/linux-user/include/kernel_config.h, all-zero memory, and a booted kernel.
pub mod Scene
mod Examples
mod QueueExamples
mod CallExamples
mod ShellExamples
mod FileExamples
mod ElfExamples
mod EditExamples
mod ProcExamples
use ittrium.Common.{◌≡◌, refl, none, [], ℕ_discrete}
use ittrium.Common.Int.{pos}
use ittrium.Node.{null, qnode, free_tcb, update, node_discrete}
use ittrium.Types.{Config, Kernel, Tcb, Stat, Er, Ttw, Callback, index_of}
use ittrium.KQueue.{kqueue_init, kqueue_insert, kqueue_remove, kqueue_empty}
use ittrium.Rdyq.{
  rdyq_init, rdyq_insert, rdyq_bitmap_set, rdyq_remove, line_emptied, rdyq_bitmap_clear,
  scan_bitmap, rdyq_top, ffs, ffs_loop,
}
use ittrium.Timer.{timer_insert, enqueue_tmeb, timer_delete}
use ittrium.Wait.{
  obj_make_wait, make_wait, leave_running, wait_release_ok, wait_release, task_leave_wait,
}
use ittrium.Task.{task_initialize, task_make_ready, task_make_unready, task_make_dormant}
use ittrium.Dispatch.{dispatch, dispatch_if_ok, dispatch_ercd}
use ittrium.Eventflag.{eventflag_initialize}
use ittrium.Semaphore.{semaphore_initialize, twai_sem, pol_sem, sig_sem_core}
use ittrium.Mailbox.{mailbox_initialize}
use ittrium.Tick.{timer_initialize}
use ittrium.Manage.{TCtsk, cre_tsk, act_tsk, act_tsk_core}
use ittrium.Boot.{main, initialize}

instance abbrev pub demo_config : Config
demo_config = record {
  tmax_tpri = 13;
  tmax_tskid = 3;
  trsv_tskid = 2;
  tmax_actcnt = 15;
  tmax_semid = 2;
  trsv_semid = 1;
  tmax_maxsem = 16;
  tmax_flgid = 1;
  trsv_flgid = 0;
  tmax_mbxid = 1;
  trsv_mbxid = 0;
  tic_deno = 1000;
  max_msgs = 8;
}

abbrev pub zero_tcb : Tcb
zero_tcb = record {
  task = 0;
  stk = 0;
  stksz = 0;
  stk_base = 0;
  run_ticks = 0;
  tskid = 0;
  exinf = 0;
  tskatr = 0;
  name = [];
  itskpri = 0;
  tskpri = 0;
  actcnt = 0;
  state = Stat.noexs;
  wait_obj = null;
  waiptn = 0;
  wfmode = 0;
  p_flgptn = 0;
  ppk_msg = 0;
  ercd = Er.e_ok;
  tskwait = Ttw.ttw_none;
  wupcnt = 0;
  suscnt = 0;
}

abbrev pub zero_kernel : Kernel
zero_kernel = record {
  links = record { next = λ _. null; prev = λ _. null };
  tcb = λ _. zero_tcb;
  tmeb = λ _. record { count = 0; callback = Callback.no_callback; arg = null };
  top_priority = 0;
  bitmap = λ _. 0;
  runtsk = null;
  schedtsk = null;
  obj = λ _. record { objid = 0; objatr = 0; state = Stat.noexs };
  semcnt = λ _. 0;
  maxsem = λ _. 0;
  flgptn = λ _. 0;
  mq_head = λ _. 0;
  mq_tail = λ _. 0;
  msg_next = λ _. 0;
  msgpri = λ _. pos 0;
  flg_mem = λ _. 0;
  msg_mem = λ _. 0;
  wall_ticks = 0;
  idle_ticks = 0;
  st_low = 0;
  st_high = 0;
  timer_nesting = 0;
  int_nesting = 0;
}

abbrev pub init_task : TCtsk
init_task = record {
  tskatr = 0;
  exinf = 0;
  task = 1;
  itskpri = pos 1;
  stksz = 64;
  stk = 100;
  name = none;
}

-- What runs when the kernel boots and tasks are started.
pub runs : Unit {0}
unfolding main initialize task_initialize timer_initialize eventflag_initialize semaphore_initialize
    mailbox_initialize rdyq_init cre_tsk act_tsk act_tsk_core dispatch_if_ok dispatch
    task_make_ready task_make_dormant rdyq_insert rdyq_bitmap_set kqueue_init kqueue_insert
    kqueue_remove task_make_unready rdyq_remove line_emptied rdyq_bitmap_clear scan_bitmap rdyq_top
    ffs ffs_loop kqueue_empty twai_sem pol_sem sig_sem_core obj_make_wait make_wait leave_running
    timer_insert enqueue_tmeb dispatch_ercd wait_release_ok wait_release timer_delete
    task_leave_wait update node_discrete index_of ℕ_discrete
runs = tt

pub booted : Kernel
booted = main (pos 1) init_task zero_kernel

booted_runs :
    (booted.runtsk ≡ qnode 0) × (booted.top_priority ≡ 0) × (booted.links.next free_tcb ≡ qnode 1)
unfolding booted runs
booted_runs = (refl, refl, refl)
