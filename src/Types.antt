-- ===== src/Types.antt =====
-- The data that the kernel keeps (include/ittrium.h, kernel/task.h, kernel/timer.h, kernel/waitinfo.h,
-- kernel/rdyq.h and the control blocks of kernel/semaphore.c, kernel/eventflags.c, kernel/mailbox.c).
use ittrium.Common.{ℕ, zero, suc, ◌-◌, Bool, true, false, List}
use ittrium.Common.Int.{ℤ, pos, negsuc}
use ittrium.Node.{Node, null, qnode, wtmeb}
use ittrium.KQueue.{Links}

-- The ER codes of include/ittrium.h that the kernel returns.
pub data Er : Type 0 where
  e_ok e_rsatr e_par e_id e_iluse e_nomem e_noid e_obj e_noexs e_qovr e_tmout e_dlt : Er

-- An ER_ID: a negative code, or an ID number.
pub data ErId : Type 0 where
  err : Er → ErId
  new_id : ℤ → ErId

-- STAT, the TTS_ states.
pub data Stat : Type 0 where
  noexs run rdy wai sus was dmt : Stat

-- `state & TTS_WAI`, which TTS_WAI (0x04) and TTS_WAS (0x0c) pass.
abbrev pub is_wai : Stat → Bool
is_wai Stat.wai = true
is_wai Stat.was = true
is_wai _ = false

-- `tskwait`: 0 or one of the TTW_ codes that the kernel stores.
pub data Ttw : Type 0 where
  ttw_none ttw_slp ttw_dly : Ttw

-- The expiry function of a timer event, and the TCB that it is given.
pub data Callback : Type 0 where
  no_callback : Callback
  release_tmout : Callback

pub record Tmeb : Type 0 where
  pub count : ℕ
  pub callback : Callback
  pub arg : Node

-- The task control block. The context, the stacks' contents and the members that no modelled function
-- reads are left out; `waiptn`, `wfmode`, `p_flgptn` and `ppk_msg` are the two cases of `waitinfo`.
pub record Tcb : Type 0 where
  pub task : ℕ
  pub stk : ℕ
  pub stksz : ℕ
  pub stk_base : ℕ
  pub run_ticks : ℕ
  pub tskid : ℕ
  pub exinf : ℕ
  pub tskatr : ℕ
  pub name : List ℕ
  pub itskpri : ℕ
  pub tskpri : ℕ
  pub actcnt : ℕ
  pub state : Stat
  pub wait_obj : Node
  pub waiptn : ℕ
  pub wfmode : ℕ
  pub p_flgptn : ℕ
  pub ppk_msg : ℕ
  pub ercd : Er
  pub tskwait : Ttw
  pub wupcnt : ℕ
  pub suscnt : ℕ

-- The object control block that semaphores, eventflags and mailboxes begin with.
pub record Objcb : Type 0 where
  pub objid : ℕ
  pub objatr : ℕ
  pub state : Stat

-- What kernel_config.h chooses.
pub record Config : Type 0 where
  pub tmax_tpri : ℕ
  pub tmax_tskid : ℕ
  pub trsv_tskid : ℕ
  pub tmax_actcnt : ℕ
  pub tmax_semid : ℕ
  pub trsv_semid : ℕ
  pub tmax_maxsem : ℕ
  pub tmax_flgid : ℕ
  pub trsv_flgid : ℕ
  pub tmax_mbxid : ℕ
  pub trsv_mbxid : ℕ
  pub tic_deno : ℕ
  pub max_msgs : ℕ

-- The kernel's global variables. `links` holds the KQUEUE members at every address, `tcb`, `tmeb` and
-- `obj` the blocks by address, `semcnt` to `mq_tail` the members behind `obj` in the three kinds of
-- control block. A message is a number other than 0, `msg_next` its header link and `msgpri` its
-- priority; `flg_mem` and `msg_mem` are the callers' variables that results are stored in.
pub record Kernel : Type 0 where
  pub links : Links
  pub tcb : Node → Tcb
  pub tmeb : Node → Tmeb
  pub top_priority : ℕ
  pub bitmap : ℕ → ℕ
  pub runtsk : Node
  pub schedtsk : Node
  pub obj : Node → Objcb
  pub semcnt : Node → ℕ
  pub maxsem : Node → ℕ
  pub flgptn : Node → ℕ
  pub mq_head : Node → ℕ
  pub mq_tail : Node → ℕ
  pub msg_next : ℕ → ℕ
  pub msgpri : ℕ → ℤ
  pub flg_mem : ℕ → ℕ
  pub msg_mem : ℕ → ℕ
  pub wall_ticks : ℕ
  pub idle_ticks : ℕ
  pub st_low : ℕ
  pub st_high : ℕ
  pub timer_nesting : ℕ
  pub int_nesting : ℕ

-- `&tcb->wtmeb`
abbrev pub event_of : Node → Node
event_of (qnode i) = wtmeb i
event_of _ = null

-- `(id) - TMIN_TSKID`, `(x) - TMIN_TPRI` and the like, which all subtract 1, as a 16-bit pattern: an
-- ID or a priority below 1 gives an index beyond every table.
unfoldable pub index_of : ℤ → ℕ
index_of (pos zero) = 65535
index_of (pos (suc n)) = n
index_of (negsuc n) = 65534 - n
