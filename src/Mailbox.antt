-- ===== src/Mailbox.antt =====
-- kernel/mailbox.c. A message packet is a number other than 0, which stands for a null pointer. The
-- loop over a message queue takes as fuel the number of packets that the application has, `max_msgs`.
pub mod Fifo
pub mod Priority
use Prim.Native.Nat.{bit_and}
use ittrium.Common.{
  ℕ, zero, suc, ◌+◌, Bool, ◌&&◌, ◌||◌, not, Option, none, some, ◌==◌, if◌then◌else◌, put,
}
use ittrium.Common.Int.{ℤ, pos, ltb_ℤ}
use ittrium.Node.{Node, mbxq, update}
use ittrium.KQueue
use ittrium.Types.{
  Config, Kernel, Stat, Er, ErId, e_ok, e_rsatr, e_par, e_id, e_obj, e_noexs, e_noid, err, new_id,
  index_of,
}
use ittrium.Rdyq.{set_tcb, on_links}
use ittrium.Timer.{tmo_pol, tmo_fevr, is_pol}
use ittrium.Wait.{obj_make_wait, wait_release_ok, wait_delete, wait_tskid}
use ittrium.Dispatch.{Outcome, ret, dispatch_ercd, dispatch_ret, dispatch_if_ok}
use ittrium.Semaphore.{set_obj}
use ittrium.Eventflag.{ercd_now}

abbrev pub get_mbxcb_by_id : ℤ → Node
get_mbxcb_by_id id = mbxq (index_of id)

-- A T_MSG: the member `mq_head` of a mailbox, or a packet.
pub data MsgAddr : Type 0 where
  head_of : Node → MsgAddr
  packet : ℕ → MsgAddr

abbrev pub nextmsg : MsgAddr → Kernel → ℕ
nextmsg (head_of o) s = s.mq_head o
nextmsg (packet m) s = s.msg_next m

abbrev pub set_nextmsg : MsgAddr → ℕ → Kernel → Kernel
set_nextmsg (head_of o) v s = record s { mq_head = update s.mq_head o v }
set_nextmsg (packet m) v s = record s { msg_next = put s.msg_next m v }

abbrev pub headmsg : Node → Kernel → ℕ
headmsg o s = s.mq_head o

init_mbxcb : ℕ → Kernel → Kernel
init_mbxcb i s =
    on_links (KQueue.kqueue_init (mbxq i))
      (set_obj (mbxq i) (record (s.obj (mbxq i)) { objid = i + 1; state = Stat.noexs }) s)

init_mbxcbs : ℕ → Kernel → Kernel
unfolding init_mbxcb
init_mbxcbs zero s = s
init_mbxcbs (suc n) s = init_mbxcb n (init_mbxcbs n s)

-- The loop of kqueue_insert_mpri: the last T_MSG before the place of a message of priority `pri`; it
-- stands still when the fuel is out.
unfoldable pub mpri_loop : ℕ → ℤ → MsgAddr → Kernel → MsgAddr
mpri_loop zero pri prevmsg s = prevmsg
mpri_loop (suc fuel) pri prevmsg s =
    let msg = nextmsg prevmsg s in
    let rest = mpri_loop fuel pri (packet msg) s in
    if msg == 0 then prevmsg else if ltb_ℤ pri (s.msgpri msg) then prevmsg else rest

-- TA_MPRI is 3.
abbrev pub ta_mpri : ℕ → Bool
ta_mpri objatr = not (bit_and objatr 3 == 0)

module _ ⦃c : Config⦄ where
  unfoldable pub kqueue_insert_mpri : ℕ → MsgAddr → Kernel → Kernel
  kqueue_insert_mpri m head s =
      let prevmsg = mpri_loop (c.max_msgs + 1) (s.msgpri m) head s in
      set_nextmsg prevmsg m (set_nextmsg (packet m) (nextmsg prevmsg s) s)

  abbrev pub tnum_mbxid : ℕ
  tnum_mbxid = c.tmax_mbxid + c.trsv_mbxid

  unfoldable pub mailbox_initialize : Kernel → Kernel
  unfolding init_mbxcbs
  mailbox_initialize s = init_mbxcbs tnum_mbxid s

  abbrev pub bad_mbxid : ℤ → Bool
  bad_mbxid id = ltb_ℤ id (pos 1) || ltb_ℤ (pos tnum_mbxid) id

  unfoldable pub cre_mbx_core : ℤ → ℕ → Kernel → Kernel × Er
  cre_mbx_core mbxid mbxatr s =
      if not (mbxatr == bit_and mbxatr 3)
      then (s, e_rsatr)
      else let o = get_mbxcb_by_id mbxid in
        elim ((s.obj o).state) [
          | Stat.noexs ↦
              let s1 = on_links (KQueue.kqueue_init o) s in
              let s2 = set_obj o (record (s1.obj o) { objatr = mbxatr; state = Stat.rdy }) s1 in
              (set_nextmsg (head_of o) 0 s2, e_ok)
          | _ ↦ (s, e_obj)
        ]

  unfoldable pub cre_mbx : ℤ → ℕ → Kernel → Kernel × Er
  cre_mbx mbxid mbxatr s = if bad_mbxid mbxid then (s, e_id) else cre_mbx_core mbxid mbxatr s

  -- The loop of acre_mbx over `n` IDs from `i` on.
  acre_mbx_loop : ℕ → ℕ → ℕ → Kernel → Kernel × ErId
  acre_mbx_loop zero i mbxatr s = (s, err e_noid)
  acre_mbx_loop (suc n) i mbxatr s =
      let rest = acre_mbx_loop n (i + 1) mbxatr s in
      elim ((s.obj (get_mbxcb_by_id (pos i))).state) [
        | Stat.noexs ↦
            let (s1, er) = cre_mbx_core (pos i) mbxatr s in
            elim er [ Er.e_ok ↦ (s1, new_id (pos i)) | e ↦ (s1, err e) ]
        | _ ↦ rest
      ]

  unfoldable pub acre_mbx : ℕ → Kernel → Kernel × ErId
  unfolding acre_mbx_loop
  acre_mbx mbxatr s = acre_mbx_loop c.trsv_mbxid (c.tmax_mbxid + 1) mbxatr s

  -- The link of a packet to the end of the queue of a mailbox that is not TA_MPRI.
  unfoldable pub link_last : Node → ℕ → Kernel → Kernel
  link_last o m s =
      let s1 = set_nextmsg (packet m) 0 s in
      let s2 : Kernel =
        if headmsg o s1 == 0
        then set_nextmsg (head_of o) m s1
        else set_nextmsg (packet (s1.mq_tail o)) m s1 in
      record s2 { mq_tail = update s2.mq_tail o m }

  -- __snd_mbx on an existing mailbox, behind the test of the priority.
  unfoldable pub deliver : Node → ℕ → Kernel → Kernel
  deliver o m s =
      if not (KQueue.kqueue_empty o s.links)
      then (let t = s.links.next o in
          wait_release_ok t (record s { msg_mem = put s.msg_mem (s.tcb t).ppk_msg m }))
      else if ta_mpri (s.obj o).objatr
      then kqueue_insert_mpri m (head_of o) s
      else link_last o m s

  unfoldable pub snd_mbx_core : ℤ → ℕ → Kernel → Kernel × Er
  snd_mbx_core mbxid m s =
      if bad_mbxid mbxid
      then (s, e_id)
      else let o = get_mbxcb_by_id mbxid in
        elim ((s.obj o).state) [
          | Stat.noexs ↦ (s, e_noexs)
          | _ ↦
              if ta_mpri (s.obj o).objatr && ltb_ℤ (s.msgpri m) (pos 1)
              then (s, e_par)
              else (deliver o m s, e_ok)
        ]

  unfoldable pub snd_mbx : ℤ → ℕ → Kernel → Kernel × Outcome
  snd_mbx mbxid m s = let (s1, ercd) = snd_mbx_core mbxid m s in dispatch_ret ercd s1

  -- __rcv_mbx on an existing mailbox.
  unfoldable pub receive : Node → ℕ → ℤ → Kernel → Kernel × Outcome
  receive o ppk_msg tmout s =
      if not (headmsg o s == 0)
      then (let m = headmsg o s in
          ercd_now e_ok (
            set_nextmsg (head_of o) (nextmsg (packet m) s)
              (record s { msg_mem = put s.msg_mem ppk_msg m })))
      else if is_pol tmout
      then ercd_now Er.e_tmout s
      else dispatch_ercd (
          obj_make_wait o tmout
            (set_tcb s.runtsk (record (s.tcb s.runtsk) { ercd = Er.e_tmout; ppk_msg = ppk_msg }) s))

  unfoldable pub trcv_mbx : ℤ → ℕ → ℤ → Kernel → Kernel × Outcome
  trcv_mbx mbxid ppk_msg tmout s =
      if bad_mbxid mbxid
      then (s, ret e_id)
      else if ltb_ℤ tmout tmo_fevr
      then (s, ret e_par)
      else let o = get_mbxcb_by_id mbxid in
        elim ((s.obj o).state) [ Stat.noexs ↦ ercd_now e_noexs s | _ ↦ receive o ppk_msg tmout s ]

  unfoldable pub rcv_mbx : ℤ → ℕ → Kernel → Kernel × Outcome
  rcv_mbx mbxid ppk_msg s = trcv_mbx mbxid ppk_msg tmo_fevr s

  unfoldable pub prcv_mbx : ℤ → ℕ → Kernel → Kernel × Outcome
  prcv_mbx mbxid ppk_msg s = trcv_mbx mbxid ppk_msg tmo_pol s

  -- With the T_RMBX that is filled in.
  unfoldable pub ref_mbx : ℤ → Kernel → Er × Option (ℕ × ℕ)
  ref_mbx mbxid s =
      if bad_mbxid mbxid
      then (e_id, none)
      else let o = get_mbxcb_by_id mbxid in
        elim ((s.obj o).state) [
          | Stat.noexs ↦ (e_noexs, none)
          | _ ↦ (e_ok, some (wait_tskid o s, headmsg o s))
        ]

  unfoldable pub del_mbx : ℤ → Kernel → Kernel × Outcome
  del_mbx mbxid s =
      if bad_mbxid mbxid
      then (s, ret e_id)
      else let o = get_mbxcb_by_id mbxid in
        dispatch_if_ok (elim ((s.obj o).state) [
          | Stat.noexs ↦ (s, e_noexs)
          | _ ↦
              let s1 = wait_delete o s in
              let s2 = set_obj o (record (s1.obj o) { state = Stat.noexs }) s1 in
              (set_nextmsg (head_of o) 0 s2, e_ok)
        ])
