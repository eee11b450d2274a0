-- ===== src/Semaphore.antt =====
-- kernel/semaphore.c.
pub mod Signal
pub mod Counts
pub mod Block
use Prim.Native.Nat.{bit_and}
use ittrium.Common.{
  ℕ, zero, suc, ◌+◌, ◌-◌, ◌||◌, not, Bool, Option, none, some, leb, ltb, ◌==◌, if◌then◌else◌,
}
use ittrium.Common.Int.{ℤ, pos, ltb_ℤ}
use ittrium.Node.{Node, semq, free_semcb, update}
use ittrium.KQueue
use ittrium.Types.{
  Config, Kernel, Objcb, Stat, Er, ErId, e_ok, e_rsatr, e_par, e_id, e_obj, e_noexs, e_qovr, e_noid,
  err, new_id, index_of,
}
use ittrium.Rdyq.{set_tcb, on_links}
use ittrium.Timer.{tmo_pol, tmo_fevr, is_pol}
use ittrium.Wait.{obj_make_wait, wait_release_ok, wait_delete, wait_tskid}
use ittrium.Dispatch.{Outcome, ret, dispatch_ercd, dispatch_ret, dispatch_if_ok}

-- T_CSEM
pub record TCsem : Type 0 where
  pub sematr : ℕ
  pub isemcnt : ℕ
  pub maxsem : ℕ

abbrev pub get_semcb_by_id : ℤ → Node
get_semcb_by_id id = semq (index_of id)

abbrev pub set_obj : Node → Objcb → Kernel → Kernel
set_obj o b s = record s { obj = update s.obj o b }

abbrev pub set_semcnt : Node → ℕ → Kernel → Kernel
set_semcnt o n s = record s { semcnt = update s.semcnt o n }

init_semcb : ℕ → Kernel → Kernel
init_semcb i s =
    on_links (KQueue.kqueue_insert (semq i) free_semcb)
      (set_obj (semq i) (record (s.obj (semq i)) { objid = i; state = Stat.noexs }) s)

init_semcbs : ℕ → Kernel → Kernel
unfolding init_semcb
init_semcbs zero s = s
init_semcbs (suc n) s = init_semcb n (init_semcbs n s)

module _ ⦃c : Config⦄ where
  abbrev pub tnum_semid : ℕ
  tnum_semid = c.tmax_semid + c.trsv_semid

  unfoldable pub semaphore_initialize : Kernel → Kernel
  unfolding init_semcbs
  semaphore_initialize s = init_semcbs tnum_semid (on_links (KQueue.kqueue_init free_semcb) s)

  abbrev pub bad_semid : ℤ → Bool
  bad_semid id = ltb_ℤ id (pos 1) || ltb_ℤ (pos tnum_semid) id

  unfoldable pub cre_sem_core : ℤ → TCsem → Kernel → Kernel × Er
  cre_sem_core semid pk s =
      if not (bit_and pk.sematr 1 == pk.sematr)
      then (s, e_rsatr)
      else if ltb c.tmax_maxsem pk.maxsem || ltb c.tmax_maxsem pk.isemcnt
      then (s, e_par)
      else let o = get_semcb_by_id semid in
        elim ((s.obj o).state) [
          | Stat.noexs ↦
              let s1 = on_links (KQueue.kqueue_remove o) s in
              let s2 = on_links (KQueue.kqueue_init o) s1 in
              let s3 = set_obj o (record (s2.obj o) { objatr = pk.sematr; state = Stat.rdy }) s2 in
              (record (set_semcnt o pk.isemcnt s3) { maxsem = update s3.maxsem o pk.maxsem }, e_ok)
          | _ ↦ (s, e_obj)
        ]

  unfoldable pub cre_sem : ℤ → TCsem → Kernel → Kernel × Er
  cre_sem semid pk s = if bad_semid semid then (s, e_id) else cre_sem_core semid pk s

  -- The loop of acre_sem over `n` IDs from `i` on.
  acre_sem_loop : ℕ → ℕ → TCsem → Kernel → Kernel × ErId
  acre_sem_loop zero i pk s = (s, err e_noid)
  acre_sem_loop (suc n) i pk s =
      let rest = acre_sem_loop n (i + 1) pk s in
      elim ((s.obj (get_semcb_by_id (pos i))).state) [
        | Stat.noexs ↦
            let (s1, er) = cre_sem_core (pos i) pk s in
            elim er [ Er.e_ok ↦ (s1, new_id (pos i)) | e ↦ (s1, err e) ]
        | _ ↦ rest
      ]

  unfoldable pub acre_sem : TCsem → Kernel → Kernel × ErId
  unfolding acre_sem_loop
  acre_sem pk s = acre_sem_loop c.trsv_semid (c.tmax_semid + 1) pk s

  unfoldable pub twai_sem : ℤ → ℤ → Kernel → Kernel × Outcome
  twai_sem semid tmout s =
      if bad_semid semid
      then (s, ret e_id)
      else let o = get_semcb_by_id semid in
        let t = s.runtsk in
        elim ((s.obj o).state) [
          | Stat.noexs ↦ (s, ret e_obj)
          | _ ↦
              if ltb 0 (s.semcnt o)
              then dispatch_ercd (
                  set_tcb t (record (s.tcb t) { ercd = Er.e_ok }) (set_semcnt o (s.semcnt o - 1) s))
              else let s1 = set_tcb t (record (s.tcb t) { ercd = Er.e_tmout }) s in
                dispatch_ercd (if is_pol tmout then s1 else obj_make_wait o tmout s1)
        ]

  unfoldable pub wai_sem : ℤ → Kernel → Kernel × Outcome
  wai_sem semid s = twai_sem semid tmo_fevr s

  unfoldable pub pol_sem : ℤ → Kernel → Kernel × Outcome
  pol_sem semid s = twai_sem semid tmo_pol s

  unfoldable pub sig_sem_core : ℤ → Kernel → Kernel × Er
  sig_sem_core semid s =
      if bad_semid semid
      then (s, e_id)
      else let o = get_semcb_by_id semid in
        elim ((s.obj o).state) [
          | Stat.noexs ↦ (s, e_obj)
          | _ ↦
              if not (KQueue.kqueue_empty o s.links)
              then (wait_release_ok (s.links.next o) s, e_ok)
              else if leb (s.maxsem o) (s.semcnt o)
              then (s, e_qovr)
              else (set_semcnt o (s.semcnt o + 1) s, e_ok)
        ]

  unfoldable pub sig_sem : ℤ → Kernel → Kernel × Outcome
  sig_sem semid s = let (s1, ercd) = sig_sem_core semid s in dispatch_ret ercd s1

  unfoldable pub isig_sem : ℤ → Kernel → Kernel × Er
  isig_sem semid s = sig_sem_core semid s

  unfoldable pub del_sem : ℤ → Kernel → Kernel × Outcome
  del_sem semid s =
      if bad_semid semid
      then (s, ret e_id)
      else let o = get_semcb_by_id semid in
        dispatch_if_ok (elim ((s.obj o).state) [
          | Stat.noexs ↦ (s, e_noexs)
          | _ ↦
              let s1 = wait_delete o s in
              let s2 = set_obj o (record (s1.obj o) { state = Stat.noexs }) s1 in
              (on_links (KQueue.kqueue_insert o free_semcb) (set_semcnt o 0 s2), e_ok)
        ])

  -- With the T_RSEM that is filled in: the first waiting task's ID, and the count.
  unfoldable pub ref_sem : ℤ → Kernel → Er × Option (ℕ × ℕ)
  ref_sem semid s =
      if bad_semid semid
      then (e_id, none)
      else let o = get_semcb_by_id semid in
        elim ((s.obj o).state) [
          | Stat.noexs ↦ (e_noexs, none)
          | _ ↦ (e_ok, some (wait_tskid o s, s.semcnt o))
        ]
