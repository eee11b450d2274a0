-- ===== src/Semaphore/Block.antt =====
-- __wai_sem of kernel/semaphore.c when the count is 0 and the caller may wait.
use ittrium.Common.{
  ℕ, ◌<◌, ◌≡◌, ◌≢◌, ◌∙◌, refl, sym, ap, subst, false, Option, none, some, List, [], ◌∷◌, ◌++◌,
}
use ittrium.Common.Int.{ℤ}
use ittrium.Node.{Node, priq, timer_queue, update, update-same}
use ittrium.Types.{Config, Kernel, Tcb, Stat, Er, event_of}
use ittrium.Rdyq.{set_tcb}
use ittrium.Task.Schedule.{IsScheduled, set_tcb-IsScheduled}
use ittrium.Timer.{is_pol}
use ittrium.Dispatch.{dispatch}
use ittrium.Dispatch.Running.{dispatch-IsScheduled, dispatch_ercd-state}
use ittrium.Wait.{obj_make_wait, ta_tpri}
use ittrium.Wait.Fifo.{away_own, away_items, obj_make_wait-IsScheduled}
use ittrium.Semaphore.{twai_sem, bad_semid, get_semcb_by_id}

module _ ⦃c : Config⦄ {s : Kernel} {own : Node → Option Node} {items : Node → List Node}
    (k : IsScheduled s own items) (id : ℤ) (tmout : ℤ) where
  abbrev o : Node
  o = get_semcb_by_id id

  abbrev t : Node
  t = s.runtsk

  abbrev b : Tcb
  b = record (s.tcb t) { ercd = Er.e_tmout }

  abbrev s1 : Kernel
  s1 = set_tcb t b s

  twai_sem-blocks :
      bad_semid id ≡ false
      → (s.obj o).state ≡ Stat.rdy
      → s.semcnt o ≡ 0
      → is_pol tmout ≡ false
      → (twai_sem id tmout s).0 ≡ dispatch (obj_make_wait o tmout s1)
  unfolding twai_sem
  twai_sem-blocks good exists zero waits =
      rw (good, exists, zero, waits) (dispatch_ercd-state (obj_make_wait o tmout s1))

  -- On an existing semaphore with a valid ID, FIFO order and count 0, a twai_sem that may wait, by
  -- a running task that is ready at a fitting priority and whose timer event stands in no queue,
  -- takes the task from its line, arms its event unless the wait is endless, appends it to the wait
  -- queue, and leaves the ready queue consistent and schedtsk on the best ready task.
  pub twai_sem-IsScheduled :
      bad_semid id ≡ false
      → (s.obj o).state ≡ Stat.rdy
      → s.semcnt o ≡ 0
      → is_pol tmout ≡ false
      → ta_tpri (s.obj o).objatr ≡ false
      → own o ≡ some o
      → own timer_queue ≡ some timer_queue
      → own (event_of t) ≡ none
      → event_of t ≢ priq c.tmax_tpri
      → (s.tcb t).state ≡ Stat.rdy
      → (s.tcb t).tskpri < c.tmax_tpri
      → (xs ys : List Node) → items (priq (s.tcb t).tskpri) ≡ xs ++ t ∷ ys
      → let away = away_items tmout t (s.tcb t).tskpri (xs ++ ys) items in
        IsScheduled
          (twai_sem id tmout s).0
          (update (away_own tmout t own) t (some o))
          (update away o (away o ++ t ∷ []))
  twai_sem-IsScheduled good exists zero waits fifo head timers idle event ready fits xs ys here =
      let same : s1.tcb t ≡ b = update-same s.tcb t b in
      let moved : items (priq (s1.tcb t).tskpri) ≡ xs ++ t ∷ ys =
        ap (λ v. items (priq v.tskpri)) same ∙ here in
      let away : ℕ → Node → List Node = λ p. away_items tmout t p (xs ++ ys) items in
      let done =
        obj_make_wait-IsScheduled (set_tcb-IsScheduled s t b refl k)
          (ap (λ v. v.state) same ∙ ready) xs ys
          (subst (λ v. v.tskpri < c.tmax_tpri) (sym same) fits) moved tmout idle event timers o head
          (λ p e. cc (e)) fifo in
      subst
        (λ u.
          IsScheduled u (update (away_own tmout t own) t (some o))
            (update (away (s.tcb t).tskpri) o (away (s.tcb t).tskpri o ++ t ∷ [])))
        (sym (twai_sem-blocks good exists zero waits))
        (dispatch-IsScheduled (obj_make_wait o tmout s1) (
          subst
            (λ v.
              IsScheduled (obj_make_wait o tmout s1) (update (away_own tmout t own) t (some o))
                (update (away v.tskpri) o (away v.tskpri o ++ t ∷ [])))
            same done))
