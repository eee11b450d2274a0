-- ===== src/Wait/Release.antt =====
-- wait_release, wait_release_ok and task_leave_wait of kernel/wait.h and kernel/wait.c.
use ittrium.Common.{
  ◌<◌, ◌≡◌, ◌≢◌, ◌∙◌, refl, sym, ap, subst, Option, none, some, List, [], ltb, ◌∷◌, ◌++◌,
  Bool-cases, inl, inr,
}
use ittrium.Node.{Node, priq, update, update-same, update-update}
use ittrium.KQueue.{kqueue_remove}
use ittrium.Types.{Config, Kernel, Tcb, Stat, Er, Ttw, event_of}
use ittrium.Rdyq.{set_tcb, on_links, rdyq_insert, rdyq_bitmap_set}
use ittrium.Task.{task_make_ready}
use ittrium.Task.Schedule.{IsScheduled, set_tcb-IsScheduled, task_make_ready-IsScheduled}
use ittrium.Timer.{timer_delete}
use ittrium.Wait.{task_leave_wait, wait_release, wait_release_ok}
use ittrium.Wait.Place.{Place, without, remove-IsScheduled, without-line}

module _ ⦃c : Config⦄ where
  -- A task that becomes ready changes in its state only, and no object changes.
  pub make_ready-parts :
      (t : Node) (s : Kernel)
      → ((task_make_ready t s).tcb ≡ update s.tcb t (record (s.tcb t) { state = Stat.rdy }))
        × ((task_make_ready t s).semcnt ≡ s.semcnt)
        × ((task_make_ready t s).maxsem ≡ s.maxsem)
        × ((task_make_ready t s).obj ≡ s.obj)
        × ((task_make_ready t s).runtsk ≡ s.runtsk)
  unfolding task_make_ready rdyq_insert rdyq_bitmap_set
  make_ready-parts t s =
      elim (Bool-cases
        (ltb (update s.tcb t (record (s.tcb t) { state = Stat.rdy }) t).tskpri s.top_priority)) [
          | inl e ↦ rw e (refl, refl, refl, refl, refl)
          | inr e ↦ rw e (refl, refl, refl, refl, refl)
        ]

  -- The block of a task that leaves its wait with success.
  abbrev pub released_tcb : Tcb → Tcb
  released_tcb b = record b { ercd = Er.e_ok; tskwait = Ttw.ttw_none; state = Stat.rdy }

  abbrev awake : Node → Kernel → Kernel
  awake t s = set_tcb t (record (s.tcb t) { tskwait = Ttw.ttw_none }) s

  leave_wait-wai :
      (t : Node) (s : Kernel)
      → (s.tcb t).state ≡ Stat.wai
      → task_leave_wait t s ≡ task_make_ready t (awake t s)
  unfolding task_leave_wait
  leave_wait-wai t s w =
      let q : ((awake t s).tcb t).state ≡ Stat.wai =
        ap (λ b. b.state) (update-same s.tcb t (record (s.tcb t) { tskwait = Ttw.ttw_none })) ∙ w in
      rw (q, task_leave_wait)

  module _ {s : Kernel} {own : Node → Option Node} {items : Node → List Node}
      (k : IsScheduled s own items) (t : Node) where
    -- A waiting task that stands in no queue becomes ready.
    pub task_leave_wait-IsScheduled :
        (s.tcb t).state ≡ Stat.wai
        → own t ≡ none
        → t ≢ priq c.tmax_tpri
        → (s.tcb t).tskpri < c.tmax_tpri
        → IsScheduled
            (task_leave_wait t s)
            (update own t (some (priq (s.tcb t).tskpri)))
            (update items (priq (s.tcb t).tskpri) (items (priq (s.tcb t).tskpri) ++ t ∷ []))
    task_leave_wait-IsScheduled w loose task fits =
        let b : Tcb = record (s.tcb t) { tskwait = Ttw.ttw_none } in
        let same : ((awake t s).tcb t).tskpri ≡ (s.tcb t).tskpri =
          ap (λ b. b.tskpri) (update-same s.tcb t b) in
        let done =
          task_make_ready-IsScheduled (set_tcb-IsScheduled s t b refl k) t loose task
            (subst (λ p. p < c.tmax_tpri) (sym same) fits) in
        subst
          (λ r.
            IsScheduled r (update own t (some (priq (s.tcb t).tskpri)))
              (update items (priq (s.tcb t).tskpri) (items (priq (s.tcb t).tskpri) ++ t ∷ [])))
          (sym (leave_wait-wai t s w))
          (subst
            (λ p.
              IsScheduled (task_make_ready t (awake t s)) (update own t (some (priq p)))
                (update items (priq p) (items (priq p) ++ t ∷ [])))
            same done)

  module _ {s : Kernel} {own : Node → Option Node} {items : Node → List Node}
      (k : IsScheduled s own items) (t : Node) where
    -- If t is in the waiting state at a fitting priority, is not the address behind the last line,
    -- and its timer event and, after the removal of that, t itself stand in a queue that is no
    -- ready line or are linked to themselves, wait_release_ok takes both out, appends t to the
    -- ready line of its priority, and leaves the ready queue consistent and schedtsk on the best
    -- ready task.
    pub wait_release_ok-IsScheduled :
        (event : Place s.links own items (event_of t))
        → (wait : Place
            (kqueue_remove (event_of t) s.links)
            (update own (event_of t) none)
            (without event)
            t)
        → (s.tcb t).state ≡ Stat.wai
        → t ≢ priq c.tmax_tpri
        → (s.tcb t).tskpri < c.tmax_tpri
        → IsScheduled
            (wait_release_ok t s)
            (update (update own (event_of t) none) t (some (priq (s.tcb t).tskpri)))
            (update
              (without wait)
              (priq (s.tcb t).tskpri)
              (items (priq (s.tcb t).tskpri) ++ t ∷ []))
    unfolding wait_release_ok wait_release timer_delete
    wait_release_ok-IsScheduled event wait w task fits =
        let b : Tcb = record (s.tcb t) { ercd = Er.e_ok } in
        let same : (update s.tcb t b t) ≡ b = update-same s.tcb t b in
        let k2 =
          remove-IsScheduled
            (remove-IsScheduled (set_tcb-IsScheduled s t b refl k) (event_of t) event) t wait in
        let done =
          task_leave_wait-IsScheduled k2 t (ap (λ b. b.state) same ∙ w)
            (update-same (update own (event_of t) none) t none) task
            (subst (λ b. b.tskpri < c.tmax_tpri) (sym same) fits) in
        subst
          (λ o. IsScheduled (wait_release_ok t s) o (
            update (without wait) (priq (s.tcb t).tskpri)
              (items (priq (s.tcb t).tskpri) ++ t ∷ [])))
          (update-update (update own (event_of t) none) t none (some (priq (s.tcb t).tskpri)))
          (subst
            (λ l.
              IsScheduled (wait_release_ok t s)
                (update (update (update own (event_of t) none) t none) t
                  (some (priq (s.tcb t).tskpri)))
                (update (without wait) (priq (s.tcb t).tskpri) (l ++ t ∷ [])))
            (without-line wait (s.tcb t).tskpri ∙ without-line event (s.tcb t).tskpri)
            (subst
              (λ b.
                IsScheduled (wait_release_ok t s)
                  (update (update (update own (event_of t) none) t none) t (some (priq b.tskpri)))
                  (update (without wait) (priq b.tskpri) (without wait (priq b.tskpri) ++ t ∷ [])))
              same done))

  -- The switch of task_leave_wait on the state.
  leave_switch : Stat → Node → Kernel → Kernel
  leave_switch st t s = elim st [
    | Stat.wai ↦ task_make_ready t s
    | _ ↦ set_tcb t (record (s.tcb t) { state = Stat.sus }) s
  ]

  leave_switch-parts :
      (st : Stat) (t : Node) (s : Kernel)
      → ((leave_switch st t s).semcnt ≡ s.semcnt) × ((leave_switch st t s).maxsem ≡ s.maxsem)
  unfolding leave_switch
  leave_switch-parts Stat.wai t s = let (_, a, b, _, _) = make_ready-parts t s in (a, b)
  leave_switch-parts Stat.noexs t s = (refl, refl)
  leave_switch-parts Stat.run t s = (refl, refl)
  leave_switch-parts Stat.rdy t s = (refl, refl)
  leave_switch-parts Stat.sus t s = (refl, refl)
  leave_switch-parts Stat.was t s = (refl, refl)
  leave_switch-parts Stat.dmt t s = (refl, refl)

  -- A release leaves the counts of the semaphores alone.
  pub wait_release_ok-counts :
      (t : Node) (s : Kernel)
      → ((wait_release_ok t s).semcnt ≡ s.semcnt) × ((wait_release_ok t s).maxsem ≡ s.maxsem)
  unfolding wait_release_ok wait_release timer_delete task_leave_wait leave_switch
  wait_release_ok-counts t s =
      let s1 = on_links (kqueue_remove t) (
        on_links (kqueue_remove (event_of t))
          (set_tcb t (record (s.tcb t) { ercd = Er.e_ok }) s)) in
      leave_switch-parts ((awake t s1).tcb t).state t (awake t s1)
