-- ===== src/Semaphore/Signal.antt =====
-- _sig_sem of kernel/semaphore.c.
use ittrium.Common.{
  ◌<◌, ◌≡◌, ◌≢◌, ◌∙◌, refl, sym, subst, false, Option, none, some, List, [], ◌∷◌, ◌++◌, All,
}
use ittrium.Common.Int.{ℤ}
use ittrium.Node.{Node, priq, update}
use ittrium.KQueue.{kqueue_empty, kqueue_remove}
use ittrium.KQueue.Queue.{IsQueue}
use ittrium.KQueue.Remove.{kqueue_empty-cons}
use ittrium.Types.{Config, Kernel, Stat, Er, event_of}
use ittrium.Task.Schedule.{IsScheduled}
use ittrium.Wait.{wait_release_ok}
use ittrium.Wait.Place.{Place, without, within-after}
use ittrium.Wait.Release.{wait_release_ok-IsScheduled, wait_release_ok-counts}
use ittrium.Semaphore.{sig_sem_core, bad_semid, get_semcb_by_id}

module _ ⦃c : Config⦄ {s : Kernel} {own : Node → Option Node} {items : Node → List Node}
    (k : IsScheduled s own items) (id : ℤ) (good : bad_semid id ≡ false)
    (exists : (s.obj (get_semcb_by_id id)).state ≡ Stat.rdy)
    (head : own (get_semcb_by_id id) ≡ some (get_semcb_by_id id)) where
  abbrev o : Node
  o = get_semcb_by_id id

  module _ (t : Node) (others : List Node) (waiting : items o ≡ t ∷ others) where
    whole : IsQueue s.links o (t ∷ others)
    whole = subst (IsQueue s.links o) waiting (k.ready.queues.queue o head)

    first-own : own t ≡ some o
    first-own = (subst (All (λ x. own x ≡ some o)) waiting (k.ready.queues.owned o head)).0

    sig_sem_core-release : sig_sem_core id s ≡ (wait_release_ok t s, Er.e_ok)
    unfolding sig_sem_core
    sig_sem_core-release =
        let full : kqueue_empty o s.links ≡ false = kqueue_empty-cons s.links o t others whole in
        let first : s.links.next o ≡ t = whole.chain.0 in rw (good, exists, full, first)

    -- On an existing semaphore with a valid ID whose wait queue holds t and then others, where t is
    -- in the waiting state, its timer event stands in the timer queue or in none, is not t, and
    -- does not stand in that wait queue, and its priority fits, _sig_sem returns E_OK, leaves all
    -- counts alone, takes t from the wait queue and its event from the timer queue, appends t to
    -- the ready line of its priority, and leaves schedtsk on the best ready task.
    pub sig_sem_core-wakes :
        (event : Place s.links own items (event_of t))
        → own (event_of t) ≢ some o
        → event_of t ≢ t
        → (s.tcb t).state ≡ Stat.wai
        → (s.tcb t).tskpri < c.tmax_tpri
        → let s' = (sig_sem_core id s).0 in
          ((sig_sem_core id s).1 ≡ Er.e_ok)
          × (s'.semcnt ≡ s.semcnt)
          × IsScheduled s'
              (update (update own (event_of t) none) t (some (priq (s.tcb t).tskpri)))
              (update
                (update (without event) o others)
                (priq (s.tcb t).tskpri)
                (items (priq (s.tcb t).tskpri) ++ t ∷ []))
    sig_sem_core-wakes event elsewhere other wai fits =
        let (head', same) = within-after k.ready.queues (event_of t) o event head elsewhere in
        let place : Place (kqueue_remove (event_of t) s.links) (update own (event_of t) none)
            (without event) t =
          Place.within o [] others head' (same ∙ waiting) (λ p e. cc (e)) in
        let task : t ≢ priq c.tmax_tpri =
          λ e. cc (first-own, subst (λ y. own y ≡ none) (sym e) k.ready.loose) in
        rw sig_sem_core-release (
          refl,
          (wait_release_ok-counts t s).0,
          wait_release_ok-IsScheduled k t event place wai task fits,
        )
