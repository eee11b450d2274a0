-- ===== src/Wait/Block.antt =====
-- make_wait and obj_make_wait of kernel/wait.c: the running task goes to wait.
use ittrium.Common.{
  ℕ, ◌<◌, ◌≡◌, ◌≢◌, ◌∙◌, refl, sym, ap, subst, arith, Option, none, some, some_inj, List, [], ◌∷◌,
  ◌++◌, if◌then◌else◌, Bool-cases, inl, inr,
}
use ittrium.Common.Int.{ℤ}
use ittrium.Node.{Node, priq, timer_queue, update, update-other, update-elim}
use ittrium.KQueue.{kqueue_init, kqueue_insert}
use ittrium.Types.{Config, Kernel, Tcb, Tmeb, Stat, Callback, event_of}
use ittrium.Rdyq.{set_tcb, on_links, rdyq_top, rdyq_remove, line_emptied, rdyq_bitmap_clear}
use ittrium.Rdyq.Dequeue.{member}
use ittrium.Rdyq.Elsewhere.{insert-elsewhere, self-elsewhere}
use ittrium.Task.{task_make_unready}
use ittrium.Task.Schedule.{
  IsScheduled, IsReady-same, set_tcb-IsScheduled, task_make_unready-IsScheduled,
}
use ittrium.Timer.{is_fevr, timer_insert, enqueue_tmeb, set_tmeb, armed, to_reltim}
use ittrium.Wait.{leave_running, unready, make_wait}
use ittrium.Wait.Place.{elsewhere-IsScheduled}

-- The timer's queue and the event's place once the event is armed for `tmout`.
abbrev pub timed_own : ℤ → Node → (Node → Option Node) → Node → Option Node
timed_own tmout e own = if is_fevr tmout then own else update own e (some timer_queue)

abbrev pub timed_items : ℤ → Node → (Node → List Node) → Node → List Node
timed_items tmout e items =
    if is_fevr tmout then items else update items timer_queue (items timer_queue ++ e ∷ [])

module _ ⦃c : Config⦄ where
  module _ {s : Kernel} {own : Node → Option Node} {items : Node → List Node} where
    set_tmeb-IsScheduled :
        IsScheduled s own items → (e : Node) (b : Tmeb) → IsScheduled (set_tmeb e b s) own items
    unfolding rdyq_top
    set_tmeb-IsScheduled k e b = record {
      ready = IsReady-same s (set_tmeb e b s) refl (λ _. refl) refl refl k.ready;
      sched = k.sched;
    }

    pub insert-IsScheduled :
        IsScheduled s own items
        → (e q : Node) → own e ≡ none
        → own q ≡ some q
        → e ≢ priq c.tmax_tpri
        → ((p : ℕ) → q ≢ priq p)
        → IsScheduled
            (on_links (kqueue_insert e q) s)
            (update own e (some q))
            (update items q (items q ++ e ∷ []))
    insert-IsScheduled k e q loose head out apart =
        elsewhere-IsScheduled k (on_links (kqueue_insert e q) s)
          (insert-elsewhere k.ready e q loose head out apart) refl refl
          (λ p. update-other items q (items q ++ e ∷ []) (priq p) (apart p))

    self-IsScheduled :
        IsScheduled s own items
        → (e : Node) → own e ≡ none
        → e ≢ priq c.tmax_tpri
        → IsScheduled (on_links (kqueue_init e) s) own items
    self-IsScheduled k e loose out =
        elsewhere-IsScheduled k (on_links (kqueue_init e) s) (self-elsewhere k.ready e loose out)
          refl refl (λ _. refl)

  module _ {s : Kernel} {own : Node → Option Node} {items : Node → List Node}
      (k : IsScheduled s own items) where
    timer_insert-IsScheduled :
        (e : Node) (tmout : ℤ) (f : Callback) (a : Node)
        → own e ≡ none
        → e ≢ priq c.tmax_tpri
        → own timer_queue ≡ some timer_queue
        → IsScheduled
            (timer_insert e tmout f a s)
            (timed_own tmout e own)
            (timed_items tmout e items)
    unfolding timer_insert enqueue_tmeb
    timer_insert-IsScheduled e tmout f a loose out head =
        let k1 = set_tmeb-IsScheduled k e (armed (s.tmeb e).count f a) in
        elim (Bool-cases (is_fevr tmout)) [
          | inl v ↦ rw v (self-IsScheduled k1 e loose out)
          | inr v ↦ rw v (
              insert-IsScheduled (set_tmeb-IsScheduled k1 e (armed (to_reltim tmout) f a)) e
                timer_queue loose head out (λ p q. cc (q)))
        ]

  -- A task that stops being ready keeps its block, and no object changes.
  pub make_unready-parts :
      (t : Node) (s : Kernel)
      → ((task_make_unready t s).tcb ≡ s.tcb)
        × ((task_make_unready t s).runtsk ≡ s.runtsk)
        × ((task_make_unready t s).obj ≡ s.obj)
        × ((task_make_unready t s).semcnt ≡ s.semcnt)
  unfolding task_make_unready rdyq_remove line_emptied rdyq_bitmap_clear
  make_unready-parts t s = (ground arith, ground arith, ground arith, ground arith)

  module _ {s : Kernel} {own : Node → Option Node} {items : Node → List Node}
      (k : IsScheduled s own items) (ready : (s.tcb s.runtsk).state ≡ Stat.rdy) (xs ys : List Node)
      (fits : (s.tcb s.runtsk).tskpri < c.tmax_tpri)
      (here : items (priq (s.tcb s.runtsk).tskpri) ≡ xs ++ s.runtsk ∷ ys) where
    abbrev t : Node
    t = s.runtsk

    abbrev off_own : Node → Option Node
    off_own = update own t none

    abbrev off_items : Node → List Node
    off_items = update items (priq (s.tcb t).tskpri) (xs ++ ys)

    stopped : Kernel
    stopped = task_make_unready t s

    leave_running-unready :
        leave_running s ≡ set_tcb t (record (s.tcb t) { state = Stat.wai }) stopped
    unfolding leave_running unready stopped
    leave_running-unready =
        let u = task_make_unready t s in
        let (b, r, _, _) = make_unready-parts t s in
        let wai : Tcb → Tcb = λ w. record w { state = Stat.wai } in
        let run : unready s ≡ set_tcb t (wai (s.tcb t)) u =
          ap (λ x. set_tcb x (wai (u.tcb x)) u) r ∙ ap (λ f. set_tcb t (wai (f t)) u) b in
        rw (ready, leave_running) run

    leave_running-IsScheduled : IsScheduled (leave_running s) off_own off_items
    unfolding stopped
    leave_running-IsScheduled =
        let (b, _, _, _) = make_unready-parts t s in
        subst (λ u. IsScheduled u off_own off_items) (sym leave_running-unready)
          (set_tcb-IsScheduled stopped t (record (s.tcb t) { state = Stat.wai })
            (ap (λ f. (f t).tskpri) (sym b)) (task_make_unready-IsScheduled k t xs ys fits here))

    leave_running-runtsk : (leave_running s).runtsk ≡ t
    unfolding stopped
    leave_running-runtsk =
        let (_, r, _, _) = make_unready-parts t s in ap (λ u. u.runtsk) leave_running-unready ∙ r

    abbrev event : Node
    event = event_of t

    abbrev asleep_own : ℤ → Node → Option Node
    asleep_own tmout = timed_own tmout event off_own

    abbrev asleep_items : ℤ → Node → List Node
    asleep_items tmout = timed_items tmout event off_items

    off-none : (x : Node) → own x ≡ none → off_own x ≡ none
    off-none x o =
        update-elim (λ y w. own y ≡ none → w ≡ none) own t none x (λ _. refl) (λ _ f. f) o

    off-head : (q : Node) → own q ≡ some q → ((p : ℕ) → q ≢ priq p) → off_own q ≡ some q
    off-head q o n =
        let m = member k.ready t fits xs ys here in
        update-other own t none q (λ e. n (s.tcb t).tskpri (some_inj (sym o ∙ ap own (sym e) ∙ m)))
        ∙ o

    pub make_wait-IsScheduled :
        (tmout : ℤ)
        → own event ≡ none
        → event ≢ priq c.tmax_tpri
        → own timer_queue ≡ some timer_queue
        → IsScheduled (make_wait tmout s) (asleep_own tmout) (asleep_items tmout)
    unfolding make_wait
    make_wait-IsScheduled tmout loose out head =
        subst
          (λ x.
            IsScheduled (timer_insert (event_of x) tmout Callback.release_tmout x (leave_running s))
              (asleep_own tmout) (asleep_items tmout))
          (sym leave_running-runtsk)
          (timer_insert-IsScheduled leave_running-IsScheduled event tmout Callback.release_tmout t
            (off-none event loose) out (off-head timer_queue head (λ p e. cc (e))))

    timer_insert-runtsk :
        (e : Node) (tmout : ℤ) (f : Callback) (a : Node) (u : Kernel)
        → ((timer_insert e tmout f a u).runtsk ≡ u.runtsk)
          × ((timer_insert e tmout f a u).obj ≡ u.obj)
    unfolding timer_insert enqueue_tmeb
    timer_insert-runtsk e tmout f a u = elim (Bool-cases (is_fevr tmout)) [
      | inl v ↦ rw v (refl, refl)
      | inr v ↦ rw v (refl, refl)
    ]

    pub make_wait-parts :
        (tmout : ℤ) → ((make_wait tmout s).runtsk ≡ t) × ((make_wait tmout s).obj ≡ s.obj)
    unfolding make_wait stopped
    make_wait-parts tmout =
        let u = leave_running s in
        let (_, _, o, _) = make_unready-parts t s in
        let (a, b) =
          timer_insert-runtsk (event_of u.runtsk) tmout Callback.release_tmout u.runtsk u in
        (a ∙ leave_running-runtsk, b ∙ ap (λ v. v.obj) leave_running-unready ∙ o)
