-- ===== src/Wait/Fifo.antt =====
-- obj_make_wait of kernel/wait.c on an object whose tasks wait in the order of their arrival.
use ittrium.Common.{
  ℕ, ◌<◌, ◌≡◌, ◌≢◌, ◌∙◌, refl, sym, ap, subst, false, Option, none, some, some_inj, List, [], ◌∷◌,
  ◌++◌, Bool-cases, inl, inr,
}
use ittrium.Common.Int.{ℤ}
use ittrium.Node.{Node, priq, timer_queue, update, update-same, update-other}
use ittrium.KQueue.{kqueue_insert}
use ittrium.Types.{Config, Kernel, Tcb, Stat, event_of}
use ittrium.Rdyq.{set_tcb, on_links}
use ittrium.Rdyq.Dequeue.{member}
use ittrium.Task.Schedule.{IsScheduled, set_tcb-IsScheduled}
use ittrium.Timer.{is_fevr}
use ittrium.Wait.{ta_tpri, make_wait, obj_make_wait}
use ittrium.Wait.Block.{
  insert-IsScheduled, make_wait-IsScheduled, make_wait-parts, timed_own, timed_items,
}

-- Task `t` is taken from its line, and its event is armed.
abbrev pub away_own : ℤ → Node → (Node → Option Node) → Node → Option Node
away_own tmout t own = timed_own tmout (event_of t) (update own t none)

-- The line `p` that it leaves keeps `others`.
abbrev pub away_items : ℤ → Node → ℕ → List Node → (Node → List Node) → Node → List Node
away_items tmout t p others items = timed_items tmout (event_of t) (update items (priq p) others)

module _ ⦃c : Config⦄ {s : Kernel} {own : Node → Option Node} {items : Node → List Node}
    (k : IsScheduled s own items) (ready : (s.tcb s.runtsk).state ≡ Stat.rdy) (xs ys : List Node)
    (fits : (s.tcb s.runtsk).tskpri < c.tmax_tpri)
    (here : items (priq (s.tcb s.runtsk).tskpri) ≡ xs ++ s.runtsk ∷ ys) (tmout : ℤ)
    (idle : own (event_of s.runtsk) ≡ none) (out : event_of s.runtsk ≢ priq c.tmax_tpri)
    (timers : own timer_queue ≡ some timer_queue) (g : Node) where
  abbrev t : Node
  t = s.runtsk

  abbrev p : ℕ
  p = (s.tcb t).tskpri

  abbrev waits : Tcb
  waits = record (s.tcb t) { wait_obj = g }

  abbrev s1 : Kernel
  s1 = set_tcb t waits s

  same : s1.tcb t ≡ waits
  same = update-same s.tcb t waits

  moved : items (priq (s1.tcb t).tskpri) ≡ xs ++ t ∷ ys
  moved = ap (λ b. items (priq b.tskpri)) same ∙ here

  fits1 : (s1.tcb t).tskpri < c.tmax_tpri
  fits1 = subst (λ b. b.tskpri < c.tmax_tpri) (sym same) fits

  k1 : IsScheduled s1 own items
  k1 = set_tcb-IsScheduled s t waits refl k

  asleep :
      IsScheduled
        (make_wait tmout s1)
        (away_own tmout t own)
        (away_items tmout t p (xs ++ ys) items)
  asleep =
      subst
        (λ b.
          IsScheduled (make_wait tmout s1) (away_own tmout t own)
            (away_items tmout t b.tskpri (xs ++ ys) items))
        same
        (make_wait-IsScheduled k1 (ap (λ b. b.state) same ∙ ready) xs ys fits1 moved tmout idle out
          timers)

  asleep-parts : ((make_wait tmout s1).runtsk ≡ t) × ((make_wait tmout s1).obj ≡ s.obj)
  asleep-parts = make_wait-parts k1 (ap (λ b. b.state) same ∙ ready) xs ys fits1 moved tmout

  ready-own : own t ≡ some (priq p)
  ready-own = member k.ready t fits xs ys here

  event-other : event_of t ≢ t
  event-other e = cc (idle, ready-own)

  loose-t : away_own tmout t own t ≡ none
  loose-t = elim (Bool-cases (is_fevr tmout)) [
    | inl v ↦ rw v (update-same own t none)
    | inr v ↦ rw v (
        update-other (update own t none) (event_of t) (some timer_queue) t event-other
        ∙ update-same own t none)
  ]

  module _ (head : own g ≡ some g) (apart : (p : ℕ) → g ≢ priq p) where
    head-g : away_own tmout t own g ≡ some g
    head-g =
        let a : t ≢ g = λ e. apart p (some_inj (sym head ∙ ap own (sym e) ∙ ready-own)) in
        let b : event_of t ≢ g = λ e. cc (idle, head) in
        let o = update-other own t none g a ∙ head in
        elim (Bool-cases (is_fevr tmout)) [
          | inl v ↦ rw v o
          | inr v ↦ rw v (update-other (update own t none) (event_of t) (some timer_queue) g b ∙ o)
        ]

    -- For a running task that is ready at a fitting priority and whose timer event stands in no
    -- queue, and an object in FIFO order that is no ready line, obj_make_wait takes the task from
    -- its line, puts its event into the timer queue unless the wait is endless, appends it to the
    -- queue of the object, and leaves the ready queue consistent and schedtsk on the best of the
    -- other ready tasks.
    pub obj_make_wait-IsScheduled :
        ta_tpri (s.obj g).objatr ≡ false
        → IsScheduled (obj_make_wait g tmout s) (update (away_own tmout t own) t (some g)) (
            update
              (away_items tmout t p (xs ++ ys) items)
              g
              (away_items tmout t p (xs ++ ys) items g ++ t ∷ []))
    unfolding obj_make_wait
    obj_make_wait-IsScheduled fifo =
        let (r, o) = asleep-parts in
        let f : ta_tpri ((make_wait tmout s1).obj g).objatr ≡ false = rw o fifo in
        let task : t ≢ priq c.tmax_tpri = λ e. cc (ready-own, k.ready.loose) in
        rw f (
          subst
            (λ x.
              IsScheduled (on_links (kqueue_insert x g) (make_wait tmout s1))
                (update (away_own tmout t own) t (some g))
                (update (away_items tmout t p (xs ++ ys) items) g
                  (away_items tmout t p (xs ++ ys) items g ++ t ∷ [])))
            (sym r) (insert-IsScheduled asleep t g loose-t head-g task apart))
