-- ===== src/Rdyq/Enqueue.antt =====
-- rdyq_insert of kernel/rdyq.h on a consistent ready queue.
use ittrium.Common.{
  ℕ, ◌<◌, ◌≡◌, ◌≢◌, ◌∙◌, refl, sym, subst, Option, none, some, List, [], ◌∷◌, ◌++◌, ltb,
  if◌then◌else◌, Bool-cases, inl, inr,
}
use ittrium.Node.{Node, null, priq, update, update-other, update-elim}
use ittrium.KQueue.{kqueue_insert}
use ittrium.Types.{Config, Kernel}
use ittrium.Queues.{insert-Queues, insert-out}
use ittrium.Rdyq.{rdyq_insert, rdyq_bitmap_set}
use ittrium.Rdyq.Marks.{Marks, IsFirst, Marks-set, IsFirst-set}
use ittrium.Rdyq.Ready.{IsReady, marks, marks-update, mark}

mark-snoc : (xs : List Node) (x : Node) → mark (xs ++ x ∷ []) ≡ 1
mark-snoc [] x = refl
mark-snoc (y ∷ xs) x = refl

module _ ⦃c : Config⦄ {s : Kernel} {own : Node → Option Node} {items : Node → List Node}
    (k : IsReady s own items) (t : Node) (loose : own t ≡ none) (task : t ≢ priq c.tmax_tpri)
    (fits : (s.tcb t).tskpri < c.tmax_tpri) where
  abbrev p : ℕ
  p = (s.tcb t).tskpri

  abbrev line : Node
  line = priq p

  abbrev own' : Node → Option Node
  own' = update own t (some line)

  abbrev items' : Node → List Node
  items' = update items line (items line ++ t ∷ [])

  -- The parts of the result.
  pub insert-parts :
      ((rdyq_insert t s).0.links ≡ kqueue_insert t line s.links)
      × ((rdyq_insert t s).0.tcb ≡ s.tcb)
      × ((rdyq_insert t s).0.bitmap ≡ (rdyq_bitmap_set p s).bitmap)
      × ((rdyq_insert t s).0.top_priority ≡ (if ltb p s.top_priority then p else s.top_priority))
      × ((rdyq_insert t s).1 ≡ ltb p s.top_priority)
      × ((rdyq_insert t s).0.schedtsk ≡ s.schedtsk)
  unfolding rdyq_insert rdyq_bitmap_set
  insert-parts = elim (Bool-cases (ltb p s.top_priority)) [
    | inl e ↦ rw e (refl, refl, refl, refl, refl, refl)
    | inr e ↦ rw e (refl, refl, refl, refl, refl, refl)
  ]

  head : own line ≡ some line
  head = k.lines p fits

  sentinel' : (kqueue_insert t line s.links).next (priq c.tmax_tpri) ≡ null
  sentinel' =
      insert-out k.queues t line loose head (priq c.tmax_tpri) k.loose (λ e. task (sym e))
      ∙ k.sentinel

  tskpri' : (x : Node) (r : ℕ) → own' x ≡ some (priq r) → x ≢ priq r → (s.tcb x).tskpri ≡ r
  tskpri' x r o n =
      update-elim (λ y w. w ≡ some (priq r) → y ≢ priq r → (s.tcb y).tskpri ≡ r) own t (some line) x
        (λ e _. cc e) (λ _ e d. k.tskpri x r e d) o n

  marked' : Marks (rdyq_bitmap_set p s).bitmap (marks items')
  unfolding rdyq_bitmap_set
  marked' =
      rw (marks-update items p (items line ++ t ∷ []), mark-snoc (items line) t)
        (Marks-set s.bitmap (marks items) p fits k.marked)

  top' : IsFirst (marks items') 0 (if ltb p s.top_priority then p else s.top_priority)
  top' =
      rw (marks-update items p (items line ++ t ∷ []), mark-snoc (items line) t)
        (IsFirst-set (marks items) p s.top_priority fits k.top)

  -- On a consistent ready queue, if t stands in no queue, is not the address behind the last line
  -- and its priority fits, rdyq_insert appends t to the line of its priority, and the bitmap and
  -- the top priority fit the lines again.
  pub rdyq_insert-IsReady : IsReady (rdyq_insert t s).0 own' items'
  rdyq_insert-IsReady =
      let (links, tcb, bitmap, top, _, _) = insert-parts in
      record {
        queues = rw links (insert-Queues k.queues t line loose head);
        lines = λ r l.
            update-other own t (some line) (priq r)
              (λ e. cc (subst (λ y. own y ≡ some y) (sym e) (k.lines r l)))
            ∙ k.lines r l;
        sentinel = rw links sentinel';
        loose = update-other own t (some line) (priq c.tmax_tpri) task ∙ k.loose;
        tskpri = rw tcb tskpri';
        marked = rw bitmap marked';
        top = rw top top';
      }
