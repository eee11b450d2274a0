-- ===== src/Rdyq/Dequeue.antt =====
-- rdyq_remove of kernel/rdyq.h on a consistent ready queue.
use mathlib.Core.Path.{fun_ext}
use ittrium.Common.{
  ℕ, ◌+◌, ◌-◌, ◌/◌, ◌<◌, ◌≡◌, ◌≢◌, ◌∙◌, refl, sym, ap, subst, arith, Option, none, some, some_inj,
  List, [], ◌∷◌, ◌++◌, ◌==◌, put, All-In, In, In-middle, NotIn-In, Bool-cases, inl, inr, ==_iff,
}
use ittrium.Node.{Node, null, priq, update, update-same, update-other, update-elim}
use ittrium.KQueue.{kqueue_remove}
use ittrium.KQueue.Queue.{IsQueue}
use ittrium.KQueue.Remove.{kqueue_empty-nil, kqueue_empty-cons}
use ittrium.Types.{Config, Kernel}
use ittrium.Queues.{Queues, remove-Queues, remove-out}
use ittrium.Rdyq.{rdyq_remove, rdyq_bitmap_clear, line_emptied, on_links, num_bitmap}
use ittrium.Rdyq.Marks.{
  Marks, IsFirst, Marks-clear, IsFirst-clear_other, IsFirst-clear_top, scan_bitmap-IsFirst,
}
use ittrium.Rdyq.Ready.{IsReady, marks, marks-update, mark}

pub mark-middle : (xs ys : List Node) (x : Node) → mark (xs ++ x ∷ ys) ≡ 1
mark-middle [] ys x = refl
mark-middle (y ∷ xs) ys x = refl

module _ ⦃c : Config⦄ {s : Kernel} {own : Node → Option Node} {items : Node → List Node}
    (k : IsReady s own items) (t : Node) (fits : (s.tcb t).tskpri < c.tmax_tpri) (xs ys : List Node)
    (here : items (priq (s.tcb t).tskpri) ≡ xs ++ t ∷ ys) where
  abbrev p : ℕ
  p = (s.tcb t).tskpri

  abbrev line : Node
  line = priq p

  abbrev own' : Node → Option Node
  own' = update own t none

  abbrev items' : Node → List Node
  items' = update items line (xs ++ ys)

  head : own line ≡ some line
  head = k.lines p fits

  queues' : Queues (kqueue_remove t s.links) own' items'
  queues' = remove-Queues k.queues t line xs ys head here

  whole : IsQueue s.links line (xs ++ t ∷ ys)
  whole = subst (IsQueue s.links line) here (k.queues.queue line head)

  pub member : own t ≡ some line
  member =
      All-In (λ x. own x ≡ some line) t (items line) (k.queues.owned line head)
        (rw here (In-middle t xs ys))

  line-ne : t ≢ line
  line-ne e =
      NotIn-In line (xs ++ t ∷ ys) whole.distinct.0
        (subst (λ y. In y (xs ++ t ∷ ys)) e (In-middle t xs ys))

  pub no-head : (r : ℕ) → r < c.tmax_tpri → t ≢ priq r
  no-head r l e =
      line-ne (e ∙ some_inj (sym (k.lines r l) ∙ subst (λ y. own y ≡ some line) e member))

  line' : IsQueue (kqueue_remove t s.links) line (xs ++ ys)
  line' =
      subst (IsQueue (kqueue_remove t s.links) line) (update-same items line (xs ++ ys))
        (queues'.queue line (update-other own t none line line-ne ∙ head))

  sentinel' : (kqueue_remove t s.links).next (priq c.tmax_tpri) ≡ null
  sentinel' = remove-out k.queues t line xs ys head here (priq c.tmax_tpri) k.loose ∙ k.sentinel

  tskpri' : (x : Node) (r : ℕ) → own' x ≡ some (priq r) → x ≢ priq r → (s.tcb x).tskpri ≡ r
  tskpri' x r o n =
      update-elim (λ y w. w ≡ some (priq r) → y ≢ priq r → (s.tcb y).tskpri ≡ r) own t none x
        (λ e _. cc e) (λ _ e d. k.tskpri x r e d) o n

  -- The members that the queues and the tasks bring, whatever happens to the bitmap.
  finish :
      (s' : Kernel)
      → s'.links ≡ kqueue_remove t s.links
      → s'.tcb ≡ s.tcb
      → Marks s'.bitmap (marks items')
      → IsFirst (marks items') 0 s'.top_priority
      → IsReady s' own' items'
  finish s' links tcb m f = record {
    queues = rw links queues';
    lines = λ r l. update-other own t none (priq r) (no-head r l) ∙ k.lines r l;
    sentinel = rw links sentinel';
    loose =
        update-elim (λ y w. own y ≡ none → w ≡ none) own t none (priq c.tmax_tpri) (λ _. refl)
          (λ _ e. e) k.loose;
    tskpri = rw tcb tskpri';
    marked = m;
    top = f;
  }

  -- Other tasks are left in the line.
  stays :
      (z : Node) (zs : List Node)
      → xs ++ ys ≡ z ∷ zs
      → rdyq_remove t s ≡ on_links (kqueue_remove t) s
  unfolding rdyq_remove
  stays z zs e =
      let full =
        kqueue_empty-cons (kqueue_remove t s.links) line z zs (subst (IsQueue _ line) e line') in
      rw full

  still-marked : (z : Node) (zs : List Node) → xs ++ ys ≡ z ∷ zs → marks items' ≡ marks items
  still-marked z zs e =
      marks-update items p (xs ++ ys)
      ∙ fun_ext (λ r.
        let m : marks items p ≡ 1 = ap mark here ∙ mark-middle xs ys t in
        let n : mark (xs ++ ys) ≡ 1 = ap mark e in ground arith)

  -- The line is empty now.
  empties : xs ++ ys ≡ [] → rdyq_remove t s ≡ line_emptied p (on_links (kqueue_remove t) s)
  unfolding rdyq_remove
  empties e =
      let empty =
        kqueue_empty-nil (kqueue_remove t s.links) line (subst (IsQueue _ line) e line') in
      rw empty

  cleared : xs ++ ys ≡ [] → marks items' ≡ put (marks items) p 0
  cleared e = marks-update items p (xs ++ ys) ∙ rw e

  -- The bitmap with the mark of the line taken out.
  clear_bits : ℕ → ℕ
  unfolding rdyq_bitmap_clear
  clear_bits = (rdyq_bitmap_clear p s).bitmap

  clear_bits-Marks : Marks clear_bits (put (marks items) p 0)
  unfolding clear_bits
  clear_bits-Marks = Marks-clear s.bitmap (marks items) p fits k.marked

  empties-IsReady :
      xs ++ ys ≡ [] → IsReady (line_emptied p (on_links (kqueue_remove t) s)) own' items'
  unfolding line_emptied clear_bits
  empties-IsReady e = elim (Bool-cases (p == s.top_priority)) [
    | inl same ↦
        let top : p ≡ s.top_priority = (==_iff _ _).0 same in
        let words : p / 16 + (num_bitmap - p / 16) ≡ num_bitmap = omega (arith, fits) in
        let scan =
          scan_bitmap-IsFirst clear_bits (put (marks items) p 0) _ (p / 16) words
            clear_bits-Marks in
        rw same (
          finish _ refl refl (rw (cleared e) clear_bits-Marks) (
            rw (cleared e) (
              IsFirst-clear_top (marks items) p _ (subst (IsFirst (marks items) 0) (sym top) k.top)
                scan)))
    | inr other ↦
        let n : p ≢ s.top_priority = λ q. cc ((==_iff _ _).1 q) in
        rw other (
          finish _ refl refl (rw (cleared e) clear_bits-Marks)
            (rw (cleared e) (IsFirst-clear_other (marks items) p s.top_priority n k.top)))
  ]

  -- On a consistent ready queue, if t stands in the line of its priority, which fits, rdyq_remove
  -- takes it out, keeps the order of the others, and the bitmap and the top priority fit the lines
  -- again.
  pub rdyq_remove-IsReady : IsReady (rdyq_remove t s) own' items'
  rdyq_remove-IsReady = split (xs ++ ys) refl
    where
      split : (zs : List Node) → xs ++ ys ≡ zs → IsReady (rdyq_remove t s) own' items'
      split [] e = rw (empties e) (empties-IsReady e)
      split (z ∷ zs) e = rw (stays z zs e) (
          finish (on_links (kqueue_remove t) s) refl refl (rw (still-marked z zs e) k.marked)
            (rw (still-marked z zs e) k.top))
