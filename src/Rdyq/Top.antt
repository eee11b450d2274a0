-- ===== src/Rdyq/Top.antt =====
-- The task that rdyq_top names: the first of the best line, and how it changes with the lines.
use ittrium.Common.{
  ℕ, ◌<◌, ◌≡◌, ◌≢◌, ◌∙◌, refl, sym, ap, subst, arith, Option, List, [], ◌∷◌, ◌++◌, ltb,
  if◌then◌else◌, ◌⊎◌, inl, inr, Bool-cases, ltb→lt, lt→ltb, put, ℕ_discrete,
}
use ittrium.Node.{Node, null, priq, update, update-same, update-other}
use ittrium.KQueue.Chain.{first, next-Chain}
use ittrium.Types.{Config, Kernel}
use ittrium.Rdyq.{rdyq_top}
use ittrium.Rdyq.Marks.{IsFirst}
use ittrium.Rdyq.Ready.{IsReady, marks, marks-update, mark}
use ittrium.Rdyq.Dequeue.{mark-middle}

nil_of_mark : (l : List Node) → mark l ≡ 0 → l ≡ []
nil_of_mark [] h = refl
nil_of_mark (x ∷ l) h = absurd (omega arith)

cons_of_mark : (l : List Node) → mark l ≡ 1 → (x : Node) × (xs : List Node) × (l ≡ x ∷ xs)
cons_of_mark [] h = absurd (omega arith)
cons_of_mark (x ∷ l) h = (x, l, refl)

first-snoc : (l : List Node) (t a b : Node) → mark l ≡ 1 → first (l ++ t ∷ []) a ≡ first l b
first-snoc [] t a b h = absurd (omega arith)
first-snoc (x ∷ l) t a b h = refl

module _ ⦃c : Config⦄ where
  -- The first task of line `r`, if `r` is a line.
  abbrev pub best : (Node → List Node) → ℕ → Node
  best items r = if ltb r c.tmax_tpri then first (items (priq r)) (priq r) else null

  pub rdyq_top-best :
      {s : Kernel} {own : Node → Option Node} {items : Node → List Node}
      → IsReady s own items
      → rdyq_top s ≡ best items s.top_priority
  unfolding rdyq_top
  rdyq_top-best {s} {items} k = elim (Bool-cases (ltb s.top_priority c.tmax_tpri)) [
    | inl e ↦ rw e (
        next-Chain s.links (priq s.top_priority) (priq s.top_priority) _
          (k.queues.queue (priq s.top_priority) (k.lines s.top_priority (ltb→lt _ _ e))).chain)
    | inr e ↦
        let last : s.top_priority ≡ c.tmax_tpri = ground (arith, k.top.bound) in
        rw e (ap (λ r. s.links.next (priq r)) last ∙ k.sentinel)
  ]

  -- No ready task has a better priority than the one that rdyq_top names, and none of its priority
  -- came before it; it names none if no task is ready.
  pub record IsBest (items : Node → List Node) (x : Node) : Type 0 where
    pub choice :
        ((x ≡ null) × ((r : ℕ) → r < c.tmax_tpri → items (priq r) ≡ []))
        ⊎ ((p : ℕ) × (rest : List Node) × (p < c.tmax_tpri)
            × (items (priq p) ≡ x ∷ rest)
            × ((r : ℕ) → r < p → items (priq r) ≡ []))

  pub best-IsBest :
      (items : Node → List Node) (r : ℕ) → IsFirst (marks items) 0 r → IsBest items (best items r)
  best-IsBest items r f = elim (Bool-cases (ltb r c.tmax_tpri)) [
    | inl e ↦
        let (x, xs, line) = cons_of_mark (items (priq r)) (f.set (ltb→lt _ _ e)) in
        record {
          choice =
              rw (e, line)
                (inr (
                  r,
                  xs,
                  ltb→lt _ _ e,
                  line,
                  λ q l. nil_of_mark (items (priq q)) (f.below q (omega arith) l),
                ));
        }
    | inr e ↦ record {
      choice = rw e (
          inl (
            refl,
            λ q l. nil_of_mark (items (priq q)) (f.below q (omega arith) (ground (arith, f.bound))),
          ));
    }
  ]

  IsFirst-unique : (m : ℕ → ℕ) (r q : ℕ) → IsFirst m 0 r → IsFirst m 0 q → r ≡ q
  IsFirst-unique m r q f g = ground (arith, f.bound, g.bound, f.below q, g.below r, f.set, g.set)

  best-line :
      (items : Node → List Node) (r : ℕ)
      → r < c.tmax_tpri
      → best items r ≡ first (items (priq r)) (priq r)
  best-line items r l = rw (lt→ltb _ _ l)

  -- Lines other than the best one do not matter.
  best-other :
      (items : Node → List Node) (p r : ℕ) (l : List Node)
      → p ≢ r
      → best (update items (priq p) l) r ≡ best items r
  best-other items p r l n = rw (update-other items (priq p) l (priq r) (λ e. n (cc e)))

  append-first :
      (items : Node → List Node) (t : Node) (p : ℕ)
      → p < c.tmax_tpri
      → items (priq p) ≡ []
      → best (update items (priq p) (items (priq p) ++ t ∷ [])) p ≡ t
  append-first items t p lt e =
      best-line (update items (priq p) (items (priq p) ++ t ∷ [])) p lt
      ∙ rw (update-same items (priq p) (items (priq p) ++ t ∷ []), e)

  append-behind :
      (items : Node → List Node) (t : Node) (p : ℕ)
      → p < c.tmax_tpri
      → marks items p ≡ 1
      → best (update items (priq p) (items (priq p) ++ t ∷ [])) p ≡ best items p
  append-behind items t p lt m =
      best-line (update items (priq p) (items (priq p) ++ t ∷ [])) p lt
      ∙ rw (update-same items (priq p) (items (priq p) ++ t ∷ []))
          (first-snoc (items (priq p)) t (priq p) (priq p) m ∙ sym (best-line items p lt))

  -- A task that joins the end of a line is the best one exactly if its line is better than all
  -- the others; otherwise the best task stays.
  pub best-append :
      (items : Node → List Node) (t : Node) (p r : ℕ)
      → p < c.tmax_tpri
      → IsFirst (marks items) 0 r
      → best (update items (priq p) (items (priq p) ++ t ∷ [])) (if ltb p r then p else r)
        ≡ (if ltb p r then t else best items r)
  best-append items t p r lt f = elim (Bool-cases (ltb p r)) [
    | inl e ↦ rw e (
        append-first items t p lt
          (nil_of_mark (items (priq p)) (f.below p (omega arith) (ltb→lt _ _ e))))
    | inr e ↦ rw e (elim (ℕ_discrete p r) [
      | yes same ↦
          subst (λ q. best (update items (priq p) (items (priq p) ++ t ∷ [])) q ≡ best items q) same
            (append-behind items t p lt
              (subst (λ q. q < c.tmax_tpri → marks items q ≡ 1) (sym same) f.set lt))
      | no other ↦ best-other items p r (items (priq p) ++ t ∷ []) other
    ])
  ]

  drop-first :
      (items : Node → List Node) (t : Node) (p : ℕ) (xs ys : List Node)
      → p < c.tmax_tpri
      → items (priq p) ≡ xs ++ t ∷ ys
      → best items p ≢ t
      → (best (update items (priq p) (xs ++ ys)) p ≡ best items p) × (mark (xs ++ ys) ≡ 1)
  drop-first items t p [] ys lt here n =
      absurd (n (best-line items p lt ∙ ap (λ l. first l (priq p)) here))
  drop-first items t p (x ∷ xs) ys lt here n = (
    best-line (update items (priq p) (x ∷ xs ++ ys)) p lt
        ∙ rw (update-same items (priq p) (x ∷ xs ++ ys))
            (sym (best-line items p lt ∙ ap (λ l. first l (priq p)) here)),
    refl,
  )

  still-IsFirst :
      (m : ℕ → ℕ) (p r v : ℕ)
      → p < c.tmax_tpri
      → m p ≡ 1
      → (p ≡ r → v ≡ 1)
      → IsFirst m 0 r
      → IsFirst (put m p v) 0 r
  still-IsFirst m p r v lt h keep f = record {
    bound = f.bound;
    below = λ q a b. ground (arith, f.below q, f.below p);
    set = λ l. ground (arith, f.set);
  }

  drop_unique :
      (items : Node → List Node) (t : Node) (p r q : ℕ) (xs ys : List Node)
      → p < c.tmax_tpri
      → items (priq p) ≡ xs ++ t ∷ ys
      → IsFirst (marks items) 0 r
      → IsFirst (marks (update items (priq p) (xs ++ ys))) 0 q
      → (p ≡ r → mark (xs ++ ys) ≡ 1)
      → q ≡ r
  drop_unique items t p r q xs ys lt here f g keep =
      let m : marks items p ≡ 1 = ap mark here ∙ mark-middle xs ys t in
      let g' = subst (λ u. IsFirst u 0 q) (marks-update items p (xs ++ ys)) g in
      IsFirst-unique (put (marks items) p (mark (xs ++ ys))) q r g'
        (still-IsFirst (marks items) p r (mark (xs ++ ys)) lt m keep f)

  -- A task other than the best one that leaves its line does not change the best one.
  pub best-drop :
      (items : Node → List Node) (t : Node) (p r q : ℕ) (xs ys : List Node)
      → p < c.tmax_tpri
      → items (priq p) ≡ xs ++ t ∷ ys
      → IsFirst (marks items) 0 r
      → IsFirst (marks (update items (priq p) (xs ++ ys))) 0 q
      → best items r ≢ t
      → best (update items (priq p) (xs ++ ys)) q ≡ best items r
  best-drop items t p r q xs ys lt here f g n = elim (ℕ_discrete p r) [
    | yes same ↦
        let (b, k) =
          drop-first items t p xs ys lt here (subst (λ u. best items u ≢ t) (sym same) n) in
        let e = drop_unique items t p r q xs ys lt here f g (λ _. k) in
        subst (λ u. best (update items (priq p) (xs ++ ys)) u ≡ best items r) (same ∙ sym e)
          (subst (λ u. best (update items (priq p) (xs ++ ys)) p ≡ best items u) same b)
    | no other ↦
        let e = drop_unique items t p r q xs ys lt here f g (λ s. absurd (other s)) in
        subst (λ u. best (update items (priq p) (xs ++ ys)) u ≡ best items r) (sym e)
          (best-other items p r (xs ++ ys) other)
  ]
