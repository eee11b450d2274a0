-- ===== src/Wait/Priority.antt =====
-- kqueue_insert_pri of kernel/wait.h: the wait queue of an object in priority order.
use ittrium.Common.{
  ℕ, zero, suc, ◌+◌, ◌≤◌, ◌<◌, ◌≡◌, ◌≢◌, refl, ap, subst, arith, true, false, List, [], ◌∷◌, ◌++◌,
  length, ltb, if◌then◌else◌, if-elim, All, All-map, NotIn, Bool-cases, inl, inr, append-nil,
}
use ittrium.Node.{Node}
use ittrium.KQueue.{Links, kqueue_insert}
use ittrium.KQueue.Chain.{Chain, first}
use ittrium.KQueue.Queue.{IsQueue, kqueue_insert-append, kqueue_insert-before}
use ittrium.Types.{Config, Kernel}
use ittrium.Task.{node_eq, tnum_tskid}
use ittrium.Wait.{find_pri_loop, kqueue_find_pri, kqueue_insert_pri}

-- The place behind all entries whose priority is as good as that of `t`.
unfoldable pub insert_by : (Node → ℕ) → Node → List Node → List Node
insert_by pri t [] = t ∷ []
insert_by pri t (x ∷ xs) =
    let rest = insert_by pri t xs in if ltb (pri t) (pri x) then t ∷ x ∷ xs else x ∷ rest

-- The better priorities, which are the smaller numbers, come first.
unfoldable pub IsSorted : (Node → ℕ) → List Node → Type 0
IsSorted pri [] = Unit
IsSorted pri (x ∷ xs) = All (λ y. pri x ≤ pri y) xs × IsSorted pri xs

insert_by-All :
    (pri : Node → ℕ) (n : ℕ) (t : Node) (xs : List Node)
    → n ≤ pri t
    → All (λ y. n ≤ pri y) xs
    → All (λ y. n ≤ pri y) (insert_by pri t xs)
unfolding insert_by
insert_by-All pri n t [] l a = (l, tt)
insert_by-All pri n t (x ∷ xs) l a =
    if-elim (λ zs. All (λ y. n ≤ pri y) zs) (ltb (pri t) (pri x)) (λ _. (l, a))
      (λ _. (a.0, insert_by-All pri n t xs l a.1))

pub insert_by-IsSorted :
    (pri : Node → ℕ) (t : Node) (xs : List Node)
    → IsSorted pri xs
    → IsSorted pri (insert_by pri t xs)
unfolding insert_by IsSorted
insert_by-IsSorted pri t [] s = (tt, tt)
insert_by-IsSorted pri t (x ∷ xs) s =
    if-elim (IsSorted pri) (ltb (pri t) (pri x))
      (λ e. (
        (
          ground arith,
          All-map (λ y. pri x ≤ pri y) (λ y. pri t ≤ pri y) xs (λ y l. ground (arith, e)) s.0,
        ),
        s,
      ))
      (λ e.
        (insert_by-All pri (pri x) t xs (ground (arith, e)) s.0, insert_by-IsSorted pri t xs s.1))

module _ (pri : Node → ℕ) (t q : Node) where
  -- The entry before which `t` goes.
  place : List Node → Node
  place [] = q
  place (x ∷ xs) = let rest = place xs in if ltb (pri t) (pri x) then x else rest

  place-split :
      (xs : List Node)
      → (ys : List Node) × (zs : List Node) × (xs ≡ ys ++ zs)
        × (place xs ≡ first zs q)
        × (insert_by pri t xs ≡ ys ++ t ∷ zs)
  unfolding place insert_by
  place-split [] = ([], [], refl, refl, refl)
  place-split (x ∷ xs) = elim (Bool-cases (ltb (pri t) (pri x))) [
    | inl e ↦ ([], x ∷ xs, refl, rw e, rw e)
    | inr e ↦
        let (ys, zs, a, b, d) = place-split xs in
        (x ∷ ys, zs, ap (λ l. x ∷ l) a, rw e b, rw e (ap (λ l. x ∷ l) d))
  ]

  insert-place :
      (h : Links) (xs : List Node)
      → NotIn t (q ∷ xs)
      → IsQueue h q xs
      → IsQueue (kqueue_insert t (place xs) h) q (insert_by pri t xs)
  insert-place h xs out i =
      let (ys, zs, a, b, d) = place-split xs in
      rw (b, d) (go ys zs (subst (λ l. NotIn t (q ∷ l)) a out) (subst (IsQueue h q) a i))
    where
      go :
          (ys zs : List Node)
          → NotIn t (q ∷ ys ++ zs)
          → IsQueue h q (ys ++ zs)
          → IsQueue (kqueue_insert t (first zs q) h) q (ys ++ t ∷ zs)
      go ys [] n k =
          kqueue_insert-append h t q ys (subst (λ l. NotIn t (q ∷ l)) (append-nil ys) n)
            (subst (IsQueue h q) (append-nil ys) k)
      go ys (z ∷ zs) n k = kqueue_insert-before h t z q ys zs n k

module _ ⦃c : Config⦄ (s : Kernel) (q t : Node) where
  abbrev pri : Node → ℕ
  pri x = (s.tcb x).tskpri

  node_eq-other : (x : Node) → x ≢ q → node_eq x q ≡ false
  node_eq-other x n = ground arith

  find_pri-place :
      (fuel : ℕ) (a : Node) (xs : List Node)
      → length xs < fuel
      → NotIn q xs
      → Chain s.links a xs q
      → find_pri_loop fuel q (pri t) (s.links.next a) s ≡ place pri t q xs
  unfolding find_pri_loop place
  find_pri-place zero a xs l n k = absurd (omega (arith, l))
  find_pri-place (suc fuel) a [] l n k =
      let e : node_eq (s.links.next a) q ≡ true = ground (arith, k.0) in rw e k.0
  find_pri-place (suc fuel) a (x ∷ xs) l n k =
      let i = find_pri-place fuel x xs (omega (arith, l)) n.1 k.2 in
      rw (k.0, node_eq-other x n.0, i)

  -- If t is neither the head nor an entry of the queue q and q holds at most as many entries as
  -- there are task blocks, sorted by priority, then kqueue_insert_pri puts t behind the entries
  -- whose priority is as good as its own, and the queue stays sorted.
  pub kqueue_insert_pri-IsSorted :
      (xs : List Node)
      → length xs ≤ tnum_tskid
      → NotIn t (q ∷ xs)
      → IsQueue s.links q xs
      → IsSorted pri xs
      → IsQueue (kqueue_insert_pri t q s).links q (insert_by pri t xs)
        × IsSorted pri (insert_by pri t xs)
  unfolding kqueue_insert_pri kqueue_find_pri
  kqueue_insert_pri-IsSorted xs l out i sorted =
      let e = find_pri-place (tnum_tskid + 1) q xs (omega (arith, l)) i.distinct.0 i.chain in
      (rw e (insert-place pri t q s.links xs out i), insert_by-IsSorted pri t xs sorted)
