-- ===== src/KQueue/Remove.antt =====
-- kqueue_remove, kqueue_remove_next, kqueue_init and kqueue_empty of kernel/kqueue.h on queues in memory.
use ittrium.Common.{
  ◌≡◌, ◌≢◌, ◌∙◌, if_neg, refl, sym, subst₂, append-nil, true, false, List, [], ◌∷◌, ◌++◌, arith,
  All, NotIn, Distinct, NotIn-split, Distinct-split, Distinct-drop,
}
use ittrium.Node.{Node, update}
use ittrium.KQueue.{Links, kqueue_init, kqueue_remove, kqueue_remove_next, kqueue_empty}
use ittrium.KQueue.Chain.{
  Chain, last, first, next-Chain, prev-Chain, Chain-append, Chain-split, frame, NotIn-last,
  NotIn-first,
}
use ittrium.KQueue.Queue.{IsQueue, NotIn-last-cross}

-- What kqueue_remove writes: `p` and `n` are linked to each other.
abbrev pub Relinked : Links → Links → Node → Node → Type 0
Relinked h g p n =
    (g.next p ≡ n)
    × (g.prev n ≡ p)
    × ((x : Node) → x ≢ p → g.next x ≡ h.next x)
    × ((x : Node) → x ≢ n → g.prev x ≡ h.prev x)

pub remove-Relinked :
    (h : Links) (e : Node)
    → h.next e ≢ e
    → h.prev e ≢ e
    → Relinked h (kqueue_remove e h) (h.prev e) (h.next e)
unfolding kqueue_remove update
remove-Relinked h e ne pe =
    (ground arith, ground arith, (λ x d. ground arith), (λ x d. ground arith))

relink-front :
    (h g : Links) (a e p n : Node) (xs : List Node)
    → Relinked h g p n
    → Distinct (a ∷ xs)
    → NotIn n xs
    → last a xs ≡ p
    → Chain h a xs e
    → Chain g a xs n
relink-front h g a e p n [] r d out l c = ground (arith, r.0, r.1)
relink-front h g a e p n (x ∷ xs) r d out l c =
    let ap : a ≢ p = λ s. NotIn-last x a xs d.0.0 d.0.1 (l ∙ sym s) in
    (r.2 a ap ∙ c.0, r.3 x out.0 ∙ c.1, relink-front h g x e p n xs r d.1 out.1 l c.2)

pub relink-same :
    (h g : Links) (p n : Node) (xs : List Node)
    → Relinked h g p n
    → NotIn p xs
    → NotIn n xs
    → All (λ x. (g.next x ≡ h.next x) × (g.prev x ≡ h.prev x)) xs
relink-same h g p n [] r np nn = tt
relink-same h g p n (x ∷ xs) r np nn =
    ((r.2 x np.0, r.3 x nn.0), relink-same h g p n xs r np.1 nn.1)

relink-queue :
    (h g : Links) (e q : Node) (xs ys : List Node)
    → Relinked h g (h.prev e) (h.next e)
    → IsQueue h q (xs ++ e ∷ ys)
    → Chain g q (xs ++ ys) q
relink-queue h g e q xs [] r i =
    let (front, back) = Chain-split h q e q xs [] i.chain in
    let (dx, dy, mx, my, cross) = Distinct-split e xs [] i.distinct.1 in
    let (nx, ny) = NotIn-split q xs (e ∷ []) i.distinct.0 in
    let r' = subst₂ (Relinked h g) (prev-Chain h q e xs front) back.0 r in
    rw append-nil (relink-front h g q e (last q xs) q xs r' (nx, dx) nx refl front)
relink-queue h g e q xs (y ∷ ys) r i =
    let (front, back) = Chain-split h q e q xs (y ∷ ys) i.chain in
    let (dx, dy, mx, my, cross) = Distinct-split e xs (y ∷ ys) i.distinct.1 in
    let (nx, ny) = NotIn-split q xs (e ∷ y ∷ ys) i.distinct.0 in
    let r' = subst₂ (Relinked h g) (prev-Chain h q e xs front) back.0 r in
    let out = NotIn-last-cross q xs (y ∷ ys) ny.1 cross in
    let same = relink-same h g (last q xs) y ys r' out.1 dy.0 in
    Chain-append g q y q xs ys
      (relink-front h g q e (last q xs) y xs r' (nx, dx) cross.0 refl front)
      (frame h g y q ys (r'.2 y out.0) (r'.3 q (λ s. ny.1.0 (sym s))) same back.2)

-- An entry of a queue is linked to two other addresses, the neighbours of its place.
pub entry-links :
    (h : Links) (e q : Node) (xs ys : List Node)
    → IsQueue h q (xs ++ e ∷ ys)
    → (h.prev e ≡ last q xs) × (h.next e ≡ first ys q) × (h.next e ≢ e) × (h.prev e ≢ e)
entry-links h e q xs ys i =
    let (front, back) = Chain-split h q e q xs ys i.chain in
    let (dx, dy, mx, my, cross) = Distinct-split e xs ys i.distinct.1 in
    let (nx, ny) = NotIn-split q xs (e ∷ ys) i.distinct.0 in
    let qe : q ≢ e = λ s. ny.0 (sym s) in
    let p = prev-Chain h q e xs front in
    let n = next-Chain h e q ys back in
    (p, n, (λ s. NotIn-first q e ys qe my (sym n ∙ s)), (λ s. NotIn-last q e xs qe mx (sym p ∙ s)))

-- kqueue_remove of an entry of a queue takes it out and keeps the order of the others.
pub kqueue_remove-mem :
    (h : Links) (e q : Node) (xs ys : List Node)
    → IsQueue h q (xs ++ e ∷ ys)
    → IsQueue (kqueue_remove e h) q (xs ++ ys)
kqueue_remove-mem h e q xs ys i =
    let (p, n, ne, pe) = entry-links h e q xs ys i in
    record {
      chain = relink-queue h (kqueue_remove e h) e q xs ys (remove-Relinked h e ne pe) i;
      distinct = Distinct-drop e (q ∷ xs) ys i.distinct;
    }

-- A queue that neither holds the entry nor its neighbours is unchanged.
pub remove-other :
    (h : Links) (e r : Node) (zs : List Node)
    → h.next e ≢ e
    → h.prev e ≢ e
    → NotIn (h.prev e) (r ∷ zs)
    → NotIn (h.next e) (r ∷ zs)
    → IsQueue h r zs
    → IsQueue (kqueue_remove e h) r zs
remove-other h e r zs ne pe np nn i =
    let same = relink-same h _ _ _ (r ∷ zs) (remove-Relinked h e ne pe) np nn in
    record {
      chain = frame h (kqueue_remove e h) r r zs same.0.0 same.0.1 same.1 i.chain;
      distinct = i.distinct;
    }

-- An entry that is linked to itself, as kqueue_init leaves it, is in no queue, and removing it
-- changes nothing.
pub kqueue_remove_self : (h : Links) (e : Node) → h.next e ≡ e → kqueue_remove e h ≡ h
unfolding kqueue_remove
kqueue_remove_self h e s = ground arith

pub kqueue_init-IsQueue : (h : Links) (q : Node) → IsQueue (kqueue_init q h) q []
unfolding kqueue_init update
kqueue_init-IsQueue h q = record { chain = (ground arith, ground arith); distinct = (tt, tt) }

-- kqueue_empty tells the empty queue.
pub kqueue_empty-nil : (h : Links) (q : Node) → IsQueue h q [] → kqueue_empty q h ≡ true
unfolding kqueue_empty
kqueue_empty-nil h q i = ground (arith, i.chain)

pub kqueue_empty-cons :
    (h : Links) (q x : Node) (xs : List Node) → IsQueue h q (x ∷ xs) → kqueue_empty q h ≡ false
unfolding kqueue_empty
kqueue_empty-cons h q x xs i =
    let c : h.next q ≡ x = i.chain.0 in let d : x ≢ q = i.distinct.0.0 in ground arith

remove_next-Relinked :
    (h : Links) (q x : Node)
    → h.next q ≡ x
    → x ≢ q
    → h.prev x ≡ q
    → Relinked h (kqueue_remove_next q h).1 (h.prev x) (h.next x)
unfolding kqueue_remove_next update
remove_next-Relinked h q x n d p =
    (ground arith, ground arith, (λ y a. ground arith), (λ y a. ground arith))

-- On a queue with a first entry, kqueue_remove_next returns that entry and leaves the queue of the
-- others.
pub kqueue_remove_next-cons :
    (h : Links) (q x : Node) (xs : List Node)
    → IsQueue h q (x ∷ xs)
    → ((kqueue_remove_next q h).0 ≡ x) × IsQueue (kqueue_remove_next q h).1 q xs
unfolding kqueue_remove_next
kqueue_remove_next-cons h q x xs i =
    let (n, p, rest) = i.chain in
    (
      n,
      record {
        chain =
            relink-queue h (kqueue_remove_next q h).1 x q [] xs
              (remove_next-Relinked h q x n i.distinct.0.0 p) i;
        distinct = (i.distinct.0.1, i.distinct.1.1);
      },
    )

-- On the first entry of a queue kqueue_remove_next writes what kqueue_remove writes.
pub kqueue_remove_next-remove :
    (h : Links) (q x : Node) (xs : List Node)
    → IsQueue h q (x ∷ xs)
    → kqueue_remove_next q h ≡ (x, kqueue_remove x h)
unfolding kqueue_remove_next kqueue_remove
kqueue_remove_next-remove h q x xs i =
    let (p, n, ne, pe) = entry-links h x q [] xs i in rw (i.chain.0, if_neg _ ne, p)
