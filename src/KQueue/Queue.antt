-- ===== src/KQueue/Queue.antt =====
-- Queues in memory, and kqueue_insert of kernel/kqueue.h on them.
use ittrium.Common.{
  ◌≡◌, ◌≢◌, ◌∙◌, sym, List, [], ◌∷◌, ◌++◌, arith, All, NotIn, Distinct, NotIn-split, Distinct-split,
  Distinct-snoc, Distinct-insert,
}
use ittrium.Node.{Node, update}
use ittrium.KQueue.{Links, kqueue_insert}
use ittrium.KQueue.Chain.{Chain, last, prev-Chain, Chain-append, Chain-split, frame, NotIn-last}

-- The queue headed by `q` holds the entries `xs`, in order.
pub record IsQueue (h : Links) (q : Node) (xs : List Node) : Type 0 where
  pub chain : Chain h q xs q
  pub distinct : Distinct (q ∷ xs)

-- What kqueue_insert leaves in the links of an address other than the three that it writes.
abbrev pub Off : Links → Node → Node → Node → Type 0
Off h e t x = (x ≢ e) × (x ≢ t) × (x ≢ h.prev t)

pub insert-same :
    (h : Links) (e t : Node) (xs : List Node)
    → All (Off h e t) xs
    → All
        (λ x. ((kqueue_insert e t h).next x ≡ h.next x) × ((kqueue_insert e t h).prev x ≡ h.prev x))
        xs
unfolding kqueue_insert update
insert-same h e t [] off = tt
insert-same h e t (x ∷ xs) off = ((ground arith, ground arith), insert-same h e t xs off.1)

-- A queue that shares no address with the three written ones is unchanged.
pub insert-other :
    (h : Links) (e t r : Node) (zs : List Node)
    → All (Off h e t) (r ∷ zs)
    → IsQueue h r zs
    → IsQueue (kqueue_insert e t h) r zs
insert-other h e t r zs off q =
    let same = insert-same h e t (r ∷ zs) off in
    record {
      chain = frame h (kqueue_insert e t h) r r zs same.0.0 same.0.1 same.1 q.chain;
      distinct = q.distinct;
    }

insert-front :
    (h : Links) (a e t : Node) (xs : List Node)
    → Distinct (a ∷ xs)
    → NotIn e (a ∷ xs)
    → NotIn t xs
    → t ≢ e
    → Chain h a xs t
    → Chain (kqueue_insert e t h) a xs e
unfolding kqueue_insert update
insert-front h a e t [] d out ot te c = (ground arith, ground arith)
insert-front h a e t (x ∷ xs) d out ot te c =
    let p = prev-Chain h x t xs c.2 in
    let pe = NotIn-last x a xs (λ q. d.0.0 q) d.0.1 in
    (ground arith, ground arith, insert-front h x e t xs d.1 out.1 ot.1 te c.2)

insert-last : (h : Links) (e t : Node) → t ≢ e → h.prev t ≢ e → Chain (kqueue_insert e t h) e [] t
unfolding kqueue_insert update
insert-last h e t te pe = (ground arith, ground arith)

-- If e is neither the head nor an entry of the queue q, kqueue_insert of e before the head q
-- appends e to the queue.
pub kqueue_insert-append :
    (h : Links) (e q : Node) (xs : List Node)
    → NotIn e (q ∷ xs)
    → IsQueue h q xs
    → IsQueue (kqueue_insert e q h) q (xs ++ e ∷ [])
kqueue_insert-append h e q xs out i =
    let p = prev-Chain h q q xs i.chain in
    let pe : h.prev q ≢ e = λ r. NotIn-last q e xs out.0 out.1 (sym p ∙ r) in
    record {
      chain =
          Chain-append (kqueue_insert e q h) q e q xs []
            (insert-front h q e q xs i.distinct out i.distinct.0 out.0 i.chain)
            (insert-last h e q out.0 pe);
      distinct = Distinct-snoc e (q ∷ xs) i.distinct out;
    }

Off-all :
    (h : Links) (e y p : Node) (ys : List Node)
    → h.prev y ≡ p
    → NotIn e ys
    → NotIn y ys
    → NotIn p ys
    → All (Off h e y) ys
Off-all h e y p [] r ne ny np = tt
Off-all h e y p (z ∷ ys) r ne ny np =
    ((ne.0, ny.0, λ s. np.0 (s ∙ r)), Off-all h e y p ys r ne.1 ny.1 np.1)

pub NotIn-last-cross :
    (q : Node) (xs ys : List Node) → NotIn q ys → All (λ y. NotIn y xs) ys → NotIn (last q xs) ys
NotIn-last-cross q xs [] n c = tt
NotIn-last-cross q xs (y ∷ ys) n c =
    ((λ s. NotIn-last q y xs (λ t. n.0 (sym t)) c.0 (sym s)), NotIn-last-cross q xs ys n.1 c.1)

insert-back :
    (h : Links) (e y q : Node) (ys : List Node)
    → y ≢ e
    → h.prev y ≢ e
    → h.prev y ≢ y
    → q ≢ y
    → q ≢ e
    → All
        (λ x. ((kqueue_insert e y h).next x ≡ h.next x) × ((kqueue_insert e y h).prev x ≡ h.prev x))
        ys
    → Chain h y ys q
    → Chain (kqueue_insert e y h) e (y ∷ ys) q
unfolding kqueue_insert update
insert-back h e y q ys ye pe py qy qe same c = (
  ground arith,
  ground arith,
  frame h (kqueue_insert e y h) y q ys (ground arith) (ground arith) same c,
)

-- If e is neither the head nor an entry of the queue q, kqueue_insert of e before an entry y puts e
-- directly in front of y and keeps the order of the others.
pub kqueue_insert-before :
    (h : Links) (e y q : Node) (xs ys : List Node)
    → NotIn e (q ∷ xs ++ y ∷ ys)
    → IsQueue h q (xs ++ y ∷ ys)
    → IsQueue (kqueue_insert e y h) q (xs ++ e ∷ y ∷ ys)
kqueue_insert-before h e y q xs ys out i =
    let (front, back) = Chain-split h q y q xs ys i.chain in
    let (dx, dy, mx, my, cross) = Distinct-split y xs ys i.distinct.1 in
    let (nx, ny) = NotIn-split q xs (y ∷ ys) i.distinct.0 in
    let (ox, oy) = NotIn-split e xs (y ∷ ys) out.1 in
    let p = prev-Chain h q y xs front in
    let pe : h.prev y ≢ e = λ r. NotIn-last q e xs out.0 ox (sym p ∙ r) in
    let py : h.prev y ≢ y = λ r. NotIn-last q y xs (λ s. ny.0 (sym s)) mx (sym p ∙ r) in
    let off = Off-all h e y (last q xs) ys p oy.1 my (NotIn-last-cross q xs ys ny.1 cross) in
    let same = insert-same h e y ys off in
    record {
      chain =
          Chain-append (kqueue_insert e y h) q e q xs (y ∷ ys)
            (insert-front h q e y xs (nx, dx) (out.0, ox) mx oy.0 front)
            (insert-back h e y q ys oy.0 pe py (λ s. ny.0 (sym s)) out.0 same back);
      distinct = Distinct-insert e (q ∷ xs) (y ∷ ys) i.distinct out;
    }
