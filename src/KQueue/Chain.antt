-- ===== src/KQueue/Chain.antt =====
-- Chains of linked nodes, what a write does to them, and their heads and ends.
use ittrium.Common.{◌≡◌, ◌≢◌, refl, List, [], ◌∷◌, ◌++◌, arith, All, NotIn}
use ittrium.Node.{Node}
use ittrium.KQueue.{Links}

-- From `a` the links lead forwards through `xs` to `b`, and back again.
abbrev pub Chain : Links → Node → List Node → Node → Type 0
Chain h a [] b = (h.next a ≡ b) × (h.prev b ≡ a)
Chain h a (x ∷ xs) b = (h.next a ≡ x) × (h.prev x ≡ a) × Chain h x xs b

-- The last node of a chain before its end.
abbrev pub last : Node → List Node → Node
last a [] = a
last a (x ∷ xs) = last x xs

abbrev pub first : List Node → Node → Node
first [] b = b
first (x ∷ xs) b = x

pub next-Chain : (h : Links) (a b : Node) (xs : List Node) → Chain h a xs b → h.next a ≡ first xs b
next-Chain h a b [] c = c.0
next-Chain h a b (x ∷ xs) c = c.0

pub prev-Chain : (h : Links) (a b : Node) (xs : List Node) → Chain h a xs b → h.prev b ≡ last a xs
prev-Chain h a b [] c = c.1
prev-Chain h a b (x ∷ xs) c = prev-Chain h x b xs c.2

pub Chain-append :
    (h : Links) (a m b : Node) (xs ys : List Node)
    → Chain h a xs m
    → Chain h m ys b
    → Chain h a (xs ++ m ∷ ys) b
Chain-append h a m b [] ys c d = (c.0, c.1, d)
Chain-append h a m b (x ∷ xs) ys c d = (c.0, c.1, Chain-append h x m b xs ys c.2 d)

pub Chain-split :
    (h : Links) (a m b : Node) (xs ys : List Node)
    → Chain h a (xs ++ m ∷ ys) b
    → Chain h a xs m × Chain h m ys b
Chain-split h a m b [] ys c = ((c.0, c.1), c.2)
Chain-split h a m b (x ∷ xs) ys c = let (l, r) = Chain-split h x m b xs ys c.2 in ((c.0, c.1, l), r)

-- Memory `g` agrees with `h` on the forward links of `a ∷ xs` and the backward links of `xs` and `b`.
pub frame :
    (h g : Links) (a b : Node) (xs : List Node)
    → g.next a ≡ h.next a
    → g.prev b ≡ h.prev b
    → All (λ x. (g.next x ≡ h.next x) × (g.prev x ≡ h.prev x)) xs
    → Chain h a xs b
    → Chain g a xs b
frame h g a b [] n p same c = ground arith
frame h g a b (x ∷ xs) n p same c =
    (ground arith, ground arith, frame h g x b xs same.0.0 p same.1 c.2)

pub last-append : (a m : Node) (xs ys : List Node) → last a (xs ++ m ∷ ys) ≡ last m ys
last-append a m [] ys = refl
last-append a m (x ∷ xs) ys = last-append x m xs ys

pub NotIn-last : (a y : Node) (xs : List Node) → a ≢ y → NotIn y xs → last a xs ≢ y
NotIn-last a y [] n out = n
NotIn-last a y (x ∷ xs) n out = NotIn-last x y xs out.0 out.1

pub NotIn-first : (b y : Node) (xs : List Node) → b ≢ y → NotIn y xs → first xs b ≢ y
NotIn-first b y [] n out = n
NotIn-first b y (x ∷ xs) n out = out.0

pub All-last {ℓ} : (P : Node → Type ℓ) (a : Node) (xs : List Node) → P a → All P xs → P (last a xs)
All-last P a [] p h = p
All-last P a (x ∷ xs) p h = All-last P x xs h.0 h.1

pub All-first {ℓ} :
    (P : Node → Type ℓ) (b : Node) (xs : List Node) → P b → All P xs → P (first xs b)
All-first P b [] p h = p
All-first P b (x ∷ xs) p h = h.0
