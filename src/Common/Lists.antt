-- ===== src/Common/Lists.antt =====
-- Lists measured by native numbers, and membership by recursion, which the tactics read.
use Prim.Native.Nat.{ℕ, suc, ◌+◌}
use mathlib.Core.Path.{◌≡◌, refl, sym, ap, subst}
use mathlib.Core.Logic.{◌≢◌, ◌⊎◌, inl, inr}
use mathlib.Core.List.{List, [], ◌∷◌, ◌++◌}
use native.Mathlib.Omega.{arith}

module _ {ℓ} {A : Type ℓ} where
  abbrev pub length : List A → ℕ
  length [] = 0
  length (x ∷ xs) = suc (length xs)

  pub length-append : (xs ys : List A) → length (xs ++ ys) ≡ length xs + length ys
  length-append [] ys = omega arith
  length-append (x ∷ xs) ys = omega (arith, length-append xs ys)

-- `P` holds of every item.
abbrev pub All {ℓ κ} : {A : Type ℓ} → (A → Type κ) → List A → Type κ
All P [] = Unit
All P (x ∷ xs) = P x × All P xs

module _ {A : Type 0} where
  -- `x` is not an item.
  abbrev pub NotIn : A → List A → Type 0
  NotIn x [] = Unit
  NotIn x (y ∷ ys) = (y ≢ x) × NotIn x ys

  -- No item stands twice.
  abbrev pub Distinct : List A → Type 0
  Distinct [] = Unit
  Distinct (x ∷ xs) = NotIn x xs × Distinct xs

  pub NotIn-append : (x : A) (xs ys : List A) → NotIn x xs → NotIn x ys → NotIn x (xs ++ ys)
  NotIn-append x [] ys p q = q
  NotIn-append x (y ∷ xs) ys p q = (p.0, NotIn-append x xs ys p.1 q)

  pub NotIn-split : (x : A) (xs ys : List A) → NotIn x (xs ++ ys) → NotIn x xs × NotIn x ys
  NotIn-split x [] ys p = (tt, p)
  NotIn-split x (y ∷ xs) ys p = let (a, b) = NotIn-split x xs ys p.1 in ((p.0, a), b)

  -- The parts of a list round an item `m`, when no item stands twice.
  pub Distinct-split :
      (m : A) (xs ys : List A)
      → Distinct (xs ++ m ∷ ys)
      → Distinct xs × Distinct ys × NotIn m xs × NotIn m ys × All (λ y. NotIn y xs) ys
  Distinct-split m [] ys d = (tt, d.1, tt, d.0, All-trivial ys)
    where
      All-trivial : (ys : List A) → All (λ y. NotIn y []) ys
      All-trivial [] = tt
      All-trivial (y ∷ ys) = (tt, All-trivial ys)
  Distinct-split m (x ∷ xs) ys d =
      let (dx, dy, mx, my, cross) = Distinct-split m xs ys d.1 in
      let (nx, ny) = NotIn-split x xs (m ∷ ys) d.0 in
      ((nx, dx), dy, ((λ e. ny.0 (sym e)), mx), my, extend ys ny.1 cross)
    where
      extend :
          (ys : List A) → NotIn x ys → All (λ y. NotIn y xs) ys → All (λ y. NotIn y (x ∷ xs)) ys
      extend [] n c = tt
      extend (y ∷ ys) n c = (((λ e. n.0 (sym e)), c.0), extend ys n.1 c.1)

  pub Distinct-snoc : (e : A) (xs : List A) → Distinct xs → NotIn e xs → Distinct (xs ++ e ∷ [])
  Distinct-snoc e [] d n = (tt, tt)
  Distinct-snoc e (x ∷ xs) d n =
      (NotIn-append x xs (e ∷ []) d.0 ((λ q. n.0 (sym q)), tt), Distinct-snoc e xs d.1 n.1)

  -- A list without the item `m`.
  pub Distinct-drop : (m : A) (xs ys : List A) → Distinct (xs ++ m ∷ ys) → Distinct (xs ++ ys)
  Distinct-drop m [] ys d = d.1
  Distinct-drop m (x ∷ xs) ys d =
      let (nx, ny) = NotIn-split x xs (m ∷ ys) d.0 in
      (NotIn-append x xs ys nx ny.1, Distinct-drop m xs ys d.1)

  pub Distinct-insert :
      (m : A) (xs ys : List A) → Distinct (xs ++ ys) → NotIn m (xs ++ ys) → Distinct (xs ++ m ∷ ys)
  Distinct-insert m [] ys d n = (n, d)
  Distinct-insert m (x ∷ xs) ys d n =
      let (nx, ny) = NotIn-split x xs ys d.0 in
      (NotIn-append x xs (m ∷ ys) nx ((λ q. n.0 (sym q)), ny), Distinct-insert m xs ys d.1 n.1)

  -- `x` is an item.
  abbrev pub In : A → List A → Type 0
  In x [] = ⊥
  In x (y ∷ ys) = (x ≡ y) ⊎ In x ys

  pub In-append_left : (x : A) (xs ys : List A) → In x xs → In x (xs ++ ys)
  In-append_left x [] ys i = elim i [ ]
  In-append_left x (y ∷ xs) ys (inl e) = inl e
  In-append_left x (y ∷ xs) ys (inr i) = inr (In-append_left x xs ys i)

  pub In-middle : (x : A) (xs ys : List A) → In x (xs ++ x ∷ ys)
  In-middle x [] ys = inl refl
  In-middle x (y ∷ xs) ys = inr (In-middle x xs ys)

  pub In-insert : (x m : A) (xs ys : List A) → In x (xs ++ ys) → In x (xs ++ m ∷ ys)
  In-insert x m [] ys i = inr i
  In-insert x m (y ∷ xs) ys (inl e) = inl e
  In-insert x m (y ∷ xs) ys (inr i) = inr (In-insert x m xs ys i)

  pub In-drop : (x m : A) (xs ys : List A) → x ≢ m → In x (xs ++ m ∷ ys) → In x (xs ++ ys)
  In-drop x m [] ys n (inl e) = absurd (n e)
  In-drop x m [] ys n (inr i) = i
  In-drop x m (y ∷ xs) ys n (inl e) = inl e
  In-drop x m (y ∷ xs) ys n (inr i) = inr (In-drop x m xs ys n i)

  -- What stands before and behind an item.
  pub In-split :
      (x : A) (zs : List A) → In x zs → (xs : List A) × (ys : List A) × (zs ≡ xs ++ x ∷ ys)
  In-split x [] i = elim i [ ]
  In-split x (y ∷ zs) (inl e) = ([], zs, ap (λ a. a ∷ zs) (sym e))
  In-split x (y ∷ zs) (inr i) = let (xs, ys, w) = In-split x zs i in (y ∷ xs, ys, ap (λ l. y ∷ l) w)

  pub All-In {ℓ} : (P : A → Type ℓ) (x : A) (zs : List A) → All P zs → In x zs → P x
  All-In P x [] h i = elim i [ ]
  All-In P x (y ∷ zs) h (inl e) = subst P (sym e) h.0
  All-In P x (y ∷ zs) h (inr i) = All-In P x zs h.1 i

  pub All-map {ℓ κ} :
      (P : A → Type ℓ) (Q : A → Type κ) (zs : List A) → ((x : A) → P x → Q x) → All P zs → All Q zs
  All-map P Q [] f h = tt
  All-map P Q (z ∷ zs) f h = (f z h.0, All-map P Q zs f h.1)

  pub All-append {ℓ} : (P : A → Type ℓ) (xs ys : List A) → All P xs → All P ys → All P (xs ++ ys)
  All-append P [] ys hx hy = hy
  All-append P (x ∷ xs) ys hx hy = (hx.0, All-append P xs ys hx.1 hy)

  pub All-drop {ℓ} :
      (P : A → Type ℓ) (m : A) (xs ys : List A) → All P (xs ++ m ∷ ys) → All P (xs ++ ys)
  All-drop P m [] ys h = h.1
  All-drop P m (x ∷ xs) ys h = (h.0, All-drop P m xs ys h.1)

  pub All-insert {ℓ} :
      (P : A → Type ℓ) (m : A) (xs ys : List A) → P m → All P (xs ++ ys) → All P (xs ++ m ∷ ys)
  All-insert P m [] ys p h = (p, h)
  All-insert P m (x ∷ xs) ys p h = (h.0, All-insert P m xs ys p h.1)

  pub All-out {ℓ} : (P : A → Type ℓ) (m : A) (zs : List A) → ¬ P m → All P zs → NotIn m zs
  All-out P m [] n h = tt
  All-out P m (z ∷ zs) n h = ((λ e. n (subst P e h.0)), All-out P m zs n h.1)

  pub NotIn-In : (m : A) (zs : List A) → NotIn m zs → ¬ In m zs
  NotIn-In m [] n i = elim i [ ]
  NotIn-In m (z ∷ zs) n (inl e) = n.0 (sym e)
  NotIn-In m (z ∷ zs) n (inr i) = NotIn-In m zs n.1 i

  pub All-split {ℓ} : (P : A → Type ℓ) (xs ys : List A) → All P (xs ++ ys) → All P xs × All P ys
  All-split P [] ys h = (tt, h)
  All-split P (x ∷ xs) ys h = let (a, b) = All-split P xs ys h.1 in ((h.0, a), b)
