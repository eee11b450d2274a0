-- ===== src/Common/Table.antt =====
-- Searches in a table of numbered entries: `for (i = 0; i < n; i++) if (p(t[i])) return i;`.
use Prim.Native.Nat.{ℕ, zero, suc, ◌+◌, ◌≤◌, ◌<◌}
use mathlib.Core.Path.{◌≡◌, refl, ap}
use mathlib.Core.Logic.{inl, inr}
use mathlib.Core.Bool.{Bool, true, false}
use mathlib.Core.Option.{Option, none, some}
use native.Mathlib.Omega.{arith}
use native.Mathlib.Decide.{ℕ_discrete}
use ittrium.Common.Tests.{if◌then◌else◌, Bool-cases}

module _ {A : Type 0} (p : A → Bool) where
  -- The first of the `n` entries from `i` on with the property.
  unfoldable pub find_from : (n i : ℕ) → (ℕ → A) → Option ℕ
  find_from zero i t = none
  find_from (suc n) i t = let rest = find_from n (suc i) t in if p (t i) then some i else rest

  unfoldable pub find_slot : ℕ → (ℕ → A) → Option ℕ
  unfolding find_from
  find_slot n t = find_from n 0 t

  -- What a search from `i` on has found: the first entry with the property.
  pub record IsFirst (i : ℕ) (t : ℕ → A) (j : ℕ) : Type 0 where
    pub holds : p (t j) ≡ true
    pub from : i ≤ j
    pub before : (k : ℕ) → i ≤ k → k < j → p (t k) ≡ false

  find_from-some : (n i j : ℕ) (t : ℕ → A) → find_from n i t ≡ some j → IsFirst i t j × (j < i + n)
  unfolding find_from
  find_from-some zero i j t e = cc (e)
  find_from-some (suc n) i j t e = elim (Bool-cases (p (t i))) [
    | inl h ↦
        let same : i ≡ j = ground (arith, e, h) in
        rw (← same) (
          record { holds = h; from = omega arith; before = λ k a b. absurd (omega arith) },
          omega arith,
        )
    | inr h ↦
        let later : find_from n (suc i) t ≡ some j = ground (arith, e, h) in
        let (f, l) = find_from-some n (suc i) j t later in
        (
          record {
            holds = f.holds;
            from = let g = f.from in omega arith;
            before = λ k a b. elim (ℕ_discrete i k) [
              | yes q ↦ rw (← q) h
              | no q ↦ f.before k (omega arith) b
            ];
          },
          omega arith,
        )
  ]

  find_from-none :
      (n i : ℕ) (t : ℕ → A) → find_from n i t ≡ none → (k : ℕ) → i ≤ k → k < i + n → p (t k) ≡ false
  unfolding find_from
  find_from-none zero i t e k a b = absurd (omega arith)
  find_from-none (suc n) i t e k a b = elim (Bool-cases (p (t i))) [
    | inl h ↦ absurd (ground (arith, e, h))
    | inr h ↦
        let later : find_from n (suc i) t ≡ none = ground (arith, e, h) in
        elim (ℕ_discrete i k) [
          | yes q ↦ rw (← q) h
          | no q ↦ find_from-none n (suc i) t later k (omega arith) (omega arith)
        ]
  ]

  find_from-first : (n i j : ℕ) (t : ℕ → A) → IsFirst i t j → j < i + n → find_from n i t ≡ some j
  unfolding find_from
  find_from-first zero i j t f l = absurd (let g = f.from in omega arith)
  find_from-first (suc n) i j t f l = elim (ℕ_discrete i j) [
    | yes q ↦ let h : p (t i) ≡ true = rw q f.holds in rw h (ap some q)
    | no q ↦
        let g = f.from in
        let h = f.before i (omega arith) (omega arith) in
        rw h (
          find_from-first n (suc i) j t
            (record {
              holds = f.holds;
              from = omega arith;
              before = λ k a b. f.before k (omega arith) b;
            })
            (omega arith))
  ]

  pub find_slot-some : (n j : ℕ) (t : ℕ → A) → find_slot n t ≡ some j → IsFirst 0 t j × (j < n)
  unfolding find_slot
  find_slot-some n j t e = let (f, l) = find_from-some n 0 j t e in (f, omega arith)

  pub find_slot-none :
      (n : ℕ) (t : ℕ → A) → find_slot n t ≡ none → (k : ℕ) → k < n → p (t k) ≡ false
  unfolding find_slot
  find_slot-none n t e k l = find_from-none n 0 t e k (omega arith) (omega arith)

  pub find_slot-first : (n j : ℕ) (t : ℕ → A) → IsFirst 0 t j → j < n → find_slot n t ≡ some j
  unfolding find_slot
  find_slot-first n j t f l = find_from-first n 0 j t f (omega arith)

  find_from-ext :
      (n i : ℕ) (t u : ℕ → A) → ((k : ℕ) → p (t k) ≡ p (u k)) → find_from n i t ≡ find_from n i u
  unfolding find_from
  find_from-ext zero i t u h = refl
  find_from-ext (suc n) i t u h =
      let rest = find_from-ext n (suc i) t u h in let now = h i in ground (arith, now, rest)

  pub find_slot-ext :
      (n : ℕ) (t u : ℕ → A) → ((k : ℕ) → p (t k) ≡ p (u k)) → find_slot n t ≡ find_slot n u
  unfolding find_slot
  find_slot-ext n t u h = find_from-ext n 0 t u h
