-- ===== src/Vfs/Lookup.antt =====
-- find_mount of services/vfs/vfs.c and the mounts that a path lies below.
use ittrium.Common.{
  ℕ, zero, suc, ◌+◌, ◌≤◌, ◌<◌, ◌≡◌, refl, arith, true, false, ◌&&◌, Option, none, some, length, ltb,
  ◌==◌, if◌then◌else◌, Bool-cases, Option-cases, inl, inr, subst, ℕ_discrete,
}
use ittrium.Text.{Text, char_at}
use ittrium.Vfs.{Mount, Vfs, is_match, is_longer, find_best, find_mount, vfs_max_mounts}
use ittrium.Vfs.Mounts.{IsString}

last-or {ℓ} : (P : ℕ → Type ℓ) (i k : ℕ) → P i → (k < i → P k) → k < suc i → P k
last-or P i k p f l = elim (ℕ_discrete i k) [ yes q ↦ subst P q p | no q ↦ f (omega arith) ]

module _ {W : Type 0} where
  -- What find_mount knows of the first `i` mounts.
  abbrev IsBest : ℕ → Text → (ℕ → Mount W) → Option (ℕ × ℕ) → Type 0
  IsBest i path t none = (k : ℕ) → k < i → is_match path (t k) ≡ false
  IsBest i path t (some b) =
      (b.0 < i)
      × (is_match path (t b.0) ≡ true)
      × (b.1 ≡ (t b.0).plen)
      × ((k : ℕ) → k < i → is_match path (t k) ≡ true → (t k).plen ≤ b.1)

  abbrev next_best : ℕ → Text → (ℕ → Mount W) → Option (ℕ × ℕ) → Option (ℕ × ℕ)
  next_best i path t best =
      if is_match path (t i) && is_longer (t i).plen best then some (i, (t i).plen) else best

  next-IsBest :
      (i : ℕ) (path : Text) (t : ℕ → Mount W) (best : Option (ℕ × ℕ))
      → IsBest i path t best
      → IsBest (suc i) path t (next_best i path t best)
  next-IsBest i path t none h = elim (Bool-cases (is_match path (t i))) [
    | inr m ↦ rw m (λ k l. last-or (λ k. is_match path (t k) ≡ false) i k m (h k) l)
    | inl m ↦ rw m (
      omega arith,
      m,
      refl,
      λ k l q.
          last-or (λ k. is_match path (t k) ≡ true → (t k).plen ≤ (t i).plen) i k (λ _. omega arith)
            (λ below q. cc (q, h k below)) l q,
    )
  ]
  next-IsBest i path t (some b) (below, hit, size, most) = elim (Bool-cases (is_match path (t i))) [
    | inr m ↦ rw m (
      omega arith,
      hit,
      size,
      λ k l q.
          last-or (λ k. is_match path (t k) ≡ true → (t k).plen ≤ b.1) i k (λ q. cc (q, m)) (most k)
            l q,
    )
    | inl m ↦ elim (Bool-cases (ltb b.1 (t i).plen)) [
      | inr short ↦
          rw (m, short)
            (
              omega arith,
              hit,
              size,
              λ k l q.
                  last-or (λ k. is_match path (t k) ≡ true → (t k).plen ≤ b.1) i k
                    (λ _. ground arith) (most k) l q,
            )
      | inl long ↦
          rw (m, long)
            (
              omega arith,
              m,
              refl,
              λ k l q.
                  last-or (λ k. is_match path (t k) ≡ true → (t k).plen ≤ (t i).plen) i k
                    (λ _. omega arith) (λ below q. let z = most k below q in ground arith) l q,
            )
    ]
  ]

  find_best-IsBest :
      (n i end : ℕ) (path : Text) (t : ℕ → Mount W) (best : Option (ℕ × ℕ))
      → i + n ≡ end
      → IsBest i path t best
      → IsBest end path t (find_best n i path t best)
  unfolding find_best
  find_best-IsBest zero i end path t best e h = subst (λ x. IsBest x path t best) (omega arith) h
  find_best-IsBest (suc n) i end path t best e h =
      find_best-IsBest n (suc i) end path t (next_best i path t best) (omega arith)
        (next-IsBest i path t best h)

  -- The paths of the mounts in use are strings, and their lengths are kept.
  pub record IsTable (v : Vfs W) : Type 0 where
    pub lengths : (k : ℕ) → (v.mounts k).plen ≡ length (v.mounts k).path
    pub strings : (k : ℕ) → IsString (v.mounts k).path

  -- If find_mount finds nothing for a path that starts with a slash, no mount in use is one that
  -- the path lies below.
  pub find_mount-none :
      (path : Text) (k : ℕ) (v : Vfs W)
      → char_at path 0 ≡ 47
      → k < vfs_max_mounts
      → find_mount path v ≡ none
      → is_match path (v.mounts k) ≡ false
  unfolding find_mount
  find_mount-none path k v y l q =
      let best = find_best-IsBest 8 0 8 path v.mounts none refl (λ k l. absurd (omega arith)) in
      let slash : char_at path 0 == 47 ≡ true = ground (arith, y) in
      elim (Option-cases (find_best vfs_max_mounts 0 path v.mounts none)) [
        | inl e ↦ subst (IsBest 8 path v.mounts) e best k l
        | inr (b, e) ↦ cc (rw (slash, e, find_mount) at q)
      ]
