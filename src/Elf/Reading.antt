-- ===== src/Elf/Reading.antt =====
-- The rounds of read_all in services/elf/elf_load.c.
use ittrium.Common.{
  ℕ, zero, suc, ◌-◌, ◌≤◌, ◌≡◌, ◌⊎◌, inl, inr, refl, sym, ap, ◌∙◌, arith, Option, none, some, List,
  [], ◌++◌,
}
use ittrium.Common.Int.{ℤ, pos, negsuc}
use ittrium.Vfs.{Vfs, vfs_read}
use ittrium.Elf.Files.{read_all}

ℤ-cases : (z : ℤ) → ((n : ℕ) × (z ≡ negsuc n)) ⊎ ((z ≡ pos zero) ⊎ ((n : ℕ) × (z ≡ pos (suc n))))
ℤ-cases (negsuc n) = inl (n, refl)
ℤ-cases (pos zero) = inr (inl refl)
ℤ-cases (pos (suc n)) = inr (inr (n, refl))

module _ {W : Type 0} where
  read_all-done : (a : ℕ) (fd : ℤ) (v : Vfs W) → read_all a fd 0 v ≡ (v, some [])
  unfolding read_all
  read_all-done zero fd v = refl
  read_all-done (suc a) fd v = refl

  -- What a round puts in front of the rest.
  joined : List ℕ → Vfs W × Option (List ℕ) → Vfs W × Option (List ℕ)
  joined buf p = elim (p.1) [ none ↦ (p.0, none) | some more ↦ (p.0, some (buf ++ more)) ]

  read_all-step :
      (a n r : ℕ) (fd : ℤ) (v : Vfs W)
      → (vfs_read fd (suc n) v).1 ≡ pos (suc r)
      → read_all (suc a) fd (suc n) v
        ≡ joined (vfs_read fd (suc n) v).2 (read_all a fd (n - r) (vfs_read fd (suc n) v).0)
  unfolding read_all joined
  read_all-step a n r fd v q = rw (q, read_all) refl

  -- More rounds than bytes to read change nothing: each round of read_all that goes on reads a byte.
  pub read_all-fuel :
      (a b n : ℕ) (fd : ℤ) (v : Vfs W) → n ≤ a → n ≤ b → read_all a fd n v ≡ read_all b fd n v
  unfolding read_all
  read_all-fuel a b zero fd v l m = read_all-done a fd v ∙ sym (read_all-done b fd v)
  read_all-fuel zero b (suc n) fd v l m = absurd (omega (arith, l))
  read_all-fuel (suc a) zero (suc n) fd v l m = absurd (omega (arith, m))
  read_all-fuel (suc a) (suc b) (suc n) fd v l m = elim (ℤ-cases ((vfs_read fd (suc n) v).1)) [
    | inl (e, q) ↦ rw (q, read_all) refl
    | inr (inl q) ↦ rw (q, read_all) refl
    | inr (inr (r, q)) ↦
        let more = vfs_read fd (suc n) v in
        read_all-step a n r fd v q
        ∙ ap (joined more.2)
            (read_all-fuel a b (n - r) fd more.0 (omega (arith, l)) (omega (arith, m)))
        ∙ sym (read_all-step b n r fd v q)
  ]
