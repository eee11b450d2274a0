-- ===== src/Vfs/Mounts.antt =====
-- Paths and mount points in services/vfs/vfs.c.
use ittrium.Common.{
  ℕ, zero, suc, ◌+◌, ◌≡◌, ◌≢◌, ◌⊎◌, ◌∙◌, sym, ap, refl, arith, Bool, true, false, ◌&&◌, ◌||◌, [],
  ◌∷◌, ◌++◌, length, All, ◌==◌, Bool-cases, inl, inr, subst, append-nil,
}
use ittrium.Text.{Text, char_at, drop}
use ittrium.Vfs.{same_chars, path_eq_prefix, rel_of}

-- The path is `mnt`, or goes on with a slash and `rel` behind it; the root is itself a slash.
abbrev pub Below : Text → Text → Text → Type 0
Below path mnt rel =
    ((mnt ≡ 47 ∷ []) × (path ≡ 47 ∷ rel)) ⊎ ((path ≡ mnt ++ 47 ∷ rel) ⊎ ((path ≡ mnt) × (rel ≡ [])))

-- No character of a string is its terminator.
abbrev pub IsString : Text → Type 0
IsString = All (λ c. c ≢ 0)

same_chars-suc :
    (n i x y : ℕ) (xs ys : Text) → same_chars n (suc i) (x ∷ xs) (y ∷ ys) ≡ same_chars n i xs ys
unfolding same_chars
same_chars-suc zero i x y xs ys = refl
same_chars-suc (suc n) i x y xs ys = rw (same_chars-suc n (suc i) x y xs ys) refl

-- The path goes on behind a prefix.
same_chars-prefix :
    (path mnt : Text)
    → IsString mnt
    → same_chars (length mnt) 0 path mnt ≡ true
    → (rest : Text) × (path ≡ mnt ++ rest)
unfolding same_chars
same_chars-prefix path [] s e = (path, refl)
same_chars-prefix [] (y ∷ ys) s e = let n = s.0 in absurd (ground arith)
same_chars-prefix (x ∷ xs) (y ∷ ys) s e =
    let (rest, q) =
      same_chars-prefix xs ys s.1
        (sym (same_chars-suc (length ys) 0 x y xs ys) ∙ ground (arith, e)) in
    let head : x ≡ y = ground (arith, e) in (rest, cc (head, q))

char_at-append : (mnt rest : Text) → char_at (mnt ++ rest) (length mnt) ≡ char_at rest 0
char_at-append [] rest = refl
char_at-append (x ∷ xs) rest = char_at-append xs rest

drop-append : (mnt rest : Text) → drop (length mnt) (mnt ++ rest) ≡ rest
drop-append [] rest = refl
drop-append (x ∷ xs) rest = drop-append xs rest

drop-append_suc : (mnt rest : Text) (c : ℕ) → drop (suc (length mnt)) (mnt ++ c ∷ rest) ≡ rest
drop-append_suc [] rest c = refl
drop-append_suc (x ∷ xs) rest c = drop-append_suc xs rest c

-- A string is at its end where the character is 0.
string-end : (s : Text) → IsString s → char_at s 0 ≡ 0 → s ≡ []
string-end [] n e = refl
string-end (c ∷ cs) n e = absurd (n.0 e)

-- The root mount.
is_root : Text → Bool
is_root mnt = length mnt == 1 && char_at mnt 0 == 47

is_root-eq : (mnt : Text) → is_root mnt ≡ true → mnt ≡ 47 ∷ []
unfolding is_root
is_root-eq [] e = cc (e)
is_root-eq (x ∷ []) e = let q : x ≡ 47 = ground (arith, e) in ap (λ c. c ∷ []) q
is_root-eq (x ∷ y ∷ ys) e = absurd (ground (arith, e))

-- The last test of path_eq_prefix, on a mount that is not the root.
tail_test : Text → Text → Bool
tail_test path mnt = char_at path (length mnt) == 0 || char_at path (length mnt) == 47

rel_of-root : (mnt rest : Text) → is_root mnt ≡ true → rel_of (mnt ++ rest) mnt (length mnt) ≡ rest
unfolding rel_of is_root
rel_of-root mnt rest e = rw e (subst (λ m. drop 1 (m ++ rest) ≡ rest) (sym (is_root-eq mnt e)) refl)

rel_of-slash :
    (mnt rest : Text) → is_root mnt ≡ false → rel_of (mnt ++ 47 ∷ rest) mnt (length mnt) ≡ rest
unfolding rel_of is_root
rel_of-slash mnt rest e =
    rw (e, char_at-append mnt (47 ∷ rest))
      (ap (λ n. drop n (mnt ++ 47 ∷ rest)) (suc_of (length mnt)) ∙ drop-append_suc mnt rest 47)
  where
    suc_of : (n : ℕ) → n + 1 ≡ suc n
    suc_of n = omega arith

rel_of-end : (mnt : Text) → is_root mnt ≡ false → rel_of (mnt ++ []) mnt (length mnt) ≡ []
unfolding rel_of is_root
rel_of-end mnt e = rw (e, char_at-append mnt []) (drop-append mnt [])

rest-Below :
    (mnt rest : Text)
    → IsString rest
    → is_root mnt ≡ false
    → tail_test (mnt ++ rest) mnt ≡ true
    → Below (mnt ++ rest) mnt (rel_of (mnt ++ rest) mnt (length mnt))
unfolding tail_test
rest-Below mnt [] s r e = inr (inr (append-nil mnt, rel_of-end mnt r))
rest-Below mnt (c ∷ cs) s r e =
    let n = s.0 in
    let here = char_at-append mnt (c ∷ cs) in
    let slash : c ≡ 47 = ground (arith, e, here, n) in
    subst (λ c. Below (mnt ++ c ∷ cs) mnt (rel_of (mnt ++ c ∷ cs) mnt (length mnt))) (sym slash)
      (inr (inl (ap (λ (l : Text). mnt ++ 47 ∷ l) (sym (rel_of-slash mnt cs r)))))

All-behind : (xs ys : Text) → IsString (xs ++ ys) → IsString ys
All-behind [] ys h = h
All-behind (x ∷ xs) ys h = All-behind xs ys h.1

path_eq_prefix-parts :
    (path mnt : Text) (mlen : ℕ)
    → path_eq_prefix path mnt mlen ≡ true
    → (mlen ≢ 0)
      × (same_chars mlen 0 path mnt ≡ true)
      × ((mlen == 1 && char_at mnt 0 == 47) || (char_at path mlen == 0 || char_at path mlen == 47)
          ≡ true)
unfolding path_eq_prefix
path_eq_prefix-parts path mnt mlen e = (ground (arith, e), ground (arith, e), ground (arith, e))

-- A mount that path_eq_prefix accepts is one that the path lies below, with the rest of rel_of.
pub path_eq_prefix-Below :
    (path mnt : Text)
    → IsString path
    → IsString mnt
    → path_eq_prefix path mnt (length mnt) ≡ true
    → Below path mnt (rel_of path mnt (length mnt))
unfolding is_root tail_test
path_eq_prefix-Below path mnt s m e =
    let (_, same, end) = path_eq_prefix-parts path mnt (length mnt) e in
    let (rest, q) = same_chars-prefix path mnt m same in
    let end' = subst (λ p. is_root mnt || tail_test p mnt ≡ true) q end in
    subst (λ p. Below p mnt (rel_of p mnt (length mnt))) (sym q)
      (elim (Bool-cases (is_root mnt)) [
        | inl r ↦ inl (
          is_root-eq mnt r,
          ap (λ (p : Text). p ++ rest) (is_root-eq mnt r)
              ∙ ap (λ (l : Text). 47 ∷ l) (sym (rel_of-root mnt rest r)),
        )
        | inr r ↦ rest-Below mnt rest (All-behind mnt rest (subst IsString q s)) r (rw r at end')
      ])
