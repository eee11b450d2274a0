-- ===== src/Shell/Complete/Prefix.antt =====
-- The common beginning of the commands that match, in shell_complete_cmdword of services/shell/shell.c.
use ittrium.Common.{
  ℕ, suc, ◌+◌, ◌≡◌, ◌≢◌, refl, sym, subst, ◌∙◌, arith, true, false, List, [], ◌∷◌, ◌==◌,
  if◌then◌else◌, Bool-cases, inl, inr, All,
}
use ittrium.Text.{Text}
use ittrium.Shell.Exec.{Command}
use ittrium.Shell.Complete.{Matches, no_matches, starts_with, shared, match_cmd, match_cmds}

starts_with_refl : (t : Text) → starts_with t t ≡ true
unfolding starts_with
starts_with_refl [] = refl
starts_with_refl (x ∷ xs) = let r = starts_with_refl xs in ground arith

starts_with_cons :
    (x y : ℕ) (xs ys : Text)
    → starts_with (x ∷ xs) (y ∷ ys) ≡ true
    → (x ≡ y) × (starts_with xs ys ≡ true)
unfolding starts_with
starts_with_cons x y xs ys e = (ground arith, ground arith)

starts_with_trans :
    (a b c : Text) → starts_with a b ≡ true → starts_with b c ≡ true → starts_with a c ≡ true
unfolding starts_with
starts_with_trans [] b c e f = refl
starts_with_trans (x ∷ xs) [] c e f = cc (e)
starts_with_trans (x ∷ xs) (y ∷ ys) [] e f = cc (f)
starts_with_trans (x ∷ xs) (y ∷ ys) (z ∷ zs) e f =
    let (p, q) = starts_with_cons x y xs ys e in
    let (r, s) = starts_with_cons y z ys zs f in
    let go = starts_with_trans xs ys zs q s in ground (arith, p, r, go)

shared-left : (a b : Text) → starts_with (shared a b) a ≡ true
unfolding starts_with shared
shared-left [] b = refl
shared-left (x ∷ xs) [] = refl
shared-left (x ∷ xs) (y ∷ ys) = elim (Bool-cases (x == y)) [
  | inl e ↦ let go = shared-left xs ys in rw (e, shared) (ground (arith, go))
  | inr e ↦ rw (e, shared) refl
]

shared-right : (a b : Text) → starts_with (shared a b) b ≡ true
unfolding starts_with shared
shared-right [] b = refl
shared-right (x ∷ xs) [] = refl
shared-right (x ∷ xs) (y ∷ ys) = elim (Bool-cases (x == y)) [
  | inl e ↦ let go = shared-right xs ys in rw (e, shared) (ground (arith, go, e))
  | inr e ↦ rw (e, shared) refl
]

shared-longest :
    (t a b : Text)
    → starts_with t a ≡ true
    → starts_with t b ≡ true
    → starts_with t (shared a b) ≡ true
unfolding starts_with shared
shared-longest [] a b e f = refl
shared-longest (c ∷ cs) [] b e f = cc (e)
shared-longest (c ∷ cs) (x ∷ xs) [] e f = cc (f)
shared-longest (c ∷ cs) (x ∷ xs) (y ∷ ys) e f =
    let (p, q) = starts_with_cons c x cs xs e in
    let (r, s) = starts_with_cons c y cs ys f in
    let go = shared-longest cs xs ys q s in
    let same : (x == y) ≡ true = ground (arith, p, r) in rw (same, shared) (ground (arith, p, go))

-- A test of the names that begin with `prefix`.
abbrev pub Matching : {W : Type 0} → Text → (Text → Type 0) → List (Command W) → Type 0
Matching prefix P cmds = All (λ c. starts_with prefix c.name ≡ true → P c.name) cmds

-- How many commands match.
abbrev pub count : {W : Type 0} → Text → List (Command W) → ℕ
count prefix [] = 0
count prefix (c ∷ cs) =
    let rest = count prefix cs in if starts_with prefix c.name then suc rest else rest

-- What the loop makes of the commands `cmds` behind the matches `m`.
pub record IsCommon {W : Type 0} (prefix : Text) (cmds : List (Command W)) (m r : Matches)
    : Type 0 where
  pub counted : r.matches ≡ m.matches + count prefix cmds
  pub shrinks : m.matches ≢ 0 → starts_with r.common m.common ≡ true
  pub begins : Matching prefix (λ n. starts_with r.common n ≡ true) cmds
  pub longest :
      (t : Text)
      → (m.matches ≢ 0 → starts_with t m.common ≡ true)
      → Matching prefix (λ n. starts_with t n ≡ true) cmds
      → r.matches ≢ 0
      → starts_with t r.common ≡ true

match_cmd-skip :
    (prefix name : Text) (m : Matches)
    → starts_with prefix name ≡ false
    → match_cmd prefix name m ≡ m
unfolding match_cmd
match_cmd-skip prefix name m e = rw (e, match_cmd) refl

match_cmd-first :
    (prefix name : Text) (m : Matches)
    → starts_with prefix name ≡ true
    → (m.matches == 0) ≡ true
    → match_cmd prefix name m ≡ record { best = name; common = name; matches = 1 }
unfolding match_cmd
match_cmd-first prefix name m e z = rw (e, z, match_cmd) refl

match_cmd-more :
    (prefix name : Text) (m : Matches)
    → starts_with prefix name ≡ true
    → (m.matches == 0) ≡ false
    → match_cmd prefix name m ≡ record m { common = shared m.common name; matches = suc m.matches }
unfolding match_cmd
match_cmd-more prefix name m e z = rw (e, z, match_cmd) refl

match_cmds-IsCommon :
    {W : Type 0} (prefix : Text) (cmds : List (Command W)) (m : Matches)
    → IsCommon prefix cmds m (match_cmds prefix cmds m)
unfolding match_cmds
match_cmds-IsCommon prefix [] m = record {
  counted = omega arith;
  shrinks = λ _. starts_with_refl m.common;
  begins = tt;
  longest = λ t f g n. f n;
}
match_cmds-IsCommon prefix (c ∷ cs) m =
    let R : Matches → Type 0 = λ x. IsCommon prefix (c ∷ cs) m (match_cmds prefix cs x) in
    elim (Bool-cases (starts_with prefix c.name)) [
      | inr e ↦
          let go = match_cmds-IsCommon prefix cs m in
          subst R (sym (match_cmd-skip prefix c.name m e)) (record {
            counted = rw (e) go.counted;
            shrinks = go.shrinks;
            begins = (λ q. cc (q, e), go.begins);
            longest = λ t f g n. go.longest t f g.1 n;
          })
      | inl e ↦ elim (Bool-cases (m.matches == 0)) [
        | inl z ↦
            let empty : m.matches ≡ 0 = ground (arith, z) in
            let go =
              match_cmds-IsCommon prefix cs
                (record { best = c.name; common = c.name; matches = 1 }) in
            let nonzero : 1 ≢ 0 = λ q. absurd (omega (arith, q)) in
            subst R (sym (match_cmd-first prefix c.name m e z)) (record {
              counted = rw (e) (omega (arith, go.counted, empty));
              shrinks = λ n. absurd (n empty);
              begins = (λ _. go.shrinks nonzero, go.begins);
              longest = λ t f g n. go.longest t (λ _. g.0 e) g.1 n;
            })
        | inr z ↦
            let m1 : Matches = record m {
              common = shared m.common c.name;
              matches = suc m.matches;
            } in
            let go = match_cmds-IsCommon prefix cs m1 in
            let had : m.matches ≢ 0 = λ q. absurd (ground (arith, z, q)) in
            let nonzero : suc m.matches ≢ 0 = λ q. absurd (omega (arith, q)) in
            subst R (sym (match_cmd-more prefix c.name m e z)) (record {
              counted = rw (e) (omega (arith, go.counted));
              shrinks = λ n.
                  starts_with_trans (match_cmds prefix cs m1).common m1.common m.common
                    (go.shrinks nonzero) (shared-left m.common c.name);
              begins = (
                λ _.
                    starts_with_trans (match_cmds prefix cs m1).common m1.common c.name
                      (go.shrinks nonzero) (shared-right m.common c.name),
                go.begins,
              );
              longest = λ t f g n.
                  go.longest t (λ _. shared-longest t m.common c.name (f had) (g.0 e)) g.1 n;
            })
      ]
    ]

-- The loop of shell_complete_cmdword counts the commands that begin with the word, and if there are
-- any, each of them begins with the text that it finds, and so does every text that they all begin
-- with.
pub match_cmds-common :
    {W : Type 0} (prefix : Text) (cmds : List (Command W)) (t : Text)
    → Matching prefix (λ n. starts_with t n ≡ true) cmds
    → count prefix cmds ≢ 0
    → let m = match_cmds prefix cmds no_matches in
      (m.matches ≡ count prefix cmds)
      × Matching prefix (λ n. starts_with m.common n ≡ true) cmds
      × (starts_with t m.common ≡ true)
match_cmds-common prefix cmds t all any =
    let k = match_cmds-IsCommon prefix cmds no_matches in
    let n : (match_cmds prefix cmds no_matches).matches ≡ count prefix cmds =
      omega (arith, k.counted) in
    (n, k.begins, k.longest t (λ q. absurd (q refl)) all (λ q. any (sym n ∙ q)))
