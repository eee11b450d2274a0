-- ===== src/Shell/Line.antt =====
-- Comments and assignments on the command line of services/shell/shell_parse.c.
use ittrium.Common.{
  ℕ, ◌≡◌, ◌∙◌, refl, sym, ap, arith, true, false, ◌&&◌, ◌||◌, not, Option, none, some, [], ◌∷◌,
  ◌++◌, length, leb, ltb, ◌==◌, if◌then◌else◌, Bool-cases, inl, inr, subst, ℕ_discrete, both-true,
}
use ittrium.Text.{Text, valid_name_start, valid_name_char}
use ittrium.Shell.Vars.{all_name_chars, good_name, shell_var_name}

-- The quotes behind the character `c`, which itself stands in the quotes `q`; 0 outside of quotes.
unfoldable pub next_quote : ℕ → ℕ → ℕ
next_quote q c =
    if not (q == 0) then (if c == q then 0 else q) else if c == 39 || c == 34 then c else 0

-- The loop of strip_comment: the line up to the first `#` outside of quotes.
unfoldable pub strip_from : ℕ → Text → Text
strip_from q [] = []
strip_from q (c ∷ cs) =
    let rest = strip_from (next_quote q c) cs in if q == 0 && c == 35 then [] else c ∷ rest

unfoldable pub strip_comment : Text → Text
strip_comment line = strip_from 0 line

-- `strchr(tok, '=')`: what stands before and behind the first `=`.
unfoldable pub split_eq : Text → Option (Text × Text)
split_eq [] = none
split_eq (c ∷ cs) =
    let rest = split_eq cs in
    if c == 61 then some ([], cs) else elim rest [ none ↦ none | some r ↦ some (c ∷ r.0, r.1) ]

-- The name and the value of an assignment, `none` for any other word. `nsz` is SHELL_VAR_NAME.
unfoldable pub is_assign : Text → Option (Text × Text)
is_assign [] = none
is_assign (c ∷ cs) = if not (valid_name_start c) then none else elim (split_eq (c ∷ cs)) [
  | none ↦ none
  | some r ↦
      if length r.0 == 0 || not (all_name_chars r.0) || leb shell_var_name (length r.0)
      then none
      else some r
]

strip_from-same : (q : ℕ) (line : Text) → strip_from q (strip_from q line) ≡ strip_from q line
unfolding strip_from
strip_from-same q [] = refl
strip_from-same q (c ∷ cs) = elim (Bool-cases (q == 0 && c == 35)) [
  | inl e ↦ rw e
  | inr e ↦ rw (e, e) (ap (λ l. c ∷ l) (strip_from-same (next_quote q c) cs))
]

-- Stripping the comment of a line a second time changes nothing.
pub strip_comment-same : (line : Text) → strip_comment (strip_comment line) ≡ strip_comment line
unfolding strip_comment
strip_comment-same line = strip_from-same 0 line

all_name_chars-cons :
    (c : ℕ) (cs : Text)
    → all_name_chars (c ∷ cs) ≡ true
    → (valid_name_char c ≡ true) × (all_name_chars cs ≡ true)
unfolding all_name_chars
all_name_chars-cons c cs h = elim (Bool-cases (valid_name_char c)) [
  | inl e ↦ let a : all_name_chars (c ∷ cs) ≡ all_name_chars cs = rw e refl in (e, sym a ∙ h)
  | inr e ↦ let a : all_name_chars (c ∷ cs) ≡ false = rw e refl in cc (a, h)
]

-- `=` is no character of a name.
char-not_eq : (c : ℕ) → valid_name_char c ≡ true → c == 61 ≡ false
unfolding valid_name_char valid_name_start
char-not_eq c h = elim (ℕ_discrete c 61) [
  | yes e ↦ cc (subst (λ d. valid_name_char d ≡ true) e h)
  | no n ↦ ground arith
]

split_eq-name :
    (name val : Text) → all_name_chars name ≡ true → split_eq (name ++ 61 ∷ val) ≡ some (name, val)
unfolding split_eq
split_eq-name [] val h = refl
split_eq-name (c ∷ cs) val h =
    let (e, rest) = all_name_chars-cons c cs h in
    let n = char-not_eq c e in rw (n, split_eq-name cs val rest)

-- The word of a name that shell_var_set accepts, an equals sign and any value is recognised as the
-- assignment of that value to that name.
pub is_assign-name :
    (name val : Text) → good_name name ≡ true → is_assign (name ++ 61 ∷ val) ≡ some (name, val)
unfolding is_assign good_name
is_assign-name [] val h = cc (h)
is_assign-name (c ∷ cs) val h =
    let (named, short) =
      both-true (valid_name_start c && all_name_chars (c ∷ cs))
        (ltb (length (c ∷ cs)) shell_var_name) h in
    let (start, chars) = both-true (valid_name_start c) (all_name_chars (c ∷ cs)) named in
    let fits : leb shell_var_name (length (c ∷ cs)) ≡ false = ground (arith, short) in
    let some_name : length (c ∷ cs) == 0 ≡ false = ground arith in
    rw (start, split_eq-name (c ∷ cs) val chars, some_name, chars, fits)
