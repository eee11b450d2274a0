-- ===== src/Text.antt =====
-- Strings of services/: comparison, the copy of a part, the characters of a variable's name, and
-- the slashes in front of a path.
use ittrium.Common.{
  ℕ, zero, suc, ◌≤◌, ◌≡◌, ◌≢◌, ap, length, refl, arith, Bool, true, false, ◌&&◌, ◌||◌, List, [],
  ◌∷◌, leb, ◌==◌, if◌then◌else◌, Bool-cases, inl, inr,
}

abbrev pub Text : Type 0
Text = List ℕ

-- `strcmp(a, b) == 0`
unfoldable pub text_eq : Text → Text → Bool
text_eq [] [] = true
text_eq [] (y ∷ ys) = false
text_eq (x ∷ xs) [] = false
text_eq (x ∷ xs) (y ∷ ys) = let rest = text_eq xs ys in if x == y then rest else false

pub text_eq_yes : (a b : Text) → text_eq a b ≡ true → a ≡ b
unfolding text_eq
text_eq_yes [] [] e = refl
text_eq_yes [] (y ∷ ys) e = cc (e)
text_eq_yes (x ∷ xs) [] e = cc (e)
text_eq_yes (x ∷ xs) (y ∷ ys) e =
    let go = text_eq_yes xs ys in
    let both : (x ≡ y) × (text_eq xs ys ≡ true) = (ground arith, ground arith) in
    cc (both.0, go both.1)

pub text_eq_refl : (a : Text) → text_eq a a ≡ true
unfolding text_eq
text_eq_refl [] = refl
text_eq_refl (x ∷ xs) = let r = text_eq_refl xs in ground arith

-- 'A' to 'Z', 'a' to 'z' and '_'
unfoldable pub valid_name_start : ℕ → Bool
valid_name_start c = (leb 65 c && leb c 90) || (leb 97 c && leb c 122) || c == 95

-- These, and '0' to '9'
unfoldable pub valid_name_char : ℕ → Bool
valid_name_char c = valid_name_start c || (leb 48 c && leb c 57)

-- What memcpy or strncpy of at most `n` characters keeps.
unfoldable pub cut : ℕ → Text → Text
cut zero xs = []
cut (suc n) [] = []
cut (suc n) (x ∷ xs) = x ∷ cut n xs

pub cut-id : (n : ℕ) (xs : Text) → length xs ≤ n → cut n xs ≡ xs
unfolding cut
cut-id zero [] l = refl
cut-id zero (x ∷ xs) l = elim l [ ]
cut-id (suc n) [] l = refl
cut-id (suc n) (x ∷ xs) l = ap (λ r. x ∷ r) (cut-id n xs (omega arith))

pub length-cut : (n : ℕ) (xs : Text) → length (cut n xs) ≤ n
unfolding cut
length-cut zero xs = omega arith
length-cut (suc n) [] = omega arith
length-cut (suc n) (x ∷ xs) = omega (arith, length-cut n xs)

-- `while (*name == '/') name++;`
unfoldable pub skip_slashes : Text → Text
skip_slashes [] = []
skip_slashes (c ∷ cs) = let rest = skip_slashes cs in if c == 47 then rest else c ∷ cs

pub text_eq_no : (a b : Text) → a ≢ b → text_eq a b ≡ false
text_eq_no a b n = elim (Bool-cases (text_eq a b)) [
  | inl e ↦ absurd (n (text_eq_yes a b e))
  | inr e ↦ e
]

-- `s[i]`: the terminating zero stands at the end.
abbrev pub char_at : Text → ℕ → ℕ
char_at [] i = 0
char_at (x ∷ xs) zero = x
char_at (x ∷ xs) (suc i) = char_at xs i

-- `s + n`
abbrev pub drop : ℕ → Text → Text
drop zero xs = xs
drop (suc n) [] = []
drop (suc n) (x ∷ xs) = drop n xs
