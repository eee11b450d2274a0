-- ===== src/Shell/Tokens.antt =====
-- tokenize of services/shell/shell_parse.c: the words of an expanded line.
use ittrium.Common.{
  ℕ, zero, suc, ◌≤◌, ◌≡◌, ◌∙◌, ap, refl, arith, Bool, true, false, ◌||◌, List, [], ◌∷◌, ◌++◌,
  length, length-append, ◌==◌, if◌then◌else◌,
}
use ittrium.Text.{Text}

abbrev pub is_blank : ℕ → Bool
is_blank c = c == 32 || c == 9

abbrev pub is_quote : ℕ → Bool
is_quote c = c == 39 || c == 34

unfoldable pub skip_blanks : Text → Text
skip_blanks [] = []
skip_blanks (c ∷ cs) = let rest = skip_blanks cs in if is_blank c then rest else c ∷ cs

-- The text up to the closing quote, and what is left behind it.
unfoldable pub quoted : ℕ → Text → Text × Text
quoted q [] = ([], [])
quoted q (c ∷ cs) = let (word, rest) = quoted q cs in if c == q then ([], cs) else (c ∷ word, rest)

-- The text up to a blank or a quote, and what is left from there on.
unfoldable pub plain_word : Text → Text × Text
plain_word [] = ([], [])
plain_word (c ∷ cs) =
    let (word, rest) = plain_word cs in
    if is_blank c || is_quote c then ([], c ∷ cs) else (c ∷ word, rest)

-- What is left of the line behind a plain word: a quote there is overwritten by the end of the
-- string, a blank is passed over.
unfoldable pub behind_word : Text → Text
behind_word [] = []
behind_word (c ∷ cs) = if is_quote c then [] else cs

-- One word of a line that starts with one, and what is left.
unfoldable pub next_word : Text → Text × Text
next_word [] = ([], [])
next_word (c ∷ cs) =
    if is_quote c
    then quoted c cs
    else (let (word, rest) = plain_word (c ∷ cs) in (word, behind_word rest))

-- The loop of tokenize for at most `max` words; a word takes one character of the line at least, so
-- the length of the line is enough fuel.
unfoldable pub token_loop : ℕ → ℕ → Text → List Text
token_loop zero max p = []
token_loop (suc fuel) zero p = []
token_loop (suc fuel) (suc max) p = elim (skip_blanks p) [
  | [] ↦ []
  | (c ∷ cs) ↦ let (word, rest) = next_word (c ∷ cs) in word ∷ token_loop fuel max rest
]

unfoldable pub tokenize : Text → ℕ → List Text
tokenize s max = token_loop (length s) max s

-- A word without blanks and quotes.
abbrev pub IsPlain : Text → Type 0
IsPlain [] = Unit
IsPlain (c ∷ cs) = (is_blank c || is_quote c ≡ false) × IsPlain cs

-- Words that are not empty, one blank between two of them.
abbrev pub IsWords : List Text → Type 0
IsWords [] = Unit
IsWords ([] ∷ ws) = ⊥
IsWords ((c ∷ cs) ∷ ws) = IsPlain (c ∷ cs) × IsWords ws

abbrev pub join : List Text → Text
join [] = []
join (w ∷ ws) = w ++ 32 ∷ join ws

plain_word-append :
    (w : Text) (d : ℕ) (rest : Text)
    → IsPlain w
    → is_blank d || is_quote d ≡ true
    → plain_word (w ++ d ∷ rest) ≡ (w, d ∷ rest)
unfolding plain_word
plain_word-append [] d rest p e = rw e refl
plain_word-append (c ∷ cs) d rest p e = rw (p.0, plain_word-append cs d rest p.1 e) refl

next_word-append :
    (c d : ℕ) (cs rest : Text)
    → IsPlain (c ∷ cs)
    → is_blank d || is_quote d ≡ true
    → next_word (c ∷ cs ++ d ∷ rest) ≡ (c ∷ cs, behind_word (d ∷ rest))
unfolding next_word
next_word-append c d cs rest p e =
    let start : is_quote c ≡ false = let h = p.0 in ground (arith, h) in
    rw (start, plain_word-append (c ∷ cs) d rest p e) refl

skip_blanks-plain : (c : ℕ) (cs : Text) → is_blank c ≡ false → skip_blanks (c ∷ cs) ≡ c ∷ cs
unfolding skip_blanks
skip_blanks-plain c cs e = rw e refl

token_loop-nil : (fuel max : ℕ) → token_loop fuel max [] ≡ []
unfolding token_loop skip_blanks
token_loop-nil zero max = refl
token_loop-nil (suc fuel) zero = refl
token_loop-nil (suc fuel) (suc max) = refl

token_loop-step :
    (fuel max c : ℕ) (cs p word rest : Text)
    → skip_blanks p ≡ c ∷ cs
    → next_word (c ∷ cs) ≡ (word, rest)
    → token_loop (suc fuel) (suc max) p ≡ word ∷ token_loop fuel max rest
unfolding token_loop
token_loop-step fuel max c cs p word rest e n = rw (e, n, token_loop) refl

token_loop-join :
    (fuel max : ℕ) (ws : List Text)
    → IsWords ws
    → length ws ≤ max
    → length (join ws) ≤ fuel
    → token_loop fuel max (join ws) ≡ ws
unfolding behind_word
token_loop-join fuel max [] w l f = token_loop-nil fuel max
token_loop-join fuel max ([] ∷ ws) w l f = absurd w
token_loop-join zero max ((c ∷ cs) ∷ ws) w l f = absurd (omega arith)
token_loop-join (suc fuel) zero ((c ∷ cs) ∷ ws) w l f = absurd (omega arith)
token_loop-join (suc fuel) (suc max) ((c ∷ cs) ∷ ws) w l f =
    let h = w.0.0 in
    let blank : is_blank c ≡ false = ground (arith, h) in
    let shorter : length (join ws) ≤ fuel = omega (arith, length-append {0} cs (32 ∷ join ws)) in
    token_loop-step fuel max c (cs ++ 32 ∷ join ws) (join ((c ∷ cs) ∷ ws)) (c ∷ cs) (join ws)
      (skip_blanks-plain c (cs ++ 32 ∷ join ws) blank) (next_word-append c 32 cs (join ws) w.0 refl)
    ∙ ap (λ r. (c ∷ cs) ∷ r) (token_loop-join fuel max ws w.1 (omega arith) shorter)

-- The words of a line that is made of at most max words, not empty and without blanks and quotes,
-- each with a blank behind it, are these words.
pub tokenize-join :
    (ws : List Text) (max : ℕ) → IsWords ws → length ws ≤ max → tokenize (join ws) max ≡ ws
unfolding tokenize
tokenize-join ws max w l = token_loop-join (length (join ws)) max ws w l (omega arith)

-- A quote directly behind a word without blanks and quotes ends the line: whatever follows it, the
-- word is the only one.
pub tokenize-quote :
    (c q max : ℕ) (cs rest : Text)
    → IsPlain (c ∷ cs)
    → is_quote q ≡ true
    → tokenize (c ∷ cs ++ q ∷ rest) (suc max) ≡ (c ∷ cs) ∷ []
unfolding tokenize behind_word
tokenize-quote c q max cs rest p e =
    let h = p.0 in
    let blank : is_blank c ≡ false = ground (arith, h) in
    let stop : is_blank q || is_quote q ≡ true = ground (arith, e) in
    let ends : behind_word (q ∷ rest) ≡ [] = rw e refl in
    token_loop-step (length (cs ++ q ∷ rest)) max c (cs ++ q ∷ rest) (c ∷ cs ++ q ∷ rest) (c ∷ cs)
      [] (skip_blanks-plain c (cs ++ q ∷ rest) blank)
      (next_word-append c q cs rest p stop ∙ ap (λ r. (c ∷ cs, r)) ends)
    ∙ ap (λ r. (c ∷ cs) ∷ r) (token_loop-nil (length (cs ++ q ∷ rest)) max)
