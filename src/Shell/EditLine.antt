-- ===== src/Shell/EditLine.antt =====
-- The word at the cursor of services/shell/shell.c: shell_token_at, shell_token_is_first and
-- shell_replace_token, on a line that is edited.
use ittrium.Common.{
  ℕ, zero, suc, ◌+◌, ◌-◌, ◌≤◌, ◌<◌, ◌≡◌, refl, arith, Bool, true, false, ◌||◌, not, [], subst, ◌∷◌,
  ◌++◌, length, length-append, ltb, leb, ◌==◌, if◌then◌else◌, Bool-cases, inl, inr, ◌⊎◌, if-elim,
}
use ittrium.Text.{Text, cut, char_at, drop}

-- The characters `buf[0]` to `buf[len - 1]` of the buffer, and `pos`.
pub record EditLine : Type 0 where
  pub buf : Text
  pub place : ℕ

-- The line and its terminating zero fit in a buffer of `buflen` characters, and the cursor is in it.
pub record IsLine (buflen : ℕ) (l : EditLine) : Type 0 where
  pub fits : length l.buf < buflen
  pub inside : l.place ≤ length l.buf

abbrev pub shell_is_blank : ℕ → Bool
shell_is_blank c = c == 32 || c == 9

-- `while (*start > 0 && !shell_is_blank(buf[*start - 1])) (*start)--;`
unfoldable pub token_start : Text → ℕ → ℕ
token_start buf zero = 0
token_start buf (suc s) =
    let back = token_start buf s in if shell_is_blank (char_at buf s) then suc s else back

-- `while (*end < len && !shell_is_blank(buf[*end])) (*end)++;`, `n` characters before the end.
unfoldable pub token_end : Text → ℕ → ℕ → ℕ
token_end buf zero e = e
token_end buf (suc n) e =
    let on = token_end buf n (suc e) in if shell_is_blank (char_at buf e) then e else on

-- `start` and `end` of the word. The cursor of the model is never below 0.
unfoldable pub shell_token_at : EditLine → ℕ × ℕ
shell_token_at l =
    let len = length l.buf in
    let at = if ltb len l.place then len else l.place in
    (token_start l.buf at, token_end l.buf (len - at) at)

-- The loop over the `n` characters from `i` on.
unfoldable pub all_blank : ℕ → ℕ → Text → Bool
all_blank zero i buf = true
all_blank (suc n) i buf =
    let rest = all_blank n (suc i) buf in
    if not (shell_is_blank (char_at buf i)) then false else rest

unfoldable pub shell_token_is_first : Text → ℕ → Bool
shell_token_is_first buf start = all_blank start 0 buf

-- The line is left alone if the new one does not fit; start ≤ end ≤ len holds where it is called.
unfoldable pub shell_replace_token : ℕ → ℕ → ℕ → Text → EditLine → EditLine
shell_replace_token buflen start end repl l =
    let nlen = length l.buf - (end - start) + length repl in
    if leb buflen nlen
    then l
    else record { buf = cut start l.buf ++ repl ++ drop end l.buf; place = start + length repl }

pub length-drop : (n : ℕ) (xs : Text) → length (drop n xs) ≡ length xs - n
length-drop zero xs = omega arith
length-drop (suc n) [] = omega arith
length-drop (suc n) (x ∷ xs) = omega (arith, length-drop n xs)

pub length-cut_inside : (n : ℕ) (xs : Text) → n ≤ length xs → length (cut n xs) ≡ n
unfolding cut
length-cut_inside zero xs l = refl
length-cut_inside (suc n) [] l = elim l [ ]
length-cut_inside (suc n) (x ∷ xs) l = omega (arith, length-cut_inside n xs (omega arith))

-- The word from `s` to `e` around the place `at`.
pub record IsToken (buf : Text) (at s e : ℕ) : Type 0 where
  pub before : s ≤ at
  pub behind : at ≤ e
  pub in_line : e ≤ length buf
  pub plain : (k : ℕ) → s ≤ k → k < e → shell_is_blank (char_at buf k) ≡ false
  pub opens : (p : ℕ) → s ≡ suc p → shell_is_blank (char_at buf p) ≡ true
  pub closes : (e ≡ length buf) ⊎ (shell_is_blank (char_at buf e) ≡ true)

-- Where the first loop stops.
token_start-plain :
    (buf : Text) (at : ℕ)
    → (token_start buf at ≤ at)
      × ((k : ℕ) → token_start buf at ≤ k → k < at → shell_is_blank (char_at buf k) ≡ false)
      × ((p : ℕ) → token_start buf at ≡ suc p → shell_is_blank (char_at buf p) ≡ true)
unfolding token_start
token_start-plain buf zero = (omega arith, λ k l m. elim m [ ], λ p e. absurd (omega (arith, e)))
token_start-plain buf (suc s) =
    let (low, plain, opens) = token_start-plain buf s in
    elim (Bool-cases (shell_is_blank (char_at buf s))) [
      | inl e ↦
          rw (e, token_start)
            (
              omega arith,
              λ k l m. absurd (omega (arith, l, m)),
              λ p q. subst (λ i. shell_is_blank (char_at buf i) ≡ true) (omega (arith, q)) e,
            )
      | inr e ↦
          rw (e, token_start)
            (
              omega (arith, low),
              λ k l m. elim (Bool-cases (k == s)) [
                | inl same ↦
                    subst (λ i. shell_is_blank (char_at buf i) ≡ false) (ground (arith, same)) e
                | inr other ↦ plain k l (ground (arith, m, other))
              ],
              opens,
            )
    ]

-- Where the second loop stops, with `n` characters left.
token_end-plain :
    (buf : Text) (n at : ℕ)
    → let e = token_end buf n at in
      (at ≤ e)
      × (e ≤ at + n)
      × ((k : ℕ) → at ≤ k → k < e → shell_is_blank (char_at buf k) ≡ false)
      × ((e ≡ at + n) ⊎ (shell_is_blank (char_at buf e) ≡ true))
unfolding token_end
token_end-plain buf zero at =
    (omega arith, omega arith, λ k l m. absurd (omega (arith, l, m)), inl (omega arith))
token_end-plain buf (suc n) at =
    let (low, high, plain, closes) = token_end-plain buf n (suc at) in
    elim (Bool-cases (shell_is_blank (char_at buf at))) [
      | inl e ↦
          rw (e, token_end) (omega arith, omega arith, λ k l m. absurd (omega (arith, l, m)), inr e)
      | inr e ↦
          rw (e, token_end)
            (
              omega (arith, low),
              omega (arith, high),
              λ k l m. elim (Bool-cases (k == at)) [
                | inl same ↦
                    subst (λ i. shell_is_blank (char_at buf i) ≡ false) (ground (arith, same)) e
                | inr other ↦ plain k (ground (arith, l, other)) m
              ],
              elim closes [ inl c ↦ inl (omega (arith, c)) | inr c ↦ inr c ],
            )
    ]

-- On a line with the cursor in it, shell_token_at gives the longest part of the line around the
-- cursor that holds no blank.
pub shell_token_at-IsToken :
    (l : EditLine)
    → l.place ≤ length l.buf
    → IsToken l.buf l.place (shell_token_at l).0 (shell_token_at l).1
unfolding shell_token_at
shell_token_at-IsToken l h =
    let at_place : ltb (length l.buf) l.place ≡ false = ground (arith, h) in
    let (low, plain, opens) = token_start-plain l.buf l.place in
    let (above, high, more, closes) = token_end-plain l.buf (length l.buf - l.place) l.place in
    rw (at_place) (record {
      before = low;
      behind = above;
      in_line = omega (arith, high, h);
      plain = λ k a b. elim (Bool-cases (ltb k l.place)) [
        | inl left ↦ plain k a (ground (arith, left))
        | inr right ↦ more k (ground (arith, right)) b
      ];
      opens = opens;
      closes = elim closes [ inl c ↦ inl (omega (arith, c, h)) | inr c ↦ inr c ];
    })

replaced_length :
    (len s e r d f p b buflen : ℕ)
    → s ≤ e
    → e ≤ len
    → len - (e - s) + r < buflen
    → f ≡ s
    → p ≡ b + d
    → b ≡ f + r
    → d ≡ len - e
    → (p < buflen) × (s + r ≤ p)
replaced_length len s e r d f p b buflen h1 h2 h3 h4 h5 h6 h7 = (omega arith, omega arith)

pub shell_replace_token-IsLine :
    (buflen start end : ℕ) (repl : Text) (l : EditLine)
    → start ≤ end
    → end ≤ length l.buf
    → IsLine buflen l
    → IsLine buflen (shell_replace_token buflen start end repl l)
unfolding shell_replace_token
shell_replace_token-IsLine buflen start end repl l a b ok =
    if-elim (IsLine buflen) (leb buflen (length l.buf - (end - start) + length repl)) (λ e. ok)
      (λ e.
        let n =
          replaced_length (length l.buf) start end (length repl) (length (drop end l.buf)) _ _ _
            buflen a b (ground (arith, e)) (length-cut_inside start l.buf (omega (arith, a, b)))
            (length-append {0} (cut start l.buf ++ repl) (drop end l.buf))
            (length-append {0} (cut start l.buf) repl) (length-drop end l.buf) in
        record { fits = n.0; inside = n.1 })
