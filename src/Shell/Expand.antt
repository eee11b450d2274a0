-- ===== src/Shell/Expand.antt =====
-- The expansion of variables in services/shell/shell_parse.c. The loop of expand_vars takes the length
-- of the line and one more as fuel, since each round reads a character; `room` is `outsz - 1 - o`.
use ittrium.Common.{
  ℕ, zero, suc, ◌+◌, ◌-◌, ◌≤◌, ◌<◌, ◌≡◌, ◌≢◌, refl, arith, false, ◌&&◌, ◌||◌, Option, none, some,
  List, [], ◌∷◌, ◌++◌, length, length-append, ltb, ◌==◌, if◌then◌else◌, if-elim, All,
}
use ittrium.Text.{Text, valid_name_start, valid_name_char, cut}
use ittrium.Shell.Vars.{Slot, shell_var_get, shell_var_name}

-- The name behind `${`: at most `n` characters up to the brace, and what is left with the brace taken.
unfoldable pub braced_name : ℕ → Text → Text × Text
braced_name n [] = ([], [])
braced_name zero (c ∷ cs) = ([], if c == 125 then cs else c ∷ cs)
braced_name (suc n) (c ∷ cs) =
    let (name, rest) = braced_name n cs in if c == 125 then ([], cs) else (c ∷ name, rest)

-- The name behind `$`: at most `n` characters of a name, and what is left.
unfoldable pub plain_name : ℕ → Text → Text × Text
plain_name n [] = ([], [])
plain_name zero (c ∷ cs) = ([], c ∷ cs)
plain_name (suc n) (c ∷ cs) =
    let (name, rest) = plain_name n cs in
    if valid_name_char c then (c ∷ name, rest) else ([], c ∷ cs)

-- What a variable writes when `room` characters fit.
abbrev pub value_of : List Slot → ℕ → Text → Text
value_of vars room name = elim (shell_var_get name vars) [ none ↦ [] | some val ↦ cut room val ]

-- A `$` outside single quotes with `cs` behind it: what is written, and what is left of the line.
unfoldable pub expand_dollar : List Slot → ℕ → Text → Text × Text
expand_dollar vars room [] = (36 ∷ [], [])
expand_dollar vars room (c ∷ cs) =
    if c == 123
    then (let (name, rest) = braced_name (shell_var_name - 1) cs in (value_of vars room name, rest))
    else if valid_name_start c
    then (let (name, rest) = plain_name (shell_var_name - 1) (c ∷ cs) in
        (value_of vars room name, rest))
    else (36 ∷ [], c ∷ cs)

-- One round on the character `c` with `cs` behind it in the quotes `q`, 0 outside of quotes: what is
-- written, the quotes, and what is left of the line.
unfoldable pub expand_step : List Slot → ℕ → ℕ → ℕ → Text → Text × ℕ × Text
expand_step vars room q c cs =
    if q == 39
    then (if c == 39 then ([], 0, cs) else (c ∷ [], q, cs))
    else if q == 0 && c == 39
    then (c ∷ [], 39, cs)
    else if q == 0 && c == 34
    then (c ∷ [], 34, cs)
    else if q == 34 && c == 34
    then (c ∷ [], 0, cs)
    else if (q == 34 || q == 0) && c == 36
    then (let (out, rest) = expand_dollar vars room cs in (out, q, rest))
    else (c ∷ [], q, cs)

prepend : Text → Option Text → Option Text
prepend out more = elim more [ none ↦ none | some ys ↦ some (out ++ ys) ]

-- `none` means that the fuel ran out.
unfoldable pub expand_loop : ℕ → List Slot → ℕ → ℕ → Text → Option Text
unfolding prepend
expand_loop zero vars q room line = none
expand_loop (suc fuel) vars q room [] = some []
expand_loop (suc fuel) vars q zero (c ∷ cs) = some []
expand_loop (suc fuel) vars q (suc room) (c ∷ cs) =
    let (out, q', rest) = expand_step vars (suc room) q c cs in
    prepend out (expand_loop fuel vars q' (suc room - length out) rest)

-- `none` is the result -1.
unfoldable pub expand_vars : List Slot → ℕ → Text → Option Text
expand_vars vars outsz line =
    if ltb outsz 2 then none else expand_loop (length line + 1) vars 0 (outsz - 1) line

length-cut : (n : ℕ) (xs : Text) → length (cut n xs) ≤ n
unfolding cut
length-cut zero xs = omega arith
length-cut (suc n) [] = omega arith
length-cut (suc n) (x ∷ xs) = omega (arith, length-cut n xs)

length-braced_name : (n : ℕ) (cs : Text) → length (braced_name n cs).1 ≤ length cs
unfolding braced_name
length-braced_name n [] = omega arith
length-braced_name zero (c ∷ cs) = ground arith
length-braced_name (suc n) (c ∷ cs) = let i = length-braced_name n cs in ground (arith, i)

length-plain_name : (n : ℕ) (cs : Text) → length (plain_name n cs).1 ≤ length cs
unfolding plain_name
length-plain_name n [] = omega arith
length-plain_name zero (c ∷ cs) = omega arith
length-plain_name (suc n) (c ∷ cs) = let i = length-plain_name n cs in ground (arith, i)

length-value_of :
    (vars : List Slot) (room : ℕ) (name : Text) → length (value_of vars room name) ≤ room
length-value_of vars room name = go (shell_var_get name vars)
  where
    go : (r : Option Text) → length (elim r [ none ↦ [] | some val ↦ cut room val ]) ≤ room
    go none = omega arith
    go (some val) = length-cut room val

-- What is written fits, and what is left is no longer than `cs`.
abbrev Fits : ℕ → Text → Text → Text → Type 0
Fits room cs out rest = (length out ≤ room) × (length rest ≤ length cs)

expand_dollar-Fits :
    (vars : List Slot) (room : ℕ) (cs : Text)
    → Fits (suc room) cs (expand_dollar vars (suc room) cs).0 (expand_dollar vars (suc room) cs).1
unfolding expand_dollar
expand_dollar-Fits vars room [] = (omega arith, omega arith)
expand_dollar-Fits vars room (c ∷ cs) =
    if-elim Good (c == 123)
      (λ _.
        let (name, rest) = braced_name (shell_var_name - 1) cs in
        (
          length-value_of vars (suc room) name,
          omega (arith, length-braced_name (shell_var_name - 1) cs),
        ))
      (λ _.
        if-elim Good (valid_name_start c)
          (λ _.
            let (name, rest) = plain_name (shell_var_name - 1) (c ∷ cs) in
            (length-value_of vars (suc room) name, length-plain_name (shell_var_name - 1) (c ∷ cs)))
          (λ _. (omega arith, omega arith)))
  where
    Good : Text × Text → Type 0
    Good r = Fits (suc room) (c ∷ cs) r.0 r.1

expand_step-Fits :
    (vars : List Slot) (room q c : ℕ) (cs : Text)
    → Fits
        (suc room)
        cs
        (expand_step vars (suc room) q c cs).0
        (expand_step vars (suc room) q c cs).2
unfolding expand_step
expand_step-Fits vars room q c cs =
    if-elim Good (q == 39)
      (λ _. if-elim Good (c == 39) (λ _. (omega arith, omega arith)) (λ _. one))
      (λ _.
        if-elim Good (q == 0 && c == 39) (λ _. one)
          (λ _.
            if-elim Good (q == 0 && c == 34) (λ _. one)
              (λ _.
                if-elim Good (q == 34 && c == 34) (λ _. one)
                  (λ _.
                    if-elim Good ((q == 34 || q == 0) && c == 36)
                      (λ _. expand_dollar-Fits vars room cs) (λ _. one)))))
  where
    Good : Text × ℕ × Text → Type 0
    Good r = Fits (suc room) cs r.0 r.2

    one : (1 ≤ suc room) × (length cs ≤ length cs)
    one = (omega arith, omega arith)

expand_loop-bound :
    (fuel : ℕ) (vars : List Slot) (q room : ℕ) (line : Text)
    → length line < fuel
    → (out : Text) × (expand_loop fuel vars q room line ≡ some out) × (length out ≤ room)
unfolding expand_loop prepend
expand_loop-bound zero vars q room line l = absurd (omega (arith, l))
expand_loop-bound (suc fuel) vars q room [] l = ([], refl, omega arith)
expand_loop-bound (suc fuel) vars q zero (c ∷ cs) l = ([], refl, omega arith)
expand_loop-bound (suc fuel) vars q (suc room) (c ∷ cs) l =
    let (out, q', rest) = expand_step vars (suc room) q c cs in
    let (a, b) = expand_step-Fits vars room q c cs in
    let (more, e, fits) =
      expand_loop-bound fuel vars q' (suc room - length out) rest (omega (arith, b, l)) in
    (out ++ more, rw e, omega (arith, a, fits, length-append out more))

-- For an output of at least 2 characters, expand_vars ends on every line and every table, and what
-- it writes leaves room for the terminating zero.
pub expand_vars-bound :
    (vars : List Slot) (outsz : ℕ) (line : Text)
    → 2 ≤ outsz
    → (out : Text) × (expand_vars vars outsz line ≡ some out) × (length out < outsz)
unfolding expand_vars
expand_vars-bound vars outsz line big =
    let small : ltb outsz 2 ≡ false = ground (arith, big) in
    let (out, e, fits) =
      expand_loop-bound (length line + 1) vars 0 (outsz - 1) line (omega arith) in
    (out, rw small e, omega (arith, fits, big))

expand_loop-single :
    (vars : List Slot) (word : Text) (fuel room : ℕ)
    → All (λ c. c ≢ 39) word
    → length word + 1 < fuel
    → length word < room
    → expand_loop fuel vars 39 room (word ++ 39 ∷ []) ≡ some word
unfolding expand_loop expand_step prepend
expand_loop-single vars [] (suc (suc fuel)) (suc room) a l r = refl
expand_loop-single vars [] zero room a l r = absurd (omega (arith, l))
expand_loop-single vars [] (suc zero) room a l r = absurd (omega (arith, l))
expand_loop-single vars [] (suc (suc fuel)) zero a l r = absurd (omega (arith, r))
expand_loop-single vars (c ∷ cs) zero room a l r = absurd (omega (arith, l))
expand_loop-single vars (c ∷ cs) (suc fuel) zero a l r = absurd (omega (arith, r))
expand_loop-single vars (c ∷ cs) (suc fuel) (suc room) a l r =
    let n : c == 39 ≡ false = ground (arith, a.0) in
    let i =
      expand_loop-single vars cs fuel (suc room - 1) a.1 (omega (arith, l)) (omega (arith, r)) in
    rw (n, i)

expand_loop-quoted :
    (vars : List Slot) (word : Text) (fuel room : ℕ)
    → All (λ c. c ≢ 39) word
    → length word + 2 < fuel
    → length word + 1 < room
    → expand_loop fuel vars 0 room (39 ∷ word ++ 39 ∷ []) ≡ some (39 ∷ word)
unfolding expand_loop expand_step prepend
expand_loop-quoted vars word zero room a l r = absurd (omega (arith, l))
expand_loop-quoted vars word (suc fuel) zero a l r = absurd (omega (arith, r))
expand_loop-quoted vars word (suc fuel) (suc room) a l r =
    rw (expand_loop-single vars word fuel (suc room - 1) a (omega (arith, l)) (omega (arith, r)))

-- For an output with room for it, expand_vars of a word without single quotes that stands in single
-- quotes is the word with the opening quote only.
pub expand_vars-single_quotes :
    (vars : List Slot) (outsz : ℕ) (word : Text)
    → All (λ c. c ≢ 39) word
    → length word + 2 < outsz
    → expand_vars vars outsz (39 ∷ word ++ 39 ∷ []) ≡ some (39 ∷ word)
unfolding expand_vars
expand_vars-single_quotes vars outsz word a l =
    let small : ltb outsz 2 ≡ false = ground (arith, l) in
    let n = length-append word (39 ∷ []) in
    rw (
      small,
      expand_loop-quoted vars word (length (39 ∷ word ++ 39 ∷ []) + 1) (outsz - 1) a
          (omega (arith, n)) (omega (arith, l)),
    )
