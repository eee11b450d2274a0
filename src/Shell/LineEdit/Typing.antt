-- ===== src/Shell/LineEdit/Typing.antt =====
-- Typing a line into lineedit_read of services/shell/lineedit.c.
use ittrium.Common.{
  ℕ, suc, ◌+◌, ◌≤◌, ◌<◌, ◌≡◌, ◌∙◌, refl, ap, arith, false, ◌||◌, some, List, [], ◌∷◌, ◌++◌,
  append-nil, length, length-append, ltb, leb, ◌==◌, All,
}
use mathlib.Core.List.{append_assoc}
use ittrium.Common.Int.{ℤ, pos}
use ittrium.Text.{Text, cut-id, drop}
use ittrium.Shell.History.{History, hist_push}
use ittrium.Shell.LineEdit.{
  Completer, Edit, returned, key, key_of, edits, insert_char, edit_key, edit_loop, lineedit_read,
}

pub keys_of : Text → List ℤ
keys_of [] = []
keys_of (c ∷ cs) = pos c ∷ keys_of cs

abbrev typed : Text → Edit
typed t = record { line = record { buf = t; place = length t }; hist_nav = 0; tab_pending = false }

drop-length : (t : Text) → drop (length t) t ≡ []
drop-length [] = refl
drop-length (c ∷ cs) = drop-length cs

insert_char-typed :
    (buflen c : ℕ) (t : Text)
    → 32 ≤ c
    → c ≤ 126
    → length t + 1 < buflen
    → insert_char buflen c (typed t) ≡ typed (t ++ c ∷ [])
unfolding insert_char
insert_char-typed buflen c t a b l =
    let fits : (ltb c 32 || ltb 126 c || leb buflen (length t + 1)) ≡ false =
      ground (arith, a, b, l) in
    let n : length (t ++ c ∷ []) ≡ suc (length t) = omega (arith, length-append {0} t (c ∷ [])) in
    rw (fits, n, cut-id (length t) t (omega arith), drop-length t) refl

edit_key-typed :
    (buflen c : ℕ) (k : Completer buflen) (t : Text)
    → 32 ≤ c
    → c ≤ 126
    → length t + 1 < buflen
    → edit_key k c (typed t) ≡ typed (t ++ c ∷ [])
unfolding edit_key
edit_key-typed buflen c k t a b l =
    let no_tab : (c == 9) ≡ false = ground (arith, a) in
    let no_back : (c == 127 || c == 8) ≡ false = ground (arith, a, b) in
    rw (no_tab, no_back) (insert_char-typed buflen c t a b l)

edit_loop-edits :
    (buflen c : ℕ) (k : Completer buflen) (cs : List ℤ) (e : Edit) (h : History)
    → key_of c ≡ edits
    → edit_loop k key (pos c ∷ cs) e h ≡ edit_loop k key cs (edit_key k c e) h
unfolding edit_loop
edit_loop-edits buflen c k cs e h q = rw (q, edit_loop) refl

edit_loop-typed :
    (buflen : ℕ) (k : Completer buflen) (t s : Text) (h : History)
    → All (λ c. (32 ≤ c) × (c ≤ 126)) s
    → length t + length s < buflen
    → edit_loop k key (keys_of s ++ pos 13 ∷ []) (typed t) h ≡ (
      record { buf = t ++ s; place = length (t ++ s) },
      hist_push (t ++ s) h,
      returned (length (t ++ s)) [],
    )
unfolding edit_loop keys_of
edit_loop-typed buflen k t [] h p l = rw (append-nil t) refl
edit_loop-typed buflen k t (c ∷ cs) h p l =
    let edit : key_of c ≡ edits = let q = p.0 in ground (arith, q) in
    let n : length (t ++ c ∷ []) ≡ length t + 1 = omega (arith, length-append {0} t (c ∷ [])) in
    let q = p.0 in
    let whole : (t ++ c ∷ []) ++ cs ≡ t ++ c ∷ cs = append_assoc t (c ∷ []) cs in
    let step = edit_loop-typed buflen k (t ++ c ∷ []) cs h p.1 (omega (arith, n, l)) in
    edit_loop-edits buflen c k (keys_of cs ++ pos 13 ∷ []) (typed t) h edit
    ∙ ap (λ e. edit_loop k key (keys_of cs ++ pos 13 ∷ []) e h)
        (edit_key-typed buflen c k t q.0 q.1 (omega (arith, l)))
    ∙ (rw (whole) at step)

-- Typing printable characters, fewer than the buffer has, and Enter returns with exactly these
-- characters as the line, their number as the result and the line in the history.
pub lineedit_read-typed :
    (buflen : ℕ) (k : Completer buflen) (s : Text) (h : History)
    → 2 ≤ buflen
    → All (λ c. (32 ≤ c) × (c ≤ 126)) s
    → length s < buflen
    → lineedit_read k (keys_of s ++ pos 13 ∷ []) h
      ≡ some (record { buf = s; place = length s }, hist_push s h, returned (length s) [])
unfolding lineedit_read
lineedit_read-typed buflen k s h b p l =
    let room : ltb buflen 2 ≡ false = ground (arith, b) in
    rw (room) (ap some (edit_loop-typed buflen k [] s h p (omega (arith, l))))
