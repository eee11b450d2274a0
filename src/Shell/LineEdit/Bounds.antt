-- ===== src/Shell/LineEdit/Bounds.antt =====
-- The line, the cursor and the history in lineedit_read of services/shell/lineedit.c.
use ittrium.Common.{
  ℕ, zero, suc, ◌+◌, ◌-◌, ◌≤◌, ◌<◌, ◌≡◌, refl, subst, arith, false, ◌||◌, not, some, List, [], ◌∷◌,
  length, length-append, ltb, leb, ◌==◌, if-elim, Bool-cases, Option-cases, inl, inr, some_inj,
}
use ittrium.Common.Int.{ℤ, pos, negsuc}
use ittrium.Text.{Text, cut, length-cut, drop}
use ittrium.Shell.History.{History, hist_push, hist_get, IsRing}
use ittrium.Shell.EditLine.{EditLine, IsLine, length-drop, length-cut_inside}
use ittrium.Shell.LineEdit.{
  Completer, Edit, Reading, waiting, returned, empty_line, recall, delete_before, insert_char,
  key_up, step_down, key_right, step_left, as_char, arrow, key_tab, key_of, edit_key, enter,
  interrupt, escape, edits, Wanted, key, seq_0, seq_1, edit_loop, lineedit_read,
}

module _ (buflen : ℕ) (room : 2 ≤ buflen) where
  empty-IsLine : IsLine buflen empty_line
  empty-IsLine = record { fits = omega (arith, room); inside = omega arith }

  recall-IsLine : (h : Text) → IsLine buflen (recall buflen h)
  unfolding recall
  recall-IsLine h =
      let n = length-cut (buflen - 1) h in
      record { fits = omega (arith, n, room); inside = omega arith }

  removed_length :
      (p len f d n : ℕ)
      → suc p ≤ len
      → len < buflen
      → f ≡ p
      → d ≡ len - suc p
      → n ≡ f + d
      → (n < buflen) × (p ≤ n)
  removed_length p len f d n a b c e g = (omega arith, omega arith)

  delete_before-IsLine :
      (p : ℕ) (l : EditLine)
      → p ≤ length l.buf
      → IsLine buflen l
      → IsLine buflen (delete_before p l)
  unfolding delete_before
  delete_before-IsLine zero l a ok = ok
  delete_before-IsLine (suc p) l a ok =
      let b = l.buf in
      let n =
        removed_length p (length b) (length (cut p b)) (length (drop (suc p) b)) _ a ok.fits
          (length-cut_inside p b (omega (arith, a))) (length-drop (suc p) b)
          (length-append {0} (cut p b) (drop (suc p) b)) in
      record { fits = n.0; inside = n.1 }

  added_length :
      (p len f d n : ℕ)
      → p ≤ len
      → len + 1 < buflen
      → f ≡ p
      → d ≡ len - p
      → n ≡ f + suc d
      → (n < buflen) × (suc p ≤ n)
  added_length p len f d n a b c e g = (omega arith, omega arith)

  insert_char-IsLine :
      (c : ℕ) (e : Edit) → IsLine buflen e.line → IsLine buflen (insert_char buflen c e).line
  unfolding insert_char
  insert_char-IsLine c e ok =
      let l = e.line in
      if-elim (λ (r : Edit). IsLine buflen r.line)
        (ltb c 32 || ltb 126 c || leb buflen (length l.buf + 1)) (λ _. ok)
        (λ q.
          let n =
            added_length l.place (length l.buf) (length (cut l.place l.buf))
              (length (drop l.place l.buf)) _ ok.inside (ground (arith, q))
              (length-cut_inside l.place l.buf ok.inside) (length-drop l.place l.buf)
              (length-append {0} (cut l.place l.buf) (c ∷ drop l.place l.buf)) in
          record { fits = n.0; inside = n.1 })

  key_up-IsLine :
      (h : History) (e : Edit) → IsLine buflen e.line → IsLine buflen (key_up buflen h e).line
  unfolding key_up
  key_up-IsLine h e ok = elim (Option-cases (hist_get (pos (suc e.hist_nav)) h)) [
    | inl q ↦ rw (q, key_up) ok
    | inr (t, q) ↦ rw (q, key_up) (recall-IsLine t)
  ]

  step_down-IsLine :
      (n : ℕ) (h : History) (e : Edit)
      → IsLine buflen e.line
      → IsLine buflen (step_down n buflen h e).line
  unfolding step_down
  step_down-IsLine zero h e ok = ok
  step_down-IsLine (suc zero) h e ok = empty-IsLine
  step_down-IsLine (suc (suc n)) h e ok = elim (Option-cases (hist_get (pos (suc n)) h)) [
    | inl q ↦ rw (q, step_down) ok
    | inr (t, q) ↦ rw (q, step_down) (recall-IsLine t)
  ]

  key_right-IsLine : (e : Edit) → IsLine buflen e.line → IsLine buflen (key_right e).line
  unfolding key_right
  key_right-IsLine e ok =
      if-elim (λ (r : Edit). IsLine buflen r.line) (ltb e.line.place (length e.line.buf))
        (λ q. record { fits = ok.fits; inside = ground (arith, q) }) (λ _. ok)

  step_left-IsLine :
      (p : ℕ) (e : Edit)
      → p ≤ length e.line.buf
      → IsLine buflen e.line
      → IsLine buflen (step_left p e).line
  unfolding step_left
  step_left-IsLine zero e a ok = ok
  step_left-IsLine (suc p) e a ok = record { fits = ok.fits; inside = omega (arith, a) }

  arrow-IsLine :
      (h : History) (s0 s1 : ℕ) (e : Edit)
      → IsLine buflen e.line
      → IsLine buflen (arrow buflen h s0 s1 e).line
  unfolding arrow
  arrow-IsLine h s0 s1 e ok =
      let P : Edit → Type 0 = λ r. IsLine buflen r.line in
      if-elim P (not (s0 == 91)) (λ _. ok)
        (λ _.
          if-elim P (s1 == 65) (λ _. key_up-IsLine h e ok)
            (λ _.
              if-elim P (s1 == 66) (λ _. step_down-IsLine e.hist_nav h e ok)
                (λ _.
                  if-elim P (s1 == 67) (λ _. key_right-IsLine e ok)
                    (λ _.
                      if-elim P (s1 == 68) (λ _. step_left-IsLine e.line.place e ok.inside ok)
                        (λ _. ok)))))

  edit_key-IsLine :
      (k : Completer buflen) (c : ℕ) (e : Edit)
      → IsLine buflen e.line
      → IsLine buflen (edit_key k c e).line
  unfolding edit_key key_tab
  edit_key-IsLine k c e ok =
      let P : Edit → Type 0 = λ r. IsLine buflen r.line in
      if-elim P (c == 9) (λ _. k.complete-IsLine e.line ok)
        (λ _.
          if-elim P (c == 127 || c == 8)
            (λ _. delete_before-IsLine e.line.place e.line ok.inside ok)
            (λ _. insert_char-IsLine c (record e { tab_pending = false }) ok))

-- A result tells the length of the line.
abbrev pub Tells : Reading → EditLine → Type 0
Tells waiting l = Unit
Tells (returned n rest) l = n ≡ length l.buf

hist_push-IsRing : (t : Text) (h : History) → IsRing h → IsRing (hist_push t h)
unfolding hist_push
hist_push-IsRing [] h r = r
hist_push-IsRing (x ∷ xs) h r = record { head = omega arith; count = ground (arith, r.count) }

abbrev pub IsDone : ℕ → EditLine × History × Reading → Type 0
IsDone buflen r = IsLine buflen r.0 × IsRing r.1 × Tells r.2 r.0

edit_loop-IsDone :
    (buflen : ℕ) (room : 2 ≤ buflen) (k : Completer buflen) (w : Wanted) (keys : List ℤ) (e : Edit)
    (h : History)
    → IsLine buflen e.line
    → IsRing h
    → IsDone buflen (edit_loop k w keys e h)
unfolding edit_loop
edit_loop-IsDone buflen room k w [] e h ok r = (ok, r, tt)
edit_loop-IsDone buflen room k seq_0 (c ∷ cs) e h ok r =
    edit_loop-IsDone buflen room k (seq_1 (as_char c)) cs e h ok r
edit_loop-IsDone buflen room k (seq_1 s0) (c ∷ cs) e h ok r =
    edit_loop-IsDone buflen room k key cs (arrow buflen h s0 (as_char c) e) h
      (arrow-IsLine buflen room h s0 (as_char c) e ok) r
edit_loop-IsDone buflen room k key (negsuc n ∷ cs) e h ok r =
    edit_loop-IsDone buflen room k key cs e h ok r
edit_loop-IsDone buflen room k key (pos c ∷ cs) e h ok r =
    let esc = edit_loop-IsDone buflen room k seq_0 cs (record e { tab_pending = false }) h ok r in
    let on =
      edit_loop-IsDone buflen room k key cs (edit_key k c e) h
        (edit_key-IsLine buflen room k c e ok) r in
    elim (key_of c)
      as (λ x. IsDone buflen (elim x [
        | enter ↦ (e.line, hist_push e.line.buf h, returned (length e.line.buf) cs)
        | interrupt ↦ (empty_line, h, returned 0 cs)
        | escape ↦ edit_loop k seq_0 cs (record e { tab_pending = false }) h
        | edits ↦ edit_loop k key cs (edit_key k c e) h
      ])) [
        | enter ↦ (ok, hist_push-IsRing e.line.buf h r, refl)
        | interrupt ↦ (empty-IsLine buflen room, r, refl)
        | escape ↦ esc
        | edits ↦ on
      ]

-- Whatever keys come and whatever the history holds within its bounds, lineedit_read ends, or waits
-- for more keys, with the line and its terminating zero in the buffer, the cursor in the line and
-- the history in its bounds, and a result is the length of the line.
pub lineedit_read-IsDone :
    (buflen : ℕ) (k : Completer buflen) (keys : List ℤ) (h : History)
    (r : EditLine × History × Reading)
    → IsRing h
    → lineedit_read k keys h ≡ some r
    → IsDone buflen r
unfolding lineedit_read
lineedit_read-IsDone buflen k keys h r ring q = elim (Bool-cases (ltb buflen 2)) [
  | inl e ↦ cc (rw (e, lineedit_read) at q)
  | inr e ↦
      let room : 2 ≤ buflen = ground (arith, e) in
      subst (IsDone buflen) (some_inj (rw (e, lineedit_read) at q)) (
        edit_loop-IsDone buflen room k key keys
          (record { line = empty_line; hist_nav = 0; tab_pending = false }) h
          (empty-IsLine buflen room) ring)
]
