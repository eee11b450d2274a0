-- ===== src/Shell/LineEdit.antt =====
-- lineedit_read of services/shell/lineedit.c: a line is read key by key. What is printed is left out.
pub mod Bounds
pub mod Typing
use ittrium.Common.{
  ℕ, zero, suc, ◌+◌, ◌-◌, ◌%◌, Bool, true, false, ◌&&◌, ◌||◌, not, Option, none, some, List, [],
  ◌∷◌, ◌++◌, length, ltb, leb, ◌==◌, if◌then◌else◌,
}
use ittrium.Common.Int.{ℤ, pos, negsuc}
use ittrium.Text.{Text, cut, drop}
use ittrium.Shell.History.{History, hist_push, hist_get}
use ittrium.Shell.EditLine.{EditLine, IsLine}

-- Completion as lineedit_read uses it: a function on the line that tells the number of matches, and
-- keeps the line in its buffer.
pub record Completer (buflen : ℕ) : Type 0 where
  pub complete : EditLine → EditLine × ℕ
  pub complete-IsLine : (l : EditLine) → IsLine buflen l → IsLine buflen (complete l).0

-- The variables of lineedit_read. `tab_pending` only says whether completion prints its matches.
pub record Edit : Type 0 where
  pub line : EditLine
  pub hist_nav : ℕ
  pub tab_pending : Bool

-- What a call ends with: the result and the keys that are left, or `waiting` for more keys.
pub data Reading : Type 0 where
  waiting : Reading
  returned : ℕ → List ℤ → Reading

abbrev pub empty_line : EditLine
empty_line = record { buf = []; place = 0 }

-- A line of the history in the buffer, the cursor at its end.
unfoldable pub recall : ℕ → Text → EditLine
recall buflen h = let b = cut (buflen - 1) h in record { buf = b; place = length b }

-- The character in front of the place is taken out.
unfoldable pub delete_before : ℕ → EditLine → EditLine
delete_before zero l = l
delete_before (suc p) l = record { buf = cut p l.buf ++ drop (suc p) l.buf; place = p }

abbrev pub backspace : EditLine → EditLine
backspace l = delete_before l.place l

-- A printable character at the cursor, if it fits.
unfoldable pub insert_char : ℕ → ℕ → Edit → Edit
insert_char buflen c e =
    let l = e.line in
    if ltb c 32 || ltb 126 c || leb buflen (length l.buf + 1) then e else record e {
      line = record { buf = cut l.place l.buf ++ c ∷ drop l.place l.buf; place = suc l.place };
      hist_nav = 0;
    }

unfoldable pub key_up : ℕ → History → Edit → Edit
key_up buflen h e = elim (hist_get (pos (suc e.hist_nav)) h) [
  | none ↦ e
  | some t ↦ record e { line = recall buflen t; hist_nav = suc e.hist_nav }
]

-- One step towards the line that is edited, with the steps taken back so far.
unfoldable pub step_down : ℕ → ℕ → History → Edit → Edit
step_down zero buflen h e = e
step_down (suc zero) buflen h e = record e { line = empty_line; hist_nav = 0 }
step_down (suc (suc n)) buflen h e = elim (hist_get (pos (suc n)) h) [
  | none ↦ record e { hist_nav = suc n }
  | some t ↦ record e { line = recall buflen t; hist_nav = suc n }
]

abbrev pub key_down : ℕ → History → Edit → Edit
key_down buflen h e = step_down e.hist_nav buflen h e

unfoldable pub key_right : Edit → Edit
key_right e =
    if ltb e.line.place (length e.line.buf)
    then record e { line = record e.line { place = suc e.line.place } }
    else e

unfoldable pub step_left : ℕ → Edit → Edit
step_left zero e = e
step_left (suc p) e = record e { line = record e.line { place = p } }

abbrev pub key_left : Edit → Edit
key_left e = step_left e.line.place e

-- `(char)shell_getc()`, of 8 bits
abbrev pub as_char : ℤ → ℕ
as_char (pos n) = n % 256
as_char (negsuc n) = 255 - n % 256

-- The two characters behind an escape.
unfoldable pub arrow : ℕ → History → ℕ → ℕ → Edit → Edit
arrow buflen h s0 s1 e =
    if not (s0 == 91)
    then e
    else if s1 == 65
    then key_up buflen h e
    else if s1 == 66
    then key_down buflen h e
    else if s1 == 67
    then key_right e
    else if s1 == 68
    then key_left e
    else e

unfoldable pub key_tab : {buflen : ℕ} → Completer buflen → Edit → Edit
key_tab k e =
    let (l, n) = k.complete e.line in record { line = l; hist_nav = 0; tab_pending = ltb 1 n }

-- What a key starts: one of the two ways to end the line, an escape, or a change of the line.
pub data Key : Type 0 where
  enter interrupt escape edits : Key

abbrev pub key_of : ℕ → Key
key_of c =
    if c == 13 || c == 10
    then enter
    else if c == 3
    then interrupt
    else if c == 27
    then escape
    else edits

-- The keys that change the line and are not part of an escape.
unfoldable pub edit_key : {buflen : ℕ} → Completer buflen → ℕ → Edit → Edit
edit_key {buflen} k c e =
    let e1 = record e { tab_pending = false } in
    if c == 9
    then key_tab k e
    else if c == 127 || c == 8
    then record e1 { line = backspace e.line }
    else insert_char buflen c e1

-- What the next shell_getc is for: a key, or one of the two characters behind an escape.
pub data Wanted : Type 0 where
  key seq_0 : Wanted
  seq_1 : ℕ → Wanted

-- The loop of lineedit_read on the keys that come. A result below 0 of shell_getc is no key.
unfoldable pub edit_loop :
    {buflen : ℕ}
    → Completer buflen
    → Wanted
    → List ℤ
    → Edit
    → History
    → EditLine × History × Reading
edit_loop k w [] e h = (e.line, h, waiting)
edit_loop k seq_0 (c ∷ cs) e h = edit_loop k (seq_1 (as_char c)) cs e h
edit_loop {buflen} k (seq_1 s0) (c ∷ cs) e h =
    edit_loop k key cs (arrow buflen h s0 (as_char c) e) h
edit_loop k key (negsuc n ∷ cs) e h = edit_loop k key cs e h
edit_loop k key (pos c ∷ cs) e h = elim (key_of c) [
  | enter ↦ (e.line, hist_push e.line.buf h, returned (length e.line.buf) cs)
  | interrupt ↦ (empty_line, h, returned 0 cs)
  | escape ↦ edit_loop k seq_0 cs (record e { tab_pending = false }) h
  | edits ↦ edit_loop k key cs (edit_key k c e) h
]

-- A null pointer for the buffer is not given; a buffer of less than 2 characters is refused.
unfoldable pub lineedit_read :
    {buflen : ℕ} → Completer buflen → List ℤ → History → Option (EditLine × History × Reading)
lineedit_read {buflen} k keys h =
    if ltb buflen 2
    then none
    else some
        (edit_loop k key keys (record { line = empty_line; hist_nav = 0; tab_pending = false }) h)
