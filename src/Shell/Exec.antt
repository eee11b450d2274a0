-- ===== src/Shell/Exec.antt =====
-- run_segment and shell_exec_line of services/shell/shell_parse.c, and shell_run_argv of
-- services/shell/shell.c. A registered command is a function of its words on the shell's variables and
-- the state `W` of everything else; text that is printed is not part of the model.
pub mod Chain
use ittrium.Common.{
  ℕ, zero, suc, ◌+◌, ◌-◌, ◌≡◌, ◌∙◌, sym, ap, refl, arith, Bool, true, false, ◌&&◌, ◌||◌, not,
  Option, none, some, List, [], ◌∷◌, ◌++◌, append-nil, length, ◌==◌, if◌then◌else◌, Bool-cases, inl,
  inr, subst,
}
use ittrium.Common.Int.{ℤ, pos, negsuc}
use ittrium.Text.{Text, text_eq, cut}
use ittrium.Shell.Vars.{Slot, shell_var_set}
use ittrium.Shell.Expand.{expand_vars}
use ittrium.Shell.Line.{is_assign, strip_comment, next_quote}
use ittrium.Shell.Tokens.{skip_blanks, tokenize}
use ittrium.Shell.History.{line_max}

pub record Sh (W : Type 0) : Type 0 where
  pub vars : List Slot
  pub world : W

-- An entry of `cmds`.
pub record Command (W : Type 0) : Type 0 where
  pub name : Text
  pub fn : List Text → Sh W → Sh W × ℤ

pub data ChainOp : Type 0 where
  semi both either : ChainOp

abbrev pub is_zero : ℤ → Bool
is_zero (pos zero) = true
is_zero _ = false

-- Whether the segment behind a separator is run, after the status.
abbrev pub runs_next : ChainOp → ℤ → Bool
runs_next semi status = true
runs_next both status = is_zero status
runs_next either status = not (is_zero status)

-- The separator that the line starts with, and what is left behind it.
unfoldable pub separator : Text → Option (ChainOp × Text)
separator [] = none
separator (c ∷ []) = if c == 59 then some (semi, []) else none
separator (c ∷ d ∷ cs) =
    if c == 59
    then some (semi, d ∷ cs)
    else if c == 38 && d == 38
    then some (both, cs)
    else if c == 124 && d == 124
    then some (either, cs)
    else none

module _ {W : Type 0} (cmds : List (Command W)) where
  unfoldable pub run_command : List (Command W) → Text → List Text → Sh W → Sh W × ℤ
  run_command [] name argv s = (s, negsuc 0)
  run_command (k ∷ ks) name argv s =
      let rest = run_command ks name argv s in if text_eq k.name name then k.fn argv s else rest

  unfoldable pub shell_run_argv : List Text → Sh W → Sh W × ℤ
  shell_run_argv [] s = (s, pos 0)
  shell_run_argv (name ∷ args) s = run_command cmds name (name ∷ args) s

  -- The loop over the assignments at the start, and the command behind them.
  unfoldable pub run_words : List Text → Sh W → Sh W × ℤ
  run_words [] s = (s, pos 0)
  run_words (w ∷ ws) s = elim (is_assign w) [
    | none ↦ shell_run_argv (w ∷ ws) s
    | some (name, val) ↦ run_words ws (record s { vars = (shell_var_set name val s.vars).0 })
  ]

  -- SHELL_MAX_ARGS is 16.
  unfoldable pub run_expanded : Text → Sh W → Sh W × ℤ
  run_expanded seg s = elim (expand_vars s.vars line_max seg) [
    | none ↦ (s, negsuc 0)
    | some line ↦ run_words (tokenize line 16) s
  ]

  -- run_segment, which shell_exec_line calls for segments with a character other than a blank only;
  -- the others leave the status as it is.
  unfoldable pub run_segment : Text → Sh W × ℤ → Sh W × ℤ
  run_segment seg (s, status) = elim (skip_blanks seg) [
    | [] ↦ (s, status)
    | (c ∷ cs) ↦ run_expanded (c ∷ cs) s
  ]

  abbrev run_if : Bool → Text → Sh W × ℤ → Sh W × ℤ
  run_if run seg s = if run then run_segment seg s else s

  -- The loop of shell_exec_line in the quotes `q`, with the part `seg` of the line since `start`; each
  -- round passes a character at least.
  unfoldable pub exec_loop : ℕ → ℕ → Bool → Text → Text → Sh W × ℤ → Sh W × ℤ
  exec_loop zero q run seg p s = s
  exec_loop (suc fuel) q run seg [] s = run_if run seg s
  exec_loop (suc fuel) q run seg (c ∷ cs) s =
      let found = if q == 0 then separator (c ∷ cs) else none in
      elim found [
        | none ↦ exec_loop fuel (next_quote q c) run (seg ++ c ∷ []) cs s
        | some (op, rest) ↦
            let t = run_if run seg s in exec_loop fuel 0 (runs_next op t.1) [] rest t
      ]

  unfoldable pub shell_exec_line : Text → Sh W → Sh W × ℤ
  shell_exec_line line s =
      let buf = strip_comment (cut (line_max - 1) line) in
      exec_loop (length buf + 1) 0 true [] buf (s, pos 0)
