-- ===== src/Shell/Exec/Chain.antt =====
-- The lists of commands that shell_exec_line of services/shell/shell_parse.c runs, read as a list of
-- segments first and run afterwards.
use ittrium.Common.{
  ℕ, zero, suc, Bool, true, false, none, some, List, [], ◌∷◌, ◌++◌, ◌==◌, if◌then◌else◌,
}
use ittrium.Common.Int.{ℤ, pos, negsuc}
use ittrium.Text.{Text}
use ittrium.Shell.Line.{next_quote}
use ittrium.Shell.Exec.{Sh, Command, ChainOp, semi, both, either, separator, run_if}

-- The segments of a line, each but the first with the separator in front of it: the separators stand
-- outside of quotes.
unfoldable pub segments : ℕ → ℕ → Text → Text → Text × List (ChainOp × Text)
segments zero q seg p = (seg, [])
segments (suc fuel) q seg [] = (seg, [])
segments (suc fuel) q seg (c ∷ cs) =
    let found = if q == 0 then separator (c ∷ cs) else none in
    elim found [
      | none ↦ segments fuel (next_quote q c) (seg ++ c ∷ []) cs
      | some (op, rest) ↦ let (first, more) = segments fuel 0 [] rest in (seg, (op, first) ∷ more)
    ]

-- What a shell does behind a separator: `;` goes on, `&&` after the status 0, `||` after another one.
abbrev pub goes_on : ChainOp → ℤ → Bool
goes_on semi status = true
goes_on both (pos zero) = true
goes_on both (pos (suc n)) = false
goes_on both (negsuc n) = false
goes_on either (pos zero) = false
goes_on either (pos (suc n)) = true
goes_on either (negsuc n) = true

module _ {W : Type 0} (cmds : List (Command W)) where
  -- Running segments from the left.
  pub run_chain : Bool → Text → List (ChainOp × Text) → Sh W × ℤ → Sh W × ℤ
  run_chain run seg [] s = run_if cmds run seg s
  run_chain run seg ((op, next) ∷ more) s =
      let t = run_if cmds run seg s in run_chain (goes_on op t.1) next more t
