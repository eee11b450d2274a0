-- ===== src/Demo/EditExamples.antt =====
-- The theorems on line editing and completion at concrete lines: 97 is `a`, 98 `b`, 32 a space, 127
-- backspace, 13 Enter.
use ittrium.Common.{ℕ, ◌≡◌, refl, arith, true, false, none, some, List, [], ◌∷◌, ◌++◌}
use ittrium.Common.Int.{pos}
use ittrium.Text.{Text, cut}
use ittrium.FileOps.{FileOps}
use ittrium.Vfs.{Vfs}
use ittrium.Shell.History.{History, hist_push, IsRing}
use ittrium.Shell.Exec.{Command}
use ittrium.Shell.EditLine.{EditLine, IsLine}
use ittrium.Shell.Complete.{no_matches, starts_with, match_cmds, shell_complete_cmds}
use ittrium.Shell.Complete.Bounds.{completer, shell_complete_cmds-IsLine}
use ittrium.Shell.Complete.Prefix.{Matching, count, match_cmds-common}
use ittrium.Shell.LineEdit.{
  Reading, returned, insert_char, delete_before, edit_key, edit_loop, lineedit_read,
}
use ittrium.Shell.LineEdit.Bounds.{IsDone, lineedit_read-IsDone}
use ittrium.Shell.LineEdit.Typing.{keys_of, lineedit_read-typed}

abbrev no_lines : History
no_lines = record { hist = λ _. []; hist_count = 0; hist_head = 0 }

no_lines-IsRing : IsRing no_lines
no_lines-IsRing = record { head = omega arith; count = omega arith }

abbrev no_ops : FileOps ℕ
no_ops = record {
  open_file = none;
  read = none;
  write = none;
  close = none;
  stat = none;
  lseek = none;
  listdir = none;
}

abbrev no_files : Vfs ℕ
no_files = record {
  mounts = λ _. record { path = []; ops = no_ops; fs = 0; used = false; plen = 0 };
  fds = λ _. record { used = false; ops = no_ops; file = none };
  world = 0;
}

abbrev command : Text → Command ℕ
command name = record { name = name; fn = λ argv s. (s, pos 0) }

-- `aab` and `aaa`
abbrev commands : List (Command ℕ)
commands = command (97 ∷ 97 ∷ 98 ∷ []) ∷ command (97 ∷ 97 ∷ 97 ∷ []) ∷ []

-- `b a`, the cursor behind the last letter
abbrev line : EditLine
line = record { buf = 98 ∷ 32 ∷ 97 ∷ []; place = 3 }

shell_complete_cmds-IsLine_example : IsLine 8 (shell_complete_cmds 16 commands no_files 8 line).0
shell_complete_cmds-IsLine_example =
    shell_complete_cmds-IsLine 8 16 commands no_files line
      (record { fits = omega arith; inside = omega arith })

match_cmds-common_example :
    let m = match_cmds (97 ∷ []) commands no_matches in
    (m.matches ≡ count (97 ∷ []) commands)
    × Matching (97 ∷ []) (λ n. starts_with m.common n ≡ true) commands
    × (starts_with (97 ∷ 97 ∷ []) m.common ≡ true)
unfolding starts_with
match_cmds-common_example =
    match_cmds-common (97 ∷ []) commands (97 ∷ 97 ∷ []) ((λ _. refl), ((λ _. refl), tt))
      (λ e. absurd (omega (arith, e)))

-- `a`, backspace, `b`, Enter
abbrev corrected : EditLine × History × Reading
corrected = (record { buf = 98 ∷ []; place = 1 }, hist_push (98 ∷ []) no_lines, returned 1 [])

lineedit_read-IsDone_example : IsDone 8 corrected
unfolding lineedit_read edit_loop edit_key insert_char delete_before cut
lineedit_read-IsDone_example =
    lineedit_read-IsDone 8 (completer 16 commands no_files 8)
      (pos 97 ∷ pos 127 ∷ pos 98 ∷ pos 13 ∷ []) no_lines corrected no_lines-IsRing refl

lineedit_read-typed_example :
    lineedit_read
      (completer 16 commands no_files 8)
      (keys_of (97 ∷ 98 ∷ []) ++ pos 13 ∷ [])
      no_lines
    ≡ some
        (record { buf = 97 ∷ 98 ∷ []; place = 2 }, hist_push (97 ∷ 98 ∷ []) no_lines, returned 2 [])
lineedit_read-typed_example =
    lineedit_read-typed 8 (completer 16 commands no_files 8) (97 ∷ 98 ∷ []) no_lines (omega arith)
      ((omega arith, omega arith), ((omega arith, omega arith), tt)) (omega arith)
