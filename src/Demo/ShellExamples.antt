-- ===== src/Demo/ShellExamples.antt =====
-- The theorems on the shell at concrete lines: 97 is `a`, 98 `b`, 35 `#`, 39 a single quote.
use ittrium.Common.{◌≡◌, ◌<◌, ℕ, ◌+◌, refl, arith, false, some, List, [], ◌∷◌, length, ℕ_discrete}
use ittrium.Text.{Text, text_eq, valid_name_start, valid_name_char, cut}
use ittrium.Shell.Vars.{Slot, good_name, all_name_chars, change_first, shell_var_set, shell_var_get}
use ittrium.Common.Int.{pos}
use ittrium.Shell.Lookup.{shell_var_set-get}
use ittrium.Shell.Expand.{expand_vars, expand_vars-bound}
use ittrium.Shell.Tokens.{tokenize, join, tokenize-join}
use ittrium.Shell.Exec.{Sh, Command}

-- What runs on a table.
tables : Unit {0}
unfolding text_eq valid_name_start valid_name_char good_name all_name_chars change_first cut
    shell_var_set shell_var_get ℕ_discrete
tables = tt

abbrev free : Slot
free = record { name = []; val = []; used = false }

abbrev table : List Slot
table = free ∷ free ∷ []

shell_var_set-get_example :
    shell_var_get (97 ∷ []) (shell_var_set (97 ∷ []) (98 ∷ []) table).0 ≡ some (98 ∷ [])
unfolding tables
shell_var_set-get_example = shell_var_set-get (97 ∷ []) (98 ∷ []) table refl

expand_vars-bound_example :
    (out : Text) × (expand_vars table 5 (97 ∷ 36 ∷ 98 ∷ []) ≡ some out) × (length out < 5)
expand_vars-bound_example = expand_vars-bound table 5 (97 ∷ 36 ∷ 98 ∷ []) (omega arith)

tokenize-join_example :
    tokenize (join ((97 ∷ 97 ∷ []) ∷ (98 ∷ []) ∷ [])) 16 ≡ (97 ∷ 97 ∷ []) ∷ (98 ∷ []) ∷ []
tokenize-join_example =
    tokenize-join ((97 ∷ 97 ∷ []) ∷ (98 ∷ []) ∷ []) 16 ((refl, (refl, tt)), ((refl, tt), tt))
      (omega arith)

-- The command `a` counts its calls.
abbrev count_calls : Command ℕ
count_calls = record { name = 97 ∷ []; fn = λ argv s. (record s { world = s.world + 1 }, pos 0) }

-- `a&&a`
abbrev twice : Text
twice = 97 ∷ 38 ∷ 38 ∷ 97 ∷ []

abbrev shell : Sh ℕ
shell = record { vars = []; world = 0 }
