-- ===== src/Shell/Vars.antt =====
-- services/shell/shell_var.c. The table `g_vars` is a list of its entries. A call that returns 0 is
-- `true` here, and one that returns -1 `false`; a null pointer for a value is the empty string.
use ittrium.Common.{
  ℕ, ◌-◌, Bool, true, false, ◌&&◌, not, Option, none, some, List, [], ◌∷◌, length, ltb,
  if◌then◌else◌,
}
use ittrium.Text.{Text, text_eq, valid_name_start, valid_name_char, cut}

pub record Slot : Type 0 where
  pub name : Text
  pub val : Text
  pub used : Bool

abbrev pub shell_var_name : ℕ
shell_var_name = 24

abbrev pub shell_var_val : ℕ
shell_var_val = 64

unfoldable pub all_name_chars : Text → Bool
all_name_chars [] = true
all_name_chars (x ∷ xs) = let rest = all_name_chars xs in if valid_name_char x then rest else false

-- The tests at the start of shell_var_set.
unfoldable pub good_name : Text → Bool
good_name [] = false
good_name (x ∷ xs) =
    valid_name_start x && all_name_chars (x ∷ xs) && ltb (length (x ∷ xs)) shell_var_name

abbrev pub is_named : Text → Slot → Bool
is_named name v = v.used && text_eq v.name name

abbrev pub is_free : Slot → Bool
is_free v = not v.used

-- A loop over the table that stops at the first entry with the property `p` and changes it by `f`;
-- `none` if there is no such entry.
unfoldable pub change_first : (Slot → Bool) → (Slot → Slot) → List Slot → Option (List Slot)
change_first p f [] = none
change_first p f (v ∷ vs) =
    let rest = change_first p f vs in
    if p v then some (f v ∷ vs) else elim rest [ none ↦ none | some ws ↦ some (v ∷ ws) ]

-- The loop notes the first free entry, `free_i`, on its way, and needs it if no entry has the name.
unfoldable pub shell_var_set : Text → Text → List Slot → List Slot × Bool
shell_var_set name val vs =
    let v = cut (shell_var_val - 1) val in
    if not (good_name name)
    then (vs, false)
    else elim (change_first (is_named name) (λ s. record s { val = v }) vs) [
      | some ws ↦ (ws, true)
      | none ↦ elim (change_first is_free (λ s. record { name = name; val = v; used = true }) vs) [
        | some ws ↦ (ws, true)
        | none ↦ (vs, false)
      ]
    ]

unfoldable pub shell_var_unset : Text → List Slot → List Slot × Bool
shell_var_unset name vs =
    elim (change_first (is_named name) (λ s. record { name = []; val = []; used = false }) vs) [
      | some ws ↦ (ws, true)
      | none ↦ (vs, false)
    ]

unfoldable pub shell_var_get : Text → List Slot → Option Text
shell_var_get name [] = none
shell_var_get name (v ∷ vs) =
    let rest = shell_var_get name vs in if is_named name v then some v.val else rest
