-- ===== src/Shell/Complete.antt =====
-- The completion of a word in services/shell/shell.c: shell_match_update, shell_mount_child,
-- shell_complete_cmdword, shell_complete_path and shell_complete_cmds. What `list` prints is left out.
pub mod Bounds
pub mod Prefix
use ittrium.Common.{
  ℕ, zero, suc, ◌+◌, ◌-◌, Bool, true, false, ◌&&◌, ◌||◌, not, Option, none, some, List, [], ◌∷◌,
  ◌++◌, length, ltb, leb, ◌==◌, if◌then◌else◌,
}
use ittrium.Common.Int.{ℤ, pos, negsuc}
use ittrium.Text.{Text, text_eq, cut, char_at, drop}
use ittrium.FileOps.{VfsStat, vfs_type_dir}
use ittrium.Vfs.{Vfs, vfs_path_max, vfs_stat, vfs_listdir, vfs_mount_count, vfs_mount_path}
use ittrium.Shell.History.{line_max}
use ittrium.Shell.Exec.{Command}
use ittrium.Shell.EditLine.{EditLine, shell_token_at, shell_token_is_first, shell_replace_token}

abbrev pub vfs_name_max : ℕ
vfs_name_max = 64

-- `strncmp(name, pfx, strlen(pfx)) == 0`
unfoldable pub starts_with : Text → Text → Bool
starts_with [] name = true
starts_with (x ∷ xs) [] = false
starts_with (x ∷ xs) (y ∷ ys) = let rest = starts_with xs ys in if x == y then rest else false

-- The first characters that two names share.
unfoldable pub shared : Text → Text → Text
shared [] name = []
shared (x ∷ xs) [] = []
shared (x ∷ xs) (y ∷ ys) = let rest = shared xs ys in if x == y then x ∷ rest else []

-- `common_len` is the length of `common`; before the first match it is -1.
pub record Matches : Type 0 where
  pub best : Text
  pub common : Text
  pub matches : ℕ

abbrev pub no_matches : Matches
no_matches = record { best = []; common = []; matches = 0 }

unfoldable pub shell_match_update : ℕ → Text → Matches → Matches
shell_match_update bestsz name m =
    if m.matches == 0
    then record { best = cut (bestsz - 1) name; common = cut (bestsz - 1) name; matches = 1 }
    else record m { common = shared m.common name; matches = suc m.matches }

unfoldable pub has_slash : Text → Bool
has_slash [] = false
has_slash (c ∷ cs) = let rest = has_slash cs in if c == 47 then true else rest

-- The name that is copied to `out` of `outsz` characters, which are 2 at least.
unfoldable pub shell_mount_child : Text → Text → ℕ → Option Text
shell_mount_child dir mnt outsz =
    let p = drop (length dir + 1) mnt in
    if not (char_at mnt 0 == 47) || ltb outsz 2
    then none
    else if text_eq dir (47 ∷ [])
    then (if char_at mnt 1 == 0 || has_slash (drop 1 mnt)
        then none
        else some (cut (outsz - 1) (drop 1 mnt)))
    else if not (starts_with dir mnt) || not (char_at mnt (length dir) == 47)
    then none
    else if char_at p 0 == 0 || has_slash p
    then none
    else some (cut (outsz - 1) p)

-- `for (i = 0; path[i]; i++) if (path[i] == '/') last_slash = i;` from `i` on.
unfoldable pub last_slash : Text → ℕ → Option ℕ → Option ℕ
last_slash [] i found = found
last_slash (c ∷ cs) i found = last_slash cs (suc i) (if c == 47 then some i else found)

-- `dir` and `pfx` of a path. The last slash of a path that fits stands below VFS_PATH_MAX.
unfoldable pub split_path : Text → Text × Text
split_path path = elim (last_slash path 0 none) [
  | none ↦ (47 ∷ [], cut (vfs_name_max - 1) path)
  | some zero ↦ (47 ∷ [], cut (vfs_name_max - 1) (drop 1 path))
  | some (suc n) ↦ (cut (suc n) path, cut (vfs_name_max - 1) (drop (suc (suc n)) path))
]

-- A match if the name begins with `pfx`.
unfoldable pub match_name : Text → Text → Matches → Matches
match_name pfx name m = if starts_with pfx name then shell_match_update vfs_name_max name m else m

-- `dir`, a slash if `dir` is not the root, and `name`, if they fit in `out`.
unfoldable pub join_path : Text → Text → Option Text
join_path dir name =
    let head = if text_eq dir (47 ∷ []) then 47 ∷ [] else dir ++ 47 ∷ [] in
    if leb vfs_path_max (length head) || leb vfs_path_max (length head + length name)
    then none
    else some (head ++ name)

-- `first`, `common_len` and `matches` of the loop over the commands: `best` is the first match,
-- and `common` its first `common_len` characters.
unfoldable pub match_cmd : Text → Text → Matches → Matches
match_cmd prefix name m =
    if not (starts_with prefix name)
    then m
    else if m.matches == 0
    then record { best = name; common = name; matches = 1 }
    else record m { common = shared m.common name; matches = suc m.matches }

-- The word replaced by what was found, unless that did not fit in `out`.
unfoldable pub put_found : ℕ → ℕ → ℕ → ℕ → Option Text → EditLine → EditLine × ℕ
put_found buflen start end n none l = (l, n)
put_found buflen start end n (some out) l = (shell_replace_token buflen start end out l, n)

module _ {W : Type 0} where
  -- The loop over vfs_listdir, for a directory of at most `n` names.
  unfoldable pub match_entries : ℕ → Text → Text → Option ℤ → Vfs W → Matches → Matches
  match_entries zero dir pfx idx v m = m
  match_entries (suc n) dir pfx idx v m =
      let (rc, name, idx1) = vfs_listdir dir vfs_name_max idx v in
      elim rc [
        | pos zero ↦ match_entries n dir pfx idx1 v (match_name pfx name m)
        | pos (suc r) ↦ m
        | negsuc r ↦ m
      ]

  -- The loop over the `n` mounts from number `i` on.
  unfoldable pub match_mounts : ℕ → ℕ → Text → Text → Vfs W → Matches → Matches
  match_mounts zero i dir pfx v m = m
  match_mounts (suc n) i dir pfx v m = match_mounts n (suc i) dir pfx v (elim (vfs_mount_path i v) [
    | none ↦ m
    | some mnt ↦ elim (shell_mount_child dir mnt vfs_name_max) [
      | none ↦ m
      | some name ↦ match_name pfx name m
    ]
  ])

  -- A slash behind the name of a directory, if it fits.
  unfoldable pub with_slash : Option Text → Vfs W → Option Text
  with_slash none v = none
  with_slash (some out) v =
      let (rc, st) = vfs_stat out v in
      elim rc [
        | pos zero ↦ elim st [
          | none ↦ some out
          | some x ↦
              if x.type == vfs_type_dir
                && ltb (length out + 1) vfs_path_max
                && not (char_at out (length out - 1) == 47)
              then some (out ++ 47 ∷ [])
              else some out
        ]
        | pos (suc r) ↦ some out
        | negsuc r ↦ some out
      ]

  -- shell_complete_path, for directories of at most `names` names.
  unfoldable pub shell_complete_path : ℕ → ℕ → ℕ → ℕ → Vfs W → EditLine → EditLine × ℕ
  shell_complete_path names buflen start end v l =
      let path = cut (vfs_path_max - 1) (cut (end - start) (drop start l.buf)) in
      let (dir, pfx) = split_path path in
      let m =
        match_mounts (vfs_mount_count v) 0 dir pfx v
          (match_entries names dir pfx (some (pos 0)) v no_matches) in
      if m.matches == 0
      then (l, 0)
      else if m.matches == 1
      then put_found buflen start end 1 (with_slash (join_path dir m.best) v) l
      else if ltb (length pfx) (length m.common)
      then put_found buflen start end m.matches (join_path dir m.common) l
      else (l, m.matches)

  unfoldable pub match_cmds : Text → List (Command W) → Matches → Matches
  match_cmds prefix [] m = m
  match_cmds prefix (c ∷ cs) m = match_cmds prefix cs (match_cmd prefix c.name m)

  unfoldable pub shell_complete_cmdword : List (Command W) → ℕ → ℕ → ℕ → EditLine → EditLine × ℕ
  shell_complete_cmdword cmds buflen start end l =
      let plen = if leb line_max (end - start) then line_max - 1 else end - start in
      let m = match_cmds (cut plen (drop start l.buf)) cmds no_matches in
      if m.matches == 0
      then (l, 0)
      else if m.matches == 1
      then (shell_replace_token buflen start end (cut (line_max - 2) m.best ++ 32 ∷ []) l, 1)
      else if ltb plen (length m.common)
      then (shell_replace_token buflen start end (cut (line_max - 1) m.common) l, m.matches)
      else (l, m.matches)

  unfoldable pub shell_complete_cmds : ℕ → List (Command W) → Vfs W → ℕ → EditLine → EditLine × ℕ
  shell_complete_cmds names cmds v buflen l =
      let (start, end) = shell_token_at l in
      if leb buflen (length l.buf)
      then (l, 0)
      else if shell_token_is_first l.buf start
      then shell_complete_cmdword cmds buflen start end l
      else shell_complete_path names buflen start end v l
