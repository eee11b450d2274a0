-- ===== src/Shell/Complete/Bounds.antt =====
-- The length of the line after a completion of services/shell/shell.c.
use ittrium.Common.{
  ℕ, ◌-◌, ◌≤◌, arith, Option, none, some, List, length, ltb, leb, ◌==◌, ◌∷◌, ◌++◌, [],
  if◌then◌else◌, if-elim,
}
use ittrium.Common.Int.{pos}
use ittrium.Text.{Text, cut, drop}
use ittrium.Vfs.{Vfs, vfs_path_max, vfs_mount_count}
use ittrium.Shell.History.{line_max}
use ittrium.Shell.Exec.{Command}
use ittrium.Shell.EditLine.{
  EditLine, IsLine, shell_token_at, shell_token_at-IsToken, shell_token_is_first,
  shell_replace_token-IsLine,
}
use ittrium.Shell.LineEdit.{Completer}
use ittrium.Shell.Complete.{
  no_matches, put_found, join_path, split_path, with_slash, match_entries, match_mounts, match_cmds,
  shell_complete_cmdword, shell_complete_path, shell_complete_cmds,
}

put_found-IsLine :
    (buflen start end n : ℕ) (o : Option Text) (l : EditLine)
    → start ≤ end
    → end ≤ length l.buf
    → IsLine buflen l
    → IsLine buflen (put_found buflen start end n o l).0
unfolding put_found
put_found-IsLine buflen start end n none l a b ok = ok
put_found-IsLine buflen start end n (some out) l a b ok =
    shell_replace_token-IsLine buflen start end out l a b ok

module _ {W : Type 0} (buflen : ℕ) where
  cmdword-IsLine :
      (cmds : List (Command W)) (start end : ℕ) (l : EditLine)
      → start ≤ end
      → end ≤ length l.buf
      → IsLine buflen l
      → IsLine buflen (shell_complete_cmdword cmds buflen start end l).0
  unfolding shell_complete_cmdword
  cmdword-IsLine cmds start end l a b ok =
      let plen = if leb line_max (end - start) then line_max - 1 else end - start in
      let m = match_cmds (cut plen (drop start l.buf)) cmds no_matches in
      let P : EditLine × ℕ → Type 0 = λ r. IsLine buflen r.0 in
      if-elim P (m.matches == 0) (λ _. ok)
        (λ _.
          if-elim P (m.matches == 1)
            (λ _.
              shell_replace_token-IsLine buflen start end (cut (line_max - 2) m.best ++ 32 ∷ []) l a
                b ok)
            (λ _.
              if-elim P (ltb plen (length m.common))
                (λ _.
                  shell_replace_token-IsLine buflen start end (cut (line_max - 1) m.common) l a b
                    ok)
                (λ _. ok)))

  path-IsLine :
      (names start end : ℕ) (v : Vfs W) (l : EditLine)
      → start ≤ end
      → end ≤ length l.buf
      → IsLine buflen l
      → IsLine buflen (shell_complete_path names buflen start end v l).0
  unfolding shell_complete_path
  path-IsLine names start end v l a b ok =
      let path = cut (vfs_path_max - 1) (cut (end - start) (drop start l.buf)) in
      let (dir, pfx) = split_path path in
      let m =
        match_mounts (vfs_mount_count v) 0 dir pfx v
          (match_entries names dir pfx (some (pos 0)) v no_matches) in
      let P : EditLine × ℕ → Type 0 = λ r. IsLine buflen r.0 in
      if-elim P (m.matches == 0) (λ _. ok)
        (λ _.
          if-elim P (m.matches == 1)
            (λ _.
              put_found-IsLine buflen start end 1 (with_slash (join_path dir m.best) v) l a b ok)
            (λ _.
              if-elim P (ltb (length pfx) (length m.common))
                (λ _. put_found-IsLine buflen start end m.matches (join_path dir m.common) l a b ok)
                (λ _. ok)))

  -- Completion, of a command or a path, keeps the line with its terminating zero in the buffer and
  -- the cursor in the line.
  pub shell_complete_cmds-IsLine :
      (names : ℕ) (cmds : List (Command W)) (v : Vfs W) (l : EditLine)
      → IsLine buflen l
      → IsLine buflen (shell_complete_cmds names cmds v buflen l).0
  unfolding shell_complete_cmds
  shell_complete_cmds-IsLine names cmds v l ok =
      let t = shell_token_at-IsToken l ok.inside in
      let (start, end) = shell_token_at l in
      let P : EditLine × ℕ → Type 0 = λ r. IsLine buflen r.0 in
      let ordered : start ≤ end = omega (arith, t.before, t.behind) in
      if-elim P (leb buflen (length l.buf)) (λ _. ok)
        (λ _.
          if-elim P (shell_token_is_first l.buf start)
            (λ _. cmdword-IsLine cmds start end l ordered t.in_line ok)
            (λ _. path-IsLine names start end v l ordered t.in_line ok))

-- Completion with the commands of the shell and the files of a layer, as lineedit_read uses it.
abbrev pub completer :
    {W : Type 0} (names : ℕ) (cmds : List (Command W)) (v : Vfs W) (buflen : ℕ) → Completer buflen
completer names cmds v buflen = record {
  complete = shell_complete_cmds names cmds v buflen;
  complete-IsLine = shell_complete_cmds-IsLine buflen names cmds v;
}
