-- ===== src/Romfs/Builtin.antt =====
-- The built-in table of services/vfs/romfs.c after romfs_add_builtin.
use ittrium.Common.{ℕ, ◌≤◌, ◌≡◌, some}
use ittrium.Text.{Text}
use ittrium.FileOps.{Bytes}
use ittrium.Romfs.{Romfs, find_in, entry_at}

-- The file with a name, found in a table that is not over its capacity.
pub record IsAdded (name : Text) (b : Bytes) (size : ℕ) (t : Romfs) : Type 0 where
  pub i : ℕ
  pub found : find_in name t ≡ some i
  pub bytes : (entry_at t i).contents ≡ b
  pub length_kept : (entry_at t i).size ≡ size
  pub fits : t.nents ≤ t.capacity
