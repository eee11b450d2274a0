-- ===== src/Vfs.antt =====
-- services/vfs/vfs.c: mount points and file descriptors over the operations of file systems with the
-- state `W`. A null pointer for a path is the empty path, which every call refuses.
pub mod Mounts
pub mod Lookup
pub mod Descriptors
pub mod Ramdisk
use ittrium.Common.{
  ℕ, zero, suc, ◌+◌, ◌-◌, Bool, true, false, ◌&&◌, ◌||◌, not, Option, none, some, List, [], ◌∷◌,
  length, ltb, leb, ◌==◌, put, if◌then◌else◌,
}
use ittrium.Common.Int.{ℤ, pos, negsuc}
use ittrium.Common.Table.{find_slot}
use ittrium.Text.{Text, char_at, drop}
use ittrium.FileOps.{FileOps, VfsStat, failed}

abbrev pub vfs_max_mounts : ℕ
vfs_max_mounts = 8

abbrev pub vfs_max_fd : ℕ
vfs_max_fd = 16

abbrev pub vfs_path_max : ℕ
vfs_path_max = 128

pub record Mount (W : Type 0) : Type 0 where
  pub path : Text
  pub ops : FileOps W
  pub fs : ℕ
  pub used : Bool
  pub plen : ℕ

-- `struct vfs_fd`
pub record VfsFd (W : Type 0) : Type 0 where
  pub used : Bool
  pub ops : FileOps W
  pub file : Option ℕ

pub record Vfs (W : Type 0) : Type 0 where
  pub mounts : ℕ → Mount W
  pub fds : ℕ → VfsFd W
  pub world : W

-- Whether the `n` characters from `i` on are the same; for `n` the length of one of the strings
-- this is also `memcmp(a, b, n) == 0` from the start.
unfoldable pub same_chars : ℕ → ℕ → Text → Text → Bool
same_chars zero i a b = true
same_chars (suc n) i a b =
    let rest = same_chars n (suc i) a b in if char_at a i == char_at b i then rest else false

unfoldable pub path_eq_prefix : Text → Text → ℕ → Bool
path_eq_prefix path mnt mlen =
    if mlen == 0
    then false
    else if not (same_chars mlen 0 path mnt)
    then false
    else if mlen == 1 && char_at mnt 0 == 47
    then true
    else char_at path mlen == 0 || char_at path mlen == 47

-- The path relative to a mount.
unfoldable pub rel_of : Text → Text → ℕ → Text
rel_of path mnt best_len =
    if best_len == 1 && char_at mnt 0 == 47
    then drop 1 path
    else if char_at path best_len == 47
    then drop (best_len + 1) path
    else drop best_len path

-- `plen > best_len`, which is -1 at first.
abbrev pub is_longer : ℕ → Option (ℕ × ℕ) → Bool
is_longer plen none = true
is_longer plen (some b) = ltb b.1 plen

module _ {W : Type 0} where
  abbrev pub is_match : Text → Mount W → Bool
  is_match path m = m.used && path_eq_prefix path m.path m.plen

  -- The loop of find_mount over the `n` mounts from `i` on, with `best` and `best_len`.
  unfoldable pub find_best : ℕ → ℕ → Text → (ℕ → Mount W) → Option (ℕ × ℕ) → Option (ℕ × ℕ)
  find_best zero i path t best = best
  find_best (suc n) i path t best =
      find_best n (suc i) path t
        (if is_match path (t i) && is_longer (t i).plen best then some (i, (t i).plen) else best)

  unfoldable pub find_mount : Text → Vfs W → Option (ℕ × Text)
  find_mount path v =
      if not (char_at path 0 == 47)
      then none
      else elim (find_best vfs_max_mounts 0 path v.mounts none) [
        | none ↦ none
        | some (i, best_len) ↦ some (i, rel_of path (v.mounts i).path best_len)
      ]

  abbrev pub is_mounted_at : Text → Mount W → Bool
  is_mounted_at path m = m.used && m.plen == length path && same_chars (length path) 0 m.path path

  unfoldable pub vfs_mount : Text → Option (FileOps W) → ℕ → Vfs W → Vfs W × ℤ
  vfs_mount path none fs v = (v, failed)
  vfs_mount path (some ops) fs v =
      if not (char_at path 0 == 47) || leb vfs_path_max (length path)
      then (v, failed)
      else elim (find_slot (is_mounted_at path) vfs_max_mounts v.mounts) [
        | some i ↦ (v, failed)
        | none ↦ elim (find_slot (λ (m : Mount W). not m.used) vfs_max_mounts v.mounts) [
          | none ↦ (v, failed)
          | some i ↦
              let m : Mount W = record {
                path = path;
                ops = ops;
                fs = fs;
                used = true;
                plen = length path;
              } in
              (record v { mounts = put v.mounts i m }, pos 0)
        ]
      ]

  unfoldable pub vfs_umount : Text → Vfs W → Vfs W × ℤ
  vfs_umount path v = elim (find_slot (is_mounted_at path) vfs_max_mounts v.mounts) [
    | none ↦ (v, failed)
    | some i ↦ (record v { mounts = put v.mounts i (record (v.mounts i) { used = false }) }, pos 0)
  ]

  unfoldable pub alloc_fd : Vfs W → Option ℕ
  alloc_fd v = find_slot (λ (f : VfsFd W). not f.used) vfs_max_fd v.fds

  -- What vfs_open does with the result of the file system; `rc < 0` is an error.
  abbrev pub opened : FileOps W → ℕ → Vfs W → W × ℤ × Option ℕ → Vfs W × ℤ
  opened ops fd v (w, negsuc n, file) = (record v { world = w }, negsuc n)
  opened ops fd v (w, pos n, file) = (
    record v { fds = put v.fds fd (record { used = true; ops = ops; file = file }); world = w },
    pos fd,
  )

  unfoldable pub vfs_open : Text → ℕ → Vfs W → Vfs W × ℤ
  vfs_open path flags v = elim (find_mount path v) [
    | none ↦ (v, failed)
    | some (i, rel) ↦
        let m = v.mounts i in
        elim (m.ops.open_file) [
          | none ↦ (v, failed)
          | some f ↦ elim (alloc_fd v) [
            | none ↦ (v, failed)
            | some fd ↦ opened m.ops fd v (f m.fs rel flags v.world)
          ]
        ]
  ]

  -- The descriptor, `none` if the number is out of range or not in use.
  abbrev pub get_fd : ℤ → Vfs W → Option (VfsFd W)
  get_fd (negsuc n) v = none
  get_fd (pos n) v = if leb vfs_max_fd n || not (v.fds n).used then none else some (v.fds n)

  -- With the bytes that are copied to the buffer.
  unfoldable pub vfs_read : ℤ → ℕ → Vfs W → Vfs W × ℤ × List ℕ
  vfs_read fd len v = elim (get_fd fd v) [
    | none ↦ (v, failed, [])
    | some d ↦ elim (d.ops.read) [
      | none ↦ (v, failed, [])
      | some f ↦ let (w, r, buf) = f d.file len v.world in (record v { world = w }, r, buf)
    ]
  ]

  unfoldable pub vfs_write : ℤ → List ℕ → Vfs W → Vfs W × ℤ
  vfs_write fd buf v = elim (get_fd fd v) [
    | none ↦ (v, failed)
    | some d ↦ elim (d.ops.write) [
      | none ↦ (v, failed)
      | some f ↦ let (w, r) = f d.file buf v.world in (record v { world = w }, r)
    ]
  ]

  abbrev release : ℤ → Vfs W → Vfs W
  release (negsuc n) v = v
  release (pos n) v = record v {
    fds = put v.fds n (record (v.fds n) { used = false; file = none });
  }

  unfoldable pub vfs_close : ℤ → Vfs W → Vfs W × ℤ
  vfs_close fd v = elim (get_fd fd v) [
    | none ↦ (v, failed)
    | some d ↦ elim (d.ops.close) [
      | none ↦ (release fd v, pos 0)
      | some f ↦ let (w, r) = f d.file v.world in (release fd (record v { world = w }), r)
    ]
  ]

  unfoldable pub vfs_lseek : ℤ → ℤ → ℕ → Vfs W → Vfs W × ℤ
  vfs_lseek fd off whence v = elim (get_fd fd v) [
    | none ↦ (v, failed)
    | some d ↦ elim (d.ops.lseek) [
      | none ↦ (v, failed)
      | some f ↦ let (w, r) = f d.file off whence v.world in (record v { world = w }, r)
    ]
  ]

  unfoldable pub vfs_stat : Text → Vfs W → ℤ × Option VfsStat
  vfs_stat path v = elim (find_mount path v) [
    | none ↦ (failed, none)
    | some (i, rel) ↦ elim ((v.mounts i).ops.stat) [
      | none ↦ (failed, none)
      | some f ↦ f (v.mounts i).fs rel v.world
    ]
  ]

  unfoldable pub vfs_listdir : Text → ℕ → Option ℤ → Vfs W → ℤ × Text × Option ℤ
  vfs_listdir path nlen idx v = elim (find_mount path v) [
    | none ↦ (failed, [], idx)
    | some (i, rel) ↦ elim ((v.mounts i).ops.listdir) [
      | none ↦ (failed, [], idx)
      | some f ↦ f (v.mounts i).fs rel nlen idx v.world
    ]
  ]

  count_mounts : ℕ → ℕ → (ℕ → Mount W) → ℕ
  count_mounts zero i t = 0
  count_mounts (suc n) i t =
      let rest = count_mounts n (suc i) t in if (t i).used then suc rest else rest

  unfoldable pub vfs_mount_count : Vfs W → ℕ
  unfolding count_mounts
  vfs_mount_count v = count_mounts vfs_max_mounts 0 v.mounts

  -- The loop of vfs_mount_path: the used mount number `i`, when `seen` stand before `j`.
  nth_mount : ℕ → ℕ → ℕ → ℕ → (ℕ → Mount W) → Option ℕ
  nth_mount zero j seen i t = none
  nth_mount (suc n) j seen i t =
      let rest = nth_mount n (suc j) (if (t j).used then suc seen else seen) i t in
      if (t j).used && seen == i then some j else rest

  unfoldable pub vfs_mount_path : ℕ → Vfs W → Option Text
  unfolding nth_mount
  vfs_mount_path i v = elim (nth_mount vfs_max_mounts 0 0 i v.mounts) [
    | none ↦ none
    | some j ↦ some (v.mounts j).path
  ]

  -- memset of both tables; a descriptor that is not in use has no operations.
  unfoldable pub vfs_init : FileOps W → Vfs W → Vfs W
  vfs_init no_ops v = record v {
    mounts = λ _. record { path = []; ops = no_ops; fs = 0; used = false; plen = 0 };
    fds = λ _. record { used = false; ops = no_ops; file = none };
  }
