-- ===== src/Vfs/Ramdisk.antt =====
-- Opening, writing and reading files of services/vfs/ramfs.c through services/vfs/vfs.c.
use ittrium.Common.{
  ℕ, ◌+◌, ◌^◌, ◌<◌, ◌≡◌, ◌∙◌, sym, ap, refl, arith, true, false, not, Option, none, some, some_inj,
  List, [], ◌∷◌, length, leb, put, if◌then◌else◌, Bool-cases, Option-cases, inl, inr, subst,
}
use ittrium.Common.Int.{ℤ, pos}
use ittrium.Text.{Text, skip_slashes}
use ittrium.FileOps.{FileOps, Heap, has_flag, vfs_o_append}
use ittrium.Ramfs.{
  RamFs, RamFile, ramfs_ops, rf_open, rf_write, rf_read, rf_lseek, open_named, find_or_alloc,
}
use ittrium.Ramfs.Bounds.{IsValid}
use ittrium.Ramfs.Invariant.{rf_open-IsValid}
use ittrium.Ramfs.Contents.{rf_write-read}
use ittrium.Vfs.{
  Vfs, VfsFd, find_mount, vfs_open, vfs_write, vfs_read, vfs_lseek, get_fd, vfs_max_fd,
}
use ittrium.Vfs.Descriptors.{vfs_open-IsOpened}

module _ (h : Heap) where
  -- A descriptor in use for a file of the RAM file system.
  pub record IsRamFd (fd f : ℕ) (v : Vfs RamFs) : Type 0 where
    pub in_range : fd < vfs_max_fd
    pub slot : v.fds fd ≡ record { used = true; ops = ramfs_ops h; file = some f }

  get-IsRamFd :
      (fd f : ℕ) (v : Vfs RamFs)
      → IsRamFd fd f v
      → get_fd (pos fd) v ≡ some (record { used = true; ops = ramfs_ops h; file = some f })
  get-IsRamFd fd f v d =
      let small : leb vfs_max_fd fd ≡ false = let l = d.in_range in ground arith in
      rw small (
        subst
          (λ (e : VfsFd RamFs).
            (if not e.used then none else some e)
            ≡ some (record { used = true; ops = ramfs_ops h; file = some f }))
          (sym d.slot) refl)

  write-call :
      (fd f : ℕ) (buf : List ℕ) (v : Vfs RamFs)
      → IsRamFd fd f v
      → vfs_write (pos fd) buf v ≡ (
        record v { world = (rf_write h (some f) buf v.world).0 },
        (rf_write h (some f) buf v.world).1,
      )
  unfolding vfs_write
  write-call fd f buf v d = rw (get-IsRamFd fd f v d, vfs_write) refl

  lseek-call :
      (fd f w : ℕ) (off : ℤ) (v : Vfs RamFs)
      → IsRamFd fd f v
      → vfs_lseek (pos fd) off w v ≡ (
        record v { world = (rf_lseek (some f) off w v.world).0 },
        (rf_lseek (some f) off w v.world).1,
      )
  unfolding vfs_lseek
  lseek-call fd f w off v d = rw (get-IsRamFd fd f v d, vfs_lseek) refl

  read-call :
      (fd f len : ℕ) (v : Vfs RamFs)
      → IsRamFd fd f v
      → vfs_read (pos fd) len v ≡ (
        record v { world = (rf_read (some f) len v.world).0 },
        (rf_read (some f) len v.world).1,
        (rf_read (some f) len v.world).2,
      )
  unfolding vfs_read
  read-call fd f len v d = rw (get-IsRamFd fd f v d, vfs_read) refl

  -- The place in the file.
  abbrev offset_of : ℕ → Vfs RamFs → ℕ
  offset_of f v = (v.world.files f).offset

  -- On a descriptor of a valid RAM file system, a vfs_write that succeeds at an offset that with the
  -- length does not wrap has written all bytes, and vfs_lseek back to the old offset followed by
  -- vfs_read of as many bytes gives exactly these.
  pub vfs_write-vfs_read :
      (fd f n : ℕ) (buf : List ℕ) (v v1 : Vfs RamFs)
      → IsRamFd fd f v
      → IsValid v.world
      → offset_of f v + length buf < 2 ^ 64
      → vfs_write (pos fd) buf v ≡ (v1, pos n)
      → let (v2, np) = vfs_lseek (pos fd) (pos (offset_of f v)) 0 v1 in
        (n ≡ length buf)
        × (np ≡ pos (offset_of f v))
        × ((vfs_read (pos fd) (length buf) v2).1 ≡ pos (length buf))
        × ((vfs_read (pos fd) (length buf) v2).2 ≡ buf)
  vfs_write-vfs_read fd f n buf v v1 d w l q =
      let call = sym (write-call fd f buf v d) ∙ q in
      let state : record v { world = (rf_write h (some f) buf v.world).0 } ≡ v1 =
        ap (λ p. p.0) call in
      let wrote : rf_write h (some f) buf v.world ≡ (v1.world, pos n) =
        λ i. ((ap (λ (x : Vfs RamFs). x.world) state) i, (ap (λ p. p.1) call) i) in
      let d1 : IsRamFd fd f v1 =
        subst (IsRamFd fd f) state (record { in_range = d.in_range; slot = d.slot }) in
      let (all, (np, m, got)) = rf_write-read h f n buf v.world v1.world w l wrote in
      let v2 : Vfs RamFs = record v1 {
        world = (rf_lseek (some f) (pos (offset_of f v)) 0 v1.world).0;
      } in
      let d2 : IsRamFd fd f v2 = record { in_range = d1.in_range; slot = d1.slot } in
      rw (lseek-call fd f 0 (pos (offset_of f v)) v1 d1) (
        all,
        np,
        ap (λ p. p.1) (read-call fd f (length buf) v2 d2) ∙ m,
        ap (λ p. p.2) (read-call fd f (length buf) v2 d2) ∙ got,
      )

  -- rf_open gives a file block, at the start of the file without VFS_O_APPEND.
  open_named-file :
      (name : Text) (flags rc : ℕ) (file : Option ℕ) (r r' : RamFs)
      → has_flag flags vfs_o_append ≡ false
      → open_named h name flags r ≡ (r', pos rc, file)
      → (f : ℕ) × (file ≡ some f) × ((r'.files f).offset ≡ 0)
  unfolding open_named
  open_named-file [] flags rc file r r' a q = cc (q)
  open_named-file (c ∷ cs) flags rc file r r' a q =
      elim (Option-cases (find_or_alloc (c ∷ cs) flags r)) [
        | inl e ↦ cc (rw (e, open_named) at q)
        | inr ((i, r1), e) ↦ elim (Bool-cases (h.grants 16)) [
          | inr no_room ↦ cc (rw (e, no_room, open_named) at q)
          | inl given ↦
              let s = rw (e, given, a, open_named) at q in
              (
                r1.opened,
                sym (ap (λ p. p.2) s),
                ap (λ (x : RamFs). (x.files r1.opened).offset) (sym (ap (λ p. p.0) s))
                    ∙ put-start r1.files r1.opened i,
              )
        ]
      ]
    where
      put-start :
          (t : ℕ → RamFile) (f i : ℕ) → (put t f (record { ent = i; offset = 0 }) f).offset ≡ 0
      put-start t f i = ground arith

  -- A vfs_open that succeeds without VFS_O_APPEND at a mount of a valid RAM file system gives a
  -- descriptor of one of its files, placed at its start, and keeps the file system valid.
  pub vfs_open-IsRamFd :
      (path rel : Text) (flags fd i : ℕ) (v v' : Vfs RamFs)
      → has_flag flags vfs_o_append ≡ false
      → IsValid v.world
      → find_mount path v ≡ some (i, rel)
      → (v.mounts i).ops ≡ ramfs_ops h
      → vfs_open path flags v ≡ (v', pos fd)
      → (f : ℕ) × IsRamFd fd f v' × IsValid v'.world × (offset_of f v' ≡ 0)
  unfolding rf_open
  vfs_open-IsRamFd path rel flags fd i v v' a w m o q =
      let t = vfs_open-IsOpened path flags fd v v' q in
      let same : t.i ≡ i = ap (λ p. p.0) (some_inj (sym t.mounted ∙ m)) in
      let ops : (v.mounts t.i).ops ≡ ramfs_ops h = ap (λ j. (v.mounts j).ops) same ∙ o in
      let opens : t.open_file ≡ (λ _. rf_open h) =
        some_inj (sym t.has_open ∙ ap (λ (x : FileOps RamFs). x.open_file) ops) in
      let call : rf_open h t.rel flags v.world ≡ (v'.world, pos t.rc, t.file) =
        ap (λ g. g (v.mounts t.i).fs t.rel flags v.world) (sym opens) ∙ t.called in
      let (f, e, start) =
        open_named-file (skip_slashes t.rel) flags t.rc t.file v.world v'.world a call in
      (
        f,
        record {
          in_range = t.in_range;
          slot = t.taken ∙ λ i. record { used = true; ops = ops i; file = e i };
        },
        subst IsValid (ap (λ p. p.0) call) (rf_open-IsValid h t.rel flags v.world w),
        start,
      )

  -- A file that vfs_open opens without VFS_O_APPEND at a mount of a valid RAM file system takes
  -- what a successful vfs_write through the descriptor writes, all of it, and after vfs_lseek to
  -- the start vfs_read gives exactly that.
  pub vfs_open-write-read :
      (path rel : Text) (flags fd i n : ℕ) (buf : List ℕ) (v v1 v2 : Vfs RamFs)
      → has_flag flags vfs_o_append ≡ false
      → IsValid v.world
      → find_mount path v ≡ some (i, rel)
      → (v.mounts i).ops ≡ ramfs_ops h
      → vfs_open path flags v ≡ (v1, pos fd)
      → length buf < 2 ^ 64
      → vfs_write (pos fd) buf v1 ≡ (v2, pos n)
      → let (v3, np) = vfs_lseek (pos fd) (pos 0) 0 v2 in
        (n ≡ length buf)
        × (np ≡ pos 0)
        × ((vfs_read (pos fd) (length buf) v3).1 ≡ pos (length buf))
        × ((vfs_read (pos fd) (length buf) v3).2 ≡ buf)
  vfs_open-write-read path rel flags fd i n buf v v1 v2 a w m o q l p =
      let (f, d, w1, start) = vfs_open-IsRamFd path rel flags fd i v v1 a w m o q in
      subst
        (λ s.
          let (v3, np) = vfs_lseek (pos fd) (pos s) 0 v2 in
          (n ≡ length buf)
          × (np ≡ pos s)
          × ((vfs_read (pos fd) (length buf) v3).1 ≡ pos (length buf))
          × ((vfs_read (pos fd) (length buf) v3).2 ≡ buf))
        start (vfs_write-vfs_read fd f n buf v1 v2 d w1 (omega arith) p)
