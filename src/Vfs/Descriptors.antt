-- ===== src/Vfs/Descriptors.antt =====
-- The table of file descriptors in services/vfs/vfs.c, over any file system.
use ittrium.Common.{
  ℕ, ◌<◌, ◌≡◌, ◌≢◌, ◌∙◌, sym, ap, refl, arith, true, false, not, Option, some, put, Option-cases,
  inl, inr, subst,
}
use ittrium.Common.Int.{ℤ, pos, negsuc, pos_part}
use ittrium.Common.Table.{find_slot-some}
use ittrium.Text.{Text}
use ittrium.Vfs.{Vfs, VfsFd, find_mount, alloc_fd, opened, vfs_open, vfs_max_fd}

module _ {W : Type 0} where
  -- A descriptor that vfs_open has given for a file of a mount.
  pub record IsOpened (path : Text) (flags fd : ℕ) (v v' : Vfs W) : Type 0 where
    pub i : ℕ
    pub rel : Text
    pub open_file : ℕ → Text → ℕ → W → W × ℤ × Option ℕ
    pub mounted : find_mount path v ≡ some (i, rel)
    pub has_open : (v.mounts i).ops.open_file ≡ some open_file
    pub in_range : fd < vfs_max_fd
    pub was_free : (v.fds fd).used ≡ false
    pub file : Option ℕ
    pub rc : ℕ
    pub called : open_file (v.mounts i).fs rel flags v.world ≡ (v'.world, pos rc, file)
    pub taken : v'.fds fd ≡ record { used = true; ops = (v.mounts i).ops; file = file }
    pub others : (j : ℕ) → j ≢ fd → v'.fds j ≡ v.fds j
    pub same_mounts : v'.mounts ≡ v.mounts

  opened-IsOpened :
      (path : Text) (flags fd k i : ℕ) (rel : Text) (v v' : Vfs W)
      (f : ℕ → Text → ℕ → W → W × ℤ × Option ℕ)
      → find_mount path v ≡ some (i, rel)
      → (v.mounts i).ops.open_file ≡ some f
      → alloc_fd v ≡ some k
      → (r : W × ℤ × Option ℕ) → f (v.mounts i).fs rel flags v.world ≡ r
      → opened (v.mounts i).ops k v r ≡ (v', pos fd)
      → IsOpened path flags fd v v'
  unfolding alloc_fd
  opened-IsOpened path flags fd k i rel v v' f m o a (w, negsuc n, file) c q = cc (q)
  opened-IsOpened path flags fd k i rel v v' f m o a (w, pos n, file) c q =
      let d : VfsFd W = record { used = true; ops = (v.mounts i).ops; file = file } in
      let (first, below) = find_slot-some (λ (f : VfsFd W). not f.used) vfs_max_fd k v.fds a in
      let state = ap (λ p. p.0) q in
      let number : k ≡ fd = ap (λ p. pos_part p.1) q in
      let table : put v.fds k d ≡ v'.fds = ap (λ (x : Vfs W). x.fds) state in
      let free = first.holds in
      record {
        i = i;
        rel = rel;
        open_file = f;
        mounted = m;
        has_open = o;
        in_range = subst (λ x. x < vfs_max_fd) number below;
        was_free = subst (λ x. (v.fds x).used ≡ false) number (ground (arith, free));
        file = file;
        rc = n;
        called = c ∙ ap (λ (x : Vfs W). (x.world, pos n, file)) state;
        taken =
            sym (ap (λ t. t fd) table)
            ∙ subst (λ x. put v.fds x d fd ≡ d) (sym number) (put-self v.fds fd d);
        others = λ j other.
            sym (ap (λ t. t j) table) ∙ put-other v.fds k j d (λ e. other (sym e ∙ number));
        same_mounts = sym (ap (λ (x : Vfs W). x.mounts) state);
      }
    where
      put-self : (t : ℕ → VfsFd W) (i : ℕ) (d : VfsFd W) → put t i d i ≡ d
      put-self t i d = ground arith

      put-other : (t : ℕ → VfsFd W) (i j : ℕ) (d : VfsFd W) → i ≢ j → put t i d j ≡ t j
      put-other t i j d n = ground arith

  -- A vfs_open that succeeds gives a descriptor.
  pub vfs_open-IsOpened :
      (path : Text) (flags fd : ℕ) (v v' : Vfs W)
      → vfs_open path flags v ≡ (v', pos fd)
      → IsOpened path flags fd v v'
  unfolding vfs_open
  vfs_open-IsOpened path flags fd v v' q = elim (Option-cases (find_mount path v)) [
    | inl e ↦ cc (rw (e, vfs_open) at q)
    | inr ((i, rel), m) ↦ elim (Option-cases ((v.mounts i).ops.open_file)) [
      | inl e ↦ cc (rw (m, e, vfs_open) at q)
      | inr (f, o) ↦ elim (Option-cases (alloc_fd v)) [
        | inl e ↦ cc (rw (m, o, e, vfs_open) at q)
        | inr (k, a) ↦
            opened-IsOpened path flags fd k i rel v v' f m o a (f (v.mounts i).fs rel flags v.world)
              refl (rw (m, o, a, vfs_open) at q)
      ]
    ]
  ]
