-- ===== src/Ramfs/Invariant.antt =====
-- rf_open, rf_write, rf_read and rf_lseek of services/vfs/ramfs.c on a valid table.
use ittrium.Common.{
  ℕ, ◌+◌, ◌-◌, ◌^◌, ◌≤◌, ◌<◌, ◌≡◌, ap, refl, arith, some, some_inj, List, [], ◌∷◌, length, ltb, leb,
  if◌then◌else◌, if-elim, ◌&&◌, Bool-cases, Option-cases, inl, inr, subst,
}
use ittrium.Common.Int.{ℤ, pos, negsuc}
use ittrium.Common.Table.{find_slot}
use ittrium.Text.{Text, length-cut, skip_slashes}
use ittrium.FileOps.{seek_to, Heap, is_some, has_flag, vfs_o_trunc, vfs_o_creat}
use ittrium.Ramfs.{
  Entry, RamFile, RamFs, rf_open, rf_write, rf_read, rf_lseek, open_named, find_or_alloc, alloc_ent,
  truncated, new_entry, is_unused, ramfs_max_files, find_ent,
}
use ittrium.Ramfs.Bounds.{
  IsBounded, IsValid, put-all, set_ent-IsValid, set_offset-IsValid, IsWrite-IsValid, rf_write-cases,
}

module _ (h : Heap) where
  truncated-IsBounded : (flags : ℕ) (e : Entry) → IsBounded e → IsBounded (truncated flags e)
  unfolding truncated
  truncated-IsBounded flags e v =
      if-elim IsBounded (has_flag flags vfs_o_trunc && is_some e.contents)
        (λ _. record {
          within = omega arith;
          small = omega arith;
          null_cap = λ _. refl;
          short = v.short;
        })
        (λ _. v)

  find_or_alloc-IsValid :
      (name : Text) (flags i : ℕ) (r r1 : RamFs)
      → IsValid r
      → find_or_alloc name flags r ≡ some (i, r1)
      → IsValid r1
  unfolding find_or_alloc alloc_ent
  find_or_alloc-IsValid name flags i r r1 v q = elim (Option-cases (find_ent name r)) [
    | inr (j, e) ↦
        let same = some_inj (rw (e, find_or_alloc) at q) in subst IsValid (ap (λ p. p.1) same) v
    | inl e ↦ elim (Bool-cases (has_flag flags vfs_o_creat)) [
      | inr no_flag ↦ cc (rw (e, no_flag, find_or_alloc) at q)
      | inl flag ↦ elim (Option-cases (find_slot is_unused ramfs_max_files r.ents)) [
        | inl full ↦ cc (rw (e, flag, full, find_or_alloc, alloc_ent) at q)
        | inr (j, free) ↦
            let same = some_inj (rw (e, flag, free, find_or_alloc, alloc_ent) at q) in
            subst IsValid (ap (λ p. p.1) same) (
              set_ent-IsValid r j (new_entry name) v (record {
                within = omega arith;
                small = omega arith;
                null_cap = λ _. refl;
                short = length-cut 47 name;
              }))
      ]
    ]
  ]

  open_named-IsValid :
      (name : Text) (flags : ℕ) (r : RamFs) → IsValid r → IsValid (open_named h name flags r).0
  unfolding open_named
  open_named-IsValid [] flags r v = v
  open_named-IsValid (c ∷ cs) flags r v = elim (Option-cases (find_or_alloc (c ∷ cs) flags r)) [
    | inl e ↦ rw (e, open_named) v
    | inr ((i, r1), e) ↦
        let v1 = find_or_alloc-IsValid (c ∷ cs) flags i r r1 v e in
        let b = truncated-IsBounded flags (r1.ents i) (v1.entries i) in
        let v2 = set_ent-IsValid r1 i (truncated flags (r1.ents i)) v1 b in
        elim (Bool-cases (h.grants 16)) [
          | inr no_room ↦ rw (e, no_room, open_named) v2
          | inl given ↦
              rw (e, given, open_named)
                (record {
                  entries = v2.entries;
                  offsets =
                      put-all (λ (x : RamFile). x.offset ≤ 4096) r1.files r1.opened _
                        (let w = v2.entries i in
                          let a = w.within in let c = w.small in ground arith)
                        v1.offsets;
                })
        ]
  ]

  pub rf_open-IsValid :
      (rel : Text) (flags : ℕ) (r : RamFs) → IsValid r → IsValid (rf_open h rel flags r).0
  unfolding rf_open
  rf_open-IsValid rel flags r v = open_named-IsValid (skip_slashes rel) flags r v

  write-IsValid :
      (f : ℕ) (buf : List ℕ) (r : RamFs)
      → IsValid r
      → (r.files f).offset + length buf < 2 ^ 64
      → IsValid (rf_write h (some f) buf r).0
  write-IsValid f buf r v l = elim (rf_write-cases h f buf r v l) [
    | inl e ↦ rw e v
    | inr (r', e, w) ↦ rw e (IsWrite-IsValid h v w)
  ]

  read-IsValid : (f len : ℕ) (r : RamFs) → IsValid r → IsValid (rf_read (some f) len r).0
  unfolding rf_read
  read-IsValid f len r v =
      let e = r.ents (r.files f).ent in
      let at = (r.files f).offset in
      let n = if ltb (e.size - at) len then e.size - at else len in
      elim (Bool-cases (leb e.size at)) [
        | inl end ↦ rw end v
        | inr more ↦
            let w = v.entries (r.files f).ent in
            let a = w.within in
            let b = w.small in
            let m : n ≤ e.size - at = ground arith in
            let z : at + n ≤ 4096 = ground arith in
            rw more (set_offset-IsValid r f _ v (omega arith))
      ]

  lseek-IsValid :
      (f : ℕ) (off : ℤ) (whence : ℕ) (r : RamFs)
      → IsValid r
      → IsValid (rf_lseek (some f) off whence r).0
  unfolding rf_lseek
  lseek-IsValid f off whence r v =
      let size = (r.ents (r.files f).ent).size in
      elim (Option-cases (seek_to (r.files f).offset size off whence)) [
        | inl e ↦ rw (e, rf_lseek) v
        | inr (negsuc n, e) ↦ rw (e, rf_lseek) v
        | inr (pos n, e) ↦
            let w = v.entries (r.files f).ent in
            let a = w.within in
            let b = w.small in
            let z : (if ltb size n then size else n) ≤ 4096 = ground arith in
            rw (e, rf_lseek) (set_offset-IsValid r f _ v z)
      ]

  -- In a valid table, at an offset that with the length does not wrap, rf_open, rf_write, rf_read
  -- and rf_lseek each leave a valid table.
  pub rf-IsValid :
      (rel : Text) (flags f len whence : ℕ) (buf : List ℕ) (off : ℤ) (r : RamFs)
      → IsValid r
      → (r.files f).offset + length buf < 2 ^ 64
      → IsValid (rf_open h rel flags r).0
        × IsValid (rf_write h (some f) buf r).0
        × IsValid (rf_read (some f) len r).0
        × IsValid (rf_lseek (some f) off whence r).0
  rf-IsValid rel flags f len whence buf off r v l = (
    rf_open-IsValid rel flags r v,
    write-IsValid f buf r v l,
    read-IsValid f len r v,
    lseek-IsValid f off whence r v,
  )
