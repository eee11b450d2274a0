-- ===== src/Ramfs/Names.antt =====
-- The names of the files in services/vfs/ramfs.c: which file a name leads to after rf_open.
use ittrium.Common.{
  ℕ, ◌≤◌, ◌<◌, ◌≡◌, ◌∙◌, sym, ap, refl, arith, true, false, Option, none, some, some_inj, ◌∷◌,
  length, put, Bool-cases, Option-cases, inl, inr, subst, subst₂, both-true,
}
use ittrium.Common.Int.{pos}
use ittrium.Common.Table.{find_slot, find_slot-none, find_slot-some, find_slot-first, find_slot-ext}
use ittrium.Text.{Text, text_eq, text_eq_yes, text_eq_refl, cut, cut-id, skip_slashes}
use ittrium.FileOps.{Heap, failed, has_flag, vfs_o_creat, vfs_type_reg}
use ittrium.Ramfs.{
  Entry, RamFile, RamFs, rf_open, rf_stat, stat_named, open_named, find_or_alloc, find_ent,
  find_named, alloc_ent, is_entry, is_unused, ramfs_max_files, new_entry, truncated,
}
use ittrium.Ramfs.Bounds.{IsValid}
use ittrium.Ramfs.Invariant.{rf_open-IsValid}

-- The search of a name without a leading slash.
find_ent-slot :
    (c : ℕ) (cs : Text) (r : RamFs)
    → skip_slashes (c ∷ cs) ≡ c ∷ cs
    → find_ent (c ∷ cs) r ≡ find_slot (is_entry (c ∷ cs)) ramfs_max_files r.ents
unfolding find_ent find_named
find_ent-slot c cs r s = ap (λ x. find_named x r.ents) s

-- A name longer than an entry holds is the name of no entry.
long_name-none :
    (c : ℕ) (cs : Text) (r : RamFs)
    → IsValid r
    → 47 < length (c ∷ cs)
    → skip_slashes (c ∷ cs) ≡ c ∷ cs
    → find_ent (c ∷ cs) r ≡ none
long_name-none c cs r v l s =
    elim (Option-cases (find_slot (is_entry (c ∷ cs)) ramfs_max_files r.ents)) [
      | inl e ↦ find_ent-slot c cs r s ∙ e
      | inr (j, e) ↦
          let (f, _) = find_slot-some (is_entry (c ∷ cs)) ramfs_max_files j r.ents e in
          let w = v.entries j in
          let short = w.short in
          let named = (both-true (r.ents j).used (text_eq (r.ents j).name (c ∷ cs)) f.holds).1 in
          let same = ap length (text_eq_yes (r.ents j).name (c ∷ cs) named) in absurd (omega arith)
    ]

put-same : (t : ℕ → RamFile) (f i n : ℕ) → (put t f (record { ent = i; offset = n }) f).ent ≡ i
put-same t f i n = ground arith

-- After the search or the allocation, the name leads to the entry.
find_or_alloc-find_ent :
    (c : ℕ) (cs : Text) (flags i : ℕ) (r r1 : RamFs)
    → length (c ∷ cs) ≤ 47
    → skip_slashes (c ∷ cs) ≡ c ∷ cs
    → find_or_alloc (c ∷ cs) flags r ≡ some (i, r1)
    → find_slot (is_entry (c ∷ cs)) ramfs_max_files r1.ents ≡ some i
unfolding find_or_alloc alloc_ent
find_or_alloc-find_ent c cs flags i r r1 l s q =
    elim (Option-cases (find_slot (is_entry (c ∷ cs)) ramfs_max_files r.ents)) [
      | inr (j, e) ↦
          let same = some_inj (rw (here e, find_or_alloc) at q) in
          subst₂
            (λ (x : ℕ) (y : RamFs). find_slot (is_entry (c ∷ cs)) ramfs_max_files y.ents ≡ some x)
            (ap (λ p. p.0) same) (ap (λ p. p.1) same) e
      | inl e ↦ elim (Bool-cases (has_flag flags vfs_o_creat)) [
        | inr no_flag ↦ cc (rw (here e, no_flag, find_or_alloc) at q)
        | inl flag ↦ elim (Option-cases (find_slot is_unused ramfs_max_files r.ents)) [
          | inl full ↦ cc (rw (here e, flag, full, find_or_alloc, alloc_ent) at q)
          | inr (j, free) ↦
              let same = some_inj (rw (here e, flag, free, find_or_alloc, alloc_ent) at q) in
              let (_, below) = find_slot-some is_unused ramfs_max_files j r.ents free in
              subst₂
                (λ (x : ℕ) (y : RamFs).
                  find_slot (is_entry (c ∷ cs)) ramfs_max_files y.ents ≡ some x)
                (ap (λ p. p.0) same) (ap (λ p. p.1) same)
                (find_slot-first (is_entry (c ∷ cs)) ramfs_max_files j
                  (put r.ents j (new_entry (c ∷ cs)))
                  (record {
                    holds = made j;
                    from = omega arith;
                    before = λ k _ less.
                        let old =
                          find_slot-none (is_entry (c ∷ cs)) ramfs_max_files r.ents e k
                            (omega arith) in
                        other j k less old;
                  })
                  below)
        ]
      ]
    ]
  where
    here :
        {o : Option ℕ}
        → find_slot (is_entry (c ∷ cs)) ramfs_max_files r.ents ≡ o
        → find_ent (c ∷ cs) r ≡ o
    here e = find_ent-slot c cs r s ∙ e

    made : (j : ℕ) → is_entry (c ∷ cs) (put r.ents j (new_entry (c ∷ cs)) j) ≡ true
    made j =
        let name : text_eq (cut 47 (c ∷ cs)) (c ∷ cs) ≡ true =
          rw (cut-id 47 (c ∷ cs) l) (text_eq_refl (c ∷ cs)) in
        let here : put r.ents j (new_entry (c ∷ cs)) j ≡ new_entry (c ∷ cs) = ground arith in
        rw here name

    other :
        (j k : ℕ)
        → k < j
        → is_entry (c ∷ cs) (r.ents k) ≡ false
        → is_entry (c ∷ cs) (put r.ents j (new_entry (c ∷ cs)) k) ≡ false
    other j k less old =
        let there : put r.ents j (new_entry (c ∷ cs)) k ≡ r.ents k = ground arith in rw there old

module _ (h : Heap) where
  -- What a successful rf_open does.
  record IsOpen (name : Text) (flags f : ℕ) (r r' : RamFs) : Type 0 where
    i : ℕ
    r1 : RamFs
    found : find_or_alloc name flags r ≡ some (i, r1)
    table : r'.ents ≡ put r1.ents i (truncated flags (r1.ents i))
    file : (r'.files f).ent ≡ i

  open_named-IsOpen :
      (c f flags : ℕ) (cs : Text) (r r' : RamFs)
      → open_named h (c ∷ cs) flags r ≡ (r', pos 0, some f)
      → IsOpen (c ∷ cs) flags f r r'
  unfolding open_named
  open_named-IsOpen c f flags cs r r' q = elim (Option-cases (find_or_alloc (c ∷ cs) flags r)) [
    | inl e ↦ cc (rw (e, open_named) at q)
    | inr ((i, r1), e) ↦ elim (Bool-cases (h.grants 16)) [
      | inr no_room ↦ cc (rw (e, no_room, open_named) at q)
      | inl given ↦
          let s = rw (e, given, open_named) at q in
          let state = ap (λ p. p.0) s in
          let number : r1.opened ≡ f = some_inj (ap (λ p. p.2) s) in
          record {
            i = i;
            r1 = r1;
            found = e;
            table = sym (ap (λ (x : RamFs). x.ents) state);
            file =
                ap (λ (x : RamFs). (x.files f).ent) (sym state)
                ∙ rw (← number) (put-same r1.files r1.opened i _);
          }
    ]
  ]

  -- A truncation keeps the names.
  truncated-is_entry :
      (name : Text) (flags : ℕ) (e : Entry) → is_entry name (truncated flags e) ≡ is_entry name e
  unfolding truncated
  truncated-is_entry name flags e = ground arith

  put-truncated :
      (name : Text) (flags i : ℕ) (t : ℕ → Entry) (k : ℕ)
      → is_entry name (put t i (truncated flags (t i)) k) ≡ is_entry name (t k)
  put-truncated name flags i t k = ground (arith, truncated-is_entry name flags (t i))

  -- If rf_open succeeds on a name of at most 47 characters that is not empty and has no leading
  -- slash, rf_stat of the name afterwards succeeds with the size of the very file that was opened.
  pub rf_open-rf_stat :
      (c f flags : ℕ) (cs : Text) (r r' : RamFs)
      → length (c ∷ cs) ≤ 47
      → skip_slashes (c ∷ cs) ≡ c ∷ cs
      → rf_open h (c ∷ cs) flags r ≡ (r', pos 0, some f)
      → rf_stat (c ∷ cs) r'
        ≡ (pos 0, some (record { type = vfs_type_reg; size = (r'.ents (r'.files f).ent).size }))
  unfolding rf_open rf_stat stat_named
  rf_open-rf_stat c f flags cs r r' l s q =
      let o =
        open_named-IsOpen c f flags cs r r'
          (subst (λ x. open_named h x flags r ≡ (r', pos 0, some f)) s q) in
      let found : find_slot (is_entry (c ∷ cs)) ramfs_max_files r'.ents ≡ some (r'.files f).ent =
        ap (find_slot (is_entry (c ∷ cs)) ramfs_max_files) o.table
        ∙ find_slot-ext (is_entry (c ∷ cs)) ramfs_max_files _ _
            (put-truncated (c ∷ cs) flags o.i o.r1.ents)
        ∙ find_or_alloc-find_ent c cs flags o.i r o.r1 l s o.found
        ∙ ap some (sym o.file) in
      ap (λ x. stat_named x r') s ∙ rw (find_ent-slot c cs r' s ∙ found, stat_named) refl

  -- A file that rf_open makes or finds in a valid table under a name of more than 47 characters
  -- without a leading slash is not found by rf_stat afterwards, though rf_open succeeded.
  pub rf_open-long_name :
      (c f flags : ℕ) (cs : Text) (r r' : RamFs)
      → IsValid r
      → 47 < length (c ∷ cs)
      → skip_slashes (c ∷ cs) ≡ c ∷ cs
      → rf_open h (c ∷ cs) flags r ≡ (r', pos 0, some f)
      → (rf_stat (c ∷ cs) r').0 ≡ failed
  unfolding rf_stat stat_named
  rf_open-long_name c f flags cs r r' v l s q =
      let v' = subst IsValid (ap (λ p. p.0) q) (rf_open-IsValid h (c ∷ cs) flags r v) in
      ap (λ x. (stat_named x r').0) s ∙ rw (long_name-none c cs r' v' l s, stat_named) refl
