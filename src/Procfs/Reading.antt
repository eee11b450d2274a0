-- ===== src/Procfs/Reading.antt =====
-- What pf_read of services/proc/procfs.c reads from a file that pf_open has opened.
use ittrium.Common.{
  ℕ, ◌+◌, ◌-◌, ◌≤◌, ◌≡◌, ◌∙◌, refl, subst₂, sym, ap, arith, false, ◌||◌, not, some, [], ◌∷◌, length,
  put, ltb, leb, if-elim, Bool-cases, Option-cases, inl, inr, some_inj,
}
use ittrium.Common.Int.{pos}
use ittrium.Text.{Text, cut-id, skip_slashes}
use ittrium.FileOps.{Heap}
use ittrium.Types.{Config}
use ittrium.Procfs.{ProcFile, ProcWorld, proc_buf_max, open_text, pf_open, pf_read}
use ittrium.Procfs.Tables.{gen_file}
use ittrium.Procfs.Bounds.{gen_file-Fits}

abbrev start_of : Text → ProcFile
start_of t = record { buf = t; offset = 0 }

pf_read-whole :
    (t : Text) (f len : ℕ) (w : ProcWorld)
    → w.files f ≡ start_of t
    → length t ≤ len
    → (pf_read (some f) len w).2 ≡ t
unfolding pf_read
pf_read-whole [] f len w e l = rw (e, pf_read) refl
pf_read-whole (c ∷ cs) f len w e l =
    let some_left : leb (length (c ∷ cs)) 0 ≡ false = ground arith in
    rw (e, some_left, pf_read)
      (cut-id _ (c ∷ cs) (
        if-elim (λ (n : ℕ). length (c ∷ cs) ≤ n) (ltb (length (c ∷ cs) - 0) len) (λ _. omega arith)
          (λ _. l)))

module _ (h : Heap) ⦃c : Config⦄ where
  open_text-text :
      (name : Text) (f : ℕ) (w w' : ProcWorld)
      → open_text h name w ≡ (w', pos 0, some f)
      → (t : Text) × (gen_file name proc_buf_max w.kernel w.env ≡ some t)
        × (w'.files f ≡ start_of t)
  unfolding open_text
  open_text-text [] f w w' q = cc (q)
  open_text-text (ch ∷ name) f w w' q =
      elim (Option-cases (gen_file (ch ∷ name) proc_buf_max w.kernel w.env)) [
        | inl e ↦ cc (rw (e, open_text) at q)
        | inr (t, e) ↦ elim (Bool-cases (not (h.grants 24) || not (h.grants (length t + 1)))) [
          | inl full ↦ cc (rw (e, full, open_text) at q)
          | inr room ↦
              let p = rw (e, room, open_text) at q in
              let here : put w.files w.opened (start_of t) w.opened ≡ start_of t = ground arith in
              (
                t,
                e,
                subst₂ (λ (x : ProcWorld) (i : ℕ). x.files i ≡ start_of t) (ap (λ r. r.0) p)
                    (some_inj (ap (λ r. r.2) p)) here,
              )
        ]
      ]

  -- If pf_open succeeds, the text that gen_file makes for the name, without the slashes in front of
  -- it, is what pf_read reads at once from the file, if it is given room for as many characters as
  -- the buffer of pf_open has.
  pub pf_open-pf_read :
      (rel : Text) (flags f len : ℕ) (w w' : ProcWorld)
      → pf_open h rel flags w ≡ (w', pos 0, some f)
      → proc_buf_max ≤ len
      → some ((pf_read (some f) len w').2) ≡ gen_file (skip_slashes rel) proc_buf_max w.kernel w.env
  unfolding pf_open
  pf_open-pf_read rel flags f len w w' q l =
      let (t, made, there) = open_text-text (skip_slashes rel) f w w' q in
      let fits =
        gen_file-Fits proc_buf_max (skip_slashes rel) t w.kernel w.env (omega arith) made in
      ap some (pf_read-whole t f len w' there (omega (arith, fits, l))) ∙ sym made
