-- ===== src/Shell/Lookup.antt =====
-- What shell_var_get of services/shell/shell_var.c finds after a change of the table.
use ittrium.Common.{
  ◌-◌, ◌≡◌, ◌≢◌, ◌∙◌, ◌⊎◌, refl, sym, ap, Bool, true, false, ◌&&◌, not, Option, none, some,
  some_inj, List, [], ◌∷◌, Bool-cases, inl, inr,
}
use ittrium.Text.{Text, text_eq, text_eq_yes, text_eq_refl, cut}
use ittrium.Shell.Vars.{
  Slot, is_named, is_free, change_first, shell_var_set, shell_var_get, good_name, shell_var_val,
}

-- The table after a change is that of the first entry, or that of the rest.
change_first-cons :
    (p : Slot → Bool) (f : Slot → Slot) (v : Slot) (vs ws : List Slot)
    → change_first p f (v ∷ vs) ≡ some ws
    → ((p v ≡ true) × (ws ≡ f v ∷ vs))
      ⊎ ((p v ≡ false) × ((us : List Slot) × (change_first p f vs ≡ some us) × (ws ≡ v ∷ us)))
unfolding change_first
change_first-cons p f v vs ws e = elim (Bool-cases (p v)) [
  | inl m ↦
      let a : change_first p f (v ∷ vs) ≡ some (f v ∷ vs) = rw m refl in
      inl (m, sym (some_inj (sym a ∙ e)))
  | inr m ↦
      let a : change_first p f (v ∷ vs) ≡ push (change_first p f vs) = rw m refl in
      inr (m, push-some (change_first p f vs) (sym a ∙ e))
]
  where
    push : Option (List Slot) → Option (List Slot)
    push r = elim r [ none ↦ none | some us ↦ some (v ∷ us) ]

    push-some :
        (r : Option (List Slot))
        → push r ≡ some ws
        → (us : List Slot) × (r ≡ some us) × (ws ≡ v ∷ us)
    push-some none q = cc (q)
    push-some (some us) q = (us, refl, sym (some_inj q))

-- A change of the first entry with a name that keeps its name is what is found under the name.
get-change :
    (name x : Text) (f : Slot → Slot)
    → ((v : Slot) → is_named name v ≡ true → (is_named name (f v) ≡ true) × ((f v).val ≡ x))
    → (vs ws : List Slot) → change_first (is_named name) f vs ≡ some ws
    → shell_var_get name ws ≡ some x
unfolding shell_var_get change_first
get-change name x f keep [] ws e = cc (e)
get-change name x f keep (v ∷ vs) ws e = elim (change_first-cons (is_named name) f v vs ws e) [
  | inl (m, w) ↦ let (a, b) = keep v m in rw (w, a) (ap some b)
  | inr (m, (us, r, w)) ↦ rw (w, m) (get-change name x f keep vs us r)
]

-- An entry that takes the place of a free one is found if no entry had its name.
get-fill :
    (name : Text) (s : Slot)
    → is_named name s ≡ true
    → (vs ws : List Slot) → shell_var_get name vs ≡ none
    → change_first is_free (λ _. s) vs ≡ some ws
    → shell_var_get name ws ≡ some s.val
unfolding shell_var_get change_first
get-fill name s n [] ws g e = cc (e)
get-fill name s n (v ∷ vs) ws g e = elim (change_first-cons is_free (λ _. s) v vs ws e) [
  | inl (m, w) ↦ rw (w, n)
  | inr (m, (us, r, w)) ↦ elim (Bool-cases (is_named name v)) [
    | inl y ↦ let a : shell_var_get name (v ∷ vs) ≡ some v.val = rw y refl in cc (a, g)
    | inr y ↦
        let a : shell_var_get name (v ∷ vs) ≡ shell_var_get name vs = rw y refl in
        rw (w, y) (get-fill name s n vs us (sym a ∙ g) r)
  ]
]

-- No entry has a name that no change applies to.
get-none :
    (name : Text) (f : Slot → Slot) (vs : List Slot)
    → change_first (is_named name) f vs ≡ none
    → shell_var_get name vs ≡ none
unfolding shell_var_get change_first
get-none name f [] e = refl
get-none name f (v ∷ vs) e = elim (Bool-cases (is_named name v)) [
  | inl m ↦
      let a : change_first (is_named name) f (v ∷ vs) ≡ some (f v ∷ vs) = rw m refl in cc (a, e)
  | inr m ↦
      rw m (get-none name f vs (split (change_first (is_named name) f vs) (sym (rw m refl) ∙ e)))
]
  where
    split :
        (r : Option (List Slot))
        → elim r [ none ↦ none | some us ↦ some (v ∷ us) ] ≡ none
        → r ≡ none
    split none q = refl
    split (some us) q = cc (q)

-- A change that concerns no entry of another name is not seen under that name.
get-other :
    (name : Text) (p : Slot → Bool) (f : Slot → Slot)
    → ((v : Slot) → p v ≡ true → (is_named name v ≡ false) × (is_named name (f v) ≡ false))
    → (vs ws : List Slot) → change_first p f vs ≡ some ws
    → shell_var_get name ws ≡ shell_var_get name vs
unfolding shell_var_get change_first
get-other name p f off [] ws e = cc (e)
get-other name p f off (v ∷ vs) ws e = elim (change_first-cons p f v vs ws e) [
  | inl (m, w) ↦ let (a, b) = off v m in rw (w, a, b)
  | inr (m, (us, r, w)) ↦ let i = get-other name p f off vs us r in rw (w, i)
]

named_refl :
    (name val : Text) → is_named name (record { name = name; val = val; used = true }) ≡ true
named_refl name val = rw (text_eq_refl name)

named-other : (a b : Text) (v : Slot) → a ≢ b → is_named b v ≡ true → is_named a v ≡ false
named-other a b v n m = elim (Bool-cases (is_named a v)) [
  | inl e ↦
      let x = text_eq_yes v.name b (second v.used (text_eq v.name b) m) in
      let y = text_eq_yes v.name a (second v.used (text_eq v.name a) e) in absurd (n (sym y ∙ x))
  | inr e ↦ e
]
  where
    second : (x y : Bool) → x && y ≡ true → y ≡ true
    second true y q = q
    second false y q = cc (q)

free-other : (name : Text) (v : Slot) → is_free v ≡ true → is_named name v ≡ false
free-other name v e = go v.used (text_eq v.name name) e
  where
    go : (x y : Bool) → not x ≡ true → x && y ≡ false
    go false y q = refl
    go true y q = cc (q)

-- What shell_var_set leaves, by what the two searches find.
module _ (name val : Text) (vs : List Slot) where
  abbrev stored : Text
  stored = cut (shell_var_val - 1) val

  abbrev kept : Option (List Slot)
  kept = change_first (is_named name) (λ s. record s { val = stored }) vs

  abbrev filled : Option (List Slot)
  filled = change_first is_free (λ _. record { name = name; val = stored; used = true }) vs

  placed : (a b : Option (List Slot)) → List Slot × Bool
  placed a b = elim a [
    | some ws ↦ (ws, true)
    | none ↦ elim b [ some ws ↦ (ws, true) | none ↦ (vs, false) ]
  ]

  set-placed : (shell_var_set name val vs).1 ≡ true → shell_var_set name val vs ≡ placed kept filled
  unfolding shell_var_set placed
  set-placed e = elim (Bool-cases (good_name name)) [
    | inl g ↦ rw g
    | inr g ↦ let a : shell_var_set name val vs ≡ (vs, false) = rw g refl in cc (ap (λ r. r.1) a, e)
  ]

  -- After a shell_var_set that returns 0, shell_var_get of that name finds the value, cut to the
  -- size of an entry.
  pub shell_var_set-get :
      (shell_var_set name val vs).1 ≡ true
      → shell_var_get name (shell_var_set name val vs).0 ≡ some (cut (shell_var_val - 1) val)
  unfolding placed
  shell_var_set-get e =
      rw (set-placed e) (go kept filled refl refl (sym (ap (λ r. r.1) (set-placed e)) ∙ e))
    where
      go :
          (a b : Option (List Slot))
          → kept ≡ a
          → filled ≡ b
          → (placed a b).1 ≡ true
          → shell_var_get name (placed a b).0 ≡ some stored
      go (some ws) b p q r =
          get-change name stored (λ s. record s { val = stored }) (λ v m. (m, refl)) vs ws p
      go none (some ws) p q r =
          get-fill name (record { name = name; val = stored; used = true }) (named_refl name stored)
            vs ws (get-none name (λ s. record s { val = stored }) vs p) q
      go none none p q r = cc (r)

  -- After any shell_var_set, shell_var_get of another name finds what it found before.
  pub shell_var_set-get_other :
      (other : Text)
      → other ≢ name
      → shell_var_get other (shell_var_set name val vs).0 ≡ shell_var_get other vs
  unfolding shell_var_set placed
  shell_var_set-get_other other n = elim (Bool-cases (good_name name)) [
    | inl g ↦ rw g (go kept filled refl refl)
    | inr g ↦ rw g
  ]
    where
      go :
          (a b : Option (List Slot))
          → kept ≡ a
          → filled ≡ b
          → shell_var_get other (placed a b).0 ≡ shell_var_get other vs
      go (some ws) b p q =
          get-other other (is_named name) (λ s. record s { val = stored })
            (λ v m. (named-other other name v n m, named-other other name v n m)) vs ws p
      go none (some ws) p q =
          let s : Slot = record { name = name; val = stored; used = true } in
          get-other other is_free (λ _. s)
            (λ v m. (free-other other v m, named-other other name s n (named_refl name stored))) vs
            ws q
      go none none p q = refl
