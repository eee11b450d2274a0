-- ===== src/Elf/Kill.antt =====
-- What elf_run of services/elf/elf_load.c notes of a module, and what elf_kill gives back.
use ittrium.Common.{
  ℕ, ◌<◌, ◌≡◌, ◌≢◌, ◌∙◌, sym, ap, refl, arith, Bool, true, false, ◌&&◌, not, none, some, List, ◌∷◌,
  ◌==◌, put, if◌then◌else◌, Bool-cases, Option-cases, inl, inr, subst,
}
use ittrium.Common.Int.{ℤ, pos, negsuc, ltb_ℤ}
use ittrium.Common.Table.{find_slot, find_slot-some, find_slot-none, find_slot-first}
use ittrium.Text.{Text}
use ittrium.Types.{Config, Kernel, ErId, err, new_id, e_ok, e_noid}
use ittrium.Manage.{TCtsk, is_self, cre_tsk, acre_tsk, act_tsk, del_tsk}
use ittrium.Elf.Files.{ElfImage, Blocks}
use ittrium.Elf.Loader.{elf_load}
use ittrium.Elf.Modules.{
  ElfMod, ElfState, elf_unload, mod_free_slot, code_of, is_ok, is_noexs, has_id, elf_modules_max,
  mod_find, mod_alloc, undo, start_module, create_module, run_image, elf_run, elf_kill, packet,
  no_mod,
}

-- What elf_run notes of a module.
abbrev pub noted : ℤ → ElfImage → ℕ → Bool → ElfMod
noted id img stack owned = record {
  tskid = id;
  img = record img { owned = true };
  stack = stack;
  stack_owned = owned;
  used = true;
}

has_id-noted :
    (id : ℤ) (img : ElfImage) (stack : ℕ) (owned : Bool)
    → has_id id (noted id img stack owned) ≡ true
has_id-noted (pos n) img stack owned = ground arith
has_id-noted (negsuc n) img stack owned = ground arith

free-noted :
    (id : ℤ) (img : ElfImage) (stack : ℕ) (freed : List ℕ)
    → img.base ≢ 0
    → mod_free_slot (noted id img stack false) freed ≡ (img.base ∷ freed, no_mod)
unfolding mod_free_slot elf_unload
free-noted id img stack freed n =
    let given : img.base == 0 ≡ false = ground (arith, n) in rw given refl

module _ {W : Type 0} ⦃c : Config⦄ where
  -- A module that runs: its slot was free, and holds the task, the image as one that elf_kill frees,
  -- and the stack; the other slots are as before and nothing was freed.
  pub record IsStarted (id : ℤ) (img : ElfImage) (stack : ℕ) (owned : Bool) (s s' : ElfState W)
      : Type 0 where
    pub j : ℕ
    pub free_slot : mod_alloc s.mods ≡ some j
    pub table : s'.mods ≡ put s.mods j (noted id img stack owned)
    pub freed : s'.freed ≡ s.freed

  start_module-IsStarted :
      (j stack : ℕ) (owned : Bool) (img : ElfImage) (id id' : ℤ) (s0 s s' : ElfState W)
      → mod_alloc s0.mods ≡ some j
      → s.mods ≡ s0.mods
      → s.freed ≡ s0.freed
      → start_module j owned stack img id s ≡ (s', new_id id')
      → IsStarted id' img stack owned s0 s'
  unfolding start_module
  start_module-IsStarted j stack owned img id id' s0 s s' a t f q =
      elim (Bool-cases (is_ok (code_of (act_tsk id s.kernel).1))) [
        | inr bad ↦ cc (rw (bad, start_module) at q)
        | inl ok ↦
            let e = rw (ok, start_module) at q in
            let state = ap (λ p. p.0) e in
            let same : new_id id ≡ new_id id' = ap (λ p. p.1) e in
            subst (λ x. IsStarted x img stack owned s0 s') (new_id_inj same)
              (record {
                j = j;
                free_slot = a;
                table =
                    sym (ap (λ (x : ElfState W). x.mods) state)
                    ∙ ap (λ m. put m j (noted id img stack owned)) t;
                freed = sym (ap (λ (x : ElfState W). x.freed) state) ∙ f;
              })
      ]
    where
      new_id_inj : {a b : ℤ} → new_id a ≡ new_id b → a ≡ b
      new_id_inj e = cc (e)

  create_module-IsStarted :
      (j stack : ℕ) (owned : Bool) (img : ElfImage) (id id' : ℤ) (pk : TCtsk) (s s' : ElfState W)
      → mod_alloc s.mods ≡ some j
      → create_module j owned stack img id pk s ≡ (s', new_id id')
      → IsStarted id' img stack owned s s'
  unfolding create_module
  create_module-IsStarted j stack owned img id id' pk s s' a q = elim (Bool-cases (is_self id)) [
    | inl self ↦
        acre ((acre_tsk pk s.kernel).0) ((acre_tsk pk s.kernel).1) (rw (self, create_module) at q)
    | inr given ↦ elim (Bool-cases (is_ok (cre_tsk id pk s.kernel).1)) [
      | inr bad ↦ cc (rw (given, bad, create_module) at q)
      | inl ok ↦
          start_module-IsStarted j stack owned img id id' s
            (record s { kernel = (cre_tsk id pk s.kernel).0 }) s' a refl refl
            (rw (given, ok, create_module) at q)
    ]
  ]
    where
      acre :
          (k : Kernel) (r : ErId)
          → elim r as (λ _. ElfState W × ErId) [
            | err e ↦ undo owned stack img e (record s { kernel = k })
            | new_id i ↦
                if ltb_ℤ (pos 0) i
                then start_module j owned stack img i (record s { kernel = k })
                else undo owned stack img e_noid (record s { kernel = k })
          ]
            ≡ (s', new_id id')
          → IsStarted id' img stack owned s s'
      acre k (err e) q = cc (q)
      acre k (new_id i) q = elim (Bool-cases (ltb_ℤ (pos 0) i)) [
        | inr bad ↦ cc (rw bad at q)
        | inl ok ↦
            start_module-IsStarted j stack owned img i id' s (record s { kernel = k }) s' a refl
              refl (rw ok at q)
      ]

  run_image-IsStarted :
      (h : Blocks) (path : Text) (img : ElfImage) (tskid id pri : ℤ) (stack stksz : ℕ)
      (s s' : ElfState W)
      → stack ≢ 0
      → run_image h path img tskid stack stksz pri s ≡ (s', new_id id)
      → IsStarted id img stack false s s'
  unfolding run_image
  run_image-IsStarted h path img tskid id pri stack stksz s s' n q =
      elim (Option-cases (mod_alloc s.mods)) [
        | inl e ↦ cc (rw (e, run_image) at q)
        | inr (j, e) ↦
            let given : stack == 0 ≡ false = ground (arith, n) in
            create_module-IsStarted j stack false img tskid id (packet path img stack stksz pri) s
              s' e (rw (e, given, run_image) at q)
      ]

  -- An elf_run with a stack of the caller that succeeds notes the image that elf_load gives.
  elf_run-IsStarted :
      (h : Blocks) (path : Text) (tskid id pri : ℤ) (stack stksz : ℕ) (s s' : ElfState W)
      → stack ≢ 0
      → elf_run h path tskid stack stksz pri s ≡ (s', new_id id)
      → IsStarted id (elf_load h path s.vfs s.mem).1.2 stack false s s'
  unfolding elf_run
  elf_run-IsStarted h path tskid id pri stack stksz s s' n q = elim (Bool-cases (stksz == 0)) [
    | inl e ↦ cc (rw (e, elf_run) at q)
    | inr some_size ↦ elim (Bool-cases ((elf_load h path s.vfs s.mem).1.1)) [
      | inr e ↦ cc (rw (some_size, e, elf_run) at q)
      | inl ok ↦
          let l = elf_load h path s.vfs s.mem in
          let t =
            run_image-IsStarted h path l.1.2 tskid id pri stack stksz
              (record s { vfs = l.0; mem = l.1.0 }) s' n (rw (some_size, ok, elf_run) at q) in
          record { j = t.j; free_slot = t.free_slot; table = t.table; freed = t.freed }
    ]
  ]

  -- The slot of a module is the one that mod_find finds, if none had its ID before.
  IsStarted-mod_find :
      (id : ℤ) (img : ElfImage) (stack : ℕ) (owned : Bool) (s s' : ElfState W)
      (t : IsStarted id img stack owned s s')
      → mod_find id s.mods ≡ none
      → mod_find id s'.mods ≡ some t.j
  unfolding mod_find mod_alloc
  IsStarted-mod_find id img stack owned s s' t n =
      let (_, below) =
        find_slot-some (λ (m : ElfMod). not m.used) elf_modules_max t.j s.mods t.free_slot in
      let m = noted id img stack owned in
      ap (find_slot (has_id id) elf_modules_max) t.table
      ∙ find_slot-first (has_id id) elf_modules_max t.j (put s.mods t.j m)
          (record {
            holds = rw (put-here s.mods t.j m) (has_id-noted id img stack owned);
            from = omega arith;
            before = λ k _ less.
                let old : has_id id (s.mods k) ≡ false =
                  find_slot-none (has_id id) elf_modules_max s.mods n k
                    (lt-trans k t.j elf_modules_max less below) in
                rw (put-there s.mods t.j k m less) old;
          })
          below
    where
      put-here : (t : ℕ → ElfMod) (i : ℕ) (e : ElfMod) → put t i e i ≡ e
      put-here t i e = ground arith

      put-there : (t : ℕ → ElfMod) (i k : ℕ) (e : ElfMod) → k < i → put t i e k ≡ t k
      put-there t i k e l = ground arith

      lt-trans : (a b d : ℕ) → a < b → b < d → a < d
      lt-trans a b d l m = omega arith

  kill-frees :
      (id : ℤ) (j : ℕ) (img : ElfImage) (stack : ℕ) (s s' : ElfState W)
      → mod_find id s.mods ≡ some j
      → s.mods j ≡ noted id img stack false
      → img.base ≢ 0
      → elf_kill id s ≡ (s', e_ok)
      → (s'.freed ≡ img.base ∷ s.freed) × ((s'.mods j).used ≡ false)
  unfolding elf_kill
  kill-frees id j img stack s s' f m b q = elim (Bool-cases (ltb_ℤ id (pos 1))) [
    | inl e ↦ cc (rw (e, elf_kill) at q)
    | inr valid ↦
        let e = code_of (del_tsk id s.kernel).1 in
        elim (Bool-cases (not (is_ok e) && not (is_noexs e))) [
          | inl bad ↦
              let z : e ≡ e_ok = ap (λ p. p.1) (rw (valid, f, bad, elf_kill) at q) in
              cc (subst (λ x. not (is_ok x) && not (is_noexs x) ≡ true) z bad)
          | inr gone ↦
              let r = rw (valid, f, gone, elf_kill) at q in
              let state = ap (λ p. p.0) r in
              let free : mod_free_slot (s.mods j) s.freed ≡ (img.base ∷ s.freed, no_mod) =
                ap (λ x. mod_free_slot x s.freed) m ∙ free-noted id img stack s.freed b in
              (
                sym (ap (λ (x : ElfState W). x.freed) state) ∙ ap (λ p. p.0) free,
                sym (ap (λ (x : ElfState W). (x.mods j).used) state)
                    ∙ put-used s.mods j (mod_free_slot (s.mods j) s.freed).1
                    ∙ ap (λ p. p.1.used) free,
              )
        ]
  ]
    where
      put-used : (t : ℕ → ElfMod) (i : ℕ) (e : ElfMod) → (put t i e i).used ≡ e.used
      put-used t i e = ground arith

  -- If elf_run with a stack of the caller succeeds with an ID that no module had, and elf_kill of
  -- that ID succeeds later in a state with the same modules, it frees the base address of the
  -- loaded image, which is not 0, whether or not the loader has allocated it, and frees nothing
  -- else.
  pub elf_run-elf_kill :
      (h : Blocks) (path : Text) (tskid id pri : ℤ) (stack stksz : ℕ) (s s1 s2 s3 : ElfState W)
      → stack ≢ 0
      → elf_run h path tskid stack stksz pri s ≡ (s1, new_id id)
      → mod_find id s.mods ≡ none
      → s2.mods ≡ s1.mods
      → (elf_load h path s.vfs s.mem).1.2.base ≢ 0
      → elf_kill id s2 ≡ (s3, e_ok)
      → s3.freed ≡ (elf_load h path s.vfs s.mem).1.2.base ∷ s2.freed
  elf_run-elf_kill h path tskid id pri stack stksz s s1 s2 s3 n run none_had same b kill =
      let img = (elf_load h path s.vfs s.mem).1.2 in
      let t = elf_run-IsStarted h path tskid id pri stack stksz s s1 n run in
      let found = ap (mod_find id) same ∙ IsStarted-mod_find id img stack false s s1 t none_had in
      let slot : s2.mods t.j ≡ noted id img stack false =
        ap (λ m. m t.j) same
        ∙ ap (λ m. m t.j) t.table
        ∙ put-here s.mods t.j (noted id img stack false) in
      (kill-frees id t.j img stack s2 s3 found slot b kill).0
    where
      put-here : (t : ℕ → ElfMod) (i : ℕ) (e : ElfMod) → put t i e i ≡ e
      put-here t i e = ground arith
