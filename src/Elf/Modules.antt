-- ===== src/Elf/Modules.antt =====
-- elf_unload, elf_run, elf_kill and the table of modules of services/elf/elf_load.c. What other tasks do
-- between a dispatch in act_tsk or del_tsk and the return to the caller is not part of the call.
use ittrium.Common.{
  ℕ, Bool, true, false, ◌&&◌, not, Option, none, some, List, [], ◌∷◌, ltb, ◌==◌, put, if◌then◌else◌,
}
use ittrium.Common.Int.{ℤ, pos, ltb_ℤ}
use ittrium.Common.Table.{find_slot}
use ittrium.Text.{Text}
use ittrium.FileOps.{Bytes}
use ittrium.Vfs.{Vfs}
use ittrium.Types.{
  Config, Kernel, Er, ErId, err, new_id, e_ok, e_par, e_id, e_noid, e_nomem, e_noexs,
}
use ittrium.Dispatch.{Outcome, ret, ercd_later}
use ittrium.Manage.{TCtsk, is_self, cre_tsk, acre_tsk, act_tsk, del_tsk}
use ittrium.Elf.Files.{ElfImage, no_image, Blocks}
use ittrium.Elf.Loader.{elf_load}

-- `struct elf_mod`; the ID 0 and the address 0 stand for none.
pub record ElfMod : Type 0 where
  pub tskid : ℤ
  pub img : ElfImage
  pub stack : ℕ
  pub stack_owned : Bool
  pub used : Bool

-- `freed` lists the addresses that were given to `free`, the last one first.
pub record ElfState (W : Type 0) : Type 0 where
  pub vfs : Vfs W
  pub mem : Bytes
  pub kernel : Kernel
  pub mods : ℕ → ElfMod
  pub freed : List ℕ

unfoldable pub elf_unload : ElfImage → List ℕ → List ℕ × ElfImage
elf_unload img freed =
    (if img.owned && not (img.base == 0) then img.base ∷ freed else freed, no_image)

abbrev pub free_stack : Bool → ℕ → List ℕ → List ℕ
free_stack owned stack freed = if owned then stack ∷ freed else freed

-- `for (p = path; *p; p++) if (*p == '/') base = p + 1;`
unfoldable pub base_name : Text → Text → Text
base_name base [] = base
base_name base (ch ∷ p) = base_name (if ch == 47 then p else base) p

abbrev pub no_mod : ElfMod
no_mod = record { tskid = pos 0; img = no_image; stack = 0; stack_owned = false; used = false }

-- mod_free_slot, without the block that is free.
unfoldable pub mod_free_slot : ElfMod → List ℕ → List ℕ × ElfMod
mod_free_slot m freed =
    let (freed1, _) = elf_unload m.img freed in
    (if m.stack_owned && not (m.stack == 0) then m.stack ∷ freed1 else freed1, no_mod)

-- The code of act_tsk and del_tsk, which never return `ercd_later`.
abbrev pub code_of : Outcome → Er
code_of (ret e) = e
code_of ercd_later = e_ok

abbrev pub is_ok : Er → Bool
is_ok Er.e_ok = true
is_ok _ = false

abbrev pub is_noexs : Er → Bool
is_noexs Er.e_noexs = true
is_noexs _ = false

abbrev pub has_id : ℤ → ElfMod → Bool
has_id id m = m.used && not (ltb_ℤ m.tskid id) && not (ltb_ℤ id m.tskid)

abbrev pub packet : Text → ElfImage → ℕ → ℕ → ℤ → TCtsk
packet path img stack stksz pri = record {
  tskatr = 32768;
  exinf = 0;
  task = img.entry;
  itskpri = pri;
  stksz = stksz;
  stk = stack;
  name = some (base_name path path);
}

module _ ⦃c : Config⦄ where
  abbrev pub elf_modules_max : ℕ
  elf_modules_max = if ltb 0 c.trsv_tskid then c.trsv_tskid else 4

  unfoldable pub mod_find : ℤ → (ℕ → ElfMod) → Option ℕ
  mod_find tskid t = find_slot (has_id tskid) elf_modules_max t

  unfoldable pub mod_alloc : (ℕ → ElfMod) → Option ℕ
  mod_alloc t = find_slot (λ (m : ElfMod). not m.used) elf_modules_max t

module _ {W : Type 0} ⦃c : Config⦄ where
  -- What elf_run does where the task cannot be created or started.
  abbrev pub undo : Bool → ℕ → ElfImage → Er → ElfState W → ElfState W × ErId
  undo owned stack img e s =
      (record s { freed = (elf_unload img (free_stack owned stack s.freed)).0 }, err e)

  -- The task is created; it is started, and the module noted in slot `j`.
  unfoldable pub start_module : ℕ → Bool → ℕ → ElfImage → ℤ → ElfState W → ElfState W × ErId
  unfolding elf_unload
  start_module j owned stack img id s =
      let (k, o) = act_tsk id s.kernel in
      if is_ok (code_of o)
      then (
        record s {
          kernel = k;
          mods = put s.mods j (record {
            tskid = id;
            img = record img { owned = true };
            stack = stack;
            stack_owned = owned;
            used = true;
          });
        },
        new_id id,
      )
      else undo owned stack img (code_of o) (record s { kernel = (del_tsk id k).0 })

  -- elf_run with an image, a slot and a stack.
  unfoldable pub create_module :
      ℕ → Bool → ℕ → ElfImage → ℤ → TCtsk → ElfState W → ElfState W × ErId
  unfolding elf_unload
  create_module j owned stack img tskid pk s =
      if is_self tskid
      then (let (k, id) = acre_tsk pk s.kernel in
          elim id [
            | err e ↦ undo owned stack img e (record s { kernel = k })
            | new_id i ↦
                if ltb_ℤ (pos 0) i
                then start_module j owned stack img i (record s { kernel = k })
                else undo owned stack img e_noid (record s { kernel = k })
          ])
      else (let (k, e) = cre_tsk tskid pk s.kernel in
          if is_ok e
          then start_module j owned stack img tskid (record s { kernel = k })
          else undo owned stack img e (record s { kernel = k }))

  -- elf_run with an image.
  unfoldable pub run_image :
      Blocks → Text → ElfImage → ℤ → ℕ → ℕ → ℤ → ElfState W → ElfState W × ErId
  unfolding elf_unload base_name
  run_image h path img tskid stack stksz pri s = elim (mod_alloc s.mods) [
    | none ↦ (record s { freed = (elf_unload img s.freed).0 }, err e_noid)
    | some j ↦
        if not (stack == 0)
        then create_module j false stack img tskid (packet path img stack stksz pri) s
        else elim (h.malloc stksz) [
          | none ↦ (record s { freed = (elf_unload img s.freed).0 }, err e_nomem)
          | some a ↦ create_module j true a img tskid (packet path img a stksz pri) s
        ]
  ]

  -- A null pointer for the path is not given; the address 0 is the null pointer for the stack.
  unfoldable pub elf_run : Blocks → Text → ℤ → ℕ → ℕ → ℤ → ElfState W → ElfState W × ErId
  elf_run h path tskid stack stksz pri s =
      if stksz == 0
      then (s, err e_par)
      else (let (v, (m, ok, img)) = elf_load h path s.vfs s.mem in
          let s1 : ElfState W = record s { vfs = v; mem = m } in
          if ok then run_image h path img tskid stack stksz pri s1 else (s1, err e_par))

  unfoldable pub elf_kill : ℤ → ElfState W → ElfState W × Er
  unfolding mod_free_slot elf_unload
  elf_kill tskid s = if ltb_ℤ tskid (pos 1) then (s, e_id) else elim (mod_find tskid s.mods) [
    | none ↦ (s, e_noexs)
    | some j ↦
        let (k, o) = del_tsk tskid s.kernel in
        let e = code_of o in
        if not (is_ok e) && not (is_noexs e)
        then (record s { kernel = k }, e)
        else (let (freed, m) = mod_free_slot (s.mods j) s.freed in
            (record s { kernel = k; mods = put s.mods j m; freed = freed }, e_ok))
  ]
