-- ===== src/Elf/Relocation.antt =====
-- services/elf/elf_load.c: apply_relocs and the part of load_elf that reads the dynamic segment.
use ittrium.Common.{
  ℕ, zero, suc, ◌+◌, ◌-◌, ◌/◌, ◌%◌, ◌^◌, Bool, true, false, ◌&&◌, ◌||◌, not, Option, none, some,
  ltb, leb, ◌==◌, if◌then◌else◌,
}
use ittrium.FileOps.{Bytes}
use ittrium.Elf.Headers.{add64, sub64, le, Rela, rela_at, st_value, store64}

-- The symbol table that apply_relocs is given: its address and the number of symbols.
pub record Symbols : Type 0 where
  pub symtab : ℕ
  pub nsym : ℕ

-- The test on the place of a relocation.
abbrev pub bad_place : ℕ → ℕ → ℕ → Bool
bad_place off min_v span = ltb off min_v || ltb span (add64 (off - min_v) 8)

-- The value of a relocation, `none` if it is refused.
unfoldable pub reloc_value : ℕ → Option Symbols → Rela → Bytes → Option ℕ
reloc_value slide syms r m =
    let type = r.r_info % 2 ^ 32 in
    let si = r.r_info / 2 ^ 32 in
    if type == 1027
    then some (add64 slide r.r_addend)
    else if type == 257
    then elim syms [
      | none ↦ none
      | some s ↦
          if leb s.nsym si
          then none
          else some (add64 (add64 slide (st_value m s.symtab si)) r.r_addend)
    ]
    else none

-- The loop of apply_relocs over the `n` entries from `i` on of the table at `rela`.
unfoldable pub apply_relocs : ℕ → ℕ → ℕ → ℕ → ℕ → ℕ → ℕ → Option Symbols → Bytes → Bytes × Bool
apply_relocs zero i img min_v span slide rela syms m = (m, true)
apply_relocs (suc n) i img min_v span slide rela syms m =
    let r = rela_at m rela i in
    if bad_place r.r_offset min_v span then (m, false) else elim (reloc_value slide syms r m) [
      | none ↦ (m, false)
      | some x ↦
          apply_relocs n (suc i) img min_v span slide rela syms
            (store64 (add64 img (r.r_offset - min_v)) x m)
    ]

pub record Dynamic : Type 0 where
  pub rela : ℕ
  pub relasz : ℕ
  pub relaent : ℕ
  pub symtab_va : ℕ
  pub syment : ℕ

-- The loop over the dynamic entries from the address `a` on. It ends at DT_NULL; `fuel` entries are
-- read at most.
unfoldable pub read_dynamic : ℕ → ℕ → Bytes → Dynamic → Dynamic
read_dynamic zero a m d = d
read_dynamic (suc fuel) a m d =
    let tag = le 8 m a in
    let x = le 8 m (a + 8) in
    elim (tag == 0) [
      | true ↦ d
      | false ↦ read_dynamic fuel (a + 16) m (
          if tag == 7
          then record d { rela = x }
          else if tag == 8
          then record d { relasz = x }
          else if tag == 9
          then record d { relaent = x }
          else if tag == 6
          then record d { symtab_va = x }
          else if tag == 11
          then record d { syment = x }
          else d)
    ]

abbrev at_most_256 : ℕ → ℕ
at_most_256 n = if ltb 256 n then 256 else n

unfoldable pub symbols_of : Dynamic → ℕ → ℕ → ℕ → Option Symbols
symbols_of d img min_v span =
    if not (d.symtab_va == 0)
      && d.syment == 24
      && leb min_v d.symtab_va
      && ltb (d.symtab_va - min_v) span
    then some (record {
      symtab = img + (d.symtab_va - min_v);
      nsym = at_most_256 ((span - (d.symtab_va - min_v)) / 24);
    })
    else none

-- The relocations of an image with a dynamic segment.
unfoldable pub relocate : ℕ → ℕ → ℕ → ℕ → ℕ → Bytes → Bytes × Bool
relocate fuel dyn_vaddr img min_v span m =
    let d0 : Dynamic = record { rela = 0; relasz = 0; relaent = 24; symtab_va = 0; syment = 24 } in
    let d = read_dynamic fuel (add64 img (sub64 dyn_vaddr min_v)) m d0 in
    if not (d.rela == 0) && not (d.relasz == 0) && not (d.relaent == 0)
    then apply_relocs (d.relasz / d.relaent) 0 img min_v span (sub64 img min_v)
        (add64 img (sub64 d.rela min_v)) (symbols_of d img min_v span) m
    else (m, true)
