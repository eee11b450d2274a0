-- ===== src/Elf/Loader.antt =====
-- services/elf/elf_load.c: load_elf and elf_load. A call that returns 0 is `true` here and one that
-- returns -1 `false`.
use ittrium.Common.{
  ℕ, zero, suc, ◌+◌, ◌-◌, ◌*◌, ◌^◌, Bool, true, false, ◌&&◌, ◌||◌, not, Option, none, some, List,
  length, ltb, leb, ◌==◌, if◌then◌else◌,
}
use ittrium.Text.{Text}
use ittrium.FileOps.{Bytes, item, is_some}
use ittrium.Vfs.{Vfs}
use ittrium.Elf.Headers.{add64, sub64, le, Ehdr, ehdr_at, good_ident, Phdr, phdr_at, clear, copy_in}
use ittrium.Elf.Files.{ElfImage, Blocks, itrm_magic, Loaded, refused, load_file, load_itrm}
use ittrium.Elf.Relocation.{relocate}

abbrev pub elf_load_base : ℕ
elf_load_base = 1075838976

abbrev pub elf_load_size : ℕ
elf_load_size = 524288

abbrev pub pt_load : ℕ
pt_load = 1

unfoldable pub in_exec_window : ℕ → ℕ → Bool
in_exec_window vaddr memsz =
    if ltb vaddr elf_load_base
    then false
    else if ltb (elf_load_base + elf_load_size) (add64 vaddr memsz)
    then false
    else true

-- What the first loop of load_elf has seen of the segments.
pub record Scan : Type 0 where
  pub min_v : ℕ
  pub max_v : ℕ
  pub dyn_vaddr : Option ℕ

abbrev pub is_load : Phdr → Bool
is_load p = p.p_type == pt_load

unfoldable pub scan_segment : Phdr → Scan → Scan
scan_segment p s =
    let s1 : Scan = if p.p_type == 2 then record s { dyn_vaddr = some p.p_vaddr } else s in
    let end = add64 p.p_vaddr p.p_memsz in
    if not (is_load p) then s1 else record s1 {
      min_v = if ltb p.p_vaddr s1.min_v then p.p_vaddr else s1.min_v;
      max_v = if ltb s1.max_v end then end else s1.max_v;
    }

unfoldable pub scan_segments : ℕ → ℕ → Bytes → ℕ → Scan → Scan
scan_segments zero i file phoff s = s
scan_segments (suc n) i file phoff s =
    scan_segments n (suc i) file phoff (scan_segment (phdr_at file phoff i) s)

unfoldable pub all_in_window : ℕ → ℕ → Bytes → ℕ → Bool
all_in_window zero i file phoff = true
all_in_window (suc n) i file phoff =
    let p = phdr_at file phoff i in
    let rest = all_in_window n (suc i) file phoff in
    if is_load p && not (in_exec_window p.p_vaddr p.p_memsz) then false else rest

-- One segment: its memory is cleared first if `wipe` is set. The flag tells of success.
unfoldable pub load_segment : Bool → ℕ → Phdr → Bytes → ℕ → Bytes → Bytes × Bool
load_segment wipe dst p file fsz m =
    let m1 = if wipe then clear dst p.p_memsz m else m in
    if p.p_filesz == 0
    then (m1, true)
    else if ltb fsz (add64 p.p_offset p.p_filesz)
    then (m1, false)
    else (copy_in dst p.p_filesz file p.p_offset m1, true)

unfoldable pub load_one : Bool → (ℕ → ℕ) → Phdr → Bytes → ℕ → Bytes → Bytes × Bool
load_one wipe move p file fsz m =
    if is_load p then load_segment wipe (move p.p_vaddr) p file fsz m else (m, true)

-- The loops that load the segments, at their addresses moved by `move`.
unfoldable pub load_segments : ℕ → ℕ → Bool → (ℕ → ℕ) → Bytes → ℕ → ℕ → Bytes → Bytes × Bool
load_segments zero i wipe move file fsz phoff m = (m, true)
load_segments (suc n) i wipe move file fsz phoff m =
    let done = load_one wipe move (phdr_at file phoff i) file fsz m in
    elim (done.1) [
      | false ↦ (done.0, false)
      | true ↦ load_segments n (suc i) wipe move file fsz phoff done.0
    ]

-- The image at its own addresses.
unfoldable pub place_fixed : Ehdr → Scan → Bytes → ℕ → Bytes → Loaded
place_fixed eh s file fsz m =
    let (m1, ok) = load_segments eh.e_phnum 0 true (λ a. a) file fsz eh.e_phoff m in
    if ok
    then (
      m1,
      true,
      record { base = s.min_v; size = s.max_v - s.min_v; entry = eh.e_entry; owned = false },
    )
    else refused m1

-- The image in the block at `img`. The dynamic table has 2 ^ 12 entries at most.
unfoldable pub place_moved : ℕ → Ehdr → Scan → Bytes → ℕ → Bytes → Loaded
place_moved img eh s file fsz m =
    let span = s.max_v - s.min_v in
    let (m1, ok) =
      load_segments eh.e_phnum 0 false (λ a. add64 img (sub64 a s.min_v)) file fsz eh.e_phoff
        (clear img span m) in
    let image : ElfImage = record {
      base = img;
      size = span;
      entry = add64 eh.e_entry (sub64 img s.min_v);
      owned = true;
    } in
    elim ok [
      | false ↦ refused m1
      | true ↦ elim (s.dyn_vaddr) [
        | none ↦ if eh.e_type == 3 then refused m1 else (m1, true, image)
        | some a ↦
            let (m2, done) = relocate 4096 a img s.min_v span m1 in
            if done then (m2, true, image) else refused m2
      ]
    ]

-- load_elf behind its scan of the segments.
unfoldable pub place_elf : Blocks → Ehdr → Scan → Bytes → ℕ → Bytes → Loaded
place_elf h eh s file fsz m =
    let span = s.max_v - s.min_v in
    if not (eh.e_type == 3 || is_some s.dyn_vaddr) && all_in_window eh.e_phnum 0 file eh.e_phoff
    then place_fixed eh s file fsz m
    else elim (h.memalign (if span == 0 then 16 else span)) [
      | none ↦ refused m
      | some img ↦ place_moved img eh s file fsz m
    ]

unfoldable pub load_elf : Blocks → Bytes → ℕ → Bytes → Loaded
load_elf h file fsz m =
    let eh = ehdr_at file in
    if ltb fsz 64 || not (good_ident file) || not (eh.e_machine == 183)
    then refused m
    else if not (eh.e_type == 2) && not (eh.e_type == 3)
    then refused m
    else if ltb fsz (add64 eh.e_phoff (eh.e_phnum * eh.e_phentsize))
    then refused m
    else let s =
        scan_segments eh.e_phnum 0 file eh.e_phoff
          (record { min_v = 2 ^ 64 - 1; max_v = 0; dyn_vaddr = none }) in
      if ltb s.max_v s.min_v then refused m else place_elf h eh s file fsz m

-- The choice of the format.
unfoldable pub load_bytes : Blocks → List ℕ → Bytes → Loaded
load_bytes h bytes m =
    let file = item bytes in
    let fsz = length bytes in
    if leb 12 fsz && le 4 file 0 == itrm_magic
    then load_itrm h file fsz m
    else load_elf h file fsz m

-- A null pointer for the path is not given.
unfoldable pub elf_load : {W : Type 0} → Blocks → Text → Vfs W → Bytes → Vfs W × Loaded
elf_load h path v m =
    let (v1, buf) = load_file h path v in
    elim buf [ none ↦ (v1, refused m) | some bytes ↦ (v1, load_bytes h bytes m) ]
