-- ===== src/Elf/Files.antt =====
-- services/elf/elf_load.c: elf_image, the reading of a file with read_all and load_file, and load_itrm,
-- on any file system. A call that returns 0 is `true` here and one that returns -1 `false`.
use ittrium.Common.{
  ℕ, zero, suc, ◌+◌, ◌-◌, Bool, true, false, ◌||◌, not, Option, none, some, List, [], ◌++◌, ltb,
  leb, ◌==◌, if◌then◌else◌,
}
use ittrium.Common.Int.{ℤ, pos, negsuc}
use ittrium.Text.{Text}
use ittrium.FileOps.{Bytes, vfs_type_reg}
use ittrium.Vfs.{Vfs, vfs_stat, vfs_open, vfs_read, vfs_close}
use ittrium.Elf.Headers.{le, copy_in}

-- `struct elf_image`
pub record ElfImage : Type 0 where
  pub base : ℕ
  pub size : ℕ
  pub entry : ℕ
  pub owned : Bool

abbrev pub no_image : ElfImage
no_image = record { base = 0; size = 0; entry = 0; owned = false }

-- The heap: the address of a new block of a size, and of one on a page boundary.
pub record Blocks : Type 0 where
  pub malloc : ℕ → Option ℕ
  pub memalign : ℕ → Option ℕ

abbrev pub itrm_magic : ℕ
itrm_magic = 1297241161

-- Memory, whether the call succeeded, and the image that it made.
abbrev pub Loaded : Type 0
Loaded = Bytes × Bool × ElfImage

abbrev pub refused : Bytes → Loaded
refused m = (m, false, no_image)

module _ {W : Type 0} where
  -- The loop of read_all; each round reads one byte at least.
  unfoldable pub read_all : ℕ → ℤ → ℕ → Vfs W → Vfs W × Option (List ℕ)
  read_all fuel fd zero v = (v, some [])
  read_all zero fd (suc n) v = (v, none)
  read_all (suc fuel) fd (suc n) v =
      let (v1, rc, buf) = vfs_read fd (suc n) v in
      elim rc [
        | negsuc e ↦ (v1, none)
        | pos zero ↦ (v1, none)
        | pos (suc r) ↦
            let (v2, rest) = read_all fuel fd (n - r) v1 in
            elim rest [ none ↦ (v2, none) | some more ↦ (v2, some (buf ++ more)) ]
      ]

  -- load_file behind its stat, for a file of the size.
  unfoldable pub load_sized : Blocks → Text → ℕ → Vfs W → Vfs W × Option (List ℕ)
  load_sized h path size v =
      let (v1, fd) = vfs_open path 1 v in
      elim fd [
        | negsuc e ↦ (v1, none)
        | pos n ↦ elim (h.malloc (if size == 0 then 1 else size)) [
          | none ↦ ((vfs_close (pos n) v1).0, none)
          | some a ↦
              let (v2, buf) = read_all size (pos n) size v1 in ((vfs_close (pos n) v2).0, buf)
        ]
      ]

  unfoldable pub load_file : Blocks → Text → Vfs W → Vfs W × Option (List ℕ)
  load_file h path v =
      let (rc, st) = vfs_stat path v in
      elim rc [
        | negsuc e ↦ (v, none)
        | pos r ↦ elim st [
          | none ↦ (v, none)
          | some x ↦ if x.type == vfs_type_reg then load_sized h path x.size v else (v, none)
        ]
      ]

unfoldable pub load_itrm : Blocks → Bytes → ℕ → Bytes → Loaded
load_itrm h file fsz m =
    let payload = le 4 file 8 in
    let entry_off = le 4 file 4 in
    if ltb fsz 12 || not (le 4 file 0 == itrm_magic)
    then refused m
    else if ltb fsz (12 + payload)
    then refused m
    else if leb payload entry_off
    then refused m
    else elim (h.malloc payload) [
      | none ↦ refused m
      | some img ↦ (
        copy_in img payload file 12 m,
        true,
        record { base = img; size = payload; entry = img + entry_off; owned = true },
      )
    ]
