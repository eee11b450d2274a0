-- ===== src/Ramfs.antt =====
-- services/vfs/ramfs.c: a table of files in memory. The file system is the table g_fs and the file
-- blocks that rf_open has allocated; a pointer to a table entry or a file block is its number.
-- A call that fails returns -1, `failed` here. `size_t` is 64 bits wide, `long` is too.
pub mod Bounds
pub mod Invariant
pub mod Contents
pub mod Names
use ittrium.Common.{
  ℕ, zero, suc, ◌+◌, ◌-◌, ◌*◌, ◌/◌, ◌%◌, ◌^◌, Bool, true, false, ◌&&◌, not, Option, none, some,
  List, [], ◌∷◌, length, ltb, leb, ◌==◌, put, if◌then◌else◌,
}
use ittrium.Common.Int.{ℤ, pos, negsuc, pos_part, ltb_ℤ}
use ittrium.Common.Table.{find_slot}
use ittrium.Text.{Text, text_eq, cut, skip_slashes}
use ittrium.FileOps.{
  FileOps, Heap, Bytes, VfsStat, vfs_type_reg, vfs_type_dir, failed, has_flag, vfs_o_creat,
  vfs_o_trunc, vfs_o_append, slice, splice, is_some, seek_to,
}

abbrev pub ramfs_max_files : ℕ
ramfs_max_files = 16

abbrev pub ramfs_name_max : ℕ
ramfs_name_max = 48

abbrev pub ramfs_max_size : ℕ
ramfs_max_size = 4096

-- `struct ramfs_entry`; a null `data` is `none`. `contents` and not `data`.
pub record Entry : Type 0 where
  pub name : Text
  pub contents : Option Bytes
  pub size : ℕ
  pub cap : ℕ
  pub used : Bool

-- `struct ramfs_file`
pub record RamFile : Type 0 where
  pub ent : ℕ
  pub offset : ℕ

-- The table g_fs, the file blocks, and how many of them were allocated.
pub record RamFs : Type 0 where
  pub ents : ℕ → Entry
  pub files : ℕ → RamFile
  pub opened : ℕ

abbrev pub set_ent : ℕ → Entry → RamFs → RamFs
set_ent i e r = record r { ents = put r.ents i e }

abbrev pub set_offset : ℕ → ℕ → RamFs → RamFs
set_offset f n r = record r { files = put r.files f (record (r.files f) { offset = n }) }

abbrev pub is_entry : Text → Entry → Bool
is_entry name e = e.used && text_eq e.name name

abbrev pub is_unused : Entry → Bool
is_unused e = not e.used

-- find_ent on a name without leading slashes.
unfoldable pub find_named : Text → (ℕ → Entry) → Option ℕ
find_named [] t = none
find_named (c ∷ cs) t = find_slot (is_entry (c ∷ cs)) ramfs_max_files t

unfoldable pub find_ent : Text → RamFs → Option ℕ
find_ent rel r = find_named (skip_slashes rel) r.ents

abbrev pub new_entry : Text → Entry
new_entry name = record {
  name = cut (ramfs_name_max - 1) name;
  contents = none;
  size = 0;
  cap = 0;
  used = true;
}

unfoldable pub alloc_ent : Text → RamFs → Option (ℕ × RamFs)
alloc_ent name r = elim (find_slot is_unused ramfs_max_files r.ents) [
  | none ↦ none
  | some i ↦ some (i, set_ent i (new_entry name) r)
]

-- The entry that rf_open works on, looked up or made.
unfoldable pub find_or_alloc : Text → ℕ → RamFs → Option (ℕ × RamFs)
find_or_alloc name flags r = elim (find_ent name r) [
  | some i ↦ some (i, r)
  | none ↦ if has_flag flags vfs_o_creat then alloc_ent name r else none
]

abbrev pub emptied : Entry → Entry
emptied e = record e { contents = none; size = 0; cap = 0 }

-- `if ((flags & VFS_O_TRUNC) && e->data)`
unfoldable pub truncated : ℕ → Entry → Entry
truncated flags e = if has_flag flags vfs_o_trunc && is_some e.contents then emptied e else e

-- `size_t` addition
abbrev pub add_size : ℕ → ℕ → ℕ
add_size a b = (a + b) % 2 ^ 64

-- `while (ncap < need) ncap *= 2;` from `ncap` on.
unfoldable pub double_until : ℕ → ℕ → ℕ → ℕ
double_until zero need ncap = ncap
double_until (suc fuel) need ncap =
    let rest = double_until fuel need (2 * ncap) in if ltb ncap need then rest else ncap

-- The capacity that rf_write asks for. Each round doubles a capacity of 1 at least, so `need` rounds
-- are enough.
unfoldable pub new_cap : ℕ → ℕ → ℕ
new_cap cap need =
    let ncap = double_until need need (if not (cap == 0) then cap * 2 else 256) in
    if ltb ramfs_max_size ncap then ramfs_max_size else ncap

module _ (h : Heap) where
  -- The block of `cap` bytes grown to `ncap`: the old bytes, and what the heap has left in the rest.
  abbrev pub realloc : Option Bytes → ℕ → ℕ → Option Bytes
  realloc old cap ncap =
      if h.grants ncap
      then some (elim old [ none ↦ h.junk | some b ↦ λ i. if ltb i cap then b i else h.junk i ])
      else none

  -- The entry with room for `need` bytes, `none` if there is none.
  unfoldable pub grow : ℕ → Entry → Option Entry
  grow need e =
      if ltb e.cap need
      then elim (realloc e.contents e.cap (new_cap e.cap need)) [
        | none ↦ none
        | some b ↦ some (record e { contents = some b; cap = new_cap e.cap need })
      ]
      else some e

  -- rf_open behind the skipped slashes.
  unfoldable pub open_named : Text → ℕ → RamFs → RamFs × ℤ × Option ℕ
  open_named [] flags r = (r, failed, none)
  open_named (c ∷ cs) flags r = elim (find_or_alloc (c ∷ cs) flags r) [
    | none ↦ (r, failed, none)
    | some (i, r1) ↦
        let r2 = set_ent i (truncated flags (r1.ents i)) r1 in
        let f : RamFile = record {
          ent = i;
          offset = if has_flag flags vfs_o_append then (r2.ents i).size else 0;
        } in
        if h.grants 16
        then (
          record r2 { files = put r2.files r2.opened f; opened = r2.opened + 1 },
          pos 0,
          some r2.opened,
        )
        else (r2, failed, none)
  ]

  -- A null pointer for the name is the empty string.
  unfoldable pub rf_open : Text → ℕ → RamFs → RamFs × ℤ × Option ℕ
  rf_open rel flags r = open_named (skip_slashes rel) flags r

  -- `len` is the length of `buf`.
  unfoldable pub rf_write : Option ℕ → List ℕ → RamFs → RamFs × ℤ
  rf_write none buf r = (r, failed)
  rf_write (some f) buf r =
      let i = (r.files f).ent in
      let at = (r.files f).offset in
      let need = add_size at (length buf) in
      if ltb ramfs_max_size need then (r, failed) else elim (grow need (r.ents i)) [
        | none ↦ (r, failed)
        | some e ↦
            let end = add_size at (length buf) in
            (
              set_offset f end (
                  set_ent i
                    (record e {
                      contents = elim (e.contents) [
                        | none ↦ none
                        | some b ↦ some (splice at buf b)
                      ];
                      size = if ltb e.size end then end else e.size;
                    })
                    r),
              pos (length buf),
            )
      ]

-- With the bytes that are copied to `buf`.
unfoldable pub rf_read : Option ℕ → ℕ → RamFs → RamFs × ℤ × List ℕ
rf_read none len r = (r, failed, [])
rf_read (some f) len r =
    let e = r.ents (r.files f).ent in
    let at = (r.files f).offset in
    let left = e.size - at in
    let n = if ltb left len then left else len in
    if leb e.size at then (r, pos 0, []) else (
      set_offset f (add_size at n) r,
      pos n,
      elim (e.contents) [ none ↦ [] | some b ↦ slice b at n ],
    )

-- The block is given back to the heap, and no file has its number again.
unfoldable pub rf_close : Option ℕ → RamFs → RamFs × ℤ
rf_close f r = (r, pos 0)

unfoldable pub stat_named : Text → RamFs → ℤ × Option VfsStat
stat_named [] r = (pos 0, some (record { type = vfs_type_dir; size = 0 }))
stat_named (c ∷ cs) r = elim (find_ent (c ∷ cs) r) [
  | none ↦ (failed, none)
  | some i ↦ (pos 0, some (record { type = vfs_type_reg; size = (r.ents i).size }))
]

unfoldable pub rf_stat : Text → RamFs → ℤ × Option VfsStat
rf_stat rel r = stat_named (skip_slashes rel) r

unfoldable pub rf_lseek : Option ℕ → ℤ → ℕ → RamFs → RamFs × ℤ
rf_lseek none off whence r = (r, failed)
rf_lseek (some f) off whence r =
    let size = (r.ents (r.files f).ent).size in
    elim (seek_to (r.files f).offset size off whence) [
      | none ↦ (r, failed)
      | some (negsuc n) ↦ (r, failed)
      | some (pos n) ↦ let np = if ltb size n then size else n in (set_offset f np r, pos np)
    ]

-- The loop of rf_listdir: the used entry number `idx`, when `seen` used ones stand before `i`.
unfoldable pub nth_used : ℕ → ℕ → ℕ → ℕ → (ℕ → Entry) → Option ℕ
nth_used zero i seen idx t = none
nth_used (suc n) i seen idx t =
    let rest = nth_used n (suc i) (if (t i).used then suc seen else seen) idx t in
    if (t i).used && seen == idx then some i else rest

-- `name` is unchanged, the empty text here, where the call does not write it.
unfoldable pub rf_listdir : Text → ℕ → Option ℤ → RamFs → ℤ × Text × Option ℤ
rf_listdir rel nlen none r = (failed, [], none)
rf_listdir rel nlen (some (negsuc n)) r = (failed, [], some (negsuc n))
rf_listdir rel nlen (some (pos n)) r = elim (skip_slashes rel) [
  | (c ∷ cs) ↦ (failed, [], some (pos n))
  | [] ↦ elim (nth_used ramfs_max_files 0 0 n r.ents) [
    | none ↦ (pos 1, [], some (pos n))
    | some i ↦ (pos 0, cut (nlen - 1) (r.ents i).name, some (pos (suc n)))
  ]
]

-- memset of the table
unfoldable pub ramfs_empty : RamFs → RamFs
ramfs_empty r = record r {
  ents = λ _. record { name = []; contents = none; size = 0; cap = 0; used = false };
}

-- g_ramfs_ops
abbrev pub ramfs_ops : Heap → FileOps RamFs
ramfs_ops h = record {
  open_file = some (λ _. rf_open h);
  read = some rf_read;
  write = some (rf_write h);
  close = some rf_close;
  stat = some (λ _. rf_stat);
  lseek = some rf_lseek;
  listdir = some (λ _. rf_listdir);
}
