-- ===== src/Romfs.antt =====
-- services/vfs/romfs.c: read-only tables of files, one of them built in. A `struct romfs *` is its
-- number, 0 for g_builtin; the others are the blocks that romfs_mount allocates.
pub mod Builtin
pub mod Reading
use ittrium.Common.{
  ℕ, zero, suc, ◌+◌, ◌-◌, ◌*◌, ◌%◌, ◌^◌, Bool, true, false, ◌&&◌, ◌||◌, not, Option, none, some,
  List, [], ◌∷◌, length, ltb, leb, ◌==◌, put, if◌then◌else◌,
}
use ittrium.Common.Int.{ℤ, pos, negsuc}
use ittrium.Common.Table.{find_slot}
use ittrium.Text.{Text, text_eq, cut, skip_slashes}
use ittrium.FileOps.{
  FileOps, Heap, Bytes, VfsStat, vfs_type_reg, vfs_type_dir, failed, slice, item, seek_to,
}
use ittrium.Vfs.{Vfs, vfs_mount}

abbrev pub romfs_name_max : ℕ
romfs_name_max = 48

abbrev pub romfs_max_ent : ℕ
romfs_max_ent = 32

-- `struct romfs_entry`; `contents` are the bytes at `data`.
pub record RomEntry : Type 0 where
  pub name : Text
  pub contents : Bytes
  pub size : ℕ

-- `struct romfs`; a null `ents` is `none`.
pub record Romfs : Type 0 where
  pub ents : Option (ℕ → RomEntry)
  pub nents : ℕ
  pub capacity : ℕ
  pub owned : Bool

-- `struct romfs_file`: the entry by its table and number there.
pub record RomFile : Type 0 where
  pub fs : ℕ
  pub ent : ℕ
  pub offset : ℕ

-- The tables, the files, and how many of each were allocated.
pub record RomWorld : Type 0 where
  pub tables : ℕ → Romfs
  pub made : ℕ
  pub inited : Bool
  pub files : ℕ → RomFile
  pub opened : ℕ

abbrev pub set_table : ℕ → Romfs → RomWorld → RomWorld
set_table i t r = record r { tables = put r.tables i t }

abbrev pub no_entry : RomEntry
no_entry = record { name = []; contents = λ _. 0; size = 0 }

-- "readme.txt" and "hello.txt"
abbrev pub readme_name : Text
readme_name = 114 ∷ 101 ∷ 97 ∷ 100 ∷ 109 ∷ 101 ∷ 46 ∷ 116 ∷ 120 ∷ 116 ∷ []

abbrev pub hello_name : Text
hello_name = 104 ∷ 101 ∷ 108 ∷ 108 ∷ 111 ∷ 46 ∷ 116 ∷ 120 ∷ 116 ∷ []

-- "ittrium romfs\n" and "hello from romfs\n"
abbrev readme : List ℕ
readme = 105 ∷ 116 ∷ 116 ∷ 114 ∷ 105 ∷ 117 ∷ 109 ∷ 32 ∷ 114 ∷ 111 ∷ 109 ∷ 102 ∷ 115 ∷ 10 ∷ []

abbrev hello : List ℕ
hello =
    104 ∷ 101 ∷ 108 ∷ 108 ∷ 111 ∷ 32 ∷ 102 ∷ 114 ∷ 111 ∷ 109 ∷ 32 ∷ 114 ∷ 111 ∷ 109 ∷ 102 ∷ 115 ∷ 10
    ∷ []

abbrev builtin_entries : ℕ → RomEntry
builtin_entries =
    put
      (put (λ _. no_entry) 0
        (record { name = readme_name; contents = item readme; size = length readme }))
      1 (record { name = hello_name; contents = item hello; size = length hello })

abbrev pub is_file : Text → RomEntry → Bool
is_file name e = text_eq e.name name

-- The loop of find_ent over the table.
unfoldable pub find_in : Text → Romfs → Option ℕ
find_in name t = elim (t.ents) [ none ↦ none | some ents ↦ find_slot (is_file name) t.nents ents ]

unfoldable pub find_name : Text → Romfs → Option ℕ
find_name [] t = none
find_name (c ∷ cs) t = find_in (c ∷ cs) t

unfoldable pub find_ent : Text → Romfs → Option ℕ
find_ent rel t = find_name (skip_slashes rel) t

-- The entry with a number of a table.
abbrev pub entry_at : Romfs → ℕ → RomEntry
entry_at t i = elim (t.ents) [ none ↦ no_entry | some ents ↦ ents i ]

abbrev pub entry_of : RomFile → RomWorld → RomEntry
entry_of f r = entry_at (r.tables f.fs) f.ent

-- What romfs_add_builtin does with the table behind its tests.
unfoldable pub add_entry : Text → Bytes → ℕ → Romfs → (ℕ → RomEntry) → Romfs × ℤ
add_entry name data_bytes size t ents = elim (find_slot (is_file name) t.nents ents) [
  | some i ↦ (
    record t { ents = some (put ents i (record (ents i) { contents = data_bytes; size = size })) },
    pos 0,
  )
  | none ↦ if leb t.capacity t.nents then (t, failed) else (
    record t {
      ents = some (
          put ents t.nents
            (record { name = cut (romfs_name_max - 1) name; contents = data_bytes; size = size }));
      nents = t.nents + 1;
    },
    pos 0,
  )
]

module _ (h : Heap) where
  -- The size of an entry is 64 bytes.
  unfoldable pub ensure_builtin : RomWorld → RomWorld
  ensure_builtin r =
      if r.inited
      then r
      else if h.grants (romfs_max_ent * 64)
      then record r {
        tables = put r.tables 0 (record {
          ents = some builtin_entries;
          nents = 2;
          capacity = romfs_max_ent;
          owned = true;
        });
        inited = true;
      }
      else record r {
        tables =
            put r.tables 0
              (record { ents = none; nents = 0; capacity = romfs_max_ent; owned = true });
        inited = true;
      }

  unfoldable pub rom_open : ℕ → Text → ℕ → RomWorld → RomWorld × ℤ × Option ℕ
  rom_open fs rel flags r = elim (find_ent rel (r.tables fs)) [
    | none ↦ (r, failed, none)
    | some i ↦
        if h.grants 16
        then (
          record r {
            files = put r.files r.opened (record { fs = fs; ent = i; offset = 0 });
            opened = r.opened + 1;
          },
          pos 0,
          some r.opened,
        )
        else (r, failed, none)
  ]

  -- A null name is not given.
  unfoldable pub romfs_add_builtin : Text → Bytes → ℕ → RomWorld → RomWorld × ℤ
  romfs_add_builtin name data_bytes size r =
      let r1 = ensure_builtin r in
      elim ((r1.tables 0).ents) [
        | none ↦ (r1, failed)
        | some ents ↦
            if leb romfs_name_max (length name)
            then (r1, failed)
            else let (t, rc) = add_entry name data_bytes size (r1.tables 0) ents in
              (set_table 0 t r1, rc)
      ]

unfoldable pub rom_read : Option ℕ → ℕ → RomWorld → RomWorld × ℤ × List ℕ
rom_read none len r = (r, failed, [])
rom_read (some f) len r =
    let e = entry_of (r.files f) r in
    let at = (r.files f).offset in
    let left = e.size - at in
    let n = if ltb left len then left else len in
    if leb e.size at then (r, pos 0, []) else (
      record r { files = put r.files f (record (r.files f) { offset = (at + n) % 2 ^ 64 }) },
      pos n,
      slice e.contents at n,
    )

unfoldable pub rom_write : Option ℕ → List ℕ → RomWorld → RomWorld × ℤ
rom_write f buf r = (r, failed)

unfoldable pub rom_close : Option ℕ → RomWorld → RomWorld × ℤ
rom_close f r = (r, pos 0)

unfoldable pub rom_stat : ℕ → Text → RomWorld → ℤ × Option VfsStat
rom_stat fs rel r = elim (skip_slashes rel) [
  | [] ↦ (pos 0, some (record { type = vfs_type_dir; size = 0 }))
  | (c ∷ cs) ↦ elim (find_ent (c ∷ cs) (r.tables fs)) [
    | none ↦ (failed, none)
    | some i ↦
        (pos 0, some (record { type = vfs_type_reg; size = (entry_at (r.tables fs) i).size }))
  ]
]

unfoldable pub rom_lseek : Option ℕ → ℤ → ℕ → RomWorld → RomWorld × ℤ
rom_lseek none off whence r = (r, failed)
rom_lseek (some f) off whence r =
    let size = (entry_of (r.files f) r).size in
    elim (seek_to (r.files f).offset size off whence) [
      | none ↦ (r, failed)
      | some (negsuc n) ↦ (r, failed)
      | some (pos n) ↦
          let np = if ltb size n then size else n in
          (record r { files = put r.files f (record (r.files f) { offset = np }) }, pos np)
    ]

-- `name` is unchanged, the empty text here, where the call does not write it.
unfoldable pub rom_listdir : ℕ → Text → ℕ → Option ℤ → RomWorld → ℤ × Text × Option ℤ
rom_listdir fs rel nlen none r = (failed, [], none)
rom_listdir fs rel nlen (some (negsuc n)) r = (failed, [], some (negsuc n))
rom_listdir fs rel nlen (some (pos n)) r = elim (skip_slashes rel) [
  | (c ∷ cs) ↦ (failed, [], some (pos n))
  | [] ↦
      if leb (r.tables fs).nents n
      then (pos 1, [], some (pos n))
      else if nlen == 0
      then (failed, [], some (pos n))
      else (pos 0, cut (nlen - 1) (entry_at (r.tables fs) n).name, some (pos (suc n)))
]

-- g_romfs_ops
abbrev pub romfs_ops : Heap → FileOps RomWorld
romfs_ops h = record {
  open_file = some (rom_open h);
  read = some rom_read;
  write = some rom_write;
  close = some rom_close;
  stat = some rom_stat;
  lseek = some rom_lseek;
  listdir = some rom_listdir;
}

-- `entries` and `n` of the caller; null entries or a count below 1 mount the built-in table. The
-- size of a table is 24 bytes.
unfoldable pub romfs_mount :
    Heap → Text → Option (ℕ → RomEntry) → ℕ → Vfs RomWorld → Vfs RomWorld × ℤ
romfs_mount h path none n v =
    vfs_mount path (some (romfs_ops h)) 0 (record v { world = ensure_builtin h v.world })
romfs_mount h path (some ents) zero v =
    vfs_mount path (some (romfs_ops h)) 0 (record v { world = ensure_builtin h v.world })
romfs_mount h path (some ents) (suc n) v =
    let t : Romfs = record { ents = some ents; nents = suc n; capacity = suc n; owned = false } in
    let w = v.world in
    if h.grants 24
    then vfs_mount path (some (romfs_ops h)) w.made
        (record v { world = record w { tables = put w.tables w.made t; made = w.made + 1 } })
    else (v, failed)
