-- ===== src/Procfs.antt =====
-- services/proc/procfs.c: files whose text is made when they are opened. An open file is the number of its
-- block, and the state is the kernel with the open files.
pub mod Format
pub mod Tables
pub mod Bounds
pub mod Decimal
pub mod Reading
use ittrium.Common.{
  ℕ, zero, suc, ◌+◌, ◌-◌, Bool, true, false, ◌&&◌, ◌||◌, not, Option, none, some, List, [], ◌∷◌,
  length, put, ltb, leb, if◌then◌else◌,
}
use ittrium.Common.Int.{ℤ, pos, negsuc}
use ittrium.Text.{Text, text_eq, cut, drop, skip_slashes}
use ittrium.FileOps.{VfsStat, Heap, failed, vfs_type_reg, vfs_type_dir, FileOps}
use ittrium.Types.{Config, Kernel}
use ittrium.Procfs.Tables.{ProcEnv, gen_file}

abbrev pub proc_buf_max : ℕ
proc_buf_max = 1536

pub record ProcFile : Type 0 where
  pub buf : Text
  pub offset : ℕ

pub record ProcWorld : Type 0 where
  pub kernel : Kernel
  pub env : ProcEnv
  pub files : ℕ → ProcFile
  pub opened : ℕ

abbrev pub proc_names : List Text
proc_names =
    (116 ∷ 97 ∷ 115 ∷ 107 ∷ 115 ∷ [])
    ∷ (116 ∷ 105 ∷ 99 ∷ 107 ∷ 115 ∷ [])
    ∷ (109 ∷ 101 ∷ 109 ∷ [])
    ∷ (115 ∷ 116 ∷ 97 ∷ 116 ∷ [])
    ∷ (105 ∷ 110 ∷ 116 ∷ 101 ∷ 114 ∷ 114 ∷ 117 ∷ 112 ∷ 116 ∷ 115 ∷ [])
    ∷ (118 ∷ 101 ∷ 114 ∷ 115 ∷ 105 ∷ 111 ∷ 110 ∷ [])
    ∷ []

-- Whether a name is one of the list.
unfoldable pub is_proc_name : Text → List Text → Bool
is_proc_name name [] = false
is_proc_name name (x ∷ xs) =
    let rest = is_proc_name name xs in if text_eq x name then true else rest

-- `proc_names[i]`, the null pointer at the end.
abbrev pub nth_name : ℕ → List Text → Option Text
nth_name i [] = none
nth_name zero (x ∷ xs) = some x
nth_name (suc i) (x ∷ xs) = nth_name i xs

module _ (h : Heap) ⦃c : Config⦄ where
  -- pf_open behind the slashes.
  unfoldable pub open_text : Text → ProcWorld → ProcWorld × ℤ × Option ℕ
  open_text [] w = (w, failed, none)
  open_text (ch ∷ name) w = elim (gen_file (ch ∷ name) proc_buf_max w.kernel w.env) [
    | none ↦ (w, failed, none)
    | some t ↦ if not (h.grants 24) || not (h.grants (length t + 1)) then (w, failed, none) else (
      record w {
        files = put w.files w.opened (record { buf = t; offset = 0 });
        opened = suc w.opened;
      },
      pos 0,
      some w.opened,
    )
  ]

  unfoldable pub pf_open : Text → ℕ → ProcWorld → ProcWorld × ℤ × Option ℕ
  pf_open rel flags w = open_text (skip_slashes rel) w

unfoldable pub pf_read : Option ℕ → ℕ → ProcWorld → ProcWorld × ℤ × List ℕ
pf_read none len w = (w, failed, [])
pf_read (some f) len w =
    let p = w.files f in
    let left = length p.buf - p.offset in
    let n = if ltb left len then left else len in
    if leb (length p.buf) p.offset then (w, pos 0, []) else (
      record w { files = put w.files f (record p { offset = p.offset + n }) },
      pos n,
      cut n (drop p.offset p.buf),
    )

-- The block of a closed file is not used again.
unfoldable pub pf_close : Option ℕ → ProcWorld → ProcWorld × ℤ
pf_close none w = (w, failed)
pf_close (some f) w = (w, pos 0)

unfoldable pub pf_stat : Text → ProcWorld → ℤ × Option VfsStat
pf_stat rel w = elim (skip_slashes rel) [
  | [] ↦ (pos 0, some (record { type = vfs_type_dir; size = 0 }))
  | ch ∷ name ↦
      if is_proc_name (ch ∷ name) proc_names
      then (pos 0, some (record { type = vfs_type_reg; size = 0 }))
      else (failed, none)
]

-- The buffer is not empty. Reading at a null pointer or a negative index, which the code does not
-- test, is given as an error here.
unfoldable pub pf_listdir : Text → ℕ → Option ℤ → ProcWorld → ℤ × Text × Option ℤ
pf_listdir rel nlen none w = (failed, [], none)
pf_listdir rel nlen (some (negsuc n)) w = (failed, [], some (negsuc n))
pf_listdir rel nlen (some (pos i)) w = elim (nth_name i proc_names) [
  | none ↦ (pos 1, [], some (pos i))
  | some name ↦ (pos 0, cut (nlen - 1) name, some (pos (suc i)))
]

unfoldable pub proc_ops : Heap → ⦃c : Config⦄ → FileOps ProcWorld
proc_ops h = record {
  open_file = some (λ _ rel flags w. pf_open h rel flags w);
  read = some pf_read;
  write = none;
  close = some pf_close;
  stat = some (λ _. pf_stat);
  lseek = none;
  listdir = some (λ _. pf_listdir);
}
