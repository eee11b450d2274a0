-- ===== src/FileOps.antt =====
-- services/include/vfs.h: the flags, the table of operations of a file system, and what file systems
-- copy. A file system's own state is a parameter `W`; `void *fs` and `void *file` are numbers.
use ittrium.Common.{
  ℕ, zero, suc, ◌+◌, ◌-◌, ◌/◌, ◌%◌, ◌^◌, Bool, true, false, ◌&&◌, Option, none, some, List, [], ◌∷◌,
  length, ltb, leb, ◌==◌, if◌then◌else◌,
}
use ittrium.Common.Int.{ℤ, pos, negsuc, pos_part, neg_part}
use ittrium.Text.{Text}

abbrev pub vfs_type_reg : ℕ
vfs_type_reg = 1

abbrev pub vfs_type_dir : ℕ
vfs_type_dir = 2

-- A flag is given by the place of its bit.
abbrev pub vfs_o_creat : ℕ
vfs_o_creat = 8

abbrev pub vfs_o_trunc : ℕ
vfs_o_trunc = 9

abbrev pub vfs_o_append : ℕ
vfs_o_append = 10

abbrev pub has_flag : ℕ → ℕ → Bool
has_flag flags k = flags / 2 ^ k % 2 == 1

pub record VfsStat : Type 0 where
  pub type : ℕ
  pub size : ℕ

abbrev pub failed : ℤ
failed = negsuc 0

abbrev pub sub_ℕ : ℕ → ℕ → ℤ
sub_ℕ a b = if leb b a then pos (a - b) else negsuc (b - a - 1)

abbrev pub add_ℤ : ℤ → ℤ → ℤ
add_ℤ a b = sub_ℕ (pos_part a + pos_part b) (neg_part a + neg_part b)

-- Whether a pointer is not null.
abbrev pub is_some {ℓ} : {A : Type ℓ} → Option A → Bool
is_some none = false
is_some (some a) = true

-- The heap of the C library: whether it gives a block of a size, and what the bytes of it hold.
pub record Heap : Type 0 where
  pub grants : ℕ → Bool
  pub junk : ℕ → ℕ

-- The bytes of a block by their offset.
abbrev pub Bytes : Type 0
Bytes = ℕ → ℕ

-- The `n` bytes from the offset `i` on.
abbrev pub slice : Bytes → ℕ → ℕ → List ℕ
slice b i zero = []
slice b i (suc n) = b i ∷ slice b (suc i) n

-- The item of a list, 0 behind its end.
abbrev pub item : List ℕ → ℕ → ℕ
item [] i = 0
item (x ∷ xs) zero = x
item (x ∷ xs) (suc i) = item xs i

-- The block after a copy of `buf` to the offset `at`.
abbrev pub splice : ℕ → List ℕ → Bytes → Bytes
splice at buf b i = if leb at i && ltb i (at + length buf) then item buf (i - at) else b i

pub record FileOps (W : Type 0) : Type 0 where
  pub open_file : Option (ℕ → Text → ℕ → W → W × ℤ × Option ℕ)
  pub read : Option (Option ℕ → ℕ → W → W × ℤ × List ℕ)
  pub write : Option (Option ℕ → List ℕ → W → W × ℤ)
  pub close : Option (Option ℕ → W → W × ℤ)
  pub stat : Option (ℕ → Text → W → ℤ × Option VfsStat)
  pub lseek : Option (Option ℕ → ℤ → ℕ → W → W × ℤ)
  pub listdir : Option (ℕ → Text → ℕ → Option ℤ → W → ℤ × Text × Option ℤ)

-- The new position of rf_lseek and rom_lseek before its checks; `whence` is VFS_SEEK_SET, VFS_SEEK_CUR or
-- VFS_SEEK_END.
unfoldable pub seek_to : ℕ → ℕ → ℤ → ℕ → Option ℤ
seek_to at size off zero = some off
seek_to at size off (suc zero) = some (add_ℤ (pos at) off)
seek_to at size off (suc (suc zero)) = some (add_ℤ (pos size) off)
seek_to at size off (suc (suc (suc w))) = none
