-- ===== src/Elf/Headers.antt =====
-- The structures that services/elf/elf_load.c reads, little-endian, and its writes to memory.
use ittrium.Common.{
  ℕ, zero, suc, ◌+◌, ◌-◌, ◌*◌, ◌/◌, ◌%◌, ◌^◌, Bool, ◌&&◌, ltb, leb, ◌==◌, if◌then◌else◌,
}
use ittrium.FileOps.{Bytes}

-- uint64_t arithmetic
abbrev pub add64 : ℕ → ℕ → ℕ
add64 a b = (a + b) % 2 ^ 64

abbrev pub sub64 : ℕ → ℕ → ℕ
sub64 a b = (a + 2 ^ 64 - b) % 2 ^ 64

-- The little-endian number in the `n` bytes at an offset.
unfoldable pub le : ℕ → Bytes → ℕ → ℕ
le zero b i = 0
le (suc n) b i = b i + 256 * le n b (suc i)

pub record Ehdr : Type 0 where
  pub e_type : ℕ
  pub e_machine : ℕ
  pub e_entry : ℕ
  pub e_phoff : ℕ
  pub e_phentsize : ℕ
  pub e_phnum : ℕ

unfoldable pub ehdr_at : Bytes → Ehdr
ehdr_at b = record {
  e_type = le 2 b 16;
  e_machine = le 2 b 18;
  e_entry = le 8 b 24;
  e_phoff = le 8 b 32;
  e_phentsize = le 2 b 54;
  e_phnum = le 2 b 56;
}

-- The magic bytes, the 64-bit class and the little-endian order in e_ident.
unfoldable pub good_ident : Bytes → Bool
good_ident b = b 0 == 127 && b 1 == 69 && b 2 == 76 && b 3 == 70 && b 4 == 2 && b 5 == 1

pub record Phdr : Type 0 where
  pub p_type : ℕ
  pub p_offset : ℕ
  pub p_vaddr : ℕ
  pub p_filesz : ℕ
  pub p_memsz : ℕ

-- Entry `i` of the table at `off`; the entries are taken to be 56 bytes long whatever e_phentsize is.
unfoldable pub phdr_at : Bytes → ℕ → ℕ → Phdr
phdr_at b off i =
    let o = off + 56 * i in
    record {
      p_type = le 4 b o;
      p_offset = le 8 b (o + 8);
      p_vaddr = le 8 b (o + 16);
      p_filesz = le 8 b (o + 32);
      p_memsz = le 8 b (o + 40);
    }

pub record Rela : Type 0 where
  pub r_offset : ℕ
  pub r_info : ℕ
  pub r_addend : ℕ

-- Entry `i` of the table of relocations at the address `a`.
unfoldable pub rela_at : Bytes → ℕ → ℕ → Rela
rela_at m a i =
    let o = a + 24 * i in
    record { r_offset = le 8 m o; r_info = le 8 m (o + 8); r_addend = le 8 m (o + 16) }

-- `symtab[si].st_value`
unfoldable pub st_value : Bytes → ℕ → ℕ → ℕ
st_value m a si = le 8 m (a + 24 * si + 8)

-- Whether an address lies in the `n` bytes from `a` on.
abbrev pub within : ℕ → ℕ → ℕ → Bool
within a n i = leb a i && ltb i (a + n)

-- memset to 0
unfoldable pub clear : ℕ → ℕ → Bytes → Bytes
clear a n m i = if within a n i then 0 else m i

-- memcpy from the offset `off` of a file
unfoldable pub copy_in : ℕ → ℕ → Bytes → ℕ → Bytes → Bytes
copy_in a n file off m i = if within a n i then file (off + (i - a)) else m i

-- `*loc = v`
unfoldable pub store64 : ℕ → ℕ → Bytes → Bytes
store64 a v m i = if within a 8 i then v / 256 ^ (i - a) % 256 else m i
