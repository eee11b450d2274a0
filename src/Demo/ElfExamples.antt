-- ===== src/Demo/ElfExamples.antt =====
-- The theorems on program files at concrete files and states.
use ittrium.Common.{
  ℕ, zero, suc, ◌+◌, ◌<◌, ◌≤◌, ◌≡◌, ◌^◌, refl, arith, true, false, none, some, List, [], ◌∷◌, put,
}
use ittrium.Common.Int.{pos}
use ittrium.FileOps.{Bytes, item, FileOps}
use ittrium.Ramfs.{Entry, RamFs, ramfs_ops, rf_close, stat_named}
use ittrium.Ramfs.Bounds.{put-all}
use ittrium.Vfs.{Vfs, vfs_stat, vfs_close}
use ittrium.Manage.{del_tsk, delete_task}
use ittrium.Elf.Headers.{
  le, ehdr_at, Ehdr, good_ident, phdr_at, rela_at, st_value, clear, copy_in, store64,
}
use ittrium.Elf.Files.{Blocks, read_all, load_sized, load_file, load_itrm}
use ittrium.Elf.Loader.{
  in_exec_window, load_one, load_segment, load_segments, all_in_window, place_fixed, load_bytes,
  elf_load,
}
use ittrium.Elf.Relocation.{reloc_value, apply_relocs}
use ittrium.Elf.Modules.{
  ElfState, elf_unload, base_name, mod_free_slot, mod_find, mod_alloc, start_module, create_module,
  run_image, elf_run, elf_kill, no_mod,
}
use ittrium.Elf.Bounds.{IsItrm, load_itrm-IsItrm, place_fixed-outside}
use ittrium.Elf.Relocs.{apply_relocs-outside}
use ittrium.Elf.Kill.{elf_run-elf_kill}
use ittrium.Demo.{demo_config, booted, runs}
use ittrium.Demo.FileExamples.{files, heap}

-- What runs on program files.
programs : Unit {0}
unfolding le ehdr_at good_ident phdr_at rela_at st_value clear copy_in store64 read_all load_sized
    load_file load_itrm in_exec_window reloc_value apply_relocs load_one load_segment load_segments
    all_in_window place_fixed load_bytes elf_load elf_unload base_name mod_free_slot mod_find
    mod_alloc start_module create_module run_image elf_run elf_kill vfs_stat vfs_close rf_close
    stat_named del_tsk delete_task
programs = tt

-- An ITRM file with two bytes of code.
abbrev itrm : List ℕ
itrm = 73 ∷ 84 ∷ 82 ∷ 77 ∷ 0 ∷ 0 ∷ 0 ∷ 0 ∷ 2 ∷ 0 ∷ 0 ∷ 0 ∷ 1 ∷ 2 ∷ []

abbrev blocks : Blocks
blocks = record { malloc = λ _. some 4096; memalign = λ _. some 4096 }

load_itrm-IsItrm_example :
    let r = load_itrm blocks (item itrm) 14 (λ _. 0) in IsItrm (item itrm) 14 4097 (λ _. 0) r.0 r.2
unfolding programs
load_itrm-IsItrm_example =
    load_itrm-IsItrm blocks (item itrm) 14 4097 (λ _. 0)
      (load_itrm blocks (item itrm) 14 (λ _. 0)).0 (load_itrm blocks (item itrm) 14 (λ _. 0)).2 refl

-- One segment of 16 bytes at the start of the window, with the program header at offset 0.
abbrev segment : Bytes
segment = put (put (put (put (λ _. 0) 0 1) 18 32) 19 64) 40 16

abbrev fixed : Ehdr
fixed = record {
  e_type = 2;
  e_machine = 183;
  e_entry = 1075838976;
  e_phoff = 0;
  e_phentsize = 56;
  e_phnum = 1;
}

below_one {ℓ} : (P : ℕ → Type ℓ) → P 0 → (k : ℕ) → k < 1 → P k
below_one P p zero l = p
below_one P p (suc k) l = absurd (omega arith)

place_fixed-outside_example :
    (place_fixed fixed (record { min_v = 0; max_v = 0; dyn_vaddr = none }) segment 64 (λ _. 0)).0 5
    ≡ 0
unfolding programs
place_fixed-outside_example =
    place_fixed-outside fixed (record { min_v = 0; max_v = 0; dyn_vaddr = none }) segment (λ _. 0)
      64 5 refl
      (below_one (λ k. (phdr_at segment 0 k).p_vaddr + (phdr_at segment 0 k).p_memsz < 2 ^ 64)
        (omega arith))
      (below_one (λ k. (phdr_at segment 0 k).p_filesz ≤ (phdr_at segment 0 k).p_memsz)
        (omega arith))
      refl

-- A relative relocation of the word at the address 16 of the image.
abbrev relocs : Bytes
relocs = put (put (put (λ _. 0) 1000 16) 1008 3) 1009 4

apply_relocs-outside_example : (apply_relocs 1 0 4096 8 64 5 1000 none relocs).0 1000 ≡ relocs 1000
apply_relocs-outside_example =
    apply_relocs-outside 1 0 4096 8 64 5 1000 1000 none relocs
      (put-all (λ x. x < 256) (put (put (λ _. 0) 1000 16) 1008 3) 1009 4 (omega arith)
        (put-all (λ x. x < 256) (put (λ _. 0) 1000 16) 1008 3 (omega arith)
          (put-all (λ x. x < 256) (λ _. 0) 1000 16 (omega arith) (λ _. omega arith))))
      (omega arith) (omega arith) refl

-- The file /r/a holds the program.
abbrev blank : Entry
blank = record { name = []; contents = none; size = 0; cap = 0; used = false }

abbrev no_ops : FileOps RamFs
no_ops = record {
  open_file = none;
  read = none;
  write = none;
  close = none;
  stat = none;
  lseek = none;
  listdir = none;
}

abbrev disk : Vfs RamFs
disk = record {
  mounts =
      put (λ _. record { path = []; ops = no_ops; fs = 0; used = false; plen = 0 }) 0
        (record { path = 47 ∷ 114 ∷ []; ops = ramfs_ops heap; fs = 0; used = true; plen = 2 });
  fds = λ _. record { used = false; ops = no_ops; file = none };
  world = record {
    ents =
        put (λ _. blank) 0
          (record {
            name = 97 ∷ [];
            contents = some (item itrm);
            size = 14;
            cap = 256;
            used = true;
          });
    files = λ _. record { ent = 0; offset = 0 };
    opened = 0;
  };
}

abbrev idle : ElfState RamFs
idle = record { vfs = disk; mem = λ _. 0; kernel = booted; mods = λ _. no_mod; freed = [] }

abbrev path : List ℕ
path = 47 ∷ 114 ∷ 47 ∷ 97 ∷ []

abbrev started : ElfState RamFs
started = (elf_run blocks path (pos 2) 9000 64 (pos 5) idle).0

abbrev ended : ElfState RamFs
ended = (elf_kill (pos 2) started).0

elf_run-elf_kill_example :
    ended.freed ≡ (elf_load blocks path idle.vfs idle.mem).1.2.base ∷ started.freed
unfolding programs files runs booted
elf_run-elf_kill_example =
    elf_run-elf_kill blocks path (pos 2) (pos 2) (pos 5) 9000 64 idle started started ended
      (λ e. absurd (omega arith)) refl refl refl (λ e. absurd (omega arith)) refl
