-- ===== src/Demo/FileExamples.antt =====
-- The theorems on the file systems and the table of devices at concrete states: 97 is `a`, 47 a slash.
use ittrium.Common.{ℕ, ◌≡◌, refl, arith, true, false, none, some, [], ◌∷◌, put}
use ittrium.Common.Int.{pos}
use ittrium.Common.Table.{find_slot, find_from}
use ittrium.Text.{Text, text_eq, skip_slashes, cut}
use ittrium.FileOps.{Heap, FileOps, seek_to}
use ittrium.Ramfs.{
  Entry, RamFs, ramfs_ops, rf_open, rf_write, rf_read, rf_lseek, rf_stat, open_named, find_or_alloc,
  find_ent, find_named, alloc_ent, truncated, grow, double_until, new_cap,
}
use ittrium.Ramfs.Bounds.{IsValid, IsBounded}
use ittrium.Ramfs.Invariant.{rf-IsValid}
use ittrium.Vfs.{
  Mount, Vfs, same_chars, path_eq_prefix, rel_of, find_best, find_mount, alloc_fd, vfs_open,
  vfs_write, vfs_lseek, vfs_read,
}
use ittrium.Vfs.Ramdisk.{vfs_open-write-read}
use ittrium.Romfs.{RomWorld, rom_read, romfs_add_builtin, ensure_builtin, add_entry}
use ittrium.Romfs.Builtin.{IsAdded}
use ittrium.Devices.{Devices, itt_device_add}
use ittrium.Devices.Registry
use ittrium.Devices.Registry.{IsRegistry, itt_device_add-IsAdded}

-- What runs on files.
unfoldable pub files : Unit {0}
unfolding find_slot find_from text_eq skip_slashes cut seek_to rf_open rf_write rf_read rf_lseek
    rf_stat open_named find_or_alloc find_ent find_named alloc_ent truncated grow double_until
    new_cap same_chars path_eq_prefix rel_of find_best find_mount alloc_fd vfs_open vfs_write
    vfs_lseek vfs_read rom_read romfs_add_builtin ensure_builtin add_entry itt_device_add
files = tt

-- A heap that always gives a block.
abbrev pub heap : Heap
heap = record { grants = λ _. true; junk = λ _. 0 }

abbrev blank : Entry
blank = record { name = []; contents = none; size = 0; cap = 0; used = false }

abbrev pub no_files : RamFs
no_files = record { ents = λ _. blank; files = λ _. record { ent = 0; offset = 0 }; opened = 0 }

blank-IsBounded : IsBounded blank
blank-IsBounded = record {
  within = omega arith;
  small = omega arith;
  null_cap = λ _. refl;
  short = omega arith;
}

no_files-IsValid : IsValid no_files
no_files-IsValid = record { entries = λ _. blank-IsBounded; offsets = λ _. omega arith }

rf-IsValid_example :
    IsValid (rf_open heap (97 ∷ []) 256 no_files).0
    × IsValid (rf_write heap (some 0) (7 ∷ []) no_files).0
    × IsValid (rf_read (some 0) 3 no_files).0
    × IsValid (rf_lseek (some 0) (pos 1) 0 no_files).0
rf-IsValid_example =
    rf-IsValid heap (97 ∷ []) 256 0 3 0 (7 ∷ []) (pos 1) no_files no_files-IsValid (omega arith)

-- The file `a` with three bytes, open at its start.
abbrev three : Entry
three = record { name = 97 ∷ []; contents = some (λ _. 9); size = 3; cap = 256; used = true }

abbrev one_file : RamFs
one_file = record no_files { ents = put (λ _. blank) 0 three; opened = 1 }

-- The RAM file system at /r.
abbrev no_ops : FileOps RamFs
no_ops = record {
  open_file = none;
  read = none;
  write = none;
  close = none;
  stat = none;
  lseek = none;
  listdir = none;
}

abbrev free_mount : Mount RamFs
free_mount = record { path = []; ops = no_ops; fs = 0; used = false; plen = 0 }

abbrev ram_mount : Mount RamFs
ram_mount = record { path = 47 ∷ 114 ∷ []; ops = ramfs_ops heap; fs = 0; used = true; plen = 2 }

abbrev mounted : Vfs RamFs
mounted = record {
  mounts = put (λ _. free_mount) 0 ram_mount;
  fds = λ _. record { used = false; ops = no_ops; file = none };
  world = no_files;
}

-- /r/a
abbrev file_path : Text
file_path = 47 ∷ 114 ∷ 47 ∷ 97 ∷ []

abbrev opened_disk : Vfs RamFs
opened_disk = (vfs_open file_path 256 mounted).0

abbrev written : Vfs RamFs
written = (vfs_write (pos 0) (7 ∷ 8 ∷ []) opened_disk).0

vfs_open-write-read_example :
    let (v3, np) = vfs_lseek (pos 0) (pos 0) 0 written in
    (◌≡◌ {A = ℕ} 2 2)
    × (np ≡ pos 0)
    × ((vfs_read (pos 0) 2 v3).1 ≡ pos 2)
    × ((vfs_read (pos 0) 2 v3).2 ≡ 7 ∷ 8 ∷ [])
unfolding files
vfs_open-write-read_example =
    vfs_open-write-read heap file_path (97 ∷ []) 256 0 0 2 (7 ∷ 8 ∷ []) mounted opened_disk written
      refl no_files-IsValid refl refl refl (omega arith) refl

-- Read-only files.
abbrev rom : RomWorld
rom = record {
  tables = λ _. record {
    ents = some (λ _. record { name = 97 ∷ []; contents = λ i. i; size = 4 });
    nents = 1;
    capacity = 1;
    owned = false;
  };
  made = 1;
  inited = false;
  files = λ _. record { fs = 1; ent = 0; offset = 0 };
  opened = 1;
}

-- The table of devices with one device.
abbrev no_devices : Devices
no_devices = record { slot = λ _. record { name = []; class = 0; drv = 0 }; n = 0 }

abbrev one_device : Devices
one_device = (itt_device_add (some (97 ∷ [])) 2 5 no_devices).0

itt_device_add-IsAdded_example :
    Registry.IsAdded (98 ∷ []) 2 6 one_device (itt_device_add (some (98 ∷ [])) 2 6 one_device).0
unfolding files
itt_device_add-IsAdded_example =
    itt_device_add-IsAdded (98 ∷ []) 2 6 one_device
      (itt_device_add (some (98 ∷ [])) 2 6 one_device).0
      (record { room = omega arith; unique = λ i j l m. absurd (omega arith) }) refl
