-- ===== src/Elf/Failure.antt =====
-- What elf_run of services/elf/elf_load.c gives back when it fails behind the loader.
use ittrium.Common.{ℕ, ◌≡◌, ◌⊎◌, Bool, some, ◌∷◌}
use ittrium.Text.{Text}
use ittrium.Elf.Files.{ElfImage, Blocks}
use ittrium.Elf.Modules.{ElfState, free_stack}

module _ {W : Type 0} where
  -- The modules are as before, and the image and a stack of elf_run's own are freed.
  record IsBack (img : ElfImage) (owned : Bool) (stack : ℕ) (s s' : ElfState W) : Type 0 where
    mods : s'.mods ≡ s.mods
    freed : s'.freed ≡ img.base ∷ free_stack owned stack s.freed

  -- The modules are as before, and the image is freed, and before it the stack if malloc gave one.
  pub record IsUndone (h : Blocks) (stksz base : ℕ) (s s' : ElfState W) : Type 0 where
    pub mods : s'.mods ≡ s.mods
    pub freed :
        (s'.freed ≡ base ∷ s.freed)
        ⊎ ((a : ℕ) × (h.malloc stksz ≡ some a) × (s'.freed ≡ base ∷ a ∷ s.freed))
