-- ===== src/Elf.antt =====
-- services/elf/elf_load.c: program files. Addresses are numbers below 2 ^ 64, memory is a function on
-- them, a file in its own block is a function on offsets.
pub mod Headers
pub mod Files
pub mod Reading
pub mod Relocation
pub mod Loader
pub mod Modules
pub mod Bounds
pub mod Relocs
pub mod Kill
pub mod Failure
