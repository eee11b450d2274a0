-- ===== src/Elf/Bounds.antt =====
-- Where the loaders of services/elf/elf_load.c write, and what they write there.
use ittrium.Common.{
  ℕ, zero, suc, ◌+◌, ◌-◌, ◌^◌, ◌≤◌, ◌<◌, ◌≡◌, ◌∙◌, ◌↔◌, sym, ap, refl, arith, Bool, true, false,
  ◌||◌, not, ltb, leb, ◌==◌, if◌then◌else◌, if-elim, Bool-cases, Option-cases, inl, inr, subst,
  ℕ_discrete,
}
use ittrium.FileOps.{Bytes}
use ittrium.Elf.Headers.{add64, le, Ehdr, Phdr, phdr_at, within, clear, copy_in}
use ittrium.Elf.Files.{ElfImage, Blocks, load_itrm}
use ittrium.Elf.Loader.{
  in_exec_window, elf_load_base, elf_load_size, is_load, all_in_window, load_segment, load_one,
  load_segments, place_fixed, Scan,
}

-- What an ITRM image is after load_itrm.
pub record IsItrm (file : Bytes) (fsz a : ℕ) (m m' : Bytes) (img : ElfImage) : Type 0 where
  pub in_file : 12 + img.size ≤ fsz
  pub starts : img.base ≤ img.entry
  pub inside : img.entry < img.base + img.size
  pub owned : img.owned ≡ true
  pub memory : m' a ≡ (if within img.base img.size a then file (12 + (a - img.base)) else m a)

-- If load_itrm succeeds, the image lies behind the header within the file, its entry point lies in
-- the image, the image is owned, and memory holds the bytes of the file in the image and what it
-- held before elsewhere.
pub load_itrm-IsItrm :
    (h : Blocks) (file : Bytes) (fsz a : ℕ) (m m' : Bytes) (img : ElfImage)
    → load_itrm h file fsz m ≡ (m', true, img)
    → IsItrm file fsz a m m' img
unfolding load_itrm copy_in
load_itrm-IsItrm h file fsz a m m' img q =
    elim (Bool-cases (ltb fsz 12 || not (le 4 file 0 == 1297241161))) [
      | inl e ↦ cc (rw (e, load_itrm) at q)
      | inr magic ↦ elim (Bool-cases (ltb fsz (12 + le 4 file 8))) [
        | inl e ↦ cc (rw (magic, e, load_itrm) at q)
        | inr fits ↦ elim (Bool-cases (leb (le 4 file 8) (le 4 file 4))) [
          | inl e ↦ cc (rw (magic, fits, e, load_itrm) at q)
          | inr entry ↦ elim (Option-cases (h.malloc (le 4 file 8))) [
            | inl e ↦ cc (rw (magic, fits, entry, e, load_itrm) at q)
            | inr (b, e) ↦
                let s = rw (magic, fits, entry, e, load_itrm) at q in
                let image = ap (λ p. p.2) s in
                let memory = ap (λ p. p.0 a) s in
                subst (IsItrm file fsz a m m') image (record {
                  in_file = ground arith;
                  starts = omega arith;
                  inside = ground arith;
                  owned = refl;
                  memory = sym memory;
                })
          ]
        ]
      ]
    ]

-- For a segment that does not wrap round the end of the address space, in_exec_window accepts
-- exactly those that lie in the reserved window.
pub in_exec_window_iff :
    (vaddr memsz : ℕ)
    → vaddr + memsz < 2 ^ 64
    → (in_exec_window vaddr memsz ≡ true)
      ↔ ((elf_load_base ≤ vaddr) × (vaddr + memsz ≤ elf_load_base + elf_load_size))
unfolding in_exec_window
in_exec_window_iff vaddr memsz l =
    let exact : add64 vaddr memsz ≡ vaddr + memsz = omega (arith, l) in
    (λ e. (ground (arith, e), ground (arith, e, exact)), λ e. ground (arith, e, exact))

-- A segment from inside the address space that wraps round its end to at most the end of the window
-- is accepted by in_exec_window, however large it is.
pub in_exec_window_wraps :
    (vaddr memsz : ℕ)
    → elf_load_base ≤ vaddr
    → vaddr < 2 ^ 64
    → memsz < 2 ^ 64
    → 2 ^ 64 ≤ vaddr + memsz
    → vaddr + memsz ≤ 2 ^ 64 + elf_load_base + elf_load_size
    → in_exec_window vaddr memsz ≡ true
unfolding in_exec_window
in_exec_window_wraps vaddr memsz l a b c d =
    let exact : add64 vaddr memsz ≡ vaddr + memsz - 2 ^ 64 = omega (arith, a, b, c) in
    ground (arith, l, d, exact)

-- A segment at `dst` stays in the `len` bytes from `lo` on.
pub record Fits (lo len dst : ℕ) (p : Phdr) : Type 0 where
  pub above : lo ≤ dst
  pub below : dst + p.p_memsz ≤ lo + len
  pub file_part : p.p_filesz ≤ p.p_memsz

load_segment-outside :
    (wipe : Bool) (lo len dst a fsz : ℕ) (p : Phdr) (file m : Bytes)
    → Fits lo len dst p
    → within lo len a ≡ false
    → (load_segment wipe dst p file fsz m).0 a ≡ m a
unfolding load_segment clear copy_in
load_segment-outside wipe lo len dst a fsz p file m f out =
    ground (arith, f.above, f.below, f.file_part)

load_one-outside :
    (wipe : Bool) (lo len a fsz : ℕ) (move : ℕ → ℕ) (p : Phdr) (file m : Bytes)
    → (is_load p ≡ true → Fits lo len (move p.p_vaddr) p)
    → within lo len a ≡ false
    → (load_one wipe move p file fsz m).0 a ≡ m a
unfolding load_one
load_one-outside wipe lo len a fsz move p file m f out =
    if-elim (λ (r : Bytes × Bool). r.0 a ≡ m a) (is_load p)
      (λ used. load_segment-outside wipe lo len (move p.p_vaddr) a fsz p file m (f used) out)
      (λ _. refl)

-- Loading segments that stay in a region leaves the memory outside of it alone.
pub load_segments-outside :
    (n i lo len a fsz phoff : ℕ) (wipe : Bool) (move : ℕ → ℕ) (file m : Bytes)
    → ((k : ℕ)
        → i ≤ k
        → k < i + n
        → is_load (phdr_at file phoff k) ≡ true
        → Fits lo len (move (phdr_at file phoff k).p_vaddr) (phdr_at file phoff k))
    → within lo len a ≡ false
    → (load_segments n i wipe move file fsz phoff m).0 a ≡ m a
unfolding load_segments
load_segments-outside zero i lo len a fsz phoff wipe move file m f out = refl
load_segments-outside (suc n) i lo len a fsz phoff wipe move file m f out =
    let p = phdr_at file phoff i in
    let d = load_one wipe move p file fsz m in
    let one : d.0 a ≡ m a =
      load_one-outside wipe lo len a fsz move p file m (f i (omega arith) (omega arith)) out in
    elim (Bool-cases (d.1)) [
      | inr bad ↦ rw (bad, load_segments) one
      | inl ok ↦
          rw (ok, load_segments)
            (load_segments-outside n (suc i) lo len a fsz phoff wipe move file d.0
                (λ k x y. f k (omega arith) (omega arith)) out
              ∙ one)
    ]

all_in_window-each :
    (n i phoff k : ℕ) (file : Bytes)
    → all_in_window n i file phoff ≡ true
    → i ≤ k
    → k < i + n
    → is_load (phdr_at file phoff k) ≡ true
    → in_exec_window (phdr_at file phoff k).p_vaddr (phdr_at file phoff k).p_memsz ≡ true
unfolding all_in_window
all_in_window-each zero i phoff k file e l m p = absurd (omega arith)
all_in_window-each (suc n) i phoff k file e l m p = elim (ℕ_discrete i k) [
  | yes q ↦
      subst
        (λ (k : ℕ).
          is_load (phdr_at file phoff k) ≡ true
          → in_exec_window (phdr_at file phoff k).p_vaddr (phdr_at file phoff k).p_memsz ≡ true)
        q (λ used. ground (arith, e, used)) p
  | no q ↦
      all_in_window-each n (suc i) phoff k file (ground (arith, e)) (omega arith) (omega arith) p
]

-- If place_fixed is given a file whose segments all pass the test of the window, do not wrap round
-- the end of the address space and have no more bytes in the file than in memory, it leaves every
-- byte outside of the window alone.
pub place_fixed-outside :
    (eh : Ehdr) (s : Scan) (file m : Bytes) (fsz a : ℕ)
    → all_in_window eh.e_phnum 0 file eh.e_phoff ≡ true
    → ((k : ℕ)
        → k < eh.e_phnum
        → (phdr_at file eh.e_phoff k).p_vaddr + (phdr_at file eh.e_phoff k).p_memsz < 2 ^ 64)
    → ((k : ℕ)
        → k < eh.e_phnum
        → (phdr_at file eh.e_phoff k).p_filesz ≤ (phdr_at file eh.e_phoff k).p_memsz)
    → within elf_load_base elf_load_size a ≡ false
    → (place_fixed eh s file fsz m).0 a ≡ m a
unfolding place_fixed
place_fixed-outside eh s file m fsz a e whole part out =
    let r = load_segments eh.e_phnum 0 true (λ a. a) file fsz eh.e_phoff m in
    let kept =
      load_segments-outside eh.e_phnum 0 elf_load_base elf_load_size a fsz eh.e_phoff true (λ a. a)
        file m
        (λ k l b used.
          let (x, y) =
            (in_exec_window_iff (phdr_at file eh.e_phoff k).p_vaddr
                (phdr_at file eh.e_phoff k).p_memsz (whole k (omega arith))).0
              (all_in_window-each eh.e_phnum 0 eh.e_phoff k file e l b used) in
          record { above = x; below = y; file_part = part k (omega arith) })
        out in
    elim (Bool-cases (r.1)) [
      | inl ok ↦ rw (ok, place_fixed) kept
      | inr bad ↦ rw (bad, place_fixed) kept
    ]
