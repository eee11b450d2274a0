-- ===== src/Elf/Relocs.antt =====
-- Where apply_relocs of services/elf/elf_load.c writes.
use ittrium.Common.{
  ℕ, zero, suc, ◌+◌, ◌-◌, ◌*◌, ◌^◌, ◌≤◌, ◌<◌, ◌≡◌, ◌∙◌, refl, arith, false, Option, if-elim,
  Bool-cases, Option-cases, inl, inr,
}
use ittrium.FileOps.{Bytes}
use ittrium.Elf.Headers.{add64, le, rela_at, within, store64}
use ittrium.Elf.Relocation.{Symbols, bad_place, reloc_value, apply_relocs}

-- Memory that holds bytes.
abbrev pub AreBytes : Bytes → Type 0
AreBytes m = (a : ℕ) → m a < 256

le_8-lt : (m : Bytes) (a : ℕ) → AreBytes m → le 8 m a < 2 ^ 64
unfolding le
le_8-lt m a b = omega (
  arith,
  b a,
  b (suc a),
  b (suc (suc a)),
  b (suc (suc (suc a))),
  b (suc (suc (suc (suc a)))),
  b (suc (suc (suc (suc (suc a))))),
  b (suc (suc (suc (suc (suc (suc a)))))),
  b (suc (suc (suc (suc (suc (suc (suc a))))))),
)

store64-AreBytes : (a v : ℕ) (m : Bytes) → AreBytes m → AreBytes (store64 a v m)
unfolding store64
store64-AreBytes a v m b i =
    if-elim (λ (x : ℕ). x < 256) (within a 8 i) (λ _. omega arith) (λ _. b i)

store64-outside :
    (lo len at a v : ℕ) (m : Bytes)
    → lo ≤ at
    → at + 8 ≤ lo + len
    → within lo len a ≡ false
    → store64 at v m a ≡ m a
unfolding store64
store64-outside lo len at a v m l r out = ground (arith, l, r, out)

-- A place that passes the test lies in the image, if the lowest address is not below 8.
good_place :
    (off min_v span img : ℕ)
    → off < 2 ^ 64
    → 8 ≤ min_v
    → img + span < 2 ^ 64
    → bad_place off min_v span ≡ false
    → (img ≤ add64 img (off - min_v)) × (add64 img (off - min_v) + 8 ≤ img + span)
good_place off min_v span img a l b e =
    let low : min_v ≤ off = ground arith in
    let exact : add64 (off - min_v) 8 ≡ off - min_v + 8 = omega (arith, a, l, low) in
    let high : off - min_v + 8 ≤ span = ground (arith, e, exact) in
    let at : add64 img (off - min_v) ≡ img + (off - min_v) = omega (arith, b, high) in
    (omega (arith, at), omega (arith, at, high))

offset-lt : (m : Bytes) (rela i : ℕ) → AreBytes m → (rela_at m rela i).r_offset < 2 ^ 64
unfolding rela_at
offset-lt m rela i b = le_8-lt m (rela + 24 * i) b

-- In a memory of bytes, for an image whose lowest address is 8 at least and that does not wrap
-- round the end of the address space, apply_relocs leaves every byte outside of the image alone,
-- whether it succeeds or not.
pub apply_relocs-outside :
    (n i img min_v span slide rela a : ℕ) (syms : Option Symbols) (m : Bytes)
    → AreBytes m
    → 8 ≤ min_v
    → img + span < 2 ^ 64
    → within img span a ≡ false
    → (apply_relocs n i img min_v span slide rela syms m).0 a ≡ m a
unfolding apply_relocs
apply_relocs-outside zero i img min_v span slide rela a syms m b low whole out = refl
apply_relocs-outside (suc n) i img min_v span slide rela a syms m b low whole out =
    let r = rela_at m rela i in
    elim (Bool-cases (bad_place r.r_offset min_v span)) [
      | inl bad ↦ rw (bad, apply_relocs) refl
      | inr good ↦ elim (Option-cases (reloc_value slide syms r m)) [
        | inl e ↦ rw (good, e, apply_relocs) refl
        | inr (x, e) ↦
            let at = add64 img (r.r_offset - min_v) in
            let (l, h) =
              good_place r.r_offset min_v span img (offset-lt m rela i b) low whole good in
            rw (good, e, apply_relocs)
              (apply_relocs-outside n (suc i) img min_v span slide rela a syms (store64 at x m)
                  (store64-AreBytes at x m b) low whole out
                ∙ store64-outside img span at a x m l h out)
      ]
    ]

-- Where the lowest address is below k and k is at most 8, apply_relocs accepts the place whose
-- address k wraps to: it lies k bytes in front of the image.
pub bad_place_wraps :
    (min_v span img k : ℕ)
    → min_v < k
    → k ≤ 8
    → 8 ≤ span
    → k ≤ img
    → img < 2 ^ 64
    → let off = min_v + 2 ^ 64 - k in
      (off < 2 ^ 64) × (bad_place off min_v span ≡ false) × (add64 img (off - min_v) + k ≡ img)
bad_place_wraps min_v span img k l m s b w =
    let exact : add64 (min_v + 2 ^ 64 - k - min_v) 8 ≡ 8 - k = omega (arith, l, m) in
    (omega (arith, l), ground (arith, exact, l, m, s), omega (arith, l, m, b, w))
