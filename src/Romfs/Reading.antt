-- ===== src/Romfs/Reading.antt =====
-- Reading a file of services/vfs/romfs.c in pieces.
use ittrium.Common.{
  ℕ, zero, suc, ◌+◌, ◌-◌, ◌%◌, ◌^◌, ◌≤◌, ◌<◌, ◌≡◌, ◌∙◌, sym, ap, refl, arith, some, ◌∷◌, ◌++◌, ltb,
  leb, put, if◌then◌else◌, Bool-cases, inl, inr,
}
use ittrium.Common.Int.{pos, pos_part}
use ittrium.FileOps.{Bytes, slice}
use ittrium.Romfs.{RomEntry, RomFile, RomWorld, entry_of, entry_at, rom_read}

slice-add : (b : Bytes) (m i n : ℕ) → slice b i (m + n) ≡ slice b i m ++ slice b (i + m) n
slice-add b zero i n =
    let x : 0 + n ≡ n = omega arith in
    let y : i ≡ i + 0 = omega arith in ap (slice b i) x ∙ ap (λ j. slice b j n) y
slice-add b (suc m) i n =
    let x : suc m + n ≡ suc (m + n) = omega arith in
    let y : suc i + m ≡ i + suc m = omega arith in
    ap (slice b i) x
    ∙ ap (λ l. b i ∷ l) (slice-add b m (suc i) n ∙ ap (λ j. slice b (suc i) m ++ slice b j n) y)

-- The number of bytes that rom_read copies.
abbrev bytes_read : ℕ → ℕ → ℕ → ℕ
bytes_read size at len = if ltb (size - at) len then size - at else len

abbrev file_at : ℕ → RomWorld → RomEntry
file_at f r = entry_of (r.files f) r

-- What a read at an offset inside the file does.
record IsPiece (f len : ℕ) (r : RomWorld) : Type 0 where
  result : (rom_read (some f) len r).1 ≡ pos (bytes_read (file_at f r).size (r.files f).offset len)
  copied :
      (rom_read (some f) len r).2
      ≡ slice
          (file_at f r).contents
          (r.files f).offset
          (bytes_read (file_at f r).size (r.files f).offset len)
  moved :
      ((rom_read (some f) len r).0.files f).offset
      ≡ (r.files f).offset + bytes_read (file_at f r).size (r.files f).offset len
  same_file : file_at f (rom_read (some f) len r).0 ≡ file_at f r

rom_read-IsPiece :
    (f len : ℕ) (r : RomWorld)
    → (r.files f).offset ≤ (file_at f r).size
    → (file_at f r).size < 2 ^ 64
    → IsPiece f len r
unfolding rom_read
rom_read-IsPiece f len r l m = elim (Bool-cases (leb (file_at f r).size (r.files f).offset)) [
  | inl end ↦
      let none_read : 0 ≡ bytes_read (file_at f r).size (r.files f).offset len = ground arith in
      record {
        result = rw end (ap pos none_read);
        copied = rw end (ap (slice (file_at f r).contents (r.files f).offset) none_read);
        moved = rw end (omega arith);
        same_file = rw end refl;
      }
  | inr more ↦
      let k = bytes_read (file_at f r).size (r.files f).offset len in
      let within : k ≤ (file_at f r).size - (r.files f).offset = ground arith in
      let exact : ((r.files f).offset + k) % 2 ^ 64 ≡ (r.files f).offset + k =
        omega (arith, within, m) in
      let cell : RomFile = record (r.files f) { offset = ((r.files f).offset + k) % 2 ^ 64 } in
      let here : put r.files f cell f ≡ cell = put-here r.files f cell in
      record {
        result = rw more refl;
        copied = rw more refl;
        moved = rw more (ap (λ (x : RomFile). x.offset) here ∙ exact);
        same_file = rw more (ap (λ (x : RomFile). entry_at (r.tables x.fs) x.ent) here);
      }
]
  where
    put-here : (t : ℕ → RomFile) (i : ℕ) (e : RomFile) → put t i e i ≡ e
    put-here t i e = ground arith

bytes_read-add :
    (size at m n : ℕ)
    → bytes_read size at (m + n)
      ≡ bytes_read size at m + bytes_read size (at + bytes_read size at m) n
bytes_read-add size at m n = ground arith

-- In a file whose size fits in size_t and whose place is not behind its end, reading m bytes and
-- then n bytes gives the bytes, their number and the place that reading m + n bytes at once gives.
pub rom_read-add :
    (f m n : ℕ) (r : RomWorld)
    → (r.files f).offset ≤ (entry_of (r.files f) r).size
    → (entry_of (r.files f) r).size < 2 ^ 64
    → let (r1, p, a) = rom_read (some f) m r in
      let (r2, q, b) = rom_read (some f) n r1 in
      let (r3, s, c) = rom_read (some f) (m + n) r in
      (a ++ b ≡ c)
      × (pos_part p + pos_part q ≡ pos_part s)
      × ((r2.files f).offset ≡ (r3.files f).offset)
rom_read-add f m n r l k =
    let one = rom_read-IsPiece f m r l k in
    let r1 = (rom_read (some f) m r).0 in
    let at = (r.files f).offset in
    let size = (file_at f r).size in
    let x = bytes_read size at m in
    let within : at + x ≤ size = ground arith in
    let all = rom_read-IsPiece f (m + n) r l k in
    let two = rom_read-IsPiece f n r1 (rw (one.moved, one.same_file) within) (rw one.same_file k) in
    let y = bytes_read size (at + x) n in
    let left : bytes_read (file_at f r1).size (r1.files f).offset n ≡ y =
      ap (λ (e : RomEntry). bytes_read e.size (r1.files f).offset n) one.same_file
      ∙ ap (λ o. bytes_read size o n) one.moved in
    let copied : (rom_read (some f) n r1).2 ≡ slice (file_at f r).contents (at + x) y =
      two.copied
      ∙ ap (slice (file_at f r1).contents (r1.files f).offset) left
      ∙ ap (λ (e : RomEntry). slice e.contents (r1.files f).offset y) one.same_file
      ∙ ap (λ o. slice (file_at f r).contents o y) one.moved in
    let sum = bytes_read-add size at m n in
    (
      ap (λ z. z ++ (rom_read (some f) n r1).2) one.copied
          ∙ ap (λ z. slice (file_at f r).contents at x ++ z) copied
          ∙ sym (slice-add (file_at f r).contents x at y)
          ∙ ap (slice (file_at f r).contents at) (sym sum)
          ∙ sym all.copied,
      omega (
        arith,
        ap pos_part one.result,
        ap pos_part two.result,
        left,
        ap pos_part all.result,
        sum,
      ),
      omega (arith, one.moved, two.moved, left, all.moved, sum),
    )
