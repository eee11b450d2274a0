-- ===== src/Ramfs/Contents.antt =====
-- What a file of services/vfs/ramfs.c holds after rf_write, and what rf_read finds there.
use ittrium.Common.{
  ℕ, suc, ◌+◌, ◌-◌, ◌^◌, ◌≤◌, ◌<◌, ◌≡◌, ◌∙◌, sym, ap, refl, arith, false, Option, none, some, List,
  [], ◌∷◌, length, ltb, leb, if◌then◌else◌, Bool-cases, Option-cases, inl, inr, subst, subst₂,
}
use ittrium.Common.Int.{pos}
use ittrium.FileOps.{seek_to, Heap, Bytes, slice, splice, item}
use ittrium.Ramfs.{Entry, RamFile, RamFs, rf_write, rf_read, rf_lseek, set_offset}
use ittrium.Ramfs.Bounds.{IsValid, rf_write-cases, IsGrown, stored, written}

-- A slice is read byte by byte.
slice-eq :
    (buf : List ℕ) (b : Bytes) (i : ℕ)
    → ((j : ℕ) → i ≤ j → j < i + length buf → b j ≡ item buf (j - i))
    → slice b i (length buf) ≡ buf
slice-eq [] b i h = refl
slice-eq (x ∷ xs) b i h =
    let head : b i ≡ x = h i (omega arith) (omega arith) ∙ ap (item (x ∷ xs)) (zero_of i) in
    let rest =
      slice-eq xs b (suc i)
        (λ j l m. h j (omega arith) (omega arith) ∙ ap (item (x ∷ xs)) (suc_of i j l)) in
    cc (head, rest)
  where
    zero_of : (i : ℕ) → i - i ≡ 0
    zero_of i = omega arith

    suc_of : (i j : ℕ) → suc i ≤ j → j - i ≡ suc (j - suc i)
    suc_of i j l = omega arith

-- The bytes that were copied are read back.
pub slice-splice :
    (buf : List ℕ) (b : Bytes) (at : ℕ) → slice (splice at buf b) at (length buf) ≡ buf
slice-splice buf b at = slice-eq buf (splice at buf b) at (λ j l m. ground (arith, l, m))

-- The byte of a file at an offset.
pub byte_at : Entry → ℕ → Option ℕ
byte_at e k = elim (e.contents) [ none ↦ none | some b ↦ some (b k) ]

-- The file that is open as f.
abbrev pub file_of : ℕ → RamFs → Entry
file_of f r = r.ents (r.files f).ent

-- The number of bytes that rf_read copies, inside the file.
abbrev bytes_read : ℕ → ℕ → ℕ → ℕ
bytes_read size at len = if ltb (size - at) len then size - at else len

read_nothing :
    (f : ℕ) (r : RamFs) → ((rf_read (some f) 0 r).1 ≡ pos 0) × ((rf_read (some f) 0 r).2 ≡ [])
unfolding rf_read
read_nothing f r =
    let z : bytes_read (file_of f r).size (r.files f).offset 0 ≡ 0 = ground arith in
    elim (Bool-cases (leb (file_of f r).size (r.files f).offset)) [
      | inl end ↦ rw end (refl, refl)
      | inr more ↦ elim (Option-cases ((file_of f r).contents)) [
        | inl c ↦ rw (more, c) (ap pos z, refl)
        | inr (b, c) ↦ rw (more, c) (ap pos z, ap (slice b (r.files f).offset) z)
      ]
    ]

-- A read inside a file gives the bytes at its offset.
read_inside :
    (f : ℕ) (r : RamFs) (b : Bytes) (x : ℕ) (xs : List ℕ)
    → (file_of f r).contents ≡ some b
    → (r.files f).offset + suc (length xs) ≤ (file_of f r).size
    → slice b (r.files f).offset (suc (length xs)) ≡ x ∷ xs
    → ((rf_read (some f) (suc (length xs)) r).1 ≡ pos (suc (length xs)))
      × ((rf_read (some f) (suc (length xs)) r).2 ≡ x ∷ xs)
unfolding rf_read
read_inside f r b x xs c l q =
    let more : leb (file_of f r).size (r.files f).offset ≡ false = ground arith in
    let z : bytes_read (file_of f r).size (r.files f).offset (suc (length xs)) ≡ suc (length xs) =
      ground arith in
    rw (more, c) (ap pos z, ap (slice b (r.files f).offset) z ∙ q)

-- A seek to a place inside a file.
seek_inside :
    (f n : ℕ) (r : RamFs)
    → n ≤ (file_of f r).size
    → rf_lseek (some f) (pos n) 0 r ≡ (set_offset f n r, pos n)
unfolding rf_lseek seek_to
seek_inside f n r l =
    let z : (if ltb (file_of f r).size n then (file_of f r).size else n) ≡ n = ground arith in
    rw z refl

module _ (h : Heap) where
  grown_block :
      (need : ℕ) (e g : Entry) → 0 < need → IsGrown h need e g → (b : Bytes) × (g.contents ≡ some b)
  grown_block need e g l w = elim (Option-cases (g.contents)) [
    | inr c ↦ c
    | inl n ↦ let z = w.bounded.null_cap n in let q = w.room in absurd (omega arith)
  ]

  -- The file after a write.
  stored-files :
      (f end : ℕ) (buf : List ℕ) (e : Entry) (r : RamFs)
      → ((stored h f end buf e r).files f ≡ record (r.files f) { offset = end })
        × ((stored h f end buf e r).ents (r.files f).ent ≡ written h (r.files f).offset end buf e)
  stored-files f end buf e r = (ground arith, ground arith)

  abbrev ReadsBack : ℕ → ℕ → List ℕ → RamFs → Type 0
  ReadsBack f at buf r' =
      let (r2, np) = rf_lseek (some f) (pos at) 0 r' in
      (np ≡ pos at)
      × ((rf_read (some f) (length buf) r2).1 ≡ pos (length buf))
      × ((rf_read (some f) (length buf) r2).2 ≡ buf)

  -- A file with `buf` at the offset `at`.
  reads_back :
      (f at : ℕ) (b : Bytes) (x : ℕ) (xs : List ℕ) (r : RamFs)
      → (file_of f r).contents ≡ some b
      → at + suc (length xs) ≤ (file_of f r).size
      → slice b at (suc (length xs)) ≡ x ∷ xs
      → ReadsBack f at (x ∷ xs) r
  reads_back f at b x xs r c l q =
      let same : (set_offset f at r).files f ≡ record (r.files f) { offset = at } = ground arith in
      let ent : file_of f (set_offset f at r) ≡ file_of f r =
        ap (λ (x : RamFile). r.ents x.ent) same in
      let off : ((set_offset f at r).files f).offset ≡ at = ap (λ (x : RamFile). x.offset) same in
      let (i, j) =
        read_inside f (set_offset f at r) b x xs (ap (λ (e : Entry). e.contents) ent ∙ c)
          (subst₂ (λ (o : ℕ) (e : Entry). o + suc (length xs) ≤ e.size) (sym off) (sym ent) l)
          (subst (λ o. slice b o (suc (length xs)) ≡ x ∷ xs) (sym off) q) in
      rw (seek_inside f at r (omega arith)) (refl, i, j)

  stored-ReadsBack :
      (f : ℕ) (buf : List ℕ) (r : RamFs) (g : Entry)
      → IsGrown h ((r.files f).offset + length buf) (file_of f r) g
      → ReadsBack f (r.files f).offset buf (stored h f ((r.files f).offset + length buf) buf g r)
  stored-ReadsBack f buf r g w =
      let at = (r.files f).offset in
      let end = at + length buf in
      let s = stored h f end buf g r in
      let (file, ent) = stored-files f end buf g r in
      let e : file_of f s ≡ written h at end buf g =
        ap (λ (x : RamFile). s.ents x.ent) file ∙ ent in
      let room : end ≤ (file_of f s).size =
        subst (λ (x : Entry). end ≤ x.size) (sym e) (ground arith) in
      go buf s (written h at end buf g) e room (λ l.
        let (b, c) = grown_block end (file_of f r) g l w in
        (splice at buf b, rw c refl, slice-splice buf b at))
    where
      at : ℕ
      at = (r.files f).offset

      go :
          (buf : List ℕ) (s : RamFs) (e : Entry)
          → file_of f s ≡ e
          → at + length buf ≤ (file_of f s).size
          → (0 < at + length buf
              → (b : Bytes) × (e.contents ≡ some b) × (slice b at (length buf) ≡ buf))
          → ReadsBack f at buf s
      go [] s e q l k =
          let (i, j) = read_nothing f (set_offset f at s) in
          rw (seek_inside f at s (omega arith)) (refl, i, j)
      go (x ∷ xs) s e q l k =
          let (b, c, d) = k (omega arith) in
          reads_back f at b x xs s (ap (λ (e : Entry). e.contents) q ∙ c) l d

  -- If rf_write succeeds in a valid table at an offset that with the length does not wrap, it
  -- writes all of the bytes, and a seek back to the old offset followed by a read of as many bytes
  -- gives exactly these.
  pub rf_write-read :
      (f n : ℕ) (buf : List ℕ) (r r' : RamFs)
      → IsValid r
      → (r.files f).offset + length buf < 2 ^ 64
      → rf_write h (some f) buf r ≡ (r', pos n)
      → (n ≡ length buf) × ReadsBack f (r.files f).offset buf r'
  rf_write-read f n buf r r' v l q = elim (rf_write-cases h f buf r v l) [
    | inl e ↦ cc (e, q)
    | inr (r2, e, w) ↦
        let both = sym e ∙ q in
        let same : r2 ≡ r' = ap (λ p. p.0) both in
        (
          cc (both),
          subst (ReadsBack f (r.files f).offset buf) (sym w.result ∙ same)
              (stored-ReadsBack f buf r w.grown w.grows),
        )
  ]
