-- ===== src/Ramfs/Bounds.antt =====
-- The bounds of the blocks in services/vfs/ramfs.c, and how rf_write grows them.
use ittrium.Common.{
  ℕ, zero, suc, ◌+◌, ◌*◌, ◌%◌, ◌^◌, ◌≤◌, ◌<◌, ◌≡◌, ◌⊎◌, sym, ap, refl, arith, Option, none, some,
  some_inj, List, length, ltb, ◌==◌, put, not, if◌then◌else◌, Bool-cases, Option-cases, inl, inr,
  subst,
}
use ittrium.Common.Int.{pos}
use ittrium.FileOps.{Heap, Bytes, splice, failed}
use ittrium.Ramfs.{
  Entry, RamFile, RamFs, set_ent, set_offset, double_until, new_cap, grow, rf_write,
}

-- The size of a file is within its block, which is no larger than a file may be; a file without a
-- block has the capacity 0.
pub record IsBounded (e : Entry) : Type 0 where
  pub within : e.size ≤ e.cap
  pub small : e.cap ≤ 4096
  pub null_cap : e.contents ≡ none → e.cap ≡ 0
  pub short : length e.name ≤ 47

pub record IsValid (r : RamFs) : Type 0 where
  pub entries : (i : ℕ) → IsBounded (r.ents i)
  pub offsets : (f : ℕ) → (r.files f).offset ≤ 4096

pub put-all {ℓ} :
    {A : Type 0} (P : A → Type ℓ) (t : ℕ → A) (i : ℕ) (v : A)
    → P v
    → ((j : ℕ) → P (t j))
    → (j : ℕ) → P (put t i v j)
put-all P t i v p q j = elim (Bool-cases (i == j)) [ inl e ↦ rw e p | inr e ↦ rw e (q j) ]

pub set_ent-IsValid :
    (r : RamFs) (i : ℕ) (e : Entry) → IsValid r → IsBounded e → IsValid (set_ent i e r)
set_ent-IsValid r i e v b = record {
  entries = put-all IsBounded r.ents i e b v.entries;
  offsets = v.offsets;
}

pub set_offset-IsValid : (r : RamFs) (f n : ℕ) → IsValid r → n ≤ 4096 → IsValid (set_offset f n r)
set_offset-IsValid r f n v l = record {
  entries = v.entries;
  offsets =
      put-all (λ (x : RamFile). x.offset ≤ 4096) r.files f (record (r.files f) { offset = n }) l
        v.offsets;
}

-- Doubling a positive capacity `fuel` times adds at least `fuel` to it.
double_until-le :
    (fuel need ncap : ℕ) → 0 < ncap → need ≤ ncap + fuel → need ≤ double_until fuel need ncap
unfolding double_until
double_until-le zero need ncap p l = omega arith
double_until-le (suc fuel) need ncap p l =
    ground (arith, double_until-le fuel need (2 * ncap) (omega arith) (omega arith))

pub new_cap_bounds :
    (cap need : ℕ) → need ≤ 4096 → (need ≤ new_cap cap need) × (new_cap cap need ≤ 4096)
unfolding new_cap
new_cap_bounds cap need l = ground (
  arith,
  double_until-le need need (if not (cap == 0) then cap * 2 else 256) (ground arith) (ground arith),
)

module _ (h : Heap) where
  -- What grow gives: the old file in a block with room for `need` bytes.
  pub record IsGrown (need : ℕ) (e e' : Entry) : Type 0 where
    pub room : need ≤ e'.cap
    pub bounded : IsBounded e'
    pub same_size : e'.size ≡ e.size
    pub same_name : e'.name ≡ e.name
    pub same_used : e'.used ≡ e.used
    pub copied :
        (b : Bytes)
        → e.contents ≡ some b
        → (b' : Bytes) × (e'.contents ≡ some b') × ((i : ℕ) → i < e.cap → b' i ≡ b i)

  -- The entry in a new block.
  abbrev pub moved : ℕ → Entry → Entry
  moved need e = record e {
    contents =
        some (elim (e.contents) [
          | none ↦ h.junk
          | some b ↦ λ i. if ltb i e.cap then b i else h.junk i
        ]);
    cap = new_cap e.cap need;
  }

  moved-IsGrown :
      (need : ℕ) (e : Entry)
      → need ≤ 4096
      → IsBounded e
      → e.cap < need
      → IsGrown need e (moved need e)
  moved-IsGrown need e l v less =
      let (a, b) = new_cap_bounds e.cap need l in
      record {
        room = a;
        bounded = record {
          within = let w = v.within in omega arith;
          small = b;
          null_cap = λ n. cc (n);
          short = v.short;
        };
        same_size = refl;
        same_name = refl;
        same_used = refl;
        copied = λ b c.
            (λ i. if ltb i e.cap then b i else h.junk i, rw c refl, λ i l. ground (arith, l));
      }

  pub grow-IsGrown :
      (need : ℕ) (e e' : Entry)
      → need ≤ 4096
      → IsBounded e
      → grow h need e ≡ some e'
      → IsGrown need e e'
  unfolding grow
  grow-IsGrown need e e' l v q = elim (Bool-cases (ltb e.cap need)) [
    | inr full ↦
        let same : e ≡ e' = some_inj (rw full at q) in
        subst (λ x. IsGrown need e x) same
          (record {
            room = ground arith;
            bounded = v;
            same_size = refl;
            same_name = refl;
            same_used = refl;
            copied = λ b c. (b, c, λ i _. refl);
          })
    | inl less ↦ elim (Bool-cases (h.grants (new_cap e.cap need))) [
      | inr no_room ↦ cc (rw (less, no_room) at q)
      | inl given ↦
          let same : moved need e ≡ e' = some_inj (rw (less, given) at q) in
          subst (λ x. IsGrown need e x) same (moved-IsGrown need e l v (ground arith))
    ]
  ]

  -- What a write leaves in the entry.
  abbrev pub written : ℕ → ℕ → List ℕ → Entry → Entry
  written at end buf e = record e {
    contents = elim (e.contents) [ none ↦ none | some b ↦ some (splice at buf b) ];
    size = if ltb e.size end then end else e.size;
  }

  abbrev pub stored : ℕ → ℕ → List ℕ → Entry → RamFs → RamFs
  stored f end buf e r =
      set_offset f end (set_ent (r.files f).ent (written (r.files f).offset end buf e) r)

  written-IsBounded :
      (at : ℕ) (buf : List ℕ) (e : Entry)
      → IsBounded e
      → at + length buf ≤ e.cap
      → IsBounded (written at (at + length buf) buf e)
  written-IsBounded at buf e v l = record {
    within = let w = v.within in ground arith;
    small = v.small;
    null_cap = λ n. v.null_cap (kept (e.contents) n);
    short = v.short;
  }
    where
      kept :
          (c : Option Bytes)
          → elim c as (λ _. Option Bytes) [ none ↦ none | some b ↦ some (splice at buf b) ] ≡ none
          → c ≡ none
      kept none n = refl
      kept (some b) n = cc (n)

  -- A write that succeeds: the entry it found, grown and written.
  pub record IsWrite (f : ℕ) (buf : List ℕ) (r r' : RamFs) : Type 0 where
    pub grown : Entry
    pub fits : (r.files f).offset + length buf ≤ 4096
    pub grows : IsGrown ((r.files f).offset + length buf) (r.ents (r.files f).ent) grown
    pub result : r' ≡ stored f ((r.files f).offset + length buf) buf grown r

  pub rf_write-cases :
      (f : ℕ) (buf : List ℕ) (r : RamFs)
      → IsValid r
      → (r.files f).offset + length buf < 2 ^ 64
      → (rf_write h (some f) buf r ≡ (r, failed))
        ⊎ ((r' : RamFs) × (rf_write h (some f) buf r ≡ (r', pos (length buf))) × IsWrite f buf r r')
  unfolding rf_write
  rf_write-cases f buf r v l =
      let at = (r.files f).offset in
      let e0 = r.ents (r.files f).ent in
      let exact : (at + length buf) % 2 ^ 64 ≡ at + length buf = omega (arith, l) in
      elim (Bool-cases (ltb 4096 (at + length buf))) [
        | inl big ↦ inl (rw (exact, big) refl)
        | inr small ↦ elim (Option-cases (grow h (at + length buf) e0)) [
          | inl no_room ↦ inl (rw (exact, small, no_room) refl)
          | inr (e, given) ↦ inr (
            stored f (at + length buf) buf e r,
            rw (exact, small, given) (ap (λ m. (stored f m buf e r, pos (length buf))) exact),
            record {
              grown = e;
              fits = ground arith;
              grows = grow-IsGrown (at + length buf) e0 e (ground arith) (v.entries _) given;
              result = refl;
            },
          )
        ]
      ]

  pub IsWrite-IsValid :
      {f : ℕ} {buf : List ℕ} {r r' : RamFs} → IsValid r → IsWrite f buf r r' → IsValid r'
  IsWrite-IsValid {f} {buf} {r} {r'} v w =
      let b = written-IsBounded (r.files f).offset buf w.grown w.grows.bounded w.grows.room in
      subst IsValid (sym w.result)
        (set_offset-IsValid _ f _ (set_ent-IsValid r (r.files f).ent _ v b) w.fits)
