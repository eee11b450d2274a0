-- ===== src/Rdyq/Marks.antt =====
-- The bitmap of kernel/rdyq.h as a table of marks, one for each priority line.
use Prim.Native.Nat.{bit_and, bit_or}
use ittrium.Common.{
  ℕ, zero, suc, ◌+◌, ◌-◌, ◌*◌, ◌/◌, ◌%◌, ◌^◌, ◌≤◌, ◌<◌, ◌≡◌, ◌≢◌, ◌∙◌, arith, ltb, ◌==◌, ◌&&◌,
  if◌then◌else◌, put, Bool-cases, inl, inr, ==_iff,
}
use native.Mathlib.Decide.{dec_lt}
use native.Mathlib.Nat.{le_trans}
use ittrium.Types.{Config}
use ittrium.Rdyq.{num_bitmap, scan_bitmap}
use ittrium.Rdyq.Bits.{bit, bit-bit_or, bit-pow, bit-clear, bit-zero, bit-le-one, lt-pow_of_bits}
use ittrium.Rdyq.Ffs.{IsLowest, ffs-IsLowest}

module _ ⦃c : Config⦄ where
  -- The bit that belongs in place `j` of word `i`.
  abbrev pub expected : (ℕ → ℕ) → ℕ → ℕ → ℕ
  expected m i j = if ltb j 16 && ltb (i * 16 + j) c.tmax_tpri then m (i * 16 + j) else 0

  -- The bitmap holds the marks `m`, each 0 or 1.
  pub record Marks (bitmap m : ℕ → ℕ) : Type 0 where
    pub marked : (i j : ℕ) → i < num_bitmap → bit j (bitmap i) ≡ expected m i j

  pub Marks-set :
      (bitmap m : ℕ → ℕ) (p : ℕ)
      → p < c.tmax_tpri
      → Marks bitmap m
      → Marks (put bitmap (p / 16) (bit_or (bitmap (p / 16)) (2 ^ (p % 16)))) (put m p 1)
  Marks-set bitmap m p lt k = record { marked = go }
    where
      go :
          (i j : ℕ)
          → i < num_bitmap
          → bit j (put bitmap (p / 16) (bit_or (bitmap (p / 16)) (2 ^ (p % 16))) i)
            ≡ expected (put m p 1) i j
      go i j l = ground (
        arith,
        k.marked i j l,
        bit-bit_or j (bitmap (p / 16)) (2 ^ (p % 16)),
        bit-pow j (p % 16),
        bit-le-one j (bitmap i),
      )

  pub Marks-clear :
      (bitmap m : ℕ → ℕ) (p : ℕ)
      → p < c.tmax_tpri
      → Marks bitmap m
      → Marks
          (put bitmap (p / 16) (bit_and (bitmap (p / 16)) (2 ^ 32 - 1 - 2 ^ (p % 16))))
          (put m p 0)
  Marks-clear bitmap m p lt k = record { marked = go }
    where
      go :
          (i j : ℕ)
          → i < num_bitmap
          → bit j (put bitmap (p / 16) (bit_and (bitmap (p / 16)) (2 ^ 32 - 1 - 2 ^ (p % 16))) i)
            ≡ expected (put m p 0) i j
      go i j l =
          ground
            (arith, k.marked i j l, bit-clear j (p % 16) (bitmap (p / 16)), bit-le-one j (bitmap i))

  -- `r` is the first marked line from `i` words on, or TMAX_TPRI.
  pub record IsFirst (m : ℕ → ℕ) (i r : ℕ) : Type 0 where
    pub bound : r ≤ c.tmax_tpri
    pub below : (p : ℕ) → i * 16 ≤ p → p < r → m p ≡ 0
    pub set : r < c.tmax_tpri → m r ≡ 1

  word-zero :
      (bitmap m : ℕ → ℕ) (i : ℕ)
      → Marks bitmap m
      → i < num_bitmap
      → bitmap i ≡ 0
      → (p : ℕ) → i * 16 ≤ p
      → p < (i + 1) * 16
      → p < c.tmax_tpri
      → m p ≡ 0
  word-zero bitmap m i k l z p a b d =
      ground (arith, k.marked i (p - i * 16) l, bit-zero (p - i * 16))

  word-lowest :
      (bitmap m : ℕ → ℕ) (i j : ℕ)
      → Marks bitmap m
      → i < num_bitmap
      → IsLowest (bitmap i) j
      → IsFirst m i (i * 16 + j)
  word-lowest bitmap m i j k l low = record {
    bound = ground (arith, low.set, k.marked i j l);
    below = λ p a b.
        ground (arith, low.set, k.marked i j l, low.below (p - i * 16), k.marked i (p - i * 16) l);
    set = λ _. ground (arith, low.set, k.marked i j l);
  }

  word-bound : (bitmap m : ℕ → ℕ) (i : ℕ) → Marks bitmap m → i < num_bitmap → bitmap i < 2 ^ 32
  word-bound bitmap m i k l = lt-pow_of_bits 32 (bitmap i) (λ j h. k.marked i j l ∙ ground arith)

  IsFirst-next :
      (bitmap m : ℕ → ℕ) (i r : ℕ)
      → Marks bitmap m
      → i < num_bitmap
      → bitmap i ≡ 0
      → IsFirst m (i + 1) r
      → IsFirst m i r
  IsFirst-next bitmap m i r k l z f = record {
    bound = f.bound;
    below = λ p a b. elim (dec_lt p ((i + 1) * 16)) [
      | yes inside ↦ word-zero bitmap m i k l z p a inside (le_trans b f.bound)
      | no outside ↦ f.below p (omega arith) b
    ];
    set = f.set;
  }

  -- If the bitmap marks the lines by m and n words are left from word i on, the scan of rdyq_remove
  -- from word i returns the first marked priority of these words, or TMAX_TPRI if none is marked.
  pub scan_bitmap-IsFirst :
      (bitmap m : ℕ → ℕ) (n i : ℕ)
      → i + n ≡ num_bitmap
      → Marks bitmap m
      → IsFirst m i (scan_bitmap bitmap n i)
  unfolding scan_bitmap
  scan_bitmap-IsFirst bitmap m zero i e k = record {
    bound = omega arith;
    below = λ p a b. absurd (omega arith);
    set = λ h. absurd (omega arith);
  }
  scan_bitmap-IsFirst bitmap m (suc n) i e k = elim (Bool-cases (bitmap i == 0)) [
    | inl empty ↦ rw empty (
        IsFirst-next bitmap m i _ k (omega arith) ((==_iff _ _).0 empty)
          (scan_bitmap-IsFirst bitmap m n (i + 1) (omega arith) k))
    | inr some_bit ↦
        let l : i < num_bitmap = omega arith in
        let (j, found, low) =
          ffs-IsLowest (bitmap i) (λ z. cc ((==_iff _ 0).1 z)) (word-bound bitmap m i k l) in
        rw (some_bit, found) (word-lowest bitmap m i j k l low)
  ]

  -- A line gets its first task: the best priority is the smaller of the two.
  pub IsFirst-set :
      (m : ℕ → ℕ) (p r : ℕ)
      → p < c.tmax_tpri
      → IsFirst m 0 r
      → IsFirst (put m p 1) 0 (if ltb p r then p else r)
  IsFirst-set m p r lt f = record {
    bound = ground (arith, f.bound);
    below = λ q a b. ground (arith, f.below q);
    set = λ h. ground (arith, f.set);
  }

  -- A line other than the best one loses its last task.
  pub IsFirst-clear_other : (m : ℕ → ℕ) (p r : ℕ) → p ≢ r → IsFirst m 0 r → IsFirst (put m p 0) 0 r
  IsFirst-clear_other m p r n f = record {
    bound = f.bound;
    below = λ q a b. ground (arith, f.below q);
    set = λ h. ground (arith, f.set);
  }

  -- The best line loses its last task: what comes first from its word on comes first at all.
  pub IsFirst-clear_top :
      (m : ℕ → ℕ) (p r : ℕ)
      → IsFirst m 0 p
      → IsFirst (put m p 0) (p / 16) r
      → IsFirst (put m p 0) 0 r
  IsFirst-clear_top m p r f g = record {
    bound = g.bound;
    below = λ q a b. ground (arith, f.below q, g.below q);
    set = g.set;
  }
