-- ===== src/Rdyq/Ffs.antt =====
-- `_ffs` of kernel/rdyq.h and the lowest set bit.
use native.Mathlib.Nat.{pow-suc}
use ittrium.Common.{
  ℕ, zero, suc, ◌+◌, ◌/◌, ◌%◌, ◌^◌, ◌<◌, ◌≡◌, ◌≢◌, ◌∙◌, ap, some, arith, ◌==◌, Bool-cases, inl, inr,
  ==_iff,
}
use ittrium.Rdyq.{ffs_loop, ffs}
use ittrium.Rdyq.Bits.{bit, bit_and-one}

-- Bit `k` of `w` is set, and no lower one.
pub record IsLowest (w k : ℕ) : Type 0 where
  pub set : bit k w ≡ 1
  pub below : (m : ℕ) → m < k → bit m w ≡ 0

IsLowest-zero : (w : ℕ) → w % 2 ≢ 0 → IsLowest w 0
unfolding bit
IsLowest-zero w h = record { set = omega arith; below = λ m l. absurd (omega arith) }

IsLowest-suc : (w k : ℕ) → w % 2 ≡ 0 → IsLowest (w / 2) k → IsLowest w (suc k)
unfolding bit
IsLowest-suc w k e i = record { set = i.set; below = λ m l. below m l }
  where
    below : (m : ℕ) → m < suc k → bit m w ≡ 0
    below zero l = e
    below (suc m) l = i.below m (omega arith)

pub ffs_loop-IsLowest :
    (n i j : ℕ) → i ≢ 0 → i < 2 ^ n → (k : ℕ) × (ffs_loop n i j ≡ some (j + k)) × IsLowest i k
unfolding ffs_loop
ffs_loop-IsLowest zero i j ne lt = absurd (ne (omega arith))
ffs_loop-IsLowest (suc n) i j ne lt = elim (Bool-cases (i % 2 == 0)) [
  | inl even ↦
      let e : i % 2 ≡ 0 = (==_iff _ _).0 even in
      let (k, found, low) =
        ffs_loop-IsLowest n (i / 2) (j + 1) (λ z. ne (omega arith)) (omega (arith, pow-suc 2 n)) in
      (suc k, rw (bit_and-one i, even, found) (ap some (omega arith)), IsLowest-suc i k e low)
  | inr odd ↦ (0, rw (bit_and-one i, odd) (ap some (omega arith)), IsLowest-zero i (ground arith))
]

-- On a 32-bit word other than 0, _ffs ends and returns the index of the lowest bit that is set.
pub ffs-IsLowest : (i : ℕ) → i ≢ 0 → i < 2 ^ 32 → (k : ℕ) × (ffs i ≡ some k) × IsLowest i k
unfolding ffs
ffs-IsLowest i ne lt =
    let (k, found, low) = ffs_loop-IsLowest 32 i 0 ne lt in (k, found ∙ ap some (omega arith), low)
