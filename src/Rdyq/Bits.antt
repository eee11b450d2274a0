-- ===== src/Rdyq/Bits.antt =====
-- The bits of a word, and what the bit operations of kernel/rdyq.h do to each of them.
use Prim.Native.Nat.{bit_and, bit_or, min, max, digits, bit_and-bitwise, bit_or-bitwise}
use native.Mathlib.Nat.{pow-suc}
use ittrium.Common.{
  ℕ, zero, suc, ◌-◌, ◌/◌, ◌%◌, ◌^◌, ◌≤◌, ◌<◌, ◌≡◌, ◌∙◌, refl, ap, arith, ltb, ◌==◌, if◌then◌else◌,
  Bool-cases, inl, inr, ltb→lt,
}

-- Bit `j` of `w`, the lowest bit being 0.
unfoldable pub bit : ℕ → ℕ → ℕ
bit zero w = w % 2
bit (suc j) w = bit j (w / 2)

pub bit-le-one : (j w : ℕ) → bit j w ≤ 1
unfolding bit
bit-le-one zero w = omega arith
bit-le-one (suc j) w = bit-le-one j (w / 2)

pub bit-zero : (j : ℕ) → bit j 0 ≡ 0
unfolding bit
bit-zero zero = refl
bit-zero (suc j) = bit-zero j

and_digits-bit :
    (j n a b : ℕ) → a ≤ n → bit j (digits (λ _. zero) min n a b) ≡ min (bit j a) (bit j b)
unfolding bit
and_digits-bit j zero zero b h = omega (arith, bit-zero j)
and_digits-bit j zero (suc a) b h = absurd (omega arith)
and_digits-bit j (suc n) zero b h = omega (arith, bit-zero j)
and_digits-bit zero (suc n) (suc a) b h = omega arith
and_digits-bit (suc j) (suc n) (suc a) b h =
    let d = digits (λ _. zero) min n (suc a / 2) (b / 2) in
    ap (bit j) {y = d} (omega arith) ∙ and_digits-bit j n (suc a / 2) (b / 2) (omega arith)

or_digits-bit : (j n a b : ℕ) → a ≤ n → bit j (digits (λ b. b) max n a b) ≡ max (bit j a) (bit j b)
unfolding bit
or_digits-bit j zero zero b h = omega (arith, bit-zero j)
or_digits-bit j zero (suc a) b h = absurd (omega arith)
or_digits-bit j (suc n) zero b h = omega (arith, bit-zero j)
or_digits-bit zero (suc n) (suc a) b h = omega arith
or_digits-bit (suc j) (suc n) (suc a) b h =
    let d = digits (λ b. b) max n (suc a / 2) (b / 2) in
    ap (bit j) {y = d} (omega arith) ∙ or_digits-bit j n (suc a / 2) (b / 2) (omega arith)

pub bit-bit_and : (j a b : ℕ) → bit j (bit_and a b) ≡ min (bit j a) (bit j b)
bit-bit_and j a b = ap (bit j) (bit_and-bitwise a b) ∙ and_digits-bit j a a b (omega arith)

pub bit-bit_or : (j a b : ℕ) → bit j (bit_or a b) ≡ max (bit j a) (bit j b)
bit-bit_or j a b = ap (bit j) (bit_or-bitwise a b) ∙ or_digits-bit j a a b (omega arith)

pub bit-pow : (j i : ℕ) → bit j (2 ^ i) ≡ (if j == i then 1 else 0)
unfolding bit
bit-pow zero zero = refl
bit-pow zero (suc i) = grind (arith, pow-suc 2 i)
bit-pow (suc j) zero = bit-zero j ∙ ground arith
bit-pow (suc j) (suc i) =
    ap (bit j) {y = 2 ^ i} (omega (arith, pow-suc 2 i)) ∙ (bit-pow j i ∙ ground arith)

-- The complement of a word of `n` bits.
pub bit-complement : (n j x : ℕ) → j < n → x < 2 ^ n → bit j (2 ^ n - 1 - x) ≡ 1 - bit j x
unfolding bit
bit-complement zero j x h l = absurd (omega arith)
bit-complement (suc n) zero x h l = omega (arith, pow-suc 2 n)
bit-complement (suc n) (suc j) x h l =
    ap (bit j) {y = 2 ^ n - 1 - x / 2} (omega (arith, pow-suc 2 n))
    ∙ bit-complement n j (x / 2) (omega arith) (omega (arith, pow-suc 2 n))

-- A word with no bit set is 0.
pub eq-zero_of_bits : (n w : ℕ) → w < 2 ^ n → ((j : ℕ) → j < n → bit j w ≡ 0) → w ≡ 0
unfolding bit
eq-zero_of_bits zero w l h = omega arith
eq-zero_of_bits (suc n) w l h = omega (
  arith,
  h 0 (omega arith),
  eq-zero_of_bits n (w / 2) (omega (arith, pow-suc 2 n)) (λ j m. h (suc j) (omega arith)),
)

and_digits-zero : (n a : ℕ) → digits (λ _. zero) min n a 0 ≡ 0
and_digits-zero zero a = refl
and_digits-zero (suc n) zero = refl
and_digits-zero (suc n) (suc a) = omega (arith, and_digits-zero n (suc a / 2))

-- `w & 1`
pub bit_and-one : (w : ℕ) → bit_and w 1 ≡ w % 2
bit_and-one zero = refl
bit_and-one (suc w) = omega (arith, bit_and-bitwise (suc w) 1, and_digits-zero w (suc w / 2))

lt_pow : (n : ℕ) → n < 2 ^ n
lt_pow zero = omega arith
lt_pow (suc n) = omega (arith, pow-suc 2 n, lt_pow n)

-- A word whose bits from `n` on are 0 is below 2 ^ n.
pub lt-pow_of_bits : (n w : ℕ) → ((j : ℕ) → n ≤ j → bit j w ≡ 0) → w < 2 ^ n
unfolding bit
lt-pow_of_bits zero w h = omega (arith, eq-zero_of_bits w w (lt_pow w) (λ j _. h j (omega arith)))
lt-pow_of_bits (suc n) w h =
    omega (arith, pow-suc 2 n, lt-pow_of_bits n (w / 2) (λ j m. h (suc j) (omega arith)))

pub pow-lt : (k n : ℕ) → k < n → 2 ^ k < 2 ^ n
pow-lt k n h = lt-pow_of_bits n (2 ^ k) (λ j m. bit-pow j k ∙ ground arith)

-- `w & ~(1 << k)` on 32 bits clears bit `k` and no other.
pub bit-clear :
    (j k w : ℕ)
    → k < 32
    → bit j w ≤ (if ltb j 32 then 1 else 0)
    → bit j (bit_and w (2 ^ 32 - 1 - 2 ^ k)) ≡ (if j == k then 0 else bit j w)
bit-clear j k w h r = elim (Bool-cases (ltb j 32)) [
  | inl low ↦ ground (
    arith,
    bit-bit_and j w (2 ^ 32 - 1 - 2 ^ k),
    bit-complement 32 j (2 ^ k) (ltb→lt _ _ low) (pow-lt k 32 h),
    bit-pow j k,
    bit-le-one j w,
  )
  | inr high ↦ ground (arith, bit-bit_and j w (2 ^ 32 - 1 - 2 ^ k))
]
