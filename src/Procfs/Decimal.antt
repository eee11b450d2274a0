-- ===== src/Procfs/Decimal.antt =====
-- The decimal numbers of append_uint in services/proc/procfs.c.
use ittrium.Common.{
  ℕ, zero, suc, ◌+◌, ◌-◌, ◌*◌, ◌/◌, ◌%◌, ◌^◌, ◌≤◌, ◌<◌, ◌≡◌, ◌∙◌, refl, sym, ap, arith, true, [],
  ◌∷◌, ◌++◌, append-nil, length, length-append, ltb, All,
}
use mathlib.Core.List.{append_assoc}
use ittrium.Text.{Text}
use ittrium.Procfs.Format.{append_str, append_uint, digits, decimal}

-- The number that decimal digits stand for, behind the digits of `acc`.
abbrev pub value : ℕ → Text → ℕ
value acc [] = acc
value acc (c ∷ cs) = value (acc * 10 + (c - 48)) cs

abbrev pub IsDigit : ℕ → Type 0
IsDigit c = (48 ≤ c) × (c ≤ 57)

-- What the digits of `v` are, in front of `out`.
pub record IsDigits (n v : ℕ) (out ds : Text) : Type 0 where
  pub short : length ds ≤ n + length out
  pub all : All IsDigit ds
  pub number : value 0 ds ≡ value v out

digits-IsDigits :
    (n v : ℕ) (out : Text) → v < 10 ^ n → All IsDigit out → IsDigits n v out (digits n v out)
unfolding digits
digits-IsDigits zero v out l d =
    let none_left : v ≡ 0 = omega (arith, l) in
    record { short = omega arith; all = d; number = ap (λ z. value z out) (sym none_left) }
digits-IsDigits (suc n) zero out l d = record { short = omega arith; all = d; number = refl }
digits-IsDigits (suc n) (suc v) out l d =
    let less : suc v / 10 < 10 ^ n = omega (arith, l) in
    let r =
      digits-IsDigits n (suc v / 10) ((48 + suc v % 10) ∷ out) less
        ((omega arith, omega arith), d) in
    let back : suc v / 10 * 10 + (48 + suc v % 10 - 48) ≡ suc v = omega arith in
    record {
      short = omega (arith, r.short);
      all = r.all;
      number = r.number ∙ ap (λ z. value z out) back;
    }

decimal-IsDigits : (v : ℕ) → v < 10 ^ 16 → IsDigits 16 v [] (decimal 16 v)
unfolding decimal
decimal-IsDigits zero l = record {
  short = omega arith;
  all = ((omega arith, omega arith), tt);
  number = refl;
}
decimal-IsDigits (suc v) l = digits-IsDigits 16 (suc v) [] l tt

append_str-append :
    (cap : ℕ) (s buf : Text) → length buf + length s < cap → append_str cap buf s ≡ buf ++ s
unfolding append_str
append_str-append cap [] buf l = sym (append-nil buf)
append_str-append cap (c ∷ s) buf l =
    let room : ltb (length buf + 1) cap ≡ true = ground (arith, l) in
    let n = length-append {0} buf (c ∷ []) in
    rw (room)
      (append_str-append cap s (buf ++ c ∷ []) (omega (arith, n, l)) ∙ append_assoc buf (c ∷ []) s)

-- With room for 16 characters and the terminating zero, append_uint of a 32-bit number appends
-- decimal digits that stand for the number.
pub append_uint-value :
    (cap v : ℕ) (buf : Text)
    → v < 2 ^ 32
    → length buf + 16 < cap
    → (ds : Text) × (append_uint cap buf v ≡ buf ++ ds) × All IsDigit ds × (value 0 ds ≡ v)
unfolding append_uint
append_uint-value cap v buf small room =
    let d = decimal-IsDigits v (omega (arith, small)) in
    (
      decimal 16 v,
      append_str-append cap (decimal 16 v) buf (omega (arith, d.short, room)),
      d.all,
      d.number,
    )
