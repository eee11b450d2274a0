-- ===== src/Procfs/Format.antt =====
-- The text that services/proc/procfs.c builds: append_str, append_uint, append_field, append_uint_field
-- and fmt_uint. A buffer is the list of the `n` characters in it.
use ittrium.Common.{
  ℕ, zero, suc, ◌+◌, ◌-◌, ◌/◌, ◌%◌, Bool, true, [], ◌∷◌, ◌++◌, length, ltb, if◌then◌else◌,
}
use ittrium.Text.{Text, cut}

-- `cap` is the size of the buffer; a character is dropped if it and a terminating zero do not fit.
unfoldable pub append_str : ℕ → Text → Text → Text
append_str cap buf [] = buf
append_str cap buf (c ∷ s) =
    append_str cap (if ltb (length buf + 1) cap then buf ++ c ∷ [] else buf) s

-- `while (v && i < n) { tmp[i++] = '0' + v % 10; v /= 10; }`, in front of what stands behind them.
unfoldable pub digits : ℕ → ℕ → Text → Text
digits zero v out = out
digits (suc n) zero out = out
digits (suc n) (suc v) out = digits n (suc v / 10) ((48 + suc v % 10) ∷ out)

-- The digits of a number of at most `n`, and `0` for zero.
unfoldable pub decimal : ℕ → ℕ → Text
decimal n zero = 48 ∷ []
decimal n (suc v) = digits n (suc v) []

unfoldable pub append_uint : ℕ → Text → ℕ → Text
append_uint cap buf v = append_str cap buf (decimal 16 v)

unfoldable pub spaces : ℕ → Text
spaces zero = []
spaces (suc n) = 32 ∷ spaces n

unfoldable pub append_field : ℕ → Text → Text → ℕ → Bool → Text
append_field cap buf s width right =
    let field = cut width s in
    let pad = spaces (width - length field) in
    if right
    then append_str cap (append_str cap buf pad) field
    else append_str cap (append_str cap buf field) pad

unfoldable pub append_uint_field : ℕ → Text → ℕ → ℕ → Text
append_uint_field cap buf v width = append_field cap buf (decimal 16 v) width true

-- The text in `out`, whose length is `*len`.
unfoldable pub fmt_uint : ℕ → ℕ → Text
fmt_uint outsz v = cut (outsz - 1) (decimal 12 v)
