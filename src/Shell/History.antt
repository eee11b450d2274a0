-- ===== src/Shell/History.antt =====
-- The history of services/shell/lineedit.c, a ring of SHELL_HIST_MAX lines.
use ittrium.Common.{
  ℕ, zero, suc, ◌+◌, ◌-◌, ◌%◌, ◌≤◌, ◌<◌, ◌≡◌, ◌≢◌, ap, false, arith, Option, none, some, [], ◌∷◌,
  ltb, put, if◌then◌else◌,
}
use ittrium.Common.Int.{ℤ, pos, negsuc}
use ittrium.Text.{Text, cut}

abbrev pub hist_max : ℕ
hist_max = 16

abbrev pub line_max : ℕ
line_max = 192

pub record History : Type 0 where
  pub hist : ℕ → Text
  pub hist_count : ℕ
  pub hist_head : ℕ

-- An empty line, or a null pointer, changes nothing.
unfoldable pub hist_push : Text → History → History
hist_push [] h = h
hist_push (x ∷ xs) h = record {
  hist = put h.hist h.hist_head (cut (line_max - 1) (x ∷ xs));
  hist_head = (h.hist_head + 1) % hist_max;
  hist_count = if ltb h.hist_count hist_max then h.hist_count + 1 else h.hist_count;
}

-- The index of the line `back` steps back.
unfoldable pub hist_index : ℕ → ℕ → ℕ
hist_index head back = if ltb head back then head + hist_max - back else head - back

unfoldable pub hist_get : ℤ → History → Option Text
hist_get (negsuc n) h = none
hist_get (pos zero) h = none
hist_get (pos (suc n)) h =
    if ltb h.hist_count (suc n) then none else some (h.hist (hist_index h.hist_head (suc n)))

-- The next line goes into the ring, and no more lines are counted than it holds.
pub record IsRing (h : History) : Type 0 where
  pub head : h.hist_head < hist_max
  pub count : h.hist_count ≤ hist_max

index_one : (head : ℕ) → head < hist_max → hist_index ((head + 1) % hist_max) 1 ≡ head
unfolding hist_index
index_one head l = ground (arith, l)

index_suc :
    (head back : ℕ)
    → head < hist_max
    → back < hist_max
    → hist_index ((head + 1) % hist_max) (suc back) ≡ hist_index head back
unfolding hist_index
index_suc head back l m = ground (arith, l, m)

index_other :
    (head back : ℕ) → head < hist_max → 1 ≤ back → back < hist_max → hist_index head back ≢ head
unfolding hist_index
index_other head back l a m = ground (arith, l, a, m)

-- In a ring whose next place and count are in bounds, and with a number of steps back that stays
-- inside the ring after one more, pushing a line that is not empty keeps the bounds, the line, cut
-- to the size of an entry, is found one step back, and each older line one step further back than
-- before.
pub hist_push-get :
    (h : History) (x : ℕ) (xs : Text) (back : ℕ)
    → IsRing h
    → suc back < hist_max
    → let h' = hist_push (x ∷ xs) h in
      IsRing h'
      × (hist_get (pos 1) h' ≡ some (cut (line_max - 1) (x ∷ xs)))
      × (hist_get (pos (suc (suc back))) h' ≡ hist_get (pos (suc back)) h)
unfolding hist_push hist_get
hist_push-get h x xs back k l =
    let i = index_one h.hist_head k.head in
    let j = index_suc h.hist_head (suc back) k.head l in
    let n = index_other h.hist_head (suc back) k.head (omega arith) l in
    let n' = h.hist_count in
    let v = cut (line_max - 1) (x ∷ xs) in
    let some_line : ltb (if ltb n' hist_max then n' + 1 else n') 1 ≡ false = ground arith in
    let as_old : ltb (if ltb n' hist_max then n' + 1 else n') (suc (suc back)) ≡ ltb n' (suc back) =
      ground (arith, k.count, l) in
    let same : put h.hist h.hist_head v h.hist_head ≡ v = ground arith in
    let kept : put h.hist h.hist_head v (hist_index h.hist_head (suc back))
        ≡ h.hist (hist_index h.hist_head (suc back)) =
      ground (arith, n) in
    (
      record { head = omega arith; count = ground (arith, k.count) },
      rw (some_line, i) (ap some same),
      rw (as_old, j) (ap (λ z. if ltb n' (suc back) then none else some z) kept),
    )
