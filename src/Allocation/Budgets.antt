-- ===== src/Allocation/Budgets.antt =====
-- `_budgets` and `_weights`: the shares of the bands.
use native.Mathlib.Nat.{mul-zero, zero-div}
use robinhoodpools.Prelude.{
  ℕ, zero, suc, ◌+◌, ◌-◌, ◌*◌, ◌/◌, ◌≤◌, ◌<◌, ◌≡◌, refl, sym, ap, ◌∙◌, List, [], ◌∷◌, arith, sum,
  length, All, Bool, true, false, if◌then◌else◌, ◌==◌, Bool-cases, inl, inr,
}
use robinhoodpools.Allocation.{
  budgets, budgets_from, weights, weights_from, ones, off_center, Shape, uniform, curve, bid_ask,
}

-- `b` is the exact share `total * w / denominator`, up to less than one unit either way.
abbrev pub IsShare : ℕ → ℕ → ℕ → ℕ → Type 0
IsShare total denominator w b =
    (b * denominator < total * w + denominator) × (total * w < b * denominator + denominator)

abbrev pub AreShares : ℕ → ℕ → List ℕ → List ℕ → Type 0
AreShares total denominator [] [] = Unit
AreShares total denominator (w ∷ ws) (b ∷ bs) =
    IsShare total denominator w b × AreShares total denominator ws bs
AreShares total denominator _ _ = ⊥

quotient_bounds : (n d : ℕ) → 0 < d → (n / d * d ≤ n) × (n < n / d * d + d)
quotient_bounds n d h = (grind arith, grind arith)

quotient_mono : (m n d : ℕ) → 0 < d → m ≤ n → m / d ≤ n / d
quotient_mono m n d h le = grind arith

quotient_self : (n d : ℕ) → 0 < d → n * d / d ≡ n
quotient_self n d h = grind arith

mul_mono : (k x y : ℕ) → x ≤ y → k * x ≤ k * y
mul_mono k x y h = grind arith

-- One row, from the target before it to the target after it.
row-IsShare :
    (total d c w t t' b : ℕ)
    → (t * d ≤ total * c) × (total * c < t * d + d)
    → (t' * d ≤ total * (c + w)) × (total * (c + w) < t' * d + d)
    → t + b ≡ t'
    → IsShare total d w b
row-IsShare total d c w t t' b e e' s =
    let product = ap (λ (x : ℕ). x * d) s in
    (omega (arith, product, e.0, e'.1), omega (arith, product, e.1, e'.0))

grown : (total c w d : ℕ) → 0 < d → total * c / d ≤ total * (c + w) / d
grown total c w d h = quotient_mono _ _ d h (mul_mono total c (c + w) (omega arith))

record Rows (total denominator assigned : ℕ) (ws rows : List ℕ) : Type 0 where
  shares : AreShares total denominator ws rows
  all_assigned : assigned + sum rows ≡ total

budgets_from-Rows :
    (total d assigned c w : ℕ) (ws : List ℕ)
    → 0 < d
    → assigned ≡ total * c / d
    → c + (w + sum ws) ≡ d
    → Rows total d assigned (w ∷ ws) (budgets_from total d assigned c (w ∷ ws))
unfolding budgets_from
budgets_from-Rows total d assigned c w [] h e s =
    let all : total * (c + w) / d ≡ total =
      let whole : c + w ≡ d = omega arith in rw whole (quotient_self total d h) in
    let le : assigned ≤ total = rw e (rw all at (grown total c w d h)) in
    let start = rw (← e) at (quotient_bounds (total * c) d h) in
    let end = rw all at (quotient_bounds (total * (c + w)) d h) in
    record {
      shares =
          (row-IsShare total d c w assigned total (total - assigned) start end (omega arith), tt);
      all_assigned = omega arith;
    }
budgets_from-Rows total d assigned c w (v ∷ ws) h e s =
    let target = total * (c + w) / d in
    let le : assigned ≤ target = rw e (grown total c w d h) in
    let start = rw (← e) at (quotient_bounds (total * c) d h) in
    let rest = budgets_from-Rows total d target (c + w) v ws h refl (omega arith) in
    record {
      shares = (
        row-IsShare total d c w assigned target (target - assigned) start
            (quotient_bounds (total * (c + w)) d h) (omega arith),
        rest.shares,
      );
      all_assigned = omega (arith, rest.all_assigned);
    }

-- The budgets of the bands add up to the whole capital, one budget to a band, and each budget is
-- the band's exact share by weight up to less than one raw unit.
pub budgets_share_out :
    (total w : ℕ) (ws : List ℕ)
    → 0 < sum (w ∷ ws)
    → (sum (budgets total (w ∷ ws)) ≡ total)
      × AreShares total (sum (w ∷ ws)) (w ∷ ws) (budgets total (w ∷ ws))
unfolding budgets
budgets_share_out total w ws h =
    let none_yet : 0 ≡ total * 0 / sum (w ∷ ws) =
      sym (ap (λ (x : ℕ). x / sum (w ∷ ws)) (mul-zero total) ∙ zero-div (sum (w ∷ ws))) in
    let rows = budgets_from-Rows total (sum (w ∷ ws)) 0 0 w ws h none_yet (omega arith) in
    (omega (arith, rows.all_assigned), rows.shares)

-- Every weight from 1 to the number of bands, as many as there are bands.
record AreWeights (count n : ℕ) (ws : List ℕ) : Type 0 where
  pub as_many : length ws ≡ n
  pub in_range : All (λ w. (1 ≤ w) × (w ≤ count)) ws

ones-AreWeights : (count n : ℕ) → 1 ≤ count → AreWeights count n (ones n)
unfolding ones
ones-AreWeights count zero h = record { as_many = refl; in_range = tt }
ones-AreWeights count (suc n) h =
    let rest = ones-AreWeights count n h in
    record { as_many = omega (arith, rest.as_many); in_range = ((omega arith, h), rest.in_range) }

weight_bounds :
    (heavy : Bool) (count index : ℕ)
    → index < count
    → let w = if heavy then count - off_center count index else 1 + off_center count index in
      (1 ≤ w) × (w ≤ count)
weight_bounds true count index h = omega arith
weight_bounds false count index h = omega arith

weights_from-AreWeights :
    (heavy : Bool) (count n index : ℕ)
    → index + n ≡ count
    → AreWeights count n (weights_from heavy count n index)
unfolding weights_from
weights_from-AreWeights heavy count zero index h = record { as_many = refl; in_range = tt }
weights_from-AreWeights heavy count (suc n) index h =
    let rest = weights_from-AreWeights heavy count n (index + 1) (omega arith) in
    record {
      as_many = omega (arith, rest.as_many);
      in_range = (weight_bounds heavy count index (omega arith), rest.in_range);
    }

-- Each shape gives one weight to a band, from 1 to the number of bands, so no band is left
-- without capital and the sum of the weights is not zero.
pub weights_positive :
    (shape : Shape) (count : ℕ)
    → 1 ≤ count
    → (length (weights shape count) ≡ count)
      × All (λ w. (1 ≤ w) × (w ≤ count)) (weights shape count)
unfolding weights
weights_positive uniform count h = let r = ones-AreWeights count count h in (r.as_many, r.in_range)
weights_positive curve count h = elim (Bool-cases (count == 1)) [
  | inl one ↦ let r = ones-AreWeights count count h in rw one (r.as_many, r.in_range)
  | inr many ↦
      let r = weights_from-AreWeights true count count 0 (omega arith) in
      rw many (r.as_many, r.in_range)
]
weights_positive bid_ask count h = elim (Bool-cases (count == 1)) [
  | inl one ↦ let r = ones-AreWeights count count h in rw one (r.as_many, r.in_range)
  | inr many ↦
      let r = weights_from-AreWeights false count count 0 (omega arith) in
      rw many (r.as_many, r.in_range)
]
