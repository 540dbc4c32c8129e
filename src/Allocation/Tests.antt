-- ===== src/Allocation/Tests.antt =====
-- Runs of the allocation on small inputs, and the theorems at such inputs.
use robinhoodpools.Prelude.{
  ℕ, ◌*◌, ◌^◌, ◌≤◌, ◌≡◌, refl, ◌⊎◌, [], ◌∷◌, arith, sum, length, min, max, ok, err,
}
use robinhoodpools.Prelude.Int.{pos, negsuc, ◌≤ℤ◌, ◌+ℤ◌, ◌-ℤ◌, max_ℤ, min_ℤ}
use robinhoodpools.Math.{
  q96, scale, quot, ratio_at, tick_multipliers, multiply_bits, round_up_32, sqrt_ratio_at_tick,
  principal_between, principal_raw,
}
use robinhoodpools.Allocation.{
  liquidity_bounds, token1, liquidity_for_budget, fits, grow, bisect, stable_value_raw,
  stable_leg_values_raw, partition, max_bands, budgets, weights, curve, bid_ask, snap_lower,
  snap_upper,
}
use robinhoodpools.Allocation.Budget.{cost, IsLargest, liquidity_for_budget-IsLargest}
use robinhoodpools.Allocation.Bands.{Chain, partition-Chain}
use robinhoodpools.Allocation.Budgets.{AreShares, budgets_share_out}

curve_of_five : weights curve 5 ≡ 1 ∷ 3 ∷ 5 ∷ 3 ∷ 1 ∷ []
unfolding weights
curve_of_five = refl

edges_of_four : weights bid_ask 4 ≡ 4 ∷ 2 ∷ 2 ∷ 4 ∷ []
unfolding weights
edges_of_four = refl

budgets_of_100 : budgets 100 (1 ∷ 3 ∷ 5 ∷ 3 ∷ 1 ∷ []) ≡ 7 ∷ 23 ∷ 39 ∷ 23 ∷ 8 ∷ []
unfolding budgets
budgets_of_100 = refl

bands_of_three :
    partition (negsuc 59) 120 3 10
    ≡ (negsuc 59, negsuc 19) ∷ (negsuc 19, pos 20) ∷ (pos 20, pos 60) ∷ []
unfolding partition ◌+ℤ◌
bands_of_three = refl

snapped : (snap_lower (negsuc 6) 10 ≡ negsuc 9) × (snap_upper (negsuc 6) 10 ≡ pos 0)
unfolding snap_lower snap_upper scale quot max_ℤ min_ℤ ◌-ℤ◌
snapped = (refl, refl)

liquidity_of_1000 :
    liquidity_for_budget (pos 1000) q96 (negsuc 9) (pos 10) token1 ≡ ok (1002300, pos 500, pos 500)
unfolding liquidity_for_budget fits grow bisect stable_value_raw stable_leg_values_raw principal_raw
    principal_between sqrt_ratio_at_tick ratio_at tick_multipliers multiply_bits round_up_32 ◌+ℤ◌
    scale quot
liquidity_of_1000 = refl

-- The ratios of the ends of the range of `liquidity_of_1000`.
abbrev at_minus_ten : ℕ
at_minus_ten = ratio_at (negsuc 9)

abbrev at_ten : ℕ
at_ten = ratio_at (pos 10)

liquidity_for_budget-IsLargest_example :
    ((liquidity_for_budget (pos 1000) q96 (negsuc 9) (pos 10) token1 ≡ err liquidity_bounds)
      × ((n : ℕ) × (2 ^ 256 ≤ n * 2) × (cost q96 at_minus_ten at_ten token1 n ≤ℤ pos 1000)))
    ⊎ ((liquidity : ℕ) × (let amounts = principal_between liquidity q96 at_minus_ten at_ten in
          liquidity_for_budget (pos 1000) q96 (negsuc 9) (pos 10) token1
          ≡ ok (liquidity, amounts.0, amounts.1))
        × IsLargest (pos 1000) q96 at_minus_ten at_ten token1 liquidity)
unfolding sqrt_ratio_at_tick ratio_at tick_multipliers multiply_bits round_up_32
liquidity_for_budget-IsLargest_example =
    liquidity_for_budget-IsLargest (pos 1000) q96 (negsuc 9) (pos 10) at_minus_ten at_ten token1
      (omega arith) (omega arith) refl refl (omega arith)

partition-Chain_example :
    let bands = partition (negsuc 59) 120 3 10 in
    Chain (negsuc 59) bands (negsuc 59 +ℤ pos 120) × (length bands ≤ max 1 (min 3 max_bands))
partition-Chain_example = partition-Chain (negsuc 59) 120 3 10 (omega arith)

budgets_share_out_example :
    (sum (budgets 100 (1 ∷ 3 ∷ 1 ∷ [])) ≡ 100)
    × AreShares 100 5 (1 ∷ 3 ∷ 1 ∷ []) (budgets 100 (1 ∷ 3 ∷ 1 ∷ []))
budgets_share_out_example = budgets_share_out 100 1 (3 ∷ 1 ∷ []) (omega arith)
