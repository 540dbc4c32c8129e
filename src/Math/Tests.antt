-- ===== src/Math/Tests.antt =====
-- Runs of the math on inputs that can be followed in the source, and the theorems at such inputs.
use robinhoodpools.Prelude.{
  ℕ, ◌+◌, ◌-◌, ◌*◌, ◌/◌, ◌%◌, ◌^◌, ◌≤◌, ◌<◌, ◌≡◌, refl, false, arith, ok, err,
}
use robinhoodpools.Prelude.Int.{ℤ, pos, negsuc, ◌+ℤ◌, ◌-ℤ◌, ◌≤ℤ◌, half}
use robinhoodpools.Math.{
  q96, uint256, min_tick_ℤ, max_tick_ℤ, ratio_at, tick_multipliers, multiply_bits, round_up_32,
  sqrt_ratio_at_tick, search_tick, tick_at_sqrt_price_x96, amount0_delta, amount1_delta,
  principal_between, claim_token, Growth, tick_outside,
}
use robinhoodpools.Math.Search.{tick_at_sqrt_price_brackets}
use robinhoodpools.Math.Principal.{clamp, principal-eq-deltas}
use robinhoodpools.Math.Fees.{claim_token_across_wrap}

ratio_zero : sqrt_ratio_at_tick (pos 0) ≡ ok q96
unfolding sqrt_ratio_at_tick ratio_at tick_multipliers multiply_bits round_up_32
ratio_zero = refl

ratio_outside : sqrt_ratio_at_tick (negsuc 887272) ≡ err tick_outside
unfolding sqrt_ratio_at_tick
ratio_outside = refl

tick_of_one : tick_at_sqrt_price_x96 q96 ≡ ok (pos 0)
unfolding tick_at_sqrt_price_x96 search_tick sqrt_ratio_at_tick ratio_at tick_multipliers
    multiply_bits round_up_32 half ◌+ℤ◌ ◌-ℤ◌
tick_of_one = refl

tick_below_one : tick_at_sqrt_price_x96 (q96 - 1) ≡ ok (negsuc 0)
unfolding tick_at_sqrt_price_x96 search_tick sqrt_ratio_at_tick ratio_at tick_multipliers
    multiply_bits round_up_32 half ◌+ℤ◌ ◌-ℤ◌
tick_below_one = refl

tick_at_sqrt_price_brackets_example :
    (t : ℤ) × (tick_at_sqrt_price_x96 q96 ≡ ok t)
    × (min_tick_ℤ ≤ℤ t)
    × (t ≤ℤ max_tick_ℤ)
    × (ratio_at t ≤ q96)
    × (q96 < ratio_at (t +ℤ pos 1))
tick_at_sqrt_price_brackets_example = tick_at_sqrt_price_brackets q96 (omega arith) (omega arith)

principal-eq-deltas_example :
    (x : ℕ) × (y : ℕ) × (principal_between 1000 q96 (q96 / 2) (q96 * 2) ≡ (pos x, pos y))
    × (amount0_delta (clamp (q96 / 2) (q96 * 2) q96) (q96 * 2) 1000 false ≡ ok x)
    × (amount1_delta (q96 / 2) (clamp (q96 / 2) (q96 * 2) q96) 1000 false ≡ y)
principal-eq-deltas_example =
    principal-eq-deltas 1000 q96 (q96 / 2) (q96 * 2) (omega arith) (omega arith)

abbrev wrapped : Growth
wrapped = record {
  last = (uint256 - 5) % uint256;
  owed = 4;
  global = (10 + (20 + (uint256 - 5 + 2 ^ 130))) % uint256;
  lower_outside = 10 % uint256;
  upper_outside = 20 % uint256;
}

claim_token_across_wrap_example :
    claim_token 6 wrapped (pos 5) (pos 0) (pos 10)
    ≡ (4 + 6 * 2 ^ 130 / 2 ^ 128, 6 * 2 ^ 130 / 2 ^ 128)
claim_token_across_wrap_example =
    claim_token_across_wrap 6 4 10 20 (uint256 - 5) (2 ^ 130) (pos 5) (pos 0) (pos 10) (omega arith)
      (omega arith) (omega arith)
