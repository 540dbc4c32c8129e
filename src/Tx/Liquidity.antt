-- ===== src/Tx/Liquidity.antt =====
-- tx_plan.py: `liquidity_for_amounts` and `principal_for_liquidity`. Prices and amounts are unsigned.
pub mod Within
use robinhoodpools.Prelude.{
  ℕ, ◌-◌, ◌*◌, ◌/◌, Bool, true, false, ltb, leb, min, ◌==◌, if◌then◌else◌, Result, ok, err, ◌>>=◌,
}
use robinhoodpools.Prelude.Int.{ℤ}
use robinhoodpools.Math.{
  MathError, q96, floor_div, sqrt_ratio_at_tick, amount0_delta, amount1_delta,
}

-- `liq0` and `liq1`
abbrev pub liq0 : ℕ → ℕ → ℕ → Result MathError ℕ
liq0 amount0 lo hi = floor_div (amount0 * (lo * hi / q96)) (hi - lo)

abbrev pub liq1 : ℕ → ℕ → ℕ → Result MathError ℕ
liq1 amount1 lo hi = floor_div (amount1 * q96) (hi - lo)

-- `liquidity_for_amounts` once `sqrt_a <= sqrt_b`
unfoldable pub sorted_liquidity : ℕ → ℕ → ℕ → ℕ → ℕ → Result MathError ℕ
sorted_liquidity p a b amount0 amount1 =
    if leb p a
    then liq0 amount0 a b
    else if ltb p b
    then (do x ← liq0 amount0 p b; y ← liq1 amount1 a p; ok (min x y))
    else liq1 amount1 a b

unfoldable pub liquidity_for_amounts : ℕ → ℕ → ℕ → ℕ → ℕ → Result MathError ℕ
unfolding sorted_liquidity
liquidity_for_amounts p a b amount0 amount1 =
    if ltb b a
    then sorted_liquidity p b a amount0 amount1
    else sorted_liquidity p a b amount0 amount1

-- `principal_for_liquidity` of the two prices
unfoldable pub principal_at : ℕ → ℕ → ℕ → ℕ → Bool → Result MathError (ℕ × ℕ)
principal_at p a b liquidity round_up =
    if leb p a
    then (do x ← amount0_delta a b liquidity round_up; ok (x, 0))
    else if ltb p b
    then (do x ← amount0_delta p b liquidity round_up; ok (x, amount1_delta a p liquidity round_up))
    else ok (0, amount1_delta a b liquidity round_up)

unfoldable pub principal_for_liquidity : ℕ → ℤ → ℤ → ℕ → Bool → Result MathError (ℕ × ℕ)
principal_for_liquidity p lower upper liquidity round_up = do
  a ← sqrt_ratio_at_tick lower
  b ← sqrt_ratio_at_tick upper
  principal_at p a b liquidity round_up
