-- ===== src/Allocation.antt =====
-- src/rhpools/lp_allocation.py: how a budget is split over bands of ticks and turned into
-- liquidity. Capital, prices and spacings have passed the tests of `preview` and `_pool_context`,
-- so they are unsigned; ticks and token amounts are signed.
pub mod Liquidity
pub mod Budget
pub mod Bands
pub mod Budgets
mod Tests
use robinhoodpools.Prelude.{
  ℕ, zero, suc, ◌+◌, ◌-◌, ◌*◌, ◌/◌, ◌^◌, Bool, true, false, List, [], ◌∷◌, ◌++◌, min, max, sum,
  length, ltb, leb, ◌==◌, ◌||◌, if◌then◌else◌, Result, ok, err, ◌>>=◌, ◌>>◌, raise_if,
}
use robinhoodpools.Prelude.Int.{ℤ, pos, negsuc, ◌+ℤ◌, ◌-ℤ◌, sub_ℕ, ltb_ℤ, leb_ℤ, max_ℤ, min_ℤ}
use robinhoodpools.Math.{MathError, max_tick, principal_raw, scale, quot}

-- `out_of_fuel` is the model's own, for a loop without fuel.
pub data AllocationError : Type 0 where
  in_math : MathError → AllocationError
  zero_division liquidity_bounds out_of_fuel : AllocationError

abbrev pub q192 : ℕ
q192 = 2 ^ 192

abbrev pub max_bands : ℕ
max_bands = 12

-- Which token of the pool is USDG.
pub data StableSide : Type 0 where
  token0 token1 : StableSide

-- `_stable_leg_values_raw`
unfoldable pub stable_leg_values_raw : ℤ → ℤ → ℕ → StableSide → Result AllocationError (ℤ × ℤ)
stable_leg_values_raw amount0 amount1 sqrt token1 =
    ok (quot (scale (sqrt * sqrt) amount0) q192, amount1)
stable_leg_values_raw amount0 amount1 sqrt token0 =
    if sqrt == 0 then err zero_division else ok (amount0, quot (scale q192 amount1) (sqrt * sqrt))

-- `_stable_value_raw`
unfoldable pub stable_value_raw : ℤ → ℤ → ℕ → StableSide → Result AllocationError ℤ
stable_value_raw amount0 amount1 sqrt side = do
  legs ← stable_leg_values_raw amount0 amount1 sqrt side
  ok (legs.0 +ℤ legs.1)

abbrev pub lift : Result MathError (ℤ × ℤ) → Result AllocationError (ℤ × ℤ)
lift (ok x) = ok x
lift (err e) = err (in_math e)

-- The inner function `fits` of `_liquidity_for_budget`.
unfoldable pub fits : ℤ → ℕ → ℤ → ℤ → StableSide → ℕ → Result AllocationError Bool
fits budget sqrt lo hi side liquidity = do
  amounts ← lift (principal_raw liquidity sqrt lo hi)
  value ← stable_value_raw amounts.0 amounts.1 sqrt side
  ok (leb_ℤ value budget)

-- `while fits(high): high <<= 1`, which raises past 256 bits; and `while low + 1 < high`.
module _ (test : ℕ → Result AllocationError Bool) where
  unfoldable pub grow : ℕ → ℕ → Result AllocationError ℕ
  grow zero high = err out_of_fuel
  grow (suc fuel) high =
      let more = grow fuel (high * 2) in
      do
        fit ← test high
        if fit then (if leb (2 ^ 256) (high * 2) then err liquidity_bounds else more) else ok high

  unfoldable pub bisect : ℕ → ℕ → ℕ → Result AllocationError ℕ
  bisect zero low high = err out_of_fuel
  bisect (suc fuel) low high =
      let middle = (low + high) / 2 in
      let upper = bisect fuel middle high in
      let lower = bisect fuel low middle in
      if ltb (low + 1) high then (do fit ← test middle; if fit then upper else lower) else ok low

-- `_liquidity_for_budget`
unfoldable pub liquidity_for_budget :
    ℤ → ℕ → ℤ → ℤ → StableSide → Result AllocationError (ℕ × ℤ × ℤ)
liquidity_for_budget budget sqrt lo hi side =
    if leb_ℤ budget (pos 0) then ok (0, pos 0, pos 0) else do
      high ← grow (fits budget sqrt lo hi side) 256 1
      low ← bisect (fits budget sqrt lo hi side) 257 (high / 2) high
      amounts ← lift (principal_raw low sqrt lo hi)
      ok (low, amounts.0, amounts.1)

-- `_snap_lower`. The source's `math.ceil(-MAX_TICK / spacing)` is a float quotient that is exact
-- enough at these sizes; here it is the integer it rounds to, -(MAX_TICK // spacing).
unfoldable pub snap_lower : ℤ → ℕ → ℤ
snap_lower tick spacing =
    max_ℤ (sub_ℕ 0 (max_tick / spacing * spacing)) (scale spacing (quot tick spacing))

-- `_snap_upper`
unfoldable pub snap_upper : ℤ → ℕ → ℤ
snap_upper tick spacing =
    min_ℤ (pos (max_tick / spacing * spacing))
      (pos 0 -ℤ scale spacing (quot (pos 0 -ℤ tick) spacing))

-- The boundaries of `_partition`, from index `i` on; `units` is not negative where
-- `tick_lower <= tick_upper`, as `preview` makes sure.
boundaries_from : ℤ → ℕ → ℕ → ℕ → ℕ → ℕ → List ℤ
boundaries_from tick_lower units count spacing zero i = []
boundaries_from tick_lower units count spacing (suc left) i =
    (tick_lower +ℤ pos (units * i / count * spacing))
    ∷ boundaries_from tick_lower units count spacing left (i + 1)

-- The pairs of neighbours whose first is below the second.
rising_pairs : List ℤ → List (ℤ × ℤ)
rising_pairs [] = []
rising_pairs (a ∷ []) = []
rising_pairs (a ∷ b ∷ rest) =
    let pairs = rising_pairs (b ∷ rest) in if ltb_ℤ a b then (a, b) ∷ pairs else pairs

-- `_partition`; `span` is `tick_upper - tick_lower`.
unfoldable pub partition : ℤ → ℕ → ℕ → ℕ → List (ℤ × ℤ)
unfolding boundaries_from rising_pairs
partition tick_lower span requested spacing =
    let units = span / spacing in
    let count = max 1 (min (min requested units) max_bands) in
    rising_pairs
      (boundaries_from tick_lower units count spacing count 0 ++ (tick_lower +ℤ pos span) ∷ [])

pub data Shape : Type 0 where
  uniform curve bid_ask : Shape

-- `abs(2 * index - center)`
abbrev pub off_center : ℕ → ℕ → ℕ
off_center count index = (2 * index - (count - 1)) + (count - 1 - 2 * index)

weights_from : Bool → ℕ → ℕ → ℕ → List ℕ
weights_from heavy count zero index = []
weights_from heavy count (suc left) index =
    (if heavy then count - off_center count index else 1 + off_center count index)
    ∷ weights_from heavy count left (index + 1)

ones : ℕ → List ℕ
ones zero = []
ones (suc n) = 1 ∷ ones n

-- `_weights`
unfoldable pub weights : Shape → ℕ → List ℕ
unfolding weights_from ones
weights uniform count = ones count
weights curve count = if count == 1 then ones count else weights_from true count count 0
weights bid_ask count = if count == 1 then ones count else weights_from false count count 0

-- The loop of `_budgets`; the last row takes what is left.
budgets_from : ℕ → ℕ → ℕ → ℕ → List ℕ → List ℕ
budgets_from total denominator assigned cumulative [] = []
budgets_from total denominator assigned cumulative (w ∷ []) = (total - assigned) ∷ []
budgets_from total denominator assigned cumulative (w ∷ v ∷ ws) =
    let target = total * (cumulative + w) / denominator in
    (target - assigned) ∷ budgets_from total denominator target (cumulative + w) (v ∷ ws)

-- `_budgets`
unfoldable pub budgets : ℕ → List ℕ → List ℕ
unfolding budgets_from
budgets total ws = budgets_from total (sum ws) 0 0 ws
