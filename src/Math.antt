-- ===== src/Math.antt =====
-- src/rhpools/lp_math.py: the integer concentrated-liquidity math. Contract integers are unsigned,
-- so prices, liquidity and fee growth are natural numbers; ticks are signed. A quotient by a
-- number that can be zero raises as Python's `//` does.
pub mod Search
pub mod Deltas
pub mod Principal
pub mod Fees
pub mod Ratio
mod Tests
use robinhoodpools.Prelude.{
  ℕ, zero, suc, ◌+◌, ◌-◌, ◌*◌, ◌/◌, ◌%◌, ◌^◌, Bool, true, false, List, [], ◌∷◌, ltb, leb, ◌==◌,
  ◌&&◌, if◌then◌else◌, Result, ok, err, ◌>>=◌, ◌>>◌,
}
use robinhoodpools.Prelude.Int.{ℤ, pos, negsuc, ◌+ℤ◌, ◌-ℤ◌, half, abs, sub_ℕ, ltb_ℤ, leb_ℤ}

-- `out_of_fuel` is the model's own, for a search without fuel.
pub data MathError : Type 0 where
  tick_outside price_outside zero_division out_of_fuel : MathError

abbrev pub q96 : ℕ
q96 = 2 ^ 96

abbrev pub max_tick : ℕ
max_tick = 887272

abbrev pub min_tick_ℤ : ℤ
min_tick_ℤ = negsuc 887271

abbrev pub max_tick_ℤ : ℤ
max_tick_ℤ = pos max_tick

abbrev pub min_sqrt_ratio : ℕ
min_sqrt_ratio = 4295128739

abbrev pub max_sqrt_ratio : ℕ
max_sqrt_ratio = 1461446703485210103287273052203988822378723970342

abbrev pub uint256 : ℕ
uint256 = 2 ^ 256

unfoldable pub tick_multipliers : List ℕ
tick_multipliers =
    0xfffcb933bd6fad37aa2d162d1a594001 ∷ 0xfff97272373d413259a46990580e213a
    ∷ 0xfff2e50f5f656932ef12357cf3c7fdcc ∷ 0xffe5caca7e10e4e61c3624eaa0941cd0
    ∷ 0xffcb9843d60f6159c9db58835c926644 ∷ 0xff973b41fa98c081472e6896dfb254c0
    ∷ 0xff2ea16466c96a3843ec78b326b52861 ∷ 0xfe5dee046a99a2a811c461f1969c3053
    ∷ 0xfcbe86c7900a88aedcffc83b479aa3a4 ∷ 0xf987a7253ac413176f2b074cf7815e54
    ∷ 0xf3392b0822b70005940c7a398e4b70f3 ∷ 0xe7159475a2c29b7443b29c7fa6e889d9
    ∷ 0xd097f3bdfd2022b8845ad8f792aa5825 ∷ 0xa9f746462d870fdf8a65dc1f90e061e5
    ∷ 0x70d869a156d2a1b890bb3df62baf32f7 ∷ 0x31be135f97d08fd981231505542fcfa6
    ∷ 0x9aa508b5b7a84e1c677de54f3e99bc9 ∷ 0x5d6af8dedb81196699c329225ee604
    ∷ 0x2216e584f5fa1ea926041bedfe98 ∷ 0x48a170391f7dc42444e8fa2 ∷ []

-- `for bit, multiplier in enumerate(_TICK_MULTIPLIERS)`
unfoldable pub multiply_bits : ℕ → ℕ → List ℕ → ℕ → ℕ
multiply_bits absolute bit [] ratio = ratio
multiply_bits absolute bit (multiplier ∷ rest) ratio =
    multiply_bits absolute (bit + 1) rest
      (if (absolute / 2 ^ bit) % 2 == 1 then (ratio * multiplier) / 2 ^ 128 else ratio)

-- `(ratio >> 32) + (1 if ratio & remainder_mask else 0)`
unfoldable pub round_up_32 : ℕ → ℕ
round_up_32 ratio = ratio / 2 ^ 32 + (if ratio % 2 ^ 32 == 0 then 0 else 1)

-- What `sqrt_ratio_at_tick` computes once the tick has passed its test.
unfoldable pub ratio_at : ℤ → ℕ
ratio_at tick =
    let ratio = multiply_bits (abs tick) 0 tick_multipliers (2 ^ 128) in
    round_up_32 (if ltb_ℤ (pos 0) tick then (uint256 - 1) / ratio else ratio)

unfoldable pub sqrt_ratio_at_tick : ℤ → Result MathError ℕ
sqrt_ratio_at_tick tick = if ltb max_tick (abs tick) then err tick_outside else ok (ratio_at tick)

-- The loop `while low <= high`. Each round halves the range, which is below 2 ^ 21 at first, and one more round ends it.
unfoldable pub search_tick : ℕ → ℕ → ℤ → ℤ → Result MathError ℤ
search_tick zero sqrt_price low high = err out_of_fuel
search_tick (suc fuel) sqrt_price low high =
    let middle = half (low +ℤ high) in
    let above = search_tick fuel sqrt_price (middle +ℤ pos 1) high in
    let below = search_tick fuel sqrt_price low (middle -ℤ pos 1) in
    if leb_ℤ low high
    then (do ratio ← sqrt_ratio_at_tick middle; if leb ratio sqrt_price then above else below)
    else ok high

unfoldable pub tick_at_sqrt_price_x96 : ℕ → Result MathError ℤ
tick_at_sqrt_price_x96 sqrt_price =
    if ltb min_sqrt_ratio sqrt_price && ltb sqrt_price max_sqrt_ratio
    then search_tick 22 sqrt_price min_tick_ℤ max_tick_ℤ
    else err price_outside

-- `//`
unfoldable pub floor_div : ℕ → ℕ → Result MathError ℕ
floor_div numerator denominator =
    if denominator == 0 then err zero_division else ok (numerator / denominator)

-- `_ceil_div`; the operands are unsigned, and only a zero denominator makes `+ denominator - 1` negative.
unfoldable pub ceil_div : ℕ → ℕ → Result MathError ℕ
ceil_div numerator denominator =
    if denominator == 0 then err zero_division else ok ((numerator + denominator - 1) / denominator)

-- `amount0_delta` once `sqrt_a_x96 <= sqrt_b_x96`
unfoldable pub delta0_sorted : ℕ → ℕ → ℕ → Bool → Result MathError ℕ
delta0_sorted a b liquidity true = do up ← ceil_div (liquidity * q96 * (b - a)) b; ceil_div up a
delta0_sorted a b liquidity false = do
  down ← floor_div (liquidity * q96 * (b - a)) b
  floor_div down a

unfoldable pub amount0_delta : ℕ → ℕ → ℕ → Bool → Result MathError ℕ
unfolding delta0_sorted
amount0_delta a b liquidity round_up =
    if ltb b a then delta0_sorted b a liquidity round_up else delta0_sorted a b liquidity round_up

-- `amount1_delta` once `sqrt_a_x96 <= sqrt_b_x96`
unfoldable pub delta1_sorted : ℕ → ℕ → ℕ → Bool → ℕ
delta1_sorted a b liquidity true = (liquidity * (b - a) + q96 - 1) / q96
delta1_sorted a b liquidity false = liquidity * (b - a) / q96

unfoldable pub amount1_delta : ℕ → ℕ → ℕ → Bool → ℕ
unfolding delta1_sorted
amount1_delta a b liquidity round_up =
    if ltb b a then delta1_sorted b a liquidity round_up else delta1_sorted a b liquidity round_up

-- `k * a` and `a // d` for an integer `a`; the quotient rounds down.
unfoldable pub scale : ℕ → ℤ → ℤ
scale k (pos n) = pos (k * n)
scale k (negsuc n) = sub_ℕ 0 (k * suc n)

unfoldable pub quot : ℤ → ℕ → ℤ
quot (pos n) d = pos (n / d)
quot (negsuc n) d = negsuc (n / d)

-- `principal_raw` once the two ticks have their ratios, which are never zero (`ratio_at_pos`).
unfoldable pub principal_between : ℕ → ℕ → ℕ → ℕ → ℤ × ℤ
unfolding scale quot
principal_between liquidity sqrt lower upper =
    if leb sqrt lower
    then (quot (quot (scale (liquidity * q96) (sub_ℕ upper lower)) upper) lower, pos 0)
    else if leb upper sqrt
    then (pos 0, quot (scale liquidity (sub_ℕ upper lower)) q96)
    else (
      pos (liquidity * q96 * (upper - sqrt) / upper / sqrt),
      pos (liquidity * (sqrt - lower) / q96),
    )

unfoldable pub principal_raw : ℕ → ℕ → ℤ → ℤ → Result MathError (ℤ × ℤ)
principal_raw liquidity sqrt lo hi = do
  lower ← sqrt_ratio_at_tick lo
  upper ← sqrt_ratio_at_tick hi
  ok (principal_between liquidity sqrt lower upper)

-- `(a - b) & _MAX_UINT256`
unfoldable pub wrap_sub : ℕ → ℕ → ℕ
wrap_sub a b = (a % uint256 + uint256 - b % uint256) % uint256

unfoldable pub fee_growth_amount : ℕ → ℕ → ℕ → ℕ
fee_growth_amount liquidity current previous = liquidity * wrap_sub current previous / 2 ^ 128

-- Fee growth inside a range, for one of the two tokens.
unfoldable pub inside_growth : ℕ → ℕ → ℕ → ℤ → ℤ → ℤ → ℕ
inside_growth global lower_outside upper_outside tick lower upper =
    let below = if leb_ℤ lower tick then lower_outside else wrap_sub global lower_outside in
    let above = if ltb_ℤ tick upper then upper_outside else wrap_sub global upper_outside in
    wrap_sub (wrap_sub global below) above

-- The growth values of the two tokens, as `fee_claim` takes them.
pub record Growth : Type 0 where
  pub last : ℕ
  pub owed : ℕ
  pub global : ℕ
  pub lower_outside : ℕ
  pub upper_outside : ℕ

-- One token of `fee_claim`: the total claim and the fees that are still lazy.
unfoldable pub claim_token : ℕ → Growth → ℤ → ℤ → ℤ → ℕ × ℕ
claim_token liquidity g tick lower upper =
    let inside = inside_growth g.global g.lower_outside g.upper_outside tick lower upper in
    let lazy = fee_growth_amount liquidity inside g.last in (g.owed + lazy, lazy)

unfoldable pub fee_claim : ℕ → Growth → Growth → ℤ → ℤ → ℤ → ℕ × ℕ × ℕ × ℕ
unfolding claim_token
fee_claim liquidity g0 g1 tick lower upper =
    let (total0, lazy0) = claim_token liquidity g0 tick lower upper in
    let (total1, lazy1) = claim_token liquidity g1 tick lower upper in
    (total0, total1, lazy0, lazy1)
