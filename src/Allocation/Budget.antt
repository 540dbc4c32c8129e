-- ===== src/Allocation/Budget.antt =====
-- What `_liquidity_for_budget` returns.
use native.Mathlib.Nat.{le_refl, zero-div, mul-zero, zero-mul}
use robinhoodpools.Prelude.{
  ℕ, zero, suc, ◌+◌, ◌-◌, ◌*◌, ◌/◌, ◌^◌, ◌≤◌, ◌<◌, ◌≡◌, refl, ap, ◌∙◌, ◌⊎◌, inl, inr, arith, true,
  false, ok, err, Bool-cases, leb, leb→le, leb→gt, gt→leb, if◌then◌else◌,
}
use robinhoodpools.Prelude.Int.{ℤ, pos, ◌+ℤ◌, ◌≤ℤ◌, ◌<ℤ◌, sub_ℕ, leb_ℤ, int_laws}
use robinhoodpools.Math.{scale, quot, sqrt_ratio_at_tick, principal_between, principal_raw, q96}
use robinhoodpools.Allocation.{
  liquidity_bounds, q192, StableSide, token0, token1, stable_leg_values_raw, stable_value_raw, fits,
  liquidity_for_budget,
}
use robinhoodpools.Allocation.Liquidity.{searched, halved}

-- The value of two token amounts in USDG, at a price that is not zero.
unfoldable pub value_of : ℕ → StableSide → ℤ × ℤ → ℤ
value_of sqrt token1 (amount0, amount1) = quot (scale (sqrt * sqrt) amount0) q192 +ℤ amount1
value_of sqrt token0 (amount0, amount1) = amount0 +ℤ quot (scale q192 amount1) (sqrt * sqrt)

-- What a liquidity costs over a range whose ends have these ratios.
unfoldable pub cost : ℕ → ℕ → ℕ → StableSide → ℕ → ℤ
cost sqrt lower upper side liquidity =
    value_of sqrt side (principal_between liquidity sqrt lower upper)

stable_value_lem :
    (a b : ℤ) (sqrt : ℕ) (side : StableSide)
    → 0 < sqrt
    → stable_value_raw a b sqrt side ≡ ok (value_of sqrt side (a, b))
unfolding stable_value_raw stable_leg_values_raw value_of
stable_value_lem a b sqrt token1 h = refl
stable_value_lem a b sqrt token0 h = ground arith

scale-pos : (k n : ℕ) → scale k (pos n) ≡ pos (k * n)
unfolding scale
scale-pos k n = refl

quot-pos : (n d : ℕ) → quot (pos n) d ≡ pos (n / d)
unfolding quot
quot-pos n d = refl

sub_ℕ-pos : (a b : ℕ) → b ≤ a → sub_ℕ a b ≡ pos (a - b)
sub_ℕ-pos a b h = ground arith

quotient_mono : (m n d : ℕ) → m ≤ n → m / d ≤ n / d
quotient_mono m n zero le = omega arith
quotient_mono m n (suc d) le = grind arith

mul_mono : (k x y : ℕ) → x ≤ y → k * x ≤ k * y
mul_mono k x y h = grind arith

mul_mono' : (k x y : ℕ) → x ≤ y → x * k ≤ y * k
mul_mono' k x y h = grind arith

-- The principal and the cost as unsigned numbers, in a range that is in order.
principal_ℕ : ℕ → ℕ → ℕ → ℕ → ℕ × ℕ
principal_ℕ liquidity sqrt lower upper =
    if leb sqrt lower
    then (liquidity * q96 * (upper - lower) / upper / lower, 0)
    else if leb upper sqrt
    then (0, liquidity * (upper - lower) / q96)
    else (liquidity * q96 * (upper - sqrt) / upper / sqrt, liquidity * (sqrt - lower) / q96)

principal-ℕ :
    (liquidity sqrt lower upper : ℕ)
    → lower ≤ upper
    → let (x, y) = principal_ℕ liquidity sqrt lower upper in
      principal_between liquidity sqrt lower upper ≡ (pos x, pos y)
unfolding principal_between principal_ℕ
principal-ℕ liquidity sqrt lower upper le = elim (Bool-cases (leb sqrt lower)) [
  | inl below ↦ rw (below, sub_ℕ-pos upper lower le)
  | inr more ↦ elim (Bool-cases (leb upper sqrt)) [
    | inl above ↦ rw (more, above, sub_ℕ-pos upper lower le)
    | inr inside ↦ rw (more, inside)
  ]
]

-- A floor-rounded amount grows with the liquidity.
amount_mono : (l m k d : ℕ) → l ≤ m → l * k / d ≤ m * k / d
amount_mono l m k d le = quotient_mono _ _ d (mul_mono' k l m le)

amount0_mono : (l m k d e : ℕ) → l ≤ m → l * q96 * k / d / e ≤ m * q96 * k / d / e
amount0_mono l m k d e le =
    quotient_mono _ _ e (amount_mono (l * q96) (m * q96) k d (mul_mono' q96 l m le))

principal_mono :
    (l m sqrt lower upper : ℕ)
    → l ≤ m
    → ((principal_ℕ l sqrt lower upper).0 ≤ (principal_ℕ m sqrt lower upper).0)
      × ((principal_ℕ l sqrt lower upper).1 ≤ (principal_ℕ m sqrt lower upper).1)
unfolding principal_ℕ
principal_mono l m sqrt lower upper le = elim (Bool-cases (leb sqrt lower)) [
  | inl below ↦ rw below (amount0_mono l m (upper - lower) upper lower le, le_refl 0)
  | inr more ↦ elim (Bool-cases (leb upper sqrt)) [
    | inl above ↦ rw (more, above) (le_refl 0, amount_mono l m (upper - lower) q96 le)
    | inr inside ↦
        rw (more, inside)
          (amount0_mono l m (upper - sqrt) upper sqrt le, amount_mono l m (sqrt - lower) q96 le)
  ]
]

value_ℕ : ℕ → StableSide → ℕ × ℕ → ℕ
value_ℕ sqrt token1 (x, y) = sqrt * sqrt * x / q192 + y
value_ℕ sqrt token0 (x, y) = x + q192 * y / (sqrt * sqrt)

value-ℕ :
    (sqrt x y : ℕ) (side : StableSide)
    → value_of sqrt side (pos x, pos y) ≡ pos (value_ℕ sqrt side (x, y))
unfolding value_of value_ℕ scale quot
value-ℕ sqrt x y token1 = omega int_laws
value-ℕ sqrt x y token0 = omega int_laws

value_mono :
    (sqrt x y x' y' : ℕ) (side : StableSide)
    → x ≤ x'
    → y ≤ y'
    → value_ℕ sqrt side (x, y) ≤ value_ℕ sqrt side (x', y')
unfolding value_ℕ
value_mono sqrt x y x' y' token1 hx hy =
    omega (arith, quotient_mono _ _ q192 (mul_mono (sqrt * sqrt) x x' hx))
value_mono sqrt x y x' y' token0 hx hy =
    omega (arith, quotient_mono _ _ (sqrt * sqrt) (mul_mono q192 y y' hy))

cost_ℕ : ℕ → ℕ → ℕ → StableSide → ℕ → ℕ
cost_ℕ sqrt lower upper side liquidity = value_ℕ sqrt side (principal_ℕ liquidity sqrt lower upper)

cost-ℕ :
    (sqrt lower upper : ℕ) (side : StableSide) (liquidity : ℕ)
    → lower ≤ upper
    → cost sqrt lower upper side liquidity ≡ pos (cost_ℕ sqrt lower upper side liquidity)
unfolding cost cost_ℕ
cost-ℕ sqrt lower upper side liquidity le =
    let (x, y) = principal_ℕ liquidity sqrt lower upper in
    ap (value_of sqrt side) (principal-ℕ liquidity sqrt lower upper le) ∙ value-ℕ sqrt x y side

-- In a range that is in order, more liquidity never costs less.
cost_mono :
    (sqrt lower upper : ℕ) (side : StableSide) (l m : ℕ)
    → lower ≤ upper
    → l ≤ m
    → cost sqrt lower upper side l ≤ℤ cost sqrt lower upper side m
unfolding cost_ℕ
cost_mono sqrt lower upper side l m le lm =
    let mono = principal_mono l m sqrt lower upper lm in
    rw (cost-ℕ sqrt lower upper side l le, cost-ℕ sqrt lower upper side m le)
      (omega (arith, value_mono sqrt _ _ _ _ side mono.0 mono.1))

principal_of_none : (sqrt lower upper : ℕ) → principal_ℕ 0 sqrt lower upper ≡ (0, 0)
unfolding principal_ℕ
principal_of_none sqrt lower upper = elim (Bool-cases (leb sqrt lower)) [
  | inl below ↦ rw below (simp (zero-mul, zero-div))
  | inr more ↦ elim (Bool-cases (leb upper sqrt)) [
    | inl above ↦ rw (more, above) (simp (zero-mul, zero-div))
    | inr inside ↦ rw (more, inside) (simp (zero-mul, zero-div))
  ]
]

value_of_none : (sqrt : ℕ) (side : StableSide) → value_ℕ sqrt side (0, 0) ≡ 0
unfolding value_ℕ
value_of_none sqrt token1 = simp mul-zero (omega arith)
value_of_none sqrt token0 = simp (mul-zero, zero-div) (omega arith)

cost_of_none :
    (sqrt lower upper : ℕ) (side : StableSide)
    → lower ≤ upper
    → cost sqrt lower upper side 0 ≡ pos 0
unfolding cost_ℕ
cost_of_none sqrt lower upper side le =
    cost-ℕ sqrt lower upper side 0 le
    ∙ ap pos (ap (value_ℕ sqrt side) (principal_of_none sqrt lower upper) ∙ value_of_none sqrt side)

fits-answers :
    (budget : ℤ) (sqrt : ℕ) (lo hi : ℤ) (lower upper : ℕ) (side : StableSide) (liquidity : ℕ)
    → 0 < sqrt
    → sqrt_ratio_at_tick lo ≡ ok lower
    → sqrt_ratio_at_tick hi ≡ ok upper
    → fits budget sqrt lo hi side liquidity
      ≡ ok (leb_ℤ (cost sqrt lower upper side liquidity) budget)
unfolding fits principal_raw cost
fits-answers budget sqrt lo hi lower upper side liquidity z el eu =
    rw (el, eu, stable_value_lem _ _ sqrt side z)

-- The result for a positive budget: the liquidity with its two amounts.
pub record IsLargest (budget : ℤ) (sqrt lower upper : ℕ) (side : StableSide) (liquidity : ℕ)
    : Type 0 where
  pub paid : cost sqrt lower upper side liquidity ≤ℤ budget
  pub largest : (m : ℕ) → cost sqrt lower upper side m ≤ℤ budget → m ≤ liquidity

Bisected-IsLargest :
    (budget : ℤ) (sqrt lower upper : ℕ) (side : StableSide) (low : ℕ)
    → lower ≤ upper
    → pos 0 <ℤ budget
    → (low ≡ 0) ⊎ (leb_ℤ (cost sqrt lower upper side low) budget ≡ true)
    → leb_ℤ (cost sqrt lower upper side (low + 1)) budget ≡ false
    → IsLargest budget sqrt lower upper side low
Bisected-IsLargest budget sqrt lower upper side low le z l next = record {
  paid = elim l [
    | inl none ↦ rw (none, cost_of_none sqrt lower upper side le) (omega arith)
    | inr fit ↦ leb→le _ _ fit
  ];
  largest = λ m fit. elim (Bool-cases (leb m low)) [
    | inl within ↦ leb→le _ _ within
    | inr beyond ↦
        let more = leb→gt _ _ beyond in
        let mono = cost_mono sqrt lower upper side (low + 1) m le (omega arith) in
        absurd (omega (arith, leb→gt _ _ next, mono, fit))
  ];
}

-- For a positive budget, a price that is not zero and a range that is in order, the call raises its
-- bounds error only when a liquidity of at least 2 ^ 255 is still within the budget; else it returns the largest liquidity whose cost is
-- within the budget, with the principal amounts of that liquidity.
pub liquidity_for_budget-IsLargest :
    (budget : ℤ) (sqrt : ℕ) (lo hi : ℤ) (lower upper : ℕ) (side : StableSide)
    → pos 0 <ℤ budget
    → 0 < sqrt
    → sqrt_ratio_at_tick lo ≡ ok lower
    → sqrt_ratio_at_tick hi ≡ ok upper
    → lower ≤ upper
    → ((liquidity_for_budget budget sqrt lo hi side ≡ err liquidity_bounds)
        × ((n : ℕ) × (2 ^ 256 ≤ n * 2) × (cost sqrt lower upper side n ≤ℤ budget)))
      ⊎ ((liquidity : ℕ) × (let amounts = principal_between liquidity sqrt lower upper in
            liquidity_for_budget budget sqrt lo hi side ≡ ok (liquidity, amounts.0, amounts.1))
          × IsLargest budget sqrt lower upper side liquidity)
unfolding liquidity_for_budget principal_raw
liquidity_for_budget-IsLargest budget sqrt lo hi lower upper side zb zs el eu le =
    let test = fits budget sqrt lo hi side in
    let passes = λ (n : ℕ). leb_ℤ (cost sqrt lower upper side n) budget in
    let answers = λ (n : ℕ). fits-answers budget sqrt lo hi lower upper side n zs el eu in
    elim (searched test passes answers) [
      | inl (full, (n, past, fit)) ↦ inl (rw (gt→leb _ _ zb, full), (n, past, leb→le _ _ fit))
      | inr (high, e, no_fit, bound, l, below) ↦
          let (low, e', l', next) = halved test passes answers high no_fit bound l below in
          inr (
            low,
            rw (gt→leb _ _ zb, e, e', el, eu),
            Bisected-IsLargest budget sqrt lower upper side low le zb l' next,
          )
    ]
