-- ===== src/Tx/Liquidity/Within.antt =====
-- `liquidity_for_amounts` of tx_plan.py against `principal_for_liquidity`.
mod Tests
use robinhoodpools.Prelude.{
  ℕ, ◌+◌, ◌-◌, ◌*◌, ◌/◌, ◌≤◌, ◌<◌, ◌≡◌, refl, Bool, true, false, arith, min, ltb, leb, Bool-cases,
  inl, inr, ltb→lt, ltb→ge, leb→le, leb→gt, ge→ltb, ok, Result, if◌then◌else◌,
}
use robinhoodpools.Math.{
  MathError, q96, floor_div, ceil_div, delta0_sorted, delta1_sorted, amount0_delta, amount1_delta,
}
use robinhoodpools.Math.Deltas.{floor-le, mul_mono}
use robinhoodpools.Tx.Liquidity.{liq0, liq1, sorted_liquidity, liquidity_for_amounts, principal_at}

ceil-le : (n d k : ℕ) → 0 < d → n ≤ k * d → (n + d - 1) / d ≤ k
ceil-le n d k h le = grind arith

delta0-up :
    (a b liquidity : ℕ)
    → 0 < a
    → a ≤ b
    → amount0_delta a b liquidity true ≡ ok (((liquidity * q96 * (b - a) + b - 1) / b + a - 1) / a)
unfolding amount0_delta delta0_sorted ceil_div
delta0-up a b liquidity h le = ground arith

delta1-up :
    (a b liquidity : ℕ)
    → a ≤ b
    → amount1_delta a b liquidity true ≡ (liquidity * (b - a) + q96 - 1) / q96
unfolding amount1_delta delta1_sorted
delta1-up a b liquidity le = ground arith

liq0-ok : (x a b : ℕ) → a < b → liq0 x a b ≡ ok (x * (a * b / q96) / (b - a))
unfolding floor_div
liq0-ok x a b h = ground arith

liq1-ok : (y a b : ℕ) → a < b → liq1 y a b ≡ ok (y * q96 / (b - a))
unfolding floor_div
liq1-ok y a b h = ground arith

-- A liquidity of at most `liq0` asks for no more token0 than was offered, even rounded up.
within0 :
    (x a b l : ℕ)
    → 0 < a
    → a < b
    → l ≤ x * (a * b / q96) / (b - a)
    → (u : ℕ) × ((amount0_delta a b l true ≡ ok u) × (u ≤ x))
within0 x a b l ha hab h =
    let d = b - a in
    let k = a * b / q96 in
    let under : l * d ≤ x * k = grind (arith, mul_mono d l (x * k / d) h, floor-le (x * k) d) in
    let scaled : l * d * q96 ≤ x * k * q96 = mul_mono q96 (l * d) (x * k) under in
    let price : k * q96 ≤ a * b = floor-le (a * b) q96 in
    let priced : k * q96 * x ≤ a * b * x = mul_mono x (k * q96) (a * b) price in
    let enough : l * q96 * d ≤ x * a * b = omega (arith, scaled, priced) in
    let first : (l * q96 * d + b - 1) / b ≤ x * a =
      ceil-le (l * q96 * d) b (x * a) (omega (arith, ha, hab)) enough in
    (
      ((l * q96 * d + b - 1) / b + a - 1) / a,
      (delta0-up a b l ha (omega (arith, hab)), ceil-le ((l * q96 * d + b - 1) / b) a x ha first),
    )

-- A liquidity of at most `liq1` asks for no more token1 than was offered, even rounded up.
within1 : (y a b l : ℕ) → a < b → l ≤ y * q96 / (b - a) → amount1_delta a b l true ≤ y
within1 y a b l hab h =
    let d = b - a in
    let under : l * d ≤ y * q96 =
      omega (arith, mul_mono d l (y * q96 / d) h, floor-le (y * q96) d) in
    let small : (l * d + q96 - 1) / q96 ≤ y = ceil-le (l * d) q96 y (omega arith) under in
    rw (delta1-up a b l (omega (arith, hab))) small

-- Between two different prices above zero, in order, and at any price, `liquidity_for_amounts` returns a
-- liquidity, and the amounts that `principal_for_liquidity` asks for it, even rounded up, are at most
-- the two amounts that were offered.
pub liquidity_for_amounts-within :
    (p a b x y : ℕ)
    → 0 < a
    → a < b
    → (l : ℕ) × ((liquidity_for_amounts p a b x y ≡ ok l)
        × ((u : ℕ) × ((v : ℕ) × ((principal_at p a b l true ≡ ok (u, v)) × ((u ≤ x) × (v ≤ y))))))
unfolding liquidity_for_amounts sorted_liquidity principal_at
liquidity_for_amounts-within p a b x y ha hab =
    let order : ltb b a ≡ false = ge→ltb b a (omega (arith, hab)) in
    elim (Bool-cases (leb p a)) [
      | inl below ↦
          let l = x * (a * b / q96) / (b - a) in
          let (u, (eu, le)) = within0 x a b l ha hab (omega arith) in
          (
            l,
            (
              rw (liquidity_for_amounts, order, below, liq0-ok x a b hab) refl,
              (u, (0, (rw (principal_at, below, eu) refl, (le, omega arith)))),
            ),
          )
      | inr above ↦ elim (Bool-cases (ltb p b)) [
        | inl inside ↦
            let hap : a < p = leb→gt p a above in
            let hpb : p < b = ltb→lt p b inside in
            let l0 = x * (p * b / q96) / (b - p) in
            let l1 = y * q96 / (p - a) in
            let (u, (eu, le)) = within0 x p b (min l0 l1) (omega (arith, hap)) hpb (omega arith) in
            (
              min l0 l1,
              (
                rw
                    (
                      liquidity_for_amounts,
                      order,
                      above,
                      inside,
                      liq0-ok x p b hpb,
                      liq1-ok y a p hap,
                    )
                    refl,
                (
                  u,
                  (
                    amount1_delta a p (min l0 l1) true,
                    (
                      rw (principal_at, above, inside, eu) refl,
                      (le, within1 y a p (min l0 l1) hap (omega arith)),
                    ),
                  ),
                ),
              ),
            )
        | inr over ↦
            let l = y * q96 / (b - a) in
            (
              l,
              (
                rw (liquidity_for_amounts, order, above, over, liq1-ok y a b hab) refl,
                (
                  0,
                  (
                    amount1_delta a b l true,
                    (
                      rw (principal_at, above, over) refl,
                      (omega arith, within1 y a b l hab (omega arith)),
                    ),
                  ),
                ),
              ),
            )
      ]
    ]
