-- ===== src/Math/Principal.antt =====
-- `principal_raw` against the two deltas.
use native.Mathlib.Nat.{le_refl, mul-zero, zero-div}
use robinhoodpools.Prelude.{
  ℕ, ◌-◌, ◌*◌, ◌/◌, ◌≤◌, ◌<◌, ◌≡◌, refl, false, arith, min, max, ok, Bool-cases, inl, inr, leb,
  leb→le, leb→gt,
}
use robinhoodpools.Prelude.Int.{pos, sub_ℕ}
use robinhoodpools.Math.{q96, floor_div, amount0_delta, amount1_delta, principal_between}

-- The price, moved into the range.
abbrev pub clamp : ℕ → ℕ → ℕ → ℕ
clamp lower upper sqrt = max lower (min sqrt upper)

delta0-down :
    (a b liquidity : ℕ)
    → 0 < a
    → a ≤ b
    → amount0_delta a b liquidity false ≡ ok (liquidity * q96 * (b - a) / b / a)
unfolding amount0_delta floor_div
delta0-down a b liquidity h le = ground arith

delta0_self : (a liquidity : ℕ) → 0 < a → amount0_delta a a liquidity false ≡ ok 0
delta0_self a liquidity h =
    let none_left : a - a ≡ 0 = omega arith in
    rw (delta0-down a a liquidity h (le_refl a), none_left) (rw (mul-zero, zero-div, zero-div))

delta1-down :
    (a b liquidity : ℕ) → a ≤ b → amount1_delta a b liquidity false ≡ liquidity * (b - a) / q96
unfolding amount1_delta
delta1-down a b liquidity le = ground arith

delta1_self : (a liquidity : ℕ) → amount1_delta a a liquidity false ≡ 0
delta1_self a liquidity =
    let none_left : a - a ≡ 0 = omega arith in
    rw (delta1-down a a liquidity (le_refl a), none_left) (omega arith)

sub_ℕ-pos : (a b : ℕ) → b ≤ a → sub_ℕ a b ≡ pos (a - b)
sub_ℕ-pos a b h = ground arith

-- On every branch, the principal is the token0 amount from the clamped price to the upper end and
-- the token1 amount from the lower end to the clamped price, both rounded down.
pub principal-eq-deltas :
    (liquidity sqrt lower upper : ℕ)
    → 0 < lower
    → lower ≤ upper
    → (x : ℕ) × (y : ℕ) × (principal_between liquidity sqrt lower upper ≡ (pos x, pos y))
      × (amount0_delta (clamp lower upper sqrt) upper liquidity false ≡ ok x)
      × (amount1_delta lower (clamp lower upper sqrt) liquidity false ≡ y)
unfolding principal_between
principal-eq-deltas liquidity sqrt lower upper h le = elim (Bool-cases (leb sqrt lower)) [
  | inl below ↦
      let e : clamp lower upper sqrt ≡ lower = omega (arith, leb→le _ _ below) in
      rw (below, e, sub_ℕ-pos upper lower le)
        (
          liquidity * q96 * (upper - lower) / upper / lower,
          0,
          refl,
          delta0-down lower upper liquidity h le,
          delta1_self lower liquidity,
        )
  | inr more ↦ elim (Bool-cases (leb upper sqrt)) [
    | inl above ↦
        let e : clamp lower upper sqrt ≡ upper = omega (arith, leb→le _ _ above, leb→gt _ _ more) in
        rw (more, above, e, sub_ℕ-pos upper lower le)
          (
            0,
            liquidity * (upper - lower) / q96,
            refl,
            delta0_self upper liquidity (omega arith),
            delta1-down lower upper liquidity le,
          )
    | inr inside ↦
        let s_low = leb→gt _ _ more in
        let s_high = leb→gt _ _ inside in
        let e : clamp lower upper sqrt ≡ sqrt = omega arith in
        rw (more, inside, e)
          (
            liquidity * q96 * (upper - sqrt) / upper / sqrt,
            liquidity * (sqrt - lower) / q96,
            refl,
            delta0-down sqrt upper liquidity (omega arith) (omega arith),
            delta1-down lower sqrt liquidity (omega arith),
          )
  ]
]
