-- ===== src/Math/Ratio.antt =====
-- The ratios of the tick table, by which `principal_raw` divides.
use native.Mathlib.Nat.{le_refl, le_trans, le-div_iff_mul-le}
use robinhoodpools.Prelude.{
  ℕ, ◌+◌, ◌-◌, ◌*◌, ◌/◌, ◌^◌, ◌%◌, ◌≤◌, ◌<◌, List, [], ◌∷◌, true, false, arith, All, Bool-cases,
  inl, inr, if◌then◌else◌, ◌==◌, Bool,
}
use robinhoodpools.Prelude.Int.{ℤ, pos, abs, ltb_ℤ}
use robinhoodpools.Math.{ratio_at, multiply_bits, tick_multipliers, round_up_32, uint256}

-- The product of all multipliers, which is what the largest ticks come near.
multiply_all : List ℕ → ℕ → ℕ
multiply_all [] ratio = ratio
multiply_all (m ∷ ms) ratio = multiply_all ms (ratio * m / 2 ^ 128)

mul_mono : (k x y : ℕ) → x ≤ y → x * k ≤ y * k
mul_mono k x y h = grind arith

shrinks : (x m : ℕ) → m ≤ 2 ^ 128 → x * m / 2 ^ 128 ≤ x
shrinks x m h = let h' : m * x ≤ 2 ^ 128 * x = mul_mono x m (2 ^ 128) h in omega arith

step_le :
    (x y m : ℕ) (bit : Bool)
    → m ≤ 2 ^ 128
    → x ≤ y
    → x * m / 2 ^ 128 ≤ (if bit then y * m / 2 ^ 128 else y)
step_le x y m true h le = omega (arith, mul_mono m x y le)
step_le x y m false h le = omega (arith, shrinks x m h)

step_shrinks : (x m : ℕ) (bit : Bool) → m ≤ 2 ^ 128 → (if bit then x * m / 2 ^ 128 else x) ≤ x
step_shrinks x m true h = shrinks x m h
step_shrinks x m false h = omega arith

multiply_all-le-bits :
    (ms : List ℕ) (absolute bit x y : ℕ)
    → All (λ m. m ≤ 2 ^ 128) ms
    → x ≤ y
    → multiply_all ms x ≤ multiply_bits absolute bit ms y
unfolding multiply_all multiply_bits
multiply_all-le-bits [] absolute bit x y h le = le
multiply_all-le-bits (m ∷ ms) absolute bit x y h le =
    multiply_all-le-bits ms absolute (bit + 1) (x * m / 2 ^ 128) _ h.1
      (step_le x y m ((absolute / 2 ^ bit) % 2 == 1) h.0 le)

multiply_bits-le :
    (ms : List ℕ) (absolute bit x y : ℕ)
    → All (λ m. m ≤ 2 ^ 128) ms
    → x ≤ y
    → multiply_bits absolute bit ms x ≤ y
unfolding multiply_bits
multiply_bits-le [] absolute bit x y h le = le
multiply_bits-le (m ∷ ms) absolute bit x y h le =
    multiply_bits-le ms absolute (bit + 1) _ y h.1
      (le_trans (step_shrinks x m ((absolute / 2 ^ bit) % 2 == 1) h.0) le)

tick_multipliers-le : All (λ m. m ≤ 2 ^ 128) tick_multipliers
unfolding tick_multipliers
tick_multipliers-le = omega arith

product-ge : 2 ^ 32 ≤ multiply_all tick_multipliers (2 ^ 128)
unfolding multiply_all tick_multipliers
product-ge = omega arith

round_up_32-pos : (x : ℕ) → 2 ^ 32 ≤ x → 0 < round_up_32 x
unfolding round_up_32
round_up_32-pos x h = ground arith

inverse-ge : (x : ℕ) → 0 < x → x ≤ 2 ^ 128 → 2 ^ 32 ≤ (uint256 - 1) / x
inverse-ge x h le = (le-div_iff_mul-le h).1 (omega arith)

-- The ratio of every tick is positive.
pub ratio_at_pos : (tick : ℤ) → 0 < ratio_at tick
unfolding ratio_at
ratio_at_pos tick =
    let r = multiply_bits (abs tick) 0 tick_multipliers (2 ^ 128) in
    let low : 2 ^ 32 ≤ r = le_trans product-ge (
      multiply_all-le-bits tick_multipliers (abs tick) 0 _ _ tick_multipliers-le
        (le_refl (2 ^ 128))) in
    let high : r ≤ 2 ^ 128 =
      multiply_bits-le tick_multipliers (abs tick) 0 _ _ tick_multipliers-le (le_refl (2 ^ 128)) in
    elim (Bool-cases (ltb_ℤ (pos 0) tick)) [
      | inl up ↦ rw up (round_up_32-pos _ (inverse-ge r (omega (arith, low)) high))
      | inr down ↦ rw down (round_up_32-pos r low)
    ]
