-- ===== src/Math/Search.antt =====
-- The tick search, `tick_at_sqrt_price_x96`.
use native.Mathlib.Nat.{pow-suc}
use mathlib.Core.Path.{subst}
use robinhoodpools.Prelude.{
  ℕ, zero, suc, ◌+◌, ◌/◌, ◌^◌, ◌≤◌, ◌<◌, ◌≡◌, refl, sym, ap, ◌∙◌, ◌⊎◌, inl, inr, true, false, arith,
  ltb, leb, ◌&&◌, Bool-cases, if◌then◌else◌, Result, ok, leb→le, leb→gt, gt→leb, lt→ltb,
}
use robinhoodpools.Prelude.Int.{
  ℤ, pos, pos_part, neg_part, ◌+ℤ◌, ◌-ℤ◌, half, ◌≤ℤ◌, ◌<ℤ◌, leb_ℤ, int_laws,
}
use robinhoodpools.Math.{
  MathError, min_tick_ℤ, max_tick_ℤ, min_sqrt_ratio, max_sqrt_ratio, ratio_at, round_up_32,
  multiply_bits, tick_multipliers, sqrt_ratio_at_tick, search_tick, tick_at_sqrt_price_x96,
}

sqrt_ratio-in_range :
    (t : ℤ) → min_tick_ℤ ≤ℤ t → t ≤ℤ max_tick_ℤ → sqrt_ratio_at_tick t ≡ ok (ratio_at t)
unfolding sqrt_ratio_at_tick
sqrt_ratio-in_range t lo hi = ground arith

ratio_at-min : ratio_at min_tick_ℤ ≡ min_sqrt_ratio
unfolding ratio_at tick_multipliers multiply_bits round_up_32
ratio_at-min = refl

ratio_at-max : ratio_at max_tick_ℤ ≡ max_sqrt_ratio
unfolding ratio_at tick_multipliers multiply_bits round_up_32
ratio_at-max = refl

-- The ends of the searched range, from either side.
abbrev IsBelow : ℕ → ℤ → Type 0
IsBelow p t = (t ≡ min_tick_ℤ -ℤ pos 1) ⊎ (ratio_at t ≤ p)

abbrev IsAbove : ℕ → ℤ → Type 0
IsAbove p t = (t ≡ max_tick_ℤ +ℤ pos 1) ⊎ (p < ratio_at t)

abbrev Found : ℕ → Result MathError ℤ → Type 0
Found p r =
    (t : ℤ) × (r ≡ ok t)
    × (min_tick_ℤ ≤ℤ t +ℤ pos 1)
    × (t ≤ℤ max_tick_ℤ)
    × IsBelow p t
    × IsAbove p (t +ℤ pos 1)

-- `n` counts the ticks from `low` to `high`.
record Range (low high : ℤ) (n : ℕ) : Type 0 where
  from_min : min_tick_ℤ ≤ℤ low
  to_max : high ≤ℤ max_tick_ℤ
  ordered : low ≤ℤ high +ℤ pos 1
  room : pos_part high + neg_part low + 1 ≤ pos_part low + neg_part high + n

middle_bounds :
    (low high : ℤ) → low ≤ℤ high → (low ≤ℤ half (low +ℤ high)) × (half (low +ℤ high) ≤ℤ high)
middle_bounds low high h = omega int_laws

Range-upper :
    (low high : ℤ) (n : ℕ)
    → Range low high n
    → low ≤ℤ high
    → Range (half (low +ℤ high) +ℤ pos 1) high (n / 2)
Range-upper low high n r h = record {
  from_min = omega (int_laws, middle_bounds low high h, r.from_min);
  to_max = r.to_max;
  ordered = omega (int_laws, middle_bounds low high h);
  room = omega (int_laws, r.room);
}

Range-lower :
    (low high : ℤ) (n : ℕ)
    → Range low high n
    → low ≤ℤ high
    → Range low (half (low +ℤ high) -ℤ pos 1) (n / 2)
Range-lower low high n r h = record {
  from_min = r.from_min;
  to_max = omega (int_laws, middle_bounds low high h, r.to_max);
  ordered = omega (int_laws, middle_bounds low high h);
  room = omega (int_laws, r.room);
}

sub_add_one : (t : ℤ) → t +ℤ pos 1 -ℤ pos 1 ≡ t
sub_add_one t = omega int_laws

add_sub_one : (t : ℤ) → t -ℤ pos 1 +ℤ pos 1 ≡ t
add_sub_one t = omega int_laws

leb_ℤ→le : (a b : ℤ) → leb_ℤ a b ≡ true → a ≤ℤ b
leb_ℤ→le a b = leb→le _ _

leb_ℤ→gt : (a b : ℤ) → leb_ℤ a b ≡ false → b <ℤ a
leb_ℤ→gt a b = leb→gt _ _

le→leb_ℤ-false : (a b : ℤ) → b <ℤ a → leb_ℤ a b ≡ false
le→leb_ℤ-false a b = gt→leb _ _

-- The range is empty, and the invariant is the result.
stopped-Found :
    (p : ℕ) (low high : ℤ) (n : ℕ)
    → Range low high n
    → high <ℤ low
    → IsBelow p (low -ℤ pos 1)
    → IsAbove p (high +ℤ pos 1)
    → Found p (ok high)
stopped-Found p low high n r h b a =
    let e : low -ℤ pos 1 ≡ high = omega (int_laws, r.ordered) in
    (high, refl, omega (int_laws, r.from_min, r.ordered), r.to_max, subst (IsBelow p) e b, a)

search_tick-Found :
    (fuel p : ℕ) (low high : ℤ) (n : ℕ)
    → n < 2 ^ fuel
    → Range low high n
    → IsBelow p (low -ℤ pos 1)
    → IsAbove p (high +ℤ pos 1)
    → Found p (search_tick (suc fuel) p low high)
unfolding search_tick
search_tick-Found zero p low high n f r b a =
    let h : high <ℤ low = omega (int_laws, r.room) in
    rw (le→leb_ℤ-false low high h) (stopped-Found p low high n r h b a)
search_tick-Found (suc fuel) p low high n f r b a = elim (Bool-cases (leb_ℤ low high)) [
  | inl go ↦
      let h = leb_ℤ→le low high go in
      let m = half (low +ℤ high) in
      let f' : n / 2 < 2 ^ fuel = omega (arith, pow-suc 2 fuel) in
      let bounds = middle_bounds low high h in
      let mid : sqrt_ratio_at_tick m ≡ ok (ratio_at m) =
        sqrt_ratio-in_range m (omega (arith, r.from_min, bounds.0))
          (omega (arith, r.to_max, bounds.1)) in
      elim (Bool-cases (leb (ratio_at m) p)) [
        | inl up ↦
            rw (go, mid, up)
              (search_tick-Found fuel p (m +ℤ pos 1) high (n / 2) f' (Range-upper low high n r h)
                (inr (rw (sub_add_one m) (leb→le _ _ up))) a)
        | inr down ↦
            rw (go, mid, down)
              (search_tick-Found fuel p low (m -ℤ pos 1) (n / 2) f' (Range-lower low high n r h) b
                (inr (rw (add_sub_one m) (leb→gt _ _ down))))
      ]
  | inr stop ↦ rw stop (stopped-Found p low high n r (leb_ℤ→gt low high stop) b a)
]

next_of_min : (t : ℤ) → t ≡ min_tick_ℤ -ℤ pos 1 → t +ℤ pos 1 ≡ min_tick_ℤ
next_of_min t e = ap (λ (x : ℤ). x +ℤ pos 1) e ∙ add_sub_one min_tick_ℤ

last_is_max : (t : ℤ) → t +ℤ pos 1 ≡ max_tick_ℤ +ℤ pos 1 → t ≡ max_tick_ℤ
last_is_max t e = sym (sub_add_one t) ∙ ap (λ (x : ℤ). x -ℤ pos 1) e ∙ sub_add_one max_tick_ℤ

reached_or_next : (t : ℤ) → min_tick_ℤ ≤ℤ t +ℤ pos 1 → (min_tick_ℤ ≤ℤ t) ⊎ (t +ℤ pos 1 ≡ min_tick_ℤ)
reached_or_next t near = elim (Bool-cases (leb_ℤ min_tick_ℤ t)) [
  | inl in_range ↦ inl (leb_ℤ→le min_tick_ℤ t in_range)
  | inr below ↦ inr (omega (int_laws, leb_ℤ→gt min_tick_ℤ t below, near))
]

-- The two ends of the tick range have the ratios that the range test of the price names, so an
-- invariant that held only by running off the range is refuted.
Found-inside :
    (p : ℕ) (t : ℤ)
    → min_sqrt_ratio < p
    → p < max_sqrt_ratio
    → min_tick_ℤ ≤ℤ t +ℤ pos 1
    → IsBelow p t
    → IsAbove p (t +ℤ pos 1)
    → (min_tick_ℤ ≤ℤ t) × (ratio_at t ≤ p) × (p < ratio_at (t +ℤ pos 1))
Found-inside p t lo hi near (inl e) (inl e') =
    let both : min_tick_ℤ ≡ max_tick_ℤ +ℤ pos 1 = sym (next_of_min t e) ∙ e' in
    absurd (unfold ◌+ℤ◌ in ground (arith, both))
Found-inside p t lo hi near (inl e) (inr a) =
    let low : p < min_sqrt_ratio = rw (next_of_min t e, ratio_at-min) at a in absurd (omega arith)
Found-inside p t lo hi near (inr b) (inl e) =
    let high : max_sqrt_ratio ≤ p = rw (last_is_max t e, ratio_at-max) at b in absurd (omega arith)
Found-inside p t lo hi near (inr b) (inr a) = elim (reached_or_next t near) [
  | inl in_range ↦ (in_range, b, a)
  | inr e ↦ let low : p < min_sqrt_ratio = rw (e, ratio_at-min) at a in absurd (omega arith)
]

price_in_range :
    (p : ℕ) (x y : Result MathError ℤ)
    → min_sqrt_ratio < p
    → p < max_sqrt_ratio
    → (if ltb min_sqrt_ratio p && ltb p max_sqrt_ratio then x else y) ≡ x
price_in_range p x y lo hi = rw (lt→ltb _ _ lo, lt→ltb _ _ hi)

-- For every price strictly inside the protocol's range the search returns a tick from the lowest to
-- the highest one, whose ratio is not above the price, while the ratio of the next tick is above it.
pub tick_at_sqrt_price_brackets :
    (p : ℕ)
    → min_sqrt_ratio < p
    → p < max_sqrt_ratio
    → (t : ℤ) × (tick_at_sqrt_price_x96 p ≡ ok t)
      × (min_tick_ℤ ≤ℤ t)
      × (t ≤ℤ max_tick_ℤ)
      × (ratio_at t ≤ p)
      × (p < ratio_at (t +ℤ pos 1))
unfolding tick_at_sqrt_price_x96
tick_at_sqrt_price_brackets p lo hi =
    let (t, e, near, top, b, a) =
      search_tick-Found 21 p min_tick_ℤ max_tick_ℤ 1774545 (omega arith)
        (record {
          from_min = omega arith;
          to_max = omega arith;
          ordered = omega int_laws;
          room = omega arith;
        })
        (inl refl) (inl refl) in
    let inside = Found-inside p t lo hi near b a in
    (t, price_in_range p _ _ lo hi ∙ e, inside.0, top, inside.1, inside.2)
