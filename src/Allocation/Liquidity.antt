-- ===== src/Allocation/Liquidity.antt =====
-- The doubling and the halving loop of `_liquidity_for_budget`, over any test that does not raise.
use native.Mathlib.Nat.{pow-suc}
use robinhoodpools.Prelude.{
  ℕ, zero, suc, ◌+◌, ◌*◌, ◌/◌, ◌^◌, ◌≤◌, ◌<◌, ◌≡◌, refl, ◌⊎◌, inl, inr, arith, Bool, true, false,
  Result, ok, err, Bool-cases, ltb, leb, ltb→lt, ltb→ge, ge→ltb, leb→gt, leb→le,
}
use robinhoodpools.Allocation.{AllocationError, liquidity_bounds, grow, bisect}

-- The two loops over a test that does not raise.
module _ (test : ℕ → Result AllocationError Bool) (passes : ℕ → Bool)
    (answers : (n : ℕ) → test n ≡ ok (passes n)) where
  -- Either a number passes whose double is past 256 bits, or the loop stops at the first
  -- power of two that does not pass.
  abbrev pub Grown : Result AllocationError ℕ → Type 0
  Grown r =
      ((r ≡ err liquidity_bounds) × ((n : ℕ) × (2 ^ 256 ≤ n * 2) × (passes n ≡ true)))
      ⊎ ((high : ℕ) × (r ≡ ok high)
          × (passes high ≡ false)
          × (high < 2 ^ 256)
          × ((high / 2 ≡ 0) ⊎ (passes (high / 2) ≡ true))
          × (high / 2 < high))

  grow-Grown :
      (fuel high : ℕ)
      → 2 ^ 256 ≤ high * 2 ^ fuel
      → high < 2 ^ 256
      → 0 < high
      → (high / 2 ≡ 0) ⊎ (passes (high / 2) ≡ true)
      → Grown (grow test fuel high)
  unfolding grow
  grow-Grown zero high f lt z h = absurd (omega arith)
  grow-Grown (suc fuel) high f lt z h = elim (Bool-cases (passes high)) [
    | inr stop ↦ rw (answers high, stop) (inr (high, refl, stop, lt, h, omega arith))
    | inl go ↦ elim (Bool-cases (leb (2 ^ 256) (high * 2))) [
      | inl full ↦ rw (answers high, go, full) (inl (refl, (high, leb→le _ _ full, go)))
      | inr room ↦
          let half : high * 2 / 2 ≡ high = omega arith in
          let f' : 2 ^ 256 ≤ high * 2 * 2 ^ fuel = omega (arith, rw (pow-suc 2 fuel) at f) in
          rw (answers high, go, room)
            (grow-Grown fuel (high * 2) f' (leb→gt _ _ room) (omega arith) (inr (rw half go)))
    ]
  ]

  abbrev pub Bisected : Result AllocationError ℕ → Type 0
  Bisected r =
      (low : ℕ) × (r ≡ ok low) × ((low ≡ 0) ⊎ (passes low ≡ true)) × (passes (low + 1) ≡ false)

  stopped :
      (low high : ℕ)
      → low < high
      → high ≤ low + 1
      → (low ≡ 0) ⊎ (passes low ≡ true)
      → passes high ≡ false
      → Bisected (ok low)
  stopped low high lt le l h = let e : low + 1 ≡ high = omega arith in (low, refl, l, rw e h)

  bisect-Bisected :
      (fuel low high : ℕ)
      → low < high
      → high ≤ low + 2 ^ fuel
      → (low ≡ 0) ⊎ (passes low ≡ true)
      → passes high ≡ false
      → Bisected (bisect test (suc fuel) low high)
  unfolding bisect
  bisect-Bisected zero low high lt f l h =
      let near : high ≤ low + 1 = omega arith in
      rw (ge→ltb (low + 1) high near) (stopped low high lt near l h)
  bisect-Bisected (suc fuel) low high lt f l h = elim (Bool-cases (ltb (low + 1) high)) [
    | inr near ↦ rw near (stopped low high lt (ltb→ge _ _ near) l h)
    | inl far ↦
        let lt' = ltb→lt _ _ far in
        let middle = (low + high) / 2 in
        let f' = rw (pow-suc 2 fuel) at f in
        elim (Bool-cases (passes middle)) [
          | inl go ↦
              rw (far, answers middle, go)
                (bisect-Bisected fuel middle high (omega arith) (omega (arith, f')) (inr go) h)
          | inr stop ↦
              rw (far, answers middle, stop)
                (bisect-Bisected fuel low middle (omega arith) (omega (arith, f')) l stop)
        ]
  ]

  -- The two loops, one after the other, as `_liquidity_for_budget` runs them.
  pub searched : Grown (grow test 256 1)
  searched = grow-Grown 256 1 (omega arith) (omega arith) (omega arith) (inl refl)

  pub halved :
      (high : ℕ)
      → passes high ≡ false
      → high < 2 ^ 256
      → (high / 2 ≡ 0) ⊎ (passes (high / 2) ≡ true)
      → high / 2 < high
      → Bisected (bisect test 257 (high / 2) high)
  halved high h lt l below = bisect-Bisected 256 (high / 2) high below (omega arith) l h
