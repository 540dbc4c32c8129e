-- ===== src/Math/Fees.antt =====
-- `fee_claim`, whose fee growth is counted modulo 2 ^ 256.
use native.Mathlib.Nat.{mod-eq_of_lt}
use robinhoodpools.Prelude.{
  ℕ, ◌+◌, ◌*◌, ◌/◌, ◌%◌, ◌^◌, ◌<◌, ◌≡◌, ◌⊎◌, arith, inl, inr, le→leb, gt→leb, lt→ltb, ge→ltb,
}
use robinhoodpools.Prelude.Int.{ℤ, ◌≤ℤ◌, ◌<ℤ◌}
use robinhoodpools.Math.{uint256, wrap_sub, inside_growth, fee_growth_amount, Growth, claim_token}

wrap_sub-add : (x d : ℕ) → wrap_sub ((x + d) % uint256) (x % uint256) ≡ d % uint256
unfolding wrap_sub
wrap_sub-add x d = omega arith

wrap_sub-twice : (g x : ℕ) → wrap_sub g (wrap_sub g x) ≡ x % uint256
unfolding wrap_sub
wrap_sub-twice g x = omega arith

wrap_sub-cancel : (g x y : ℕ) → wrap_sub (wrap_sub g x) (wrap_sub g y) ≡ wrap_sub y x
unfolding wrap_sub
wrap_sub-cancel g x y = omega arith

-- The inside growth of a range that the price is in.
inside_growth-in_range :
    (lower_out upper_out inside : ℕ) (tick lower upper : ℤ)
    → lower ≤ℤ tick
    → tick <ℤ upper
    → inside_growth
        ((lower_out + (upper_out + inside)) % uint256)
        (lower_out % uint256)
        (upper_out % uint256)
        tick
        lower
        upper
      ≡ inside % uint256
unfolding inside_growth
inside_growth-in_range lo up inside tick lower upper hl hu =
    rw (le→leb _ _ hl, lt→ltb _ _ hu, wrap_sub-add lo (up + inside), wrap_sub-add up inside)

-- While the price is in the range, a position that last saw growth `last` and whose range has
-- grown by `d` since is owed the floor of liquidity * d / 2 ^ 128, even when any of the stored
-- accumulators has wrapped.
pub claim_token_across_wrap :
    (liquidity owed lower_out upper_out last d : ℕ) (tick lower upper : ℤ)
    → lower ≤ℤ tick
    → tick <ℤ upper
    → d < uint256
    → let stored : Growth = record {
      last = last % uint256;
      owed = owed;
      global = (lower_out + (upper_out + (last + d))) % uint256;
      lower_outside = lower_out % uint256;
      upper_outside = upper_out % uint256;
    } in
      claim_token liquidity stored tick lower upper
      ≡ (owed + liquidity * d / 2 ^ 128, liquidity * d / 2 ^ 128)
unfolding claim_token fee_growth_amount
claim_token_across_wrap liquidity owed lo up last d tick lower upper hl hu hd =
    rw (inside_growth-in_range lo up (last + d) tick lower upper hl hu, wrap_sub-add last d)
      (rw (mod-eq_of_lt hd))

-- Outside the range the inside growth does not depend on the global accumulator: swaps there
-- earn the position nothing.
pub inside_growth_outside_range :
    (g g' lower_out upper_out : ℕ) (tick lower upper : ℤ)
    → ((tick <ℤ lower) × (tick <ℤ upper)) ⊎ ((lower ≤ℤ tick) × (upper ≤ℤ tick))
    → inside_growth g lower_out upper_out tick lower upper
      ≡ inside_growth g' lower_out upper_out tick lower upper
unfolding inside_growth
inside_growth_outside_range g g' lo up tick lower upper (inl (hl, hu)) =
    rw (gt→leb _ _ hl, lt→ltb _ _ hu, wrap_sub-twice g lo, wrap_sub-twice g' lo)
inside_growth_outside_range g g' lo up tick lower upper (inr (hl, hu)) =
    rw (le→leb _ _ hl, ge→ltb _ _ hu, wrap_sub-cancel g lo up, wrap_sub-cancel g' lo up)
