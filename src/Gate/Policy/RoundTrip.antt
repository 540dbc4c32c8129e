-- ===== src/Gate/Policy/RoundTrip.antt =====
-- `GatePolicy.parse` after `GatePolicy.public`, as when `Gate.policy` loads the newest row of the
-- policy table.
use robinhoodpools.Prelude.{
  ℕ, ◌+◌, ◌^◌, ◌≤◌, ◌<◌, ◌≡◌, refl, String, false, Option, none, some, List, [], ◌∷◌, arith, length,
  ok, lt→ltb, ge→ltb, gt→leb, str_eq,
}
use robinhoodpools.Prelude.Int.{ℤ, pos}
use robinhoodpools.Gate.Policy.{
  Value, integer, text, array, FeeTier, GatePolicy, uint, parse_token, parse_names, parse_tier,
  parse_tiers, parse_tier_list, parse, items_length, tier_value, tier_values, token_value, public,
  zero_address,
}
use robinhoodpools.Gate.Policy.Laws.{IsValid, IsLadder}

-- The token is an address in checksum form, and not the zero address.
abbrev pub IsChecksummed : (Value → Option String) → Option String → Type 0
IsChecksummed checksum none = Unit
IsChecksummed checksum (some t) = (checksum (text t) ≡ some t) × (str_eq t zero_address ≡ false)

module _ (parse_int : String → Option ℤ) (checksum : Value → Option String) (show : ℕ → String)
    (int_of_str : (n : ℕ) → parse_int (show n) ≡ some (pos n)) where
  uint-integer : (n bits : ℕ) → n < 2 ^ bits → uint parse_int checksum (integer (pos n)) bits ≡ ok n
  unfolding uint
  uint-integer n bits h = rw (lt→ltb _ _ h)

  uint-text : (n bits : ℕ) → n < 2 ^ bits → uint parse_int checksum (text (show n)) bits ≡ ok n
  unfolding uint
  uint-text n bits h = rw (int_of_str n, lt→ltb _ _ h)

  parse_token-value :
      (t : Option String)
      → IsChecksummed checksum t
      → parse_token parse_int checksum (token_value t) ≡ ok t
  unfolding parse_token
  parse_token-value none h = refl
  parse_token-value (some t) h = rw (h.0, h.1)

  parse_tier-value :
      (least previous : ℕ) (t : FeeTier)
      → least ≤ t.min_supply_bps
      → t.min_supply_bps ≤ 10000
      → t.fee_bps < previous
      → t.fee_bps ≤ 100
      → parse_tier parse_int checksum least previous (tier_value t) ≡ ok t
  unfolding parse_tier
  parse_tier-value least previous t h0 h1 h2 h3 = rw (
    uint-integer t.min_supply_bps 16 (omega arith),
    uint-integer t.fee_bps 16 (omega arith),
    ge→ltb 10000 t.min_supply_bps h1,
    ge→ltb 100 t.fee_bps h3,
    ge→ltb t.min_supply_bps least h0,
    gt→leb previous t.fee_bps h2,
  )

  parse_tiers-values :
      (least previous : ℕ) (ts : List FeeTier)
      → IsLadder least previous ts
      → parse_tiers parse_int checksum least previous (tier_values ts) ≡ ok ts
  unfolding parse_tiers
  parse_tiers-values least previous [] h = refl
  parse_tiers-values least previous (t ∷ ts) (h0, h1, h2, h3, rest) = rw (
    parse_tier-value least previous t h0 h1 h2 h3,
    parse_tiers-values (t.min_supply_bps + 1) t.fee_bps ts rest,
  )

  length-tier_values : (ts : List FeeTier) → items_length (tier_values ts) ≡ length ts
  length-tier_values [] = refl
  length-tier_values (t ∷ ts) = omega (arith, length-tier_values ts)

  parse_tier_list-values :
      (base : ℕ) (ts : List FeeTier)
      → length ts ≤ 4
      → IsLadder 0 (base + 1) ts
      → parse_tier_list parse_int checksum base (array (tier_values ts)) ≡ ok ts
  unfolding parse_tier_list
  parse_tier_list-values base ts few h =
      let few' : items_length (tier_values ts) ≤ 4 = omega (arith, length-tier_values ts) in
      rw (ge→ltb 4 (items_length (tier_values ts)) few', parse_tiers-values 0 (base + 1) ts h)

  -- Where `int(str(n))` gives `n` back, the parser reads the public form of every valid policy with
  -- a checksummed token back as that policy.
  pub parse-public :
      (p : GatePolicy)
      → IsValid p
      → IsChecksummed checksum p.token
      → parse parse_int checksum (public show p) ≡ ok p
  unfolding parse public parse_names
  parse-public p v c = rw (
    parse_token-value p.token c,
    uint-integer p.base_fee_bps 16 (omega (arith, v.base_fee)),
    ge→ltb 100 p.base_fee_bps v.base_fee,
    parse_tier_list-values p.base_fee_bps p.fee_tiers v.few_tiers v.ladder,
    uint-integer p.version 64 v.version_bits,
    uint-integer p.decimals 8 v.decimals_bits,
    uint-text p.trade_threshold 256 v.trade_bits,
    uint-text p.lp_threshold 256 v.lp_bits,
    uint-text p.api_threshold 256 v.api_bits,
    uint-text p.flags_threshold 256 v.flags_bits,
    uint-integer p.grace_s 32 v.grace_bits,
    uint-integer p.issued_at 64 v.issued_bits,
  )
