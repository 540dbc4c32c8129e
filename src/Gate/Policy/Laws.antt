-- ===== src/Gate/Policy/Laws.antt =====
-- What a parsed policy satisfies.
use mathlib.Core.Path.{subst}
use robinhoodpools.Prelude.{
  ℕ, suc, ◌+◌, ◌^◌, ◌≤◌, ◌<◌, ◌≡◌, refl, String, Bool, true, false, Option, List, [], ◌∷◌, arith,
  length, Result, ok, err, ◌>>=◌, Bool-cases, raise_if, ltb, leb, ltb→lt, ltb→ge, ◌||◌, ◌&&◌, not,
  ◌>>◌, Option-cases, inl, inr,
}
use robinhoodpools.Prelude.Int.{ℤ, pos, negsuc}
use robinhoodpools.Gate.Policy.{
  Value, null, other, boolean, integer, text, array, object, Items, nil, cons, FeeTier, GatePolicy,
  uint, in_range, parse_token, parse_names, parse_tier, parse_tiers, parse_tier_list, parse,
  items_length, get_field, get_or, or_null, tier_values, default_fee_tiers, only, is_some,
  policy_fields, PolicyError, bad_tier_names, tiers_out_of_order, too_many_tiers, unknown_fields,
  out_of_range,
}

-- Tiers whose supplies rise from `least` and whose fees fall below `previous_fee`.
abbrev pub IsLadder : ℕ → ℕ → List FeeTier → Type 0
IsLadder least previous_fee [] = Unit
IsLadder least previous_fee (t ∷ ts) =
    (least ≤ t.min_supply_bps)
    × (t.min_supply_bps ≤ 10000)
    × (t.fee_bps < previous_fee)
    × (t.fee_bps ≤ 100)
    × IsLadder (t.min_supply_bps + 1) t.fee_bps ts

pub record IsValid (p : GatePolicy) : Type 0 where
  pub version_bits : p.version < 2 ^ 64
  pub decimals_bits : p.decimals < 2 ^ 8
  pub trade_bits : p.trade_threshold < 2 ^ 256
  pub lp_bits : p.lp_threshold < 2 ^ 256
  pub api_bits : p.api_threshold < 2 ^ 256
  pub flags_bits : p.flags_threshold < 2 ^ 256
  pub grace_bits : p.grace_s < 2 ^ 32
  pub issued_bits : p.issued_at < 2 ^ 64
  pub base_fee : p.base_fee_bps ≤ 100
  pub few_tiers : length p.fee_tiers ≤ 4
  pub ladder : IsLadder 0 (p.base_fee_bps + 1) p.fee_tiers

-- A tier that may follow.
abbrev IsNext : ℕ → ℕ → FeeTier → Type 0
IsNext least previous t =
    (least ≤ t.min_supply_bps)
    × (t.min_supply_bps ≤ 10000)
    × (t.fee_bps < previous)
    × (t.fee_bps ≤ 100)

abbrev Whatever {ℓ} : {A : Type ℓ} → A → Type 0
Whatever a = Unit {0}

-- A result that is an error or satisfies `P`.
abbrev pub Returns : {E A : Type 0} → (A → Type 0) → Result E A → Type 0
Returns P (ok a) = P a
Returns P (err e) = Unit

pub bind-Returns :
    {E A B : Type 0} (P : A → Type 0) (Q : B → Type 0) (m : Result E A) (f : A → Result E B)
    → Returns P m
    → ((a : A) → P a → Returns Q (f a))
    → Returns Q (m >>= f)
bind-Returns P Q (ok a) f h k = k a h
bind-Returns P Q (err e) f h k = tt

weaken-Returns :
    {E A : Type 0} (P Q : A → Type 0) (m : Result E A)
    → Returns P m
    → ((a : A) → P a → Q a)
    → Returns Q m
weaken-Returns P Q (ok a) h k = k a h
weaken-Returns P Q (err e) h k = tt

tier-IsNext :
    (least previous supply fee : ℕ)
    → Returns {E = PolicyError} (IsNext least previous) (
        raise_if
          (ltb 10000 supply || (ltb 100 fee || (ltb supply least || leb previous fee)))
          tiers_out_of_order
        >> ok (record { min_supply_bps = supply; fee_bps = fee }))
tier-IsNext least previous supply fee = ground arith

any-Returns : {E A : Type 0} (m : Result E A) → Returns (λ a. Unit {0}) m
any-Returns (ok a) = tt
any-Returns (err e) = tt

raise_if-Returns : {E : Type 0} (b : Bool) (e : E) → Returns (λ u. b ≡ false) (raise_if b e)
raise_if-Returns true e = tt
raise_if-Returns false e = refl

module _ (parse_int : String → Option ℤ) (checksum : Value → Option String) where
  in_range-Returns :
      (z : ℤ) (bits : ℕ) → Returns (λ n. n < 2 ^ bits) (in_range parse_int checksum z bits)
  unfolding in_range
  in_range-Returns (negsuc n) bits = tt
  in_range-Returns (pos n) bits = elim (Bool-cases (ltb n (2 ^ bits))) [
    | inl h ↦ rw h (ltb→lt _ _ h)
    | inr h ↦ rw h tt
  ]

  pub uint-Returns :
      (v : Value) (bits : ℕ) → Returns (λ n. n < 2 ^ bits) (uint parse_int checksum v bits)
  unfolding uint
  uint-Returns null bits = tt
  uint-Returns other bits = tt
  uint-Returns (boolean b) bits = tt
  uint-Returns (integer z) bits = in_range-Returns z bits
  uint-Returns (text s) bits = elim (Option-cases (parse_int s)) [
    | inl e ↦ rw e tt
    | inr (z, e) ↦ rw e (in_range-Returns z bits)
  ]
  uint-Returns (array xs) bits = tt
  uint-Returns (object fs) bits = tt

  parse_tier-Returns :
      (least previous : ℕ) (v : Value)
      → Returns (IsNext least previous) (parse_tier parse_int checksum least previous v)
  unfolding parse_tier
  parse_tier-Returns least previous (object fs) =
      let Q = IsNext least previous in
      let number = λ (name : String). uint parse_int checksum (or_null (get_field name fs)) 16 in
      let names = not (
        only ("min_supply_bps" ∷ "fee_bps" ∷ []) fs
        && (is_some (get_field "min_supply_bps" fs) && is_some (get_field "fee_bps" fs))) in
      bind-Returns Whatever Q (raise_if names bad_tier_names) _ (any-Returns _) λ u _.
        bind-Returns Whatever Q (number "min_supply_bps") _ (any-Returns _) λ supply _.
          bind-Returns Whatever Q (number "fee_bps") _ (any-Returns _)
            λ fee _. tier-IsNext least previous supply fee
  parse_tier-Returns least previous _ = tt

  parse_tiers-Returns :
      (least previous : ℕ) (vs : Items)
      → Returns
          (λ ts. IsLadder least previous ts × (length ts ≡ items_length vs))
          (parse_tiers parse_int checksum least previous vs)
  unfolding parse_tiers
  parse_tiers-Returns least previous nil = (tt, refl)
  parse_tiers-Returns least previous (cons v vs) =
      let Q =
        λ (ts : List FeeTier). IsLadder least previous ts × (length ts ≡ suc (items_length vs)) in
      bind-Returns (IsNext least previous) Q _ _ (parse_tier-Returns least previous v) λ t ht.
        bind-Returns
          (λ ts. IsLadder (t.min_supply_bps + 1) t.fee_bps ts × (length ts ≡ items_length vs)) Q _ _
          (parse_tiers-Returns (t.min_supply_bps + 1) t.fee_bps vs)
          λ ts hts. ((ht.0, ht.1, ht.2, ht.3, hts.0), omega (arith, hts.1))

  parse_tier_list-Returns :
      (base : ℕ) (v : Value)
      → Returns
          (λ ts. IsLadder 0 (base + 1) ts × (length ts ≤ 4))
          (parse_tier_list parse_int checksum base v)
  unfolding parse_tier_list
  parse_tier_list-Returns base (array vs) =
      let Q = λ (ts : List FeeTier). IsLadder 0 (base + 1) ts × (length ts ≤ 4) in
      bind-Returns (λ u. ltb 4 (items_length vs) ≡ false) Q _ _
        (raise_if-Returns (ltb 4 (items_length vs)) too_many_tiers)
        λ u few.
          weaken-Returns (λ ts. IsLadder 0 (base + 1) ts × (length ts ≡ items_length vs)) Q
            (parse_tiers parse_int checksum 0 (base + 1) vs) (parse_tiers-Returns 0 (base + 1) vs)
            λ ts hts. (hts.0, omega (arith, hts.1, ltb→ge _ _ few))
  parse_tier_list-Returns base _ = tt

  abbrev U : ℕ → ℕ → Type 0
  U bits n = n < 2 ^ bits

  parse-Returns : (v : Value) → Returns IsValid (parse parse_int checksum v)
  unfolding parse
  parse-Returns (object fs) =
      let get = λ (name : String). or_null (get_field name fs) in
      bind-Returns Whatever IsValid _ _
        (any-Returns (raise_if (not (only policy_fields fs)) unknown_fields))
        λ _ _.
          bind-Returns Whatever IsValid _ _
            (any-Returns (parse_token parse_int checksum (get "token")))
            λ token _.
              bind-Returns Whatever IsValid _ _
                (any-Returns (parse_names parse_int checksum (get "threshold")))
                λ names _.
                  bind-Returns Whatever IsValid _ _
                    (any-Returns (
                      uint parse_int checksum
                        (get_or (get_field "base_fee_bps" fs) (integer (pos 100))) 16))
                    λ base _.
                      bind-Returns (λ u. ltb 100 base ≡ false) IsValid _ _
                        (raise_if-Returns (ltb 100 base) out_of_range)
                        λ _ hb.
                          bind-Returns (λ ts. IsLadder 0 (base + 1) ts × (length ts ≤ 4)) IsValid _
                            _
                            (parse_tier_list-Returns base (
                              get_or (get_field "fee_tiers" fs)
                                (array (tier_values default_fee_tiers))))
                            λ tiers ht.
                              bind-Returns (U 64) IsValid _ _ (uint-Returns (get "version") 64)
                                λ version hv.
                                  bind-Returns (U 8) IsValid _ _
                                    (uint-Returns
                                      (get_or (get_field "decimals" fs) (integer (pos 18))) 8)
                                    λ decimals hd.
                                      bind-Returns (U 256) IsValid _ _
                                        (uint-Returns (or_null (get_field "trade" names)) 256)
                                        λ t h0.
                                          bind-Returns (U 256) IsValid _ _
                                            (uint-Returns (or_null (get_field "lp" names)) 256)
                                            λ l h1.
                                              bind-Returns (U 256) IsValid _ _
                                                (uint-Returns (or_null (get_field "api" names)) 256)
                                                λ a h2.
                                                  bind-Returns (U 256) IsValid _ _
                                                    (uint-Returns
                                                      (or_null (get_field "flags" names)) 256)
                                                    λ f h3.
                                                      bind-Returns (U 32) IsValid _ _
                                                        (uint-Returns
                                                          (get_or (get_field "grace_s" fs)
                                                            (integer (pos 0)))
                                                          32)
                                                        λ grace hg.
                                                          bind-Returns (U 64) IsValid _ _
                                                            (uint-Returns (get "issued_at") 64)
                                                            λ issued hi. record {
                                                            version_bits = hv;
                                                            decimals_bits = hd;
                                                            trade_bits = h0;
                                                            lp_bits = h1;
                                                            api_bits = h2;
                                                            flags_bits = h3;
                                                            grace_bits = hg;
                                                            issued_bits = hi;
                                                            base_fee = ltb→ge _ _ hb;
                                                            few_tiers = ht.1;
                                                            ladder = ht.0;
                                                            }
  parse-Returns _ = tt

  -- Every policy that the parser accepts has its fields within their bit widths, a base fee of at
  -- most one per cent, and at most four tiers whose supplies rise and whose fees fall.
  pub parse-IsValid : (v : Value) (p : GatePolicy) → parse parse_int checksum v ≡ ok p → IsValid p
  parse-IsValid v p h = subst (Returns IsValid) h (parse-Returns v)
