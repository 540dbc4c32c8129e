-- ===== src/Gate/Policy.antt =====
-- lp_gate.py: `GatePolicy`, `_uint` and `GatePolicy.parse`, over JSON values. What Python's
-- `int(text, 10)` and eth_utils' `to_checksum_address` give on a value are parameters.
pub mod Laws
pub mod RoundTrip
pub mod Samples
mod Tests
use robinhoodpools.Prelude.{
  ℕ, zero, suc, ◌+◌, ◌-◌, ◌*◌, ◌^◌, ◌≤◌, ◌<◌, String, Bool, true, false, not, ◌&&◌, ◌||◌, Option,
  none, some, List, [], ◌∷◌, str_eq, ltb, leb, if◌then◌else◌, Result, ok, err, ◌>>=◌, ◌>>◌,
  raise_if, or_raise,
}
use robinhoodpools.Prelude.Int.{ℤ, pos, negsuc, ltb_ℤ, leb_ℤ}

-- What `json.loads` gives; `other` is a float.
mutual
  pub data Value : Type 0 where
    null other : Value
    boolean : Bool → Value
    integer : ℤ → Value
    text : String → Value
    array : Items → Value
    object : Fields → Value

  pub data Items : Type 0 where
    nil : Items
    cons : Value → Items → Items

  -- The keys of an object differ from one another.
  pub data Fields : Type 0 where
    end : Fields
    field : String → Value → Fields → Fields

pub data Feature : Type 0 where
  trade lp api flags : Feature

-- `FEATURES`
abbrev pub features : List Feature
features = trade ∷ lp ∷ api ∷ flags ∷ []

abbrev pub feature_name : Feature → String
feature_name trade = "trade"
feature_name lp = "lp"
feature_name api = "api"
feature_name flags = "flags"

pub record FeeTier : Type 0 where
  pub min_supply_bps : ℕ
  pub fee_bps : ℕ

pub record GatePolicy : Type 0 where
  pub version : ℕ
  pub token : Option String
  pub decimals : ℕ
  pub trade_threshold : ℕ
  pub lp_threshold : ℕ
  pub api_threshold : ℕ
  pub flags_threshold : ℕ
  pub grace_s : ℕ
  pub issued_at : ℕ
  pub base_fee_bps : ℕ
  pub fee_tiers : List FeeTier

-- `policy.threshold[feature]`
abbrev pub threshold : GatePolicy → Feature → ℕ
threshold p trade = p.trade_threshold
threshold p lp = p.lp_threshold
threshold p api = p.api_threshold
threshold p flags = p.flags_threshold

abbrev pub default_fee_tiers : List FeeTier
default_fee_tiers =
    record { min_supply_bps = 10; fee_bps = 75 } ∷ record { min_supply_bps = 50; fee_bps = 50 } ∷ []

abbrev pub unset_policy : GatePolicy
unset_policy = record {
  version = 0;
  token = none;
  decimals = 18;
  trade_threshold = 0;
  lp_threshold = 0;
  api_threshold = 0;
  flags_threshold = 0;
  grace_s = 0;
  issued_at = 0;
  base_fee_bps = 100;
  fee_tiers = default_fee_tiers;
}

pub data PolicyError : Type 0 where
  not_an_object unknown_fields token_not_address bad_threshold_names : PolicyError
  not_an_integer out_of_range too_many_tiers bad_tier_names tiers_out_of_order : PolicyError

abbrev pub zero_address : String
zero_address = "0x0000000000000000000000000000000000000000"

-- `obj.get(name)`, with `None` where the key is missing
unfoldable pub get_field : String → Fields → Option Value
get_field name end = none
get_field name (field key value rest) = if str_eq key name then some value else get_field name rest

abbrev pub or_null : Option Value → Value
or_null none = null
or_null (some v) = v

abbrev pub get_or : Option Value → Value → Value
get_or none d = d
get_or (some v) d = v

abbrev pub one_of : List String → String → Bool
one_of [] name = false
one_of (x ∷ xs) name = str_eq x name || one_of xs name

-- `set(fields) - set(names)` is empty.
unfoldable pub only : List String → Fields → Bool
only names end = true
only names (field key value rest) = one_of names key && only names rest

abbrev pub is_some : Option Value → Bool
is_some none = false
is_some (some v) = true

abbrev pub policy_fields : List String
policy_fields =
    "version" ∷ "token" ∷ "decimals" ∷ "threshold" ∷ "grace_s" ∷ "issued_at" ∷ "base_fee_bps"
    ∷ "fee_tiers" ∷ []

-- The default of `obj.get("fee_tiers", ...)`.
abbrev pub tier_value : FeeTier → Value
tier_value t = object (
    field "min_supply_bps" (integer (pos t.min_supply_bps))
      (field "fee_bps" (integer (pos t.fee_bps)) end))

abbrev pub tier_values : List FeeTier → Items
tier_values [] = nil
tier_values (t ∷ ts) = cons (tier_value t) (tier_values ts)

abbrev pub items_length : Items → ℕ
items_length nil = 0
items_length (cons v vs) = suc (items_length vs)

module _ (parse_int : String → Option ℤ) (checksum : Value → Option String) where
  in_range : ℤ → ℕ → Result PolicyError ℕ
  in_range (negsuc n) bits = err out_of_range
  in_range (pos n) bits = if ltb n (2 ^ bits) then ok n else err out_of_range

  -- `_uint`
  unfoldable pub uint : Value → ℕ → Result PolicyError ℕ
  unfolding in_range
  uint (integer z) bits = in_range z bits
  uint (text s) bits = do z ← or_raise (parse_int s) not_an_integer; in_range z bits
  uint _ bits = err not_an_integer

  -- The token, `None` for the zero address.
  unfoldable pub parse_token : Value → Result PolicyError (Option String)
  parse_token null = ok none
  parse_token v = do
    token ← or_raise (checksum v) token_not_address
    ok (if str_eq token zero_address then none else some token)

  -- `threshold must name exactly ...`
  unfoldable pub parse_names : Value → Result PolicyError Fields
  unfolding only get_field
  parse_names (object fields) =
      if only ("trade" ∷ "lp" ∷ "api" ∷ "flags" ∷ []) fields
        && (is_some (get_field "trade" fields)
            && (is_some (get_field "lp" fields)
                && (is_some (get_field "api" fields) && is_some (get_field "flags" fields))))
      then ok fields
      else err bad_threshold_names
  parse_names _ = err bad_threshold_names

  -- One round of the loop over the tiers. `least` is one more than `previous_supply`.
  unfoldable pub parse_tier : ℕ → ℕ → Value → Result PolicyError FeeTier
  unfolding only get_field
  parse_tier least previous_fee (object fields) = do
    raise_if
        (not (
          only ("min_supply_bps" ∷ "fee_bps" ∷ []) fields
          && (is_some (get_field "min_supply_bps" fields) && is_some (get_field "fee_bps" fields))))
        bad_tier_names
    supply ← uint (or_null (get_field "min_supply_bps" fields)) 16
    fee ← uint (or_null (get_field "fee_bps" fields)) 16
    raise_if (ltb 10000 supply || (ltb 100 fee || (ltb supply least || leb previous_fee fee)))
        tiers_out_of_order
    ok (record { min_supply_bps = supply; fee_bps = fee })
  parse_tier least previous_fee _ = err bad_tier_names

  unfoldable pub parse_tiers : ℕ → ℕ → Items → Result PolicyError (List FeeTier)
  parse_tiers least previous_fee nil = ok []
  parse_tiers least previous_fee (cons v vs) = do
    t ← parse_tier least previous_fee v
    ts ← parse_tiers (t.min_supply_bps + 1) t.fee_bps vs
    ok (t ∷ ts)

  -- `fee_tiers must be a list of at most four tiers`
  unfoldable pub parse_tier_list : ℕ → Value → Result PolicyError (List FeeTier)
  parse_tier_list base_fee (array items) = do
    raise_if (ltb 4 (items_length items)) too_many_tiers
    parse_tiers 0 (base_fee + 1) items
  parse_tier_list base_fee _ = err too_many_tiers

  -- `GatePolicy.parse`
  unfoldable pub parse : Value → Result PolicyError GatePolicy
  unfolding only get_field
  parse (object fields) = do
    raise_if (not (only policy_fields fields)) unknown_fields
    token ← parse_token (or_null (get_field "token" fields))
    thresholds ← parse_names (or_null (get_field "threshold" fields))
    base_fee ← uint (get_or (get_field "base_fee_bps" fields) (integer (pos 100))) 16
    raise_if (ltb 100 base_fee) out_of_range
    tiers ←
        parse_tier_list base_fee
          (get_or (get_field "fee_tiers" fields) (array (tier_values default_fee_tiers)))
    version ← uint (or_null (get_field "version" fields)) 64
    decimals ← uint (get_or (get_field "decimals" fields) (integer (pos 18))) 8
    t ← uint (or_null (get_field "trade" thresholds)) 256
    l ← uint (or_null (get_field "lp" thresholds)) 256
    a ← uint (or_null (get_field "api" thresholds)) 256
    f ← uint (or_null (get_field "flags" thresholds)) 256
    grace ← uint (get_or (get_field "grace_s" fields) (integer (pos 0))) 32
    issued ← uint (or_null (get_field "issued_at" fields)) 64
    ok (record {
      version = version;
      token = token;
      decimals = decimals;
      trade_threshold = t;
      lp_threshold = l;
      api_threshold = a;
      flags_threshold = f;
      grace_s = grace;
      issued_at = issued;
      base_fee_bps = base_fee;
      fee_tiers = tiers;
    })
  parse _ = err not_an_object

abbrev pub token_value : Option String → Value
token_value none = null
token_value (some t) = text t

-- `GatePolicy.public`; `show` is Python's `str` on a number.
module _ (show : ℕ → String) where
  unfoldable pub public : GatePolicy → Value
  public p = object (
      field "version" (integer (pos p.version)) (
        field "token" (token_value p.token) (
          field "decimals" (integer (pos p.decimals)) (
            field "threshold"
              (object (
                field "trade" (text (show p.trade_threshold)) (
                  field "lp" (text (show p.lp_threshold)) (
                    field "api" (text (show p.api_threshold))
                      (field "flags" (text (show p.flags_threshold)) end)))))
              (field "grace_s" (integer (pos p.grace_s)) (
                field "issued_at" (integer (pos p.issued_at)) (
                  field "base_fee_bps" (integer (pos p.base_fee_bps))
                    (field "fee_tiers" (array (tier_values p.fee_tiers)) end))))))))
