-- ===== src/Market/Managed.antt =====
-- lp_market_protocols.py: `_decode_event`, the events of the V4 pool manager.
use robinhoodpools.Prelude.{
  ℕ, ◌/◌, ◌%◌, ◌==◌, not, false, String, List, [], ◌∷◌, Option, none, some, Result, ok, ◌>>=◌, ◌>>◌,
  raise_if, str_eq, ltb, if◌then◌else◌, length,
}
use robinhoodpools.Prelude.Int.{ℤ, pos, ◌-ℤ◌, max_ℤ, ltb_ℤ}
use robinhoodpools.Market.{Log, DecodeError, malformed, Runtime}
use robinhoodpools.Market.Hex.{hex, prefixed}
use robinhoodpools.Market.Words.{
  hash_of, raw_hex, words_of, uint, sint, to_bytes, topic_address, topic_at, word_at, want_topics,
}
use robinhoodpools.Market.Rows.{Row, str, num, flag, PositionKey}
use robinhoodpools.Market.Keys.{
  v4_position_manager, nft_position_key, core_position_key, v4_position_key, topic, event_at,
}

-- The constants of `_V4_CORE_TOPIC_SET`
pub data ManagerEvent : Type 0 where
  swap modify_liquidity donate fee_updated controller_updated : ManagerEvent

unfoldable pub manager_event : Runtime → String → Option ManagerEvent
unfolding event_at topic
manager_event rt t = event_at t (
    (topic rt "Swap(bytes32,address,int128,int128,uint160,uint128,int24,uint24)", swap)
    ∷ (topic rt "ModifyLiquidity(bytes32,address,int24,int24,int256,bytes32)", modify_liquidity)
    ∷ (topic rt "Donate(bytes32,address,uint256,uint256)", donate)
    ∷ (topic rt "ProtocolFeeUpdated(bytes32,uint24)", fee_updated)
    ∷ (topic rt "ProtocolFeeControllerUpdated(address)", controller_updated)
    ∷ [])

unfoldable pub manager_controller : Log → List String → Row → Result DecodeError Row
unfolding raw_hex topic_address
manager_controller log topics row = do
  want_topics 2 topics "V4 ProtocolFeeControllerUpdated"
  bytes ← raw_hex log.payload "V4 fee controller data"
  raise_if (not (length bytes == 0)) (malformed "V4 ProtocolFeeControllerUpdated")
  controller ← topic_address (topic_at topics 1) "V4 fee controller"
  ok (record row {
    kind = some "fee";
    accounting_basis = some "protocol_configuration";
    details = ("protocol_fee_controller", str controller) ∷ [];
  })

unfoldable pub manager_swap : Log → List String → Row → Result DecodeError Row
unfolding words_of uint sint topic_address
manager_swap log topics row = do
  want_topics 3 topics "V4 Swap topics"
  words ← words_of log.payload "V4 Swap data" 6
  amount0 ← sint (word_at words 0) 128 "V4 amount0"
  amount1 ← sint (word_at words 1) 128 "V4 amount1"
  fee ← uint (word_at words 5) 24 "V4 combined swap fee"
  price ← uint (word_at words 2) 160 "V4 sqrtPriceX96"
  liquidity ← uint (word_at words 3) 128 "V4 active liquidity"
  tick ← sint (word_at words 4) 24 "V4 tick"
  sender ← topic_address (topic_at topics 2) "V4 Swap sender"
  ok (record row {
    kind = some "swap";
    amount0 = some amount0;
    amount1 = some amount1;
    sqrt_price_x96 = some price;
    liquidity = some liquidity;
    tick = some tick;
    fee_ppm = some (pos fee);
    pricing_basis = some "event_state_and_delta";
    details =
        ("sender", str sender)
        ∷ ("input0", num (max_ℤ (pos 0 -ℤ amount0) (pos 0)))
        ∷ ("input1", num (max_ℤ (pos 0 -ℤ amount1) (pos 0)))
        ∷ ("fees_basis", str "gross_combined_swap_fee_event")
        ∷ [];
  })

-- `"add" if liquidity_delta > 0 else "remove" if liquidity_delta < 0 else "collect"`
abbrev pub kind_of_delta : ℤ → String
kind_of_delta delta =
    if ltb_ℤ (pos 0) delta then "add" else if ltb_ℤ delta (pos 0) then "remove" else "collect"

-- A salt of the position manager is a token id.
unfoldable pub modified_key :
    String → String → ℕ → String → Result DecodeError (Option ℕ × PositionKey)
unfolding nft_position_key core_position_key
modified_key custody pool_id salt raw_key =
    if str_eq v4_position_manager custody
    then (do key ← nft_position_key custody salt; ok (some salt, key))
    else (do key ← core_position_key "v4" pool_id raw_key; ok (none, key))

abbrev pub identity_of : Option ℕ → String
identity_of none = "core_position_custody"
identity_of (some token) = "verified_v4_nft_salt"

unfoldable pub manager_modify : Runtime → String → Log → List String → Row → Result DecodeError Row
unfolding words_of sint topic_address to_bytes hex v4_position_key modified_key
manager_modify rt pool_id log topics row = do
  want_topics 3 topics "V4 ModifyLiquidity topics"
  words ← words_of log.payload "V4 ModifyLiquidity data" 4
  custody ← topic_address (topic_at topics 2) "V4 ModifyLiquidity sender"
  lower ← sint (word_at words 0) 24 "V4 tickLower"
  upper ← sint (word_at words 1) 24 "V4 tickUpper"
  delta ← sint (word_at words 2) 256 "V4 liquidityDelta"
  let salt = prefixed (hex (to_bytes 32 (word_at words 3)))
  let raw_key = v4_position_key rt custody lower upper salt
  (token_id, key) ← modified_key custody pool_id (word_at words 3) raw_key
  ok (record row {
    kind = some (kind_of_delta delta);
    custody = some custody;
    position_key = some key;
    token_id = token_id;
    tick_lower = some lower;
    tick_upper = some upper;
    liquidity_delta = some delta;
    accounting_basis = some "pending_trace";
    identity_basis = some (identity_of token_id);
    details =
        ("salt", str salt)
        ∷ ("core_position_key", str raw_key)
        ∷ ("trace_complete", flag false)
        ∷ ("cashflow_basis", str "pending_trace")
        ∷ [];
  })

unfoldable pub manager_donate : Log → List String → Row → Result DecodeError Row
unfolding words_of topic_address
manager_donate log topics row = do
  want_topics 3 topics "V4 Donate topics"
  words ← words_of log.payload "V4 Donate data" 2
  sender ← topic_address (topic_at topics 2) "V4 Donate sender"
  ok (record row {
    kind = some "donate";
    amount0 = some (pos (word_at words 0));
    amount1 = some (pos (word_at words 1));
    fee_amount0 = some (pos (word_at words 0));
    fee_amount1 = some (pos (word_at words 1));
    accounting_basis = some "donation_to_active_liquidity";
    details = ("sender", str sender) ∷ ("fees_basis", str "donate_event_exact_unallocated") ∷ [];
  })

-- `packed & 0xFFF` and `packed >> 12`
unfoldable pub manager_fee : Log → List String → Row → Result DecodeError Row
unfolding words_of uint
manager_fee log topics row = do
  want_topics 2 topics "V4 ProtocolFeeUpdated topics"
  words ← words_of log.payload "V4 ProtocolFeeUpdated data" 1
  packed ← uint (word_at words 0) 24 "V4 protocol fee"
  ok (record row {
    kind = some "fee";
    accounting_basis = some "protocol_configuration";
    details =
        ("protocol_fee", num (pos packed))
        ∷ ("protocol_fee_zero_for_one", num (pos (packed % 4096)))
        ∷ ("protocol_fee_one_for_zero", num (pos (packed / 4096)))
        ∷ [];
  })

abbrev pub for_pool :
    Runtime → ManagerEvent → String → Log → List String → Row → Result DecodeError Row
for_pool rt swap pool_id = manager_swap
for_pool rt modify_liquidity pool_id = manager_modify rt pool_id
for_pool rt donate pool_id = manager_donate
for_pool rt fee_updated pool_id = manager_fee
for_pool rt controller_updated pool_id = manager_controller

-- The branches that read the pool's id
unfoldable pub decode_for_pool :
    Runtime → ManagerEvent → Log → List String → Row → Result DecodeError Row
unfolding hash_of manager_swap manager_modify manager_donate manager_fee manager_controller
decode_for_pool rt e log topics row = do
  raise_if (ltb (length topics) 2) (malformed "V4 event topics")
  pool_id ← hash_of (topic_at topics 1) "V4 pool id"
  for_pool rt e pool_id log topics (record row { pool_id = some pool_id })

-- The branches of the V4 block
unfoldable pub decode_managed :
    Runtime → ManagerEvent → Log → List String → Row → Result DecodeError Row
unfolding manager_controller decode_for_pool
decode_managed rt controller_updated = manager_controller
decode_managed rt swap = decode_for_pool rt swap
decode_managed rt modify_liquidity = decode_for_pool rt modify_liquidity
decode_managed rt donate = decode_for_pool rt donate
decode_managed rt fee_updated = decode_for_pool rt fee_updated
