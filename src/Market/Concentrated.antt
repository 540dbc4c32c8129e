-- ===== src/Market/Concentrated.antt =====
-- lp_market_protocols.py: `_decode_event`, the events of the V3 pools.
pub mod Swaps
pub mod Flows
use robinhoodpools.Prelude.{
  ℕ, ◌+◌, ◌==◌, Bool, true, false, String, List, [], ◌∷◌, ◌++◌, Option, none, some, Result, ok,
  ◌>>=◌, ◌>>◌, str_eq, if◌then◌else◌,
}
use robinhoodpools.Prelude.Int.{ℤ, pos, ◌-ℤ◌, max_ℤ}
use robinhoodpools.Dict.{Dict}
use robinhoodpools.Market.{Log, DecodeError, Runtime}
use robinhoodpools.Market.Words.{
  address?, words_of, uint, sint, word_address, topic_address, topic_sint, topic_at, word_at,
  want_topics,
}
use robinhoodpools.Market.Rows.{Row, PoolInfo, Datum, str, num, flag, PositionKey}
use robinhoodpools.Market.Keys.{
  pancake_v3_factory, v3_position_key, core_position_key, topic, event_at,
}
use robinhoodpools.Market.Pairs.{fees_basis}
use robinhoodpools.Market.Positions.{pool_mint, pool_burn, pool_collect}

-- The constants of `_V3_CORE_TOPIC_SET`
pub data PoolEvent : Type 0 where
  initialize swap extended_swap mint burn collect flash : PoolEvent
  set_fee_protocol pancake_set_fee_protocol collect_protocol : PoolEvent

unfoldable pub pool_event : Runtime → String → Option PoolEvent
unfolding event_at topic
pool_event rt t = event_at t (
    (topic rt "Initialize(uint160,int24)", initialize)
    ∷ (topic rt "Swap(address,address,int256,int256,uint160,uint128,int24)", swap)
    ∷ ("0x19b47279256b2a23a1665c810c8d55a1758940ee09377d4f8d26497a3577dc83", extended_swap)
    ∷ (topic rt "Mint(address,address,int24,int24,uint128,uint256,uint256)", mint)
    ∷ (topic rt "Burn(address,int24,int24,uint128,uint256,uint256)", burn)
    ∷ (topic rt "Collect(address,address,int24,int24,uint128,uint128)", collect)
    ∷ (topic rt "Flash(address,address,uint256,uint256,uint256,uint256)", flash)
    ∷ (topic rt "SetFeeProtocol(uint8,uint8,uint8,uint8)", set_fee_protocol)
    ∷ (topic rt "SetFeeProtocol(uint32,uint32,uint32,uint32)", pancake_set_fee_protocol)
    ∷ (topic rt "CollectProtocol(address,address,uint128,uint128)", collect_protocol)
    ∷ [])

unfoldable pub pool_initialize : Log → List String → Row → Result DecodeError Row
unfolding words_of uint sint
pool_initialize log topics row = do
  want_topics 1 topics "V3 Initialize topics"
  words ← words_of log.payload "V3 Initialize data" 2
  price ← uint (word_at words 0) 160 "V3 sqrtPriceX96"
  tick ← sint (word_at words 1) 24 "V3 tick"
  ok (record row {
    kind = some "checkpoint";
    sqrt_price_x96 = some price;
    tick = some tick;
    pricing_basis = some "event_state";
  })

-- `data` of a swap, which the two words of the extended event add to
abbrev pub swap_details : String → String → ℤ → ℤ → String → Dict Datum
swap_details sender recipient amount0 amount1 basis =
    ("sender", str sender)
    ∷ ("recipient", str recipient)
    ∷ ("input0", num (max_ℤ amount0 (pos 0)))
    ∷ ("input1", num (max_ℤ amount1 (pos 0)))
    ∷ ("fees_basis", str basis)
    ∷ []

unfoldable pub protocol_fees :
    Bool → List ℕ → (String → Dict Datum) → String → Result DecodeError (Dict Datum)
unfolding uint
protocol_fees extended words details basis = elim extended [
  | false ↦ ok (details basis)
  | true ↦ do
    fee0 ← uint (word_at words 5) 128 "Pancake V3 protocolFeesToken0"
    fee1 ← uint (word_at words 6) 128 "Pancake V3 protocolFeesToken1"
    ok (
        details "protocol_fee_event_exact_gross_swap_fee_from_tier"
        ++ (("protocol_fee_amount0", num (pos fee0))
            ∷ ("protocol_fee_amount1", num (pos fee1))
            ∷ ("protocol_fee_observed", flag true)
            ∷ []))
]

unfoldable pub pool_swap : Bool → Log → List String → Row → Result DecodeError Row
unfolding words_of uint sint topic_address protocol_fees
pool_swap extended log topics row = do
  want_topics 3 topics "V3 Swap topics"
  words ← words_of log.payload "V3 Swap data" (if extended then 7 else 5)
  amount0 ← sint (word_at words 0) 256 "V3 amount0"
  amount1 ← sint (word_at words 1) 256 "V3 amount1"
  price ← uint (word_at words 2) 160 "V3 sqrtPriceX96"
  liquidity ← uint (word_at words 3) 128 "V3 active liquidity"
  tick ← sint (word_at words 4) 24 "V3 tick"
  sender ← topic_address (topic_at topics 1) "V3 Swap sender"
  recipient ← topic_address (topic_at topics 2) "V3 Swap recipient"
  details ←
      protocol_fees extended words (swap_details sender recipient amount0 amount1)
        (fees_basis row.fee_ppm "unknown_pool_fee")
  ok (record row {
    kind = some "swap";
    amount0 = some amount0;
    amount1 = some amount1;
    sqrt_price_x96 = some price;
    liquidity = some liquidity;
    tick = some tick;
    pricing_basis = some "event_state_and_delta";
    details = details;
  })

unfoldable pub pool_flash : Log → List String → Row → Result DecodeError Row
unfolding words_of uint topic_address
pool_flash log topics row = do
  want_topics 3 topics "V3 Flash topics"
  words ← words_of log.payload "V3 Flash data" 4
  paid0 ← uint (word_at words 2) 256 "V3 Flash paid0"
  paid1 ← uint (word_at words 3) 256 "V3 Flash paid1"
  amount0 ← uint (word_at words 0) 256 "V3 Flash amount0"
  amount1 ← uint (word_at words 1) 256 "V3 Flash amount1"
  sender ← topic_address (topic_at topics 1) "V3 Flash sender"
  recipient ← topic_address (topic_at topics 2) "V3 Flash recipient"
  ok (record row {
    kind = some "fee";
    amount0 = some (pos amount0);
    amount1 = some (pos amount1);
    fee_amount0 = some (pos paid0);
    fee_amount1 = some (pos paid1);
    accounting_basis = some "flash_paid_exact_fee_and_overpayment";
    details =
        ("sender", str sender)
        ∷ ("recipient", str recipient)
        ∷ ("fees_basis", str "gross_pool_flash_paid_exact")
        ∷ [];
  })

-- `factory == PANCAKE_V3_FACTORY`
abbrev pub is_pancake : Option String → Bool
is_pancake none = false
is_pancake (some f) = str_eq pancake_v3_factory f

abbrev pub fee_encoding : Bool → Option String → String
fee_encoding packed factory =
    if is_pancake factory
    then "pancake_uint16_ppm_each"
    else if packed
    then "extended_v3_uint16_ppm_each"
    else "uniswap_uint4_divisor_each"

-- The names of the four values
abbrev pub fee_policy : Bool → ℕ → ℕ → ℕ → ℕ → Dict Datum
fee_policy true a b c d =
    ("fee_protocol0_ppm_old", num (pos a))
    ∷ ("fee_protocol1_ppm_old", num (pos b))
    ∷ ("fee_protocol0_ppm_new", num (pos c))
    ∷ ("fee_protocol1_ppm_new", num (pos d))
    ∷ []
fee_policy false a b c d =
    ("fee_protocol0_divisor_old", num (pos a))
    ∷ ("fee_protocol1_divisor_old", num (pos b))
    ∷ ("fee_protocol0_divisor_new", num (pos c))
    ∷ ("fee_protocol1_divisor_new", num (pos d))
    ∷ []

unfoldable pub pool_fee_protocol :
    Bool → PoolInfo → Log → List String → Row → Result DecodeError Row
unfolding words_of uint address?
pool_fee_protocol packed pool log topics row = do
  want_topics 1 topics "V3 SetFeeProtocol topics"
  words ← words_of log.payload "V3 SetFeeProtocol data" 4
  let bits : ℕ = if packed then 32 else 8
  a ← uint (word_at words 0) bits "V3 protocol fee"
  b ← uint (word_at words 1) bits "V3 protocol fee"
  c ← uint (word_at words 2) bits "V3 protocol fee"
  d ← uint (word_at words 3) bits "V3 protocol fee"
  ok (record row {
    kind = some "fee";
    accounting_basis = some "protocol_configuration";
    details =
        fee_policy packed a b c d
        ++ (("fee_protocol_encoding", str (fee_encoding packed (address? pool.factory))) ∷ []);
  })

unfoldable pub pool_collect_protocol : Log → List String → Row → Result DecodeError Row
unfolding words_of uint topic_address
pool_collect_protocol log topics row = do
  want_topics 3 topics "V3 CollectProtocol topics"
  words ← words_of log.payload "V3 CollectProtocol data" 2
  amount0 ← uint (word_at words 0) 128 "V3 protocol amount0"
  amount1 ← uint (word_at words 1) 128 "V3 protocol amount1"
  sender ← topic_address (topic_at topics 1) "V3 protocol fee sender"
  recipient ← topic_address (topic_at topics 2) "V3 protocol fee recipient"
  ok (record row {
    kind = some "fee";
    amount0 = some (pos amount0);
    amount1 = some (pos amount1);
    accounting_basis = some "protocol_fee_withdrawal_not_lp_revenue";
    details = ("sender", str sender) ∷ ("recipient", str recipient) ∷ [];
  })

-- The branches of the V3 block
unfoldable pub decode_pool :
    Runtime → PoolEvent → PoolInfo → Log → List String → Row → Result DecodeError Row
unfolding pool_initialize pool_swap pool_mint pool_burn pool_collect pool_flash pool_fee_protocol
    pool_collect_protocol
decode_pool rt initialize pool = pool_initialize
decode_pool rt swap pool = pool_swap false
decode_pool rt extended_swap pool = pool_swap true
decode_pool rt mint pool = pool_mint rt
decode_pool rt burn pool = pool_burn rt
decode_pool rt collect pool = pool_collect rt
decode_pool rt flash pool = pool_flash
decode_pool rt set_fee_protocol pool = pool_fee_protocol false pool
decode_pool rt pancake_set_fee_protocol pool = pool_fee_protocol true pool
decode_pool rt collect_protocol pool = pool_collect_protocol
