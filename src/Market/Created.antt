-- ===== src/Market/Created.antt =====
-- lp_market_protocols.py: `_normalize_pool_creation` and `_creation_row`, the events that create a pool.
use Prim.Native.String.{compare}
use text.Mathlib.Text.{is_lt}
use robinhoodpools.Prelude.{
  ℕ, ◌/◌, ◌%◌, Bool, not, String, List, [], ◌∷◌, Option, none, some, Result, ok, err, ◌>>=◌, ◌>>◌,
  raise_if, str_eq, ltb, ◌==◌, if◌then◌else◌, length,
}
use robinhoodpools.Prelude.Int.{ℤ, pos}
use robinhoodpools.Market.{Log, DecodeError, malformed, Runtime}
use robinhoodpools.Market.Words.{
  integer, address?, hash_of, words_of, uint, sint, word_address, topic_address, topic_uint,
  topic_sint, topics_of, topic_at, word_at, want_topics,
}
use robinhoodpools.Market.Rows.{Row, PoolRow, str, num, flag, Headers, base}
use robinhoodpools.Market.Keys.{
  pool_manager, slipstream_factory, v2_factories, concentrated_factories, is_among, v4_pool_id,
  topic, event_at,
}

-- The constants of `_CREATION_TOPIC_SET`
pub data Creation : Type 0 where
  v4_initialize v3_created v3_created_compact slipstream_created v2_created : Creation

unfoldable pub creation_at : Runtime → String → Option Creation
unfolding event_at topic
creation_at rt t = event_at t (
    (
      topic rt "Initialize(bytes32,address,address,uint24,int24,address,uint160,int24)",
      v4_initialize,
    )
    ∷ (topic rt "PoolCreated(address,address,uint24,int24,address)", v3_created)
    ∷ (topic rt "PoolCreated(address,address,uint24,address)", v3_created_compact)
    ∷ (topic rt "PoolCreated(address,address,int24,address)", slipstream_created)
    ∷ (topic rt "PairCreated(address,address,address,uint256)", v2_created)
    ∷ [])

-- `fee & 0x800000`, of a fee below 2 ** 24
abbrev pub is_dynamic : ℕ → Bool
is_dynamic fee = fee / 8388608 % 2 == 1

unfoldable pub v4_creation : Runtime → Log → List String → ℤ → Result DecodeError PoolRow
unfolding words_of hash_of topic_address uint sint word_address v4_pool_id
v4_creation rt log topics block = do
  want_topics 4 topics "V4 Initialize topics"
  words ← words_of log.payload "V4 Initialize data" 5
  pool_id ← hash_of (topic_at topics 1) "V4 pool id"
  token0 ← topic_address (topic_at topics 2) "V4 currency0"
  token1 ← topic_address (topic_at topics 3) "V4 currency1"
  fee ← uint (word_at words 0) 24 "V4 configured fee"
  spacing ← sint (word_at words 1) 24 "V4 tick spacing"
  hook ← word_address (word_at words 2) "V4 hook"
  sqrt_price ← uint (word_at words 3) 160 "V4 sqrtPriceX96"
  tick ← sint (word_at words 4) 24 "V4 tick"
  raise_if (not (is_lt (compare token0 token1)))
      (malformed "V4 currencies are not strictly ordered")
  raise_if (not (str_eq (v4_pool_id rt token0 token1 fee spacing hook) pool_id))
      (malformed "V4 Initialize PoolKey hash mismatch")
  ok (record {
    id = pool_id;
    protocol = "v4";
    address = pool_manager;
    token0 = token0;
    token1 = token1;
    fee_ppm = if is_dynamic fee then none else some fee;
    tick_spacing = some spacing;
    hook = some hook;
    factory = pool_manager;
    created_block = block;
    source = "PoolManager.Initialize";
    metadata_json = ("configured_fee", num (pos fee)) ∷ ("dynamic_fee", flag (is_dynamic fee)) ∷ [];
    start = some (sqrt_price, tick);
  })

unfoldable pub v2_creation : Log → String → List String → ℤ → Result DecodeError PoolRow
unfolding words_of topic_address word_address
v2_creation log emitter topics block = do
  want_topics 3 topics "V2 PairCreated topics"
  words ← words_of log.payload "V2 PairCreated data" 2
  token0 ← topic_address (topic_at topics 1) "V2 token0"
  token1 ← topic_address (topic_at topics 2) "V2 token1"
  pair ← word_address (word_at words 0) "V2 pair"
  ok (record {
    id = pair;
    protocol = "v2";
    address = pair;
    token0 = token0;
    token1 = token1;
    fee_ppm = none;
    tick_spacing = none;
    hook = none;
    factory = emitter;
    created_block = block;
    source = "V2Factory.PairCreated";
    metadata_json =
        ("pair_index", num (pos (word_at words 1)))
        ∷ ("discovery_basis", str "factory_creation_event")
        ∷ [];
    start = none;
  })

-- What the three shapes of `PoolCreated` hold: fee, spacing and pool.
abbrev pub Shape : Type 0
Shape = Option ℕ × Option ℤ × String

unfoldable pub canonical_shape : Log → List String → Result DecodeError Shape
unfolding words_of topic_uint sint word_address
canonical_shape log topics = do
  want_topics 4 topics "canonical V3 PoolCreated topics"
  words ← words_of log.payload "V3 PoolCreated data" 2
  fee ← topic_uint (topic_at topics 3) 24 "V3 fee"
  spacing ← sint (word_at words 0) 24 "V3 tick spacing"
  pool ← word_address (word_at words 1) "V3 pool"
  ok (some fee, some spacing, pool)

unfoldable pub compact_shape : Log → List String → Result DecodeError Shape
unfolding words_of topic_uint uint word_address
compact_shape log topics =
    if length topics == 4
    then (do
      words ← words_of log.payload "compact V3 PoolCreated data" 1
      fee ← topic_uint (topic_at topics 3) 24 "compact V3 fee"
      pool ← word_address (word_at words 0) "compact V3 pool"
      ok (some fee, none, pool))
    else if length topics == 3
    then (do
      words ← words_of log.payload "compact V3 PoolCreated data" 2
      fee ← uint (word_at words 0) 24 "compact V3 fee"
      pool ← word_address (word_at words 1) "compact V3 pool"
      ok (some fee, none, pool))
    else err (malformed "compact V3 PoolCreated topics")

unfoldable pub slipstream_shape : Log → List String → Result DecodeError Shape
unfolding words_of topic_sint sint word_address
slipstream_shape log topics =
    if length topics == 4
    then (do
      words ← words_of log.payload "Slipstream PoolCreated data" 1
      spacing ← topic_sint (topic_at topics 3) 24 "Slipstream tick spacing"
      pool ← word_address (word_at words 0) "Slipstream pool"
      ok (none, some spacing, pool))
    else if length topics == 3
    then (do
      words ← words_of log.payload "Slipstream PoolCreated data" 2
      spacing ← sint (word_at words 0) 24 "Slipstream tick spacing"
      pool ← word_address (word_at words 1) "Slipstream pool"
      ok (none, some spacing, pool))
    else err (malformed "Slipstream PoolCreated topics")

abbrev pub v3_source : String → String
v3_source emitter =
    if str_eq slipstream_factory emitter
    then "SlipstreamFactory.PoolCreated"
    else "V3Factory.PoolCreated"

unfoldable pub v3_creation :
    (Log → List String → Result DecodeError Shape)
    → Log
    → String
    → List String
    → ℤ
    → Result DecodeError PoolRow
unfolding topic_address
v3_creation shape log emitter topics block = do
  raise_if (ltb (length topics) 3) (malformed "V3 PoolCreated topics")
  token0 ← topic_address (topic_at topics 1) "V3 token0"
  token1 ← topic_address (topic_at topics 2) "V3 token1"
  (fee, spacing, pool) ← shape log topics
  ok (record {
    id = pool;
    protocol = "v3";
    address = pool;
    token0 = token0;
    token1 = token1;
    fee_ppm = fee;
    tick_spacing = spacing;
    hook = none;
    factory = emitter;
    created_block = block;
    source = v3_source emitter;
    metadata_json = ("discovery_basis", str "factory_creation_event") ∷ [];
    start = none;
  })

-- `some` of what a step gives
abbrev pub found : {A : Type 0} → Result DecodeError A → Result DecodeError (Option A)
found (ok a) = ok (some a)
found (err e) = err e

abbrev pub creation_of :
    Runtime → Creation → Log → String → List String → ℤ → Result DecodeError (Option PoolRow)
creation_of rt v4_initialize log emitter topics block =
    if str_eq pool_manager emitter then found (v4_creation rt log topics block) else ok none
creation_of rt v2_created log emitter topics block =
    if is_among emitter v2_factories then found (v2_creation log emitter topics block) else ok none
creation_of rt v3_created log emitter topics block =
    if is_among emitter concentrated_factories
    then found (v3_creation canonical_shape log emitter topics block)
    else ok none
creation_of rt v3_created_compact log emitter topics block =
    if is_among emitter concentrated_factories
    then found (v3_creation compact_shape log emitter topics block)
    else ok none
creation_of rt slipstream_created log emitter topics block =
    if is_among emitter concentrated_factories
    then found (v3_creation slipstream_shape log emitter topics block)
    else ok none

-- `_normalize_pool_creation`
unfoldable pub normalize_pool_creation :
    Runtime → Log → String → Result DecodeError (Option PoolRow)
unfolding creation_at address? topics_of integer v4_creation v2_creation v3_creation canonical_shape
    compact_shape slipstream_shape
normalize_pool_creation rt log topic0 = elim (creation_at rt topic0) [
  | none ↦ ok none
  | some c ↦ elim (address? log.address) [
    | none ↦ ok none
    | some emitter ↦ do
      topics ← topics_of log
      block ← integer rt log.block_number "creation block"
      creation_of rt c log emitter topics block
  ]
]

abbrev pub start_price : Option (ℕ × ℤ) → Option ℕ
start_price none = none
start_price (some (price, tick)) = some price

abbrev pub start_tick : Option (ℕ × ℤ) → Option ℤ
start_tick none = none
start_tick (some (price, tick)) = some tick

abbrev pub signed : Option ℕ → Option ℤ
signed none = none
signed (some n) = some (pos n)

-- `_creation_row`
unfoldable pub creation_row : Runtime → Log → Headers → PoolRow → Result DecodeError Row
unfolding base
creation_row rt log headers pool = do
  row ← base rt log headers
  ok (record row {
    pool_id = some pool.id;
    protocol = some pool.protocol;
    kind = some "create";
    sqrt_price_x96 = start_price pool.start;
    tick = start_tick pool.start;
    fee_ppm = signed pool.fee_ppm;
    pricing_basis = if str_eq pool.protocol "v4" then some "event_state" else none;
    accounting_basis = some "creation_event";
    identity_basis = some "factory_or_manager_event";
    created = some (record pool { start = none });
  })
