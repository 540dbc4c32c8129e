-- ===== src/Market/Rows.antt =====
-- lp_market_protocols.py: the row of a decoded log, `_base`, and what the code reads of a known pool.
-- The six dollar fields of a row are None in all of this code and are left out; a decimal text of a row
-- is the number it writes.
use robinhoodpools.Prelude.{
  ℕ, Bool, ◌&&◌, ◌||◌, not, String, [], ◌∷◌, Option, none, some, Result, ok, err, ◌>>=◌, ◌>>◌,
  raise_if, str_eq, if◌then◌else◌,
}
use robinhoodpools.Prelude.Int.{ℤ, pos, ltb_ℤ}
use robinhoodpools.Dict.{Dict, put}
use robinhoodpools.Market.{
  Value, missing, DecodeError, malformed, no_header, hash_mismatch, Log, Header, HeaderKey, number,
  digits, hex_digits, Runtime,
}
use robinhoodpools.Market.Hex.{lower}
use robinhoodpools.Market.Words.{integer, hash_of}

-- A value of `row["data"]` or of `metadata_json`.
pub data Datum : Type 0 where
  str : String → Datum
  num : ℤ → Datum
  flag : Bool → Datum

-- The keys of a position: `nft:{manager}:{token}` and `{protocol}:{pool}:{core key}`.
pub data PositionKey : Type 0 where
  nft : String → ℕ → PositionKey
  core : String → String → String → PositionKey

-- The pool of a creation event, `_sqrt_price_x96` and `_tick` in `start`. The symbols and decimals are
-- None there and are left out.
pub record PoolRow : Type 0 where
  pub id : String
  pub protocol : String
  pub address : String
  pub token0 : String
  pub token1 : String
  pub fee_ppm : Option ℕ
  pub tick_spacing : Option ℤ
  pub hook : Option String
  pub factory : String
  pub created_block : ℤ
  pub source : String
  pub metadata_json : Dict Datum
  pub start : Option (ℕ × ℤ)

pub record Row : Type 0 where
  pub block_number : ℤ
  pub block_hash : String
  pub tx_hash : String
  pub tx_index : ℤ
  pub log_index : ℤ
  pub timestamp : ℤ
  pub pool_id : Option String
  pub protocol : Option String
  pub kind : Option String
  pub owner : Option String
  pub custody : Option String
  pub position_key : Option PositionKey
  pub token_id : Option ℕ
  pub tick_lower : Option ℤ
  pub tick_upper : Option ℤ
  pub liquidity_delta : Option ℤ
  pub liquidity : Option ℕ
  pub sqrt_price_x96 : Option ℕ
  pub tick : Option ℤ
  pub fee_ppm : Option ℤ
  pub amount0 : Option ℤ
  pub amount1 : Option ℤ
  pub fee_amount0 : Option ℤ
  pub fee_amount1 : Option ℤ
  pub cashflow0 : Option ℤ
  pub cashflow1 : Option ℤ
  pub pricing_basis : Option String
  pub accounting_basis : Option String
  pub identity_basis : Option String
  pub details : Dict Datum
  pub created : Option PoolRow

abbrev pub Headers : Type 0
Headers = HeaderKey → Option Header

-- `_header`
unfoldable pub header_of : Headers → ℤ → Result DecodeError Header
header_of headers n = elim (headers (number n)) [
  | some h ↦ ok h
  | none ↦ elim (headers (digits n)) [
    | some h ↦ ok h
    | none ↦ elim (headers (hex_digits n)) [ some h ↦ ok h | none ↦ err (no_header n) ]
  ]
]

abbrev pub blank : ℤ → String → String → ℤ → ℤ → ℤ → Row
blank block block_hash tx_hash tx_index log_index timestamp = record {
  block_number = block;
  block_hash = block_hash;
  tx_hash = tx_hash;
  tx_index = tx_index;
  log_index = log_index;
  timestamp = timestamp;
  pool_id = none;
  protocol = none;
  kind = none;
  owner = none;
  custody = none;
  position_key = none;
  token_id = none;
  tick_lower = none;
  tick_upper = none;
  liquidity_delta = none;
  liquidity = none;
  sqrt_price_x96 = none;
  tick = none;
  fee_ppm = none;
  amount0 = none;
  amount1 = none;
  fee_amount0 = none;
  fee_amount1 = none;
  cashflow0 = none;
  cashflow1 = none;
  pricing_basis = none;
  accounting_basis = none;
  identity_basis = none;
  details = [];
  created = none;
}

-- `_base`
unfoldable pub base : Runtime → Log → Headers → Result DecodeError Row
unfolding integer hash_of header_of
base rt log headers = do
  block ← integer rt log.block_number "log blockNumber"
  tx_index ← integer rt log.tx_index "log transactionIndex"
  log_index ← integer rt log.log_index "log logIndex"
  raise_if (ltb_ℤ block (pos 0) || ltb_ℤ tx_index (pos 0) || ltb_ℤ log_index (pos 0))
      (malformed "negative log identity component")
  block_hash ← hash_of log.block_hash "log blockHash"
  tx_hash ← hash_of log.tx_hash "log transactionHash"
  header ← header_of headers block
  header_hash ← hash_of header.hash "header hash"
  raise_if (not (str_eq header_hash block_hash)) (hash_mismatch block)
  timestamp ← integer rt header.timestamp "header timestamp"
  raise_if (ltb_ℤ timestamp (pos 0)) (malformed "negative block timestamp")
  ok (blank block block_hash tx_hash tx_index log_index timestamp)

-- What the code reads of a pool. An outer `none` is a key that is not there, an inner one is None; an id
-- that is there is a text, and so is a protocol that is not None.
pub record PoolInfo : Type 0 where
  pub id : Option String
  pub address : Option String
  pub protocol : Option (Option String)
  pub pool_kind : Option String
  pub fee_ppm : Option Value
  pub fee : Value
  pub factory : Value

abbrev pub Pools : Type 0
Pools = Dict PoolInfo

abbrev pub put_text : Option String → PoolInfo → Pools → Pools
put_text none p out = out
put_text (some k) p out = put (lower k) p out

-- `_pool_map`, whose loop keeps `out`
unfoldable pub pool_map_from : Pools → Dict PoolInfo → Pools
pool_map_from out [] = out
pool_map_from out ((key, p) ∷ ps) =
    pool_map_from (put_text p.address p (put_text p.id p (put (lower key) p out))) ps

unfoldable pub pool_map : Dict PoolInfo → Pools
unfolding pool_map_from
pool_map ps = pool_map_from [] ps

-- `d.get(key, other)`
abbrev pub or_else {ℓ} : {A : Type ℓ} → Option A → A → A
or_else none a = a
or_else (some v) a = v

abbrev pub lower_text : Option String → Option String
lower_text none = none
lower_text (some s) = some (lower s)

-- `_pool_protocol`
unfoldable pub pool_protocol : Option PoolInfo → Option String
unfolding lower
pool_protocol none = none
pool_protocol (some p) = lower_text (or_else p.protocol p.pool_kind)

abbrev pub fee_in_range : ℤ → Option ℤ
fee_in_range fee = if not (ltb_ℤ fee (pos 0)) && ltb_ℤ fee (pos 1_000_000) then some fee else none

abbrev pub fee_of_value : Runtime → Value → Result DecodeError (Option ℤ)
fee_of_value rt missing = ok none
fee_of_value rt v = do fee ← integer rt v "pool fee"; ok (fee_in_range fee)

-- `_pool_fee`
unfoldable pub pool_fee : Runtime → Option PoolInfo → Result DecodeError (Option ℤ)
unfolding integer
pool_fee rt none = ok none
pool_fee rt (some p) = fee_of_value rt (or_else p.fee_ppm p.fee)
