-- ===== src/Market/Events.antt =====
-- lp_market_protocols.py: `_decode_transfer` and `_decode_event`, from a log to its row, or to nothing
-- where the log is not one that the index keeps.
pub mod Bounds
pub mod Emitter
use robinhoodpools.Prelude.{
  ℕ, not, String, List, [], ◌∷◌, Option, none, some, Result, ok, ◌>>=◌, ◌>>◌, raise_if, str_eq,
  ◌==◌, if◌then◌else◌, length,
}
use robinhoodpools.Dict.{get}
use robinhoodpools.Market.{Log, DecodeError, malformed, Runtime}
use robinhoodpools.Market.Words.{
  address?, raw_hex, topics_of, topic0_of, topic_address, topic_uint, topic_at, want_topics,
}
use robinhoodpools.Market.Rows.{
  Row, PoolRow, str, flag, PoolInfo, Pools, Headers, base, pool_protocol, pool_fee,
}
use robinhoodpools.Market.Hex.{lower}
use robinhoodpools.Market.Keys.{
  zero_address, pool_manager, manager_protocol, manager_source, nft_position_key, topic,
}
use robinhoodpools.Market.Created.{normalize_pool_creation, creation_row, found}
use robinhoodpools.Market.Pairs.{PairEvent, pair_event, decode_pair}
use robinhoodpools.Market.Concentrated.{PoolEvent, pool_event, decode_pool}
use robinhoodpools.Market.Managed.{ManagerEvent, manager_event, decode_managed}

-- The row of a transfer that a known manager emitted
unfoldable pub transfer_row : Runtime → Log → Headers → String → String → Result DecodeError Row
unfolding topics_of raw_hex topic_address topic_uint base nft_position_key
transfer_row rt log headers manager protocol = do
  topics ← topics_of log
  want_topics 4 topics "recognized NFT Transfer topics"
  bytes ← raw_hex log.payload "NFT Transfer data"
  raise_if (not (length bytes == 0)) (malformed "recognized NFT Transfer has non-empty data")
  prior ← topic_address (topic_at topics 1) "NFT Transfer from"
  new ← topic_address (topic_at topics 2) "NFT Transfer to"
  token ← topic_uint (topic_at topics 3) 256 "NFT token id"
  row ← base rt log headers
  key ← nft_position_key manager token
  ok (record row {
    protocol = some "nft";
    kind = some "transfer";
    owner = if str_eq new zero_address then none else some new;
    custody = some manager;
    position_key = some key;
    token_id = some token;
    accounting_basis = some "ownership_only_no_cashflow";
    identity_basis = some "recognized_manager_transfer";
    details =
        ("manager_protocol", str protocol)
        ∷ ("prior_owner", str prior)
        ∷ ("new_owner", str new)
        ∷ ("mint", flag (str_eq prior zero_address))
        ∷ ("burn", flag (str_eq new zero_address))
        ∷ ("manager_source", str (manager_source manager))
        ∷ [];
  })

-- `_decode_transfer`
unfoldable pub decode_transfer : Runtime → Log → Headers → Result DecodeError (Option Row)
unfolding address? manager_protocol transfer_row
decode_transfer rt log headers = elim (address? log.address) [
  | none ↦ ok none
  | some manager ↦ elim (manager_protocol manager) [
    | none ↦ ok none
    | some protocol ↦ found (transfer_row rt log headers manager protocol)
  ]
]

-- `_base` with the pool's id, protocol and fee
unfoldable pub pool_base :
    Runtime → Log → Headers → String → String → PoolInfo → Result DecodeError Row
unfolding base lower pool_fee
pool_base rt log headers protocol emitter pool = do
  row ← base rt log headers
  fee ← pool_fee rt (some pool)
  ok (record row {
    pool_id = some (lower (elim pool.id [ none ↦ emitter | some i ↦ i ]));
    protocol = some protocol;
    fee_ppm = fee;
  })

-- The emitter is a known pool of the protocol.
abbrev pub pool_of : Pools → String → String → Option PoolInfo
pool_of pools emitter protocol = elim (get emitter pools) [
  | none ↦ none
  | some pool ↦ elim (pool_protocol (some pool)) [
    | none ↦ none
    | some p ↦ if str_eq p protocol then some pool else none
  ]
]

-- The blocks of the V2, the V3 and the V4 events, after `topics = _topics(log)`
unfoldable pub pair_row :
    Runtime
    → Log
    → Headers
    → Pools
    → String
    → List String
    → PairEvent
    → Result DecodeError (Option Row)
unfolding pool_protocol pool_base decode_pair
pair_row rt log headers pools emitter topics e = elim (pool_of pools emitter "v2") [
  | none ↦ ok none
  | some pool ↦
      found (pool_base rt log headers "v2" emitter pool >>= λ row. decode_pair e log topics row)
]

unfoldable pub pool_row :
    Runtime
    → Log
    → Headers
    → Pools
    → String
    → List String
    → PoolEvent
    → Result DecodeError (Option Row)
unfolding pool_protocol pool_base decode_pool
pool_row rt log headers pools emitter topics e = elim (pool_of pools emitter "v3") [
  | none ↦ ok none
  | some pool ↦
      found
        (pool_base rt log headers "v3" emitter pool >>= λ row. decode_pool rt e pool log topics row)
]

unfoldable pub managed_row :
    Runtime → Log → Headers → String → List String → ManagerEvent → Result DecodeError (Option Row)
unfolding base decode_managed
managed_row rt log headers emitter topics e =
    if str_eq emitter pool_manager
    then found (
        base rt log headers >>= λ row.
        decode_managed rt e log topics (record row { protocol = some "v4" }))
    else ok none

-- The rest of `_decode_event`, of a topic that is no transfer and creates no pool
unfoldable pub core_row :
    Runtime
    → Log
    → Headers
    → Pools
    → String
    → String
    → List String
    → Result DecodeError (Option Row)
unfolding pair_event pool_event manager_event pair_row pool_row managed_row
core_row rt log headers pools topic0 emitter topics = elim (pair_event rt topic0) [
  | some e ↦ pair_row rt log headers pools emitter topics e
  | none ↦ elim (pool_event rt topic0) [
    | some e ↦ pool_row rt log headers pools emitter topics e
    | none ↦ elim (manager_event rt topic0) [
      | some e ↦ managed_row rt log headers emitter topics e
      | none ↦ ok none
    ]
  ]
]

-- `_decode_event`, after `pool_creation`
unfoldable pub after_creation :
    Runtime → Log → Headers → Pools → String → Option PoolRow → Result DecodeError (Option Row)
unfolding creation_row address? topics_of core_row
after_creation rt log headers pools topic0 (some pool) = found (creation_row rt log headers pool)
after_creation rt log headers pools topic0 none = elim (address? log.address) [
  | none ↦ ok none
  | some emitter ↦ do topics ← topics_of log; core_row rt log headers pools topic0 emitter topics
]

-- `_decode_event`
unfoldable pub decode_event : Runtime → Log → Headers → Pools → Result DecodeError (Option Row)
unfolding topic0_of decode_transfer normalize_pool_creation after_creation
decode_event rt log headers pools = elim (topic0_of log) [
  | none ↦ ok none
  | some topic0 ↦
      if str_eq (topic rt "Transfer(address,address,uint256)") topic0
      then decode_transfer rt log headers
      else (do
        created ← normalize_pool_creation rt log topic0
        after_creation rt log headers pools topic0 created)
]
