-- ===== src/Market/Events/Emitter/Blocks.antt =====
-- What the blocks of `_decode_event` leave of the row that they are given.
use robinhoodpools.Prelude.{◌≡◌, refl, String, List}
use robinhoodpools.Market.{Log, Runtime}
use robinhoodpools.Market.Rows.{Row, PoolInfo}
use robinhoodpools.Market.Ensured.{Ensures, returned, bind_any}
use robinhoodpools.Market.Pairs.{PairEvent, decode_pair}
use robinhoodpools.Market.Concentrated.{PoolEvent, decode_pool}
use robinhoodpools.Market.Managed.{ManagerEvent, decode_managed}

-- The identity and the protocol of a row
abbrev pub Same : Row → Row → Type 0
Same row r =
    (r.block_number ≡ row.block_number)
    × (r.block_hash ≡ row.block_hash)
    × (r.tx_hash ≡ row.tx_hash)
    × (r.log_index ≡ row.log_index)
    × (r.timestamp ≡ row.timestamp)
    × (r.protocol ≡ row.protocol)

ruleset block_rules = (bind_any, returned, refl)

module _ (row : Row) (log : Log) (topics : List String) where
  pub pair-Same : (e : PairEvent) → Ensures (Same row) (decode_pair e log topics row)
  unfolding decode_pair
  pair-Same PairEvent.swap = search block_rules depth 20
  pair-Same PairEvent.mint = search block_rules depth 20
  pair-Same PairEvent.burn = search block_rules depth 20
  pair-Same PairEvent.sync = search block_rules depth 20

  pub pool-Same :
      (rt : Runtime) (e : PoolEvent) (pool : PoolInfo)
      → Ensures (Same row) (decode_pool rt e pool log topics row)
  unfolding decode_pool
  pool-Same rt PoolEvent.initialize pool = search block_rules depth 20
  pool-Same rt PoolEvent.swap pool = search block_rules depth 20
  pool-Same rt PoolEvent.extended_swap pool = search block_rules depth 20
  pool-Same rt PoolEvent.mint pool = search block_rules depth 20
  pool-Same rt PoolEvent.burn pool = search block_rules depth 20
  pool-Same rt PoolEvent.collect pool = search block_rules depth 20
  pool-Same rt PoolEvent.flash pool = search block_rules depth 20
  pool-Same rt PoolEvent.set_fee_protocol pool = search block_rules depth 20
  pool-Same rt PoolEvent.pancake_set_fee_protocol pool = search block_rules depth 20
  pool-Same rt PoolEvent.collect_protocol pool = search block_rules depth 20

  pub managed-Same :
      (rt : Runtime) (e : ManagerEvent) → Ensures (Same row) (decode_managed rt e log topics row)
  unfolding decode_managed
  managed-Same rt ManagerEvent.swap = search block_rules depth 20
  managed-Same rt ManagerEvent.modify_liquidity = search block_rules depth 20
  managed-Same rt ManagerEvent.donate = search block_rules depth 20
  managed-Same rt ManagerEvent.fee_updated = search block_rules depth 20
  managed-Same rt ManagerEvent.controller_updated = search block_rules depth 20
