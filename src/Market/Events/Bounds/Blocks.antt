-- ===== src/Market/Events/Bounds/Blocks.antt =====
-- The numbers of a row, block by block.
use robinhoodpools.Prelude.{◌^◌, ◌<◌, String, List, Result, ◌>>=◌}
use robinhoodpools.Prelude.Int.{ℤ}
use robinhoodpools.Market.{Value, Log, DecodeError, Runtime}
use robinhoodpools.Market.Words.{topic_sint, topic_word}
use robinhoodpools.Market.Rows.{Row, PoolInfo}
use robinhoodpools.Market.Ensured.{
  Ensures, returned, Is?, IsInt, bind_of, bind_any, bind_uint, bind_tick, sint24,
}
use robinhoodpools.Market.Pairs.{PairEvent, swap, mint, burn, sync, decode_pair}
use robinhoodpools.Market.Concentrated.{PoolEvent, decode_pool}
use robinhoodpools.Market.Positions.{range_of}
use robinhoodpools.Market.Managed.{ManagerEvent, decode_managed}

abbrev pub IsBounded : Row → Type 0
IsBounded row =
    Is? (λ n. n < 2 ^ 160) row.sqrt_price_x96
    × Is? (λ n. n < 2 ^ 128) row.liquidity
    × Is? (IsInt (2 ^ 23)) row.tick
    × Is? (IsInt (2 ^ 23)) row.tick_lower
    × Is? (IsInt (2 ^ 23)) row.tick_upper

topic_tick : (v : Value) (name : String) → Ensures (IsInt (2 ^ 23)) (topic_sint v 24 name)
unfolding topic_sint
topic_tick v name = bind_any (topic_word v name) _ (λ w. sint24 w name)

bind_topic_tick :
    {B : Type 0} {P : B → Type 0} (v : Value) (name : String) (f : ℤ → Result DecodeError B)
    → ((n : ℤ) → IsInt (2 ^ 23) n → Ensures P (f n))
    → Ensures P (topic_sint v 24 name >>= f)
bind_topic_tick v name f k = bind_of (topic_tick v name) k

abbrev InTicks : String × ℤ × ℤ → Type 0
InTicks (owner, lower, upper) = IsInt (2 ^ 23) lower × IsInt (2 ^ 23) upper

range_of-InTicks : (name : String) (topics : List String) → Ensures InTicks (range_of name topics)
unfolding range_of
range_of-InTicks name topics = search (bind_topic_tick, bind_any, returned) depth 14

bind_range :
    {B : Type 0} {P : B → Type 0} (name : String) (topics : List String)
    (f : String × ℤ × ℤ → Result DecodeError B)
    → ((owner : String) (lower upper : ℤ)
        → IsInt (2 ^ 23) lower
        → IsInt (2 ^ 23) upper
        → Ensures P (f (owner, lower, upper)))
    → Ensures P (range_of name topics >>= f)
bind_range name topics f k = bind_of (range_of-InTicks name topics) (λ r h. k r.0 r.1 r.2 h.0 h.1)

ruleset block_rules = (bind_range, bind_uint, bind_tick, bind_any, returned)

module _ (row : Row) (price : Is? (λ n. n < 2 ^ 160) row.sqrt_price_x96)
    (liquid : Is? (λ n. n < 2 ^ 128) row.liquidity) (tick : Is? (IsInt (2 ^ 23)) row.tick)
    (lower : Is? (IsInt (2 ^ 23)) row.tick_lower) (upper : Is? (IsInt (2 ^ 23)) row.tick_upper)
    (log : Log) (topics : List String) where
  pub pair-IsBounded : (e : PairEvent) → Ensures IsBounded (decode_pair e log topics row)
  unfolding decode_pair
  pair-IsBounded swap = search block_rules depth 20
  pair-IsBounded mint = search block_rules depth 20
  pair-IsBounded burn = search block_rules depth 20
  pair-IsBounded sync = search block_rules depth 20

  pub pool-IsBounded :
      (rt : Runtime) (e : PoolEvent) (pool : PoolInfo)
      → Ensures IsBounded (decode_pool rt e pool log topics row)
  unfolding decode_pool
  pool-IsBounded rt PoolEvent.initialize pool = search block_rules depth 20
  pool-IsBounded rt PoolEvent.swap pool = search block_rules depth 20
  pool-IsBounded rt PoolEvent.extended_swap pool = search block_rules depth 20
  pool-IsBounded rt PoolEvent.mint pool = search block_rules depth 20
  pool-IsBounded rt PoolEvent.burn pool = search block_rules depth 20
  pool-IsBounded rt PoolEvent.collect pool = search block_rules depth 20
  pool-IsBounded rt PoolEvent.flash pool = search block_rules depth 20
  pool-IsBounded rt PoolEvent.set_fee_protocol pool = search block_rules depth 20
  pool-IsBounded rt PoolEvent.pancake_set_fee_protocol pool = search block_rules depth 20
  pool-IsBounded rt PoolEvent.collect_protocol pool = search block_rules depth 20

  pub managed-IsBounded :
      (rt : Runtime) (e : ManagerEvent) → Ensures IsBounded (decode_managed rt e log topics row)
  unfolding decode_managed
  managed-IsBounded rt ManagerEvent.swap = search block_rules depth 20
  managed-IsBounded rt ManagerEvent.modify_liquidity = search block_rules depth 20
  managed-IsBounded rt ManagerEvent.donate = search block_rules depth 20
  managed-IsBounded rt ManagerEvent.fee_updated = search block_rules depth 20
  managed-IsBounded rt ManagerEvent.controller_updated = search block_rules depth 20
