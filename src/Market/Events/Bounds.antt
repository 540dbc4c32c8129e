-- ===== src/Market/Events/Bounds.antt =====
-- The numbers of a decoded row, whatever the log holds.
pub mod Blocks
use robinhoodpools.Prelude.{
  ℕ, ◌^◌, ◌<◌, ◌≡◌, String, List, Bool, true, false, Option, none, some, Result, ok, Option-cases,
  Result-cases, inl, inr, Bool-cases, str_eq, if◌then◌else◌, ◌>>=◌,
}
use robinhoodpools.Prelude.Int.{ℤ}
use robinhoodpools.Market.{Log, DecodeError, Runtime}
use robinhoodpools.Market.Words.{integer, address?, topics_of, topic0_of}
use robinhoodpools.Market.Rows.{Row, PoolRow, Headers, Pools, PoolInfo, base}
use robinhoodpools.Market.Keys.{
  topic, pool_manager, manager_protocol, v2_factories, concentrated_factories, is_among,
}
use robinhoodpools.Market.Created.{
  Creation, v4_initialize, v3_created, v3_created_compact, slipstream_created, v2_created,
  creation_at, creation_of, v4_creation, v2_creation, v3_creation, normalize_pool_creation,
  creation_row, found,
}
use robinhoodpools.Market.Ensured.{
  Ensures, returned, Is?, IsInt, Ensures-ok, Ensures-found, Ensures-if, bind_of, bind_any,
  bind_uint, bind_tick,
}
use robinhoodpools.Market.Pairs.{PairEvent, pair_event}
use robinhoodpools.Market.Concentrated.{PoolEvent, pool_event}
use robinhoodpools.Market.Managed.{ManagerEvent, manager_event}
use robinhoodpools.Market.Events.{
  decode_event, after_creation, decode_transfer, transfer_row, core_row, pool_base, pool_of,
  pair_row, pool_row, managed_row,
}
use robinhoodpools.Market.Events.Bounds.Blocks.{
  IsBounded, pair-IsBounded, pool-IsBounded, managed-IsBounded,
}

ruleset row_rules = (bind_uint, bind_tick, bind_any, returned)

-- The price and the tick at which a new pool starts
abbrev StartIsBounded : PoolRow → Type 0
StartIsBounded pool = Is? (λ s. (s.0 < 2 ^ 160) × IsInt (2 ^ 23) s.1) pool.start

base-IsBounded :
    (rt : Runtime) (log : Log) (headers : Headers) → Ensures IsBounded (base rt log headers)
unfolding base
base-IsBounded rt log headers = search row_rules depth 20

pool_base-IsBounded :
    (rt : Runtime) (log : Log) (headers : Headers) (protocol emitter : String) (pool : PoolInfo)
    → Ensures IsBounded (pool_base rt log headers protocol emitter pool)
unfolding pool_base
pool_base-IsBounded rt log headers protocol emitter pool =
    bind_of (base-IsBounded rt log headers) (λ row b. bind_any _ _ (λ fee. returned b))

bind_base :
    {B : Type 0} {P : B → Type 0} (rt : Runtime) (log : Log) (headers : Headers)
    (f : Row → Result DecodeError B)
    → ((row : Row)
        → Is? (λ n. n < 2 ^ 160) row.sqrt_price_x96
        → Is? (λ n. n < 2 ^ 128) row.liquidity
        → Is? (IsInt (2 ^ 23)) row.tick
        → Is? (IsInt (2 ^ 23)) row.tick_lower
        → Is? (IsInt (2 ^ 23)) row.tick_upper
        → Ensures P (f row))
    → Ensures P (base rt log headers >>= f)
bind_base rt log headers f k =
    bind_of (base-IsBounded rt log headers) (λ row b. k row b.0 b.1 b.2 b.3 b.4)

transfer-IsBounded :
    (rt : Runtime) (log : Log) (headers : Headers) (manager protocol : String)
    → Ensures IsBounded (transfer_row rt log headers manager protocol)
unfolding transfer_row
transfer-IsBounded rt log headers manager protocol = search (bind_base, bind_any, returned) depth 30

v4_creation-IsBounded :
    (rt : Runtime) (log : Log) (topics : List String) (block : ℤ)
    → Ensures StartIsBounded (v4_creation rt log topics block)
unfolding v4_creation
v4_creation-IsBounded rt log topics block = search row_rules depth 30

v2_creation-IsBounded :
    (log : Log) (emitter : String) (topics : List String) (block : ℤ)
    → Ensures StartIsBounded (v2_creation log emitter topics block)
unfolding v2_creation
v2_creation-IsBounded log emitter topics block = search row_rules depth 30

v3_creation-IsBounded :
    (shape : _) (log : Log) (emitter : String) (topics : List String) (block : ℤ)
    → Ensures StartIsBounded (v3_creation shape log emitter topics block)
unfolding v3_creation
v3_creation-IsBounded shape log emitter topics block = search row_rules depth 30

creation_of-IsBounded :
    (rt : Runtime) (c : Creation) (log : Log) (emitter : String) (topics : List String) (block : ℤ)
    → Ensures (Is? StartIsBounded) (creation_of rt c log emitter topics block)
creation_of-IsBounded rt v4_initialize log emitter topics block =
    Ensures-if (str_eq pool_manager emitter)
      (Ensures-found (v4_creation-IsBounded rt log topics block))
creation_of-IsBounded rt v2_created log emitter topics block =
    Ensures-if (is_among emitter v2_factories)
      (Ensures-found (v2_creation-IsBounded log emitter topics block))
creation_of-IsBounded rt v3_created log emitter topics block =
    Ensures-if (is_among emitter concentrated_factories)
      (Ensures-found (v3_creation-IsBounded _ log emitter topics block))
creation_of-IsBounded rt v3_created_compact log emitter topics block =
    Ensures-if (is_among emitter concentrated_factories)
      (Ensures-found (v3_creation-IsBounded _ log emitter topics block))
creation_of-IsBounded rt slipstream_created log emitter topics block =
    Ensures-if (is_among emitter concentrated_factories)
      (Ensures-found (v3_creation-IsBounded _ log emitter topics block))

creation-IsBounded :
    (rt : Runtime) (log : Log) (topic0 : String)
    → Ensures (Is? StartIsBounded) (normalize_pool_creation rt log topic0)
unfolding normalize_pool_creation
creation-IsBounded rt log topic0 = elim (Option-cases (creation_at rt topic0)) [
  | inl e ↦ rw (e, normalize_pool_creation) (returned tt)
  | inr (c, e) ↦ elim (Option-cases (address? log.address)) [
    | inl g ↦ rw (e, g, normalize_pool_creation) (returned tt)
    | inr (emitter, g) ↦
        rw (e, g, normalize_pool_creation)
          (bind_any (topics_of log) _ (λ topics.
            bind_any (integer rt log.block_number "creation block") _
              (λ block. creation_of-IsBounded rt c log emitter topics block)))
  ]
]

creation_row-IsBounded :
    (rt : Runtime) (log : Log) (headers : Headers) (pool : PoolRow)
    → StartIsBounded pool
    → Ensures IsBounded (creation_row rt log headers pool)
unfolding creation_row
creation_row-IsBounded rt log headers pool h = elim (Option-cases pool.start) [
  | inl e ↦
      bind_of (base-IsBounded rt log headers) (λ row b. returned (rw e (tt, b.1, tt, b.3, b.4)))
  | inr (s, e) ↦
      let h' = rw e at h in
      bind_of (base-IsBounded rt log headers) (λ row b. returned (rw e (h'.0, b.1, h'.1, b.3, b.4)))
]

decode_transfer-IsBounded :
    (rt : Runtime) (log : Log) (headers : Headers)
    → Ensures (Is? IsBounded) (decode_transfer rt log headers)
unfolding decode_transfer
decode_transfer-IsBounded rt log headers = elim (Option-cases (address? log.address)) [
  | inl e ↦ rw (e, decode_transfer) (returned tt)
  | inr (manager, e) ↦ elim (Option-cases (manager_protocol manager)) [
    | inl g ↦ rw (e, g, decode_transfer) (returned tt)
    | inr (protocol, g) ↦
        rw (e, g, decode_transfer)
          (Ensures-found (transfer-IsBounded rt log headers manager protocol))
  ]
]

pair_row-IsBounded :
    (rt : Runtime) (log : Log) (headers : Headers) (pools : Pools) (emitter : String)
    (topics : List String) (e : PairEvent)
    → Ensures (Is? IsBounded) (pair_row rt log headers pools emitter topics e)
unfolding pair_row
pair_row-IsBounded rt log headers pools emitter topics e =
    elim (Option-cases (pool_of pools emitter "v2")) [
      | inl h ↦ rw (h, pair_row) (returned tt)
      | inr (pool, h) ↦
          rw (h, pair_row)
            (Ensures-found (
              bind_of (pool_base-IsBounded rt log headers "v2" emitter pool)
                (λ row b. pair-IsBounded row b.0 b.1 b.2 b.3 b.4 log topics e)))
    ]

pool_row-IsBounded :
    (rt : Runtime) (log : Log) (headers : Headers) (pools : Pools) (emitter : String)
    (topics : List String) (e : PoolEvent)
    → Ensures (Is? IsBounded) (pool_row rt log headers pools emitter topics e)
unfolding pool_row
pool_row-IsBounded rt log headers pools emitter topics e =
    elim (Option-cases (pool_of pools emitter "v3")) [
      | inl h ↦ rw (h, pool_row) (returned tt)
      | inr (pool, h) ↦
          rw (h, pool_row)
            (Ensures-found (
              bind_of (pool_base-IsBounded rt log headers "v3" emitter pool)
                (λ row b. pool-IsBounded row b.0 b.1 b.2 b.3 b.4 log topics rt e pool)))
    ]

managed_row-IsBounded :
    (rt : Runtime) (log : Log) (headers : Headers) (emitter : String) (topics : List String)
    (e : ManagerEvent)
    → Ensures (Is? IsBounded) (managed_row rt log headers emitter topics e)
unfolding managed_row
managed_row-IsBounded rt log headers emitter topics e = Ensures-if (str_eq emitter pool_manager) (
    Ensures-found (
      bind_of (base-IsBounded rt log headers) (λ row b.
        managed-IsBounded (record row { protocol = some "v4" }) b.0 b.1 b.2 b.3 b.4 log topics rt
          e)))

core_row-IsBounded :
    (rt : Runtime) (log : Log) (headers : Headers) (pools : Pools) (topic0 emitter : String)
    (topics : List String)
    → Ensures (Is? IsBounded) (core_row rt log headers pools topic0 emitter topics)
unfolding core_row
core_row-IsBounded rt log headers pools topic0 emitter topics =
    elim (Option-cases (pair_event rt topic0)) [
      | inr (e, h) ↦ rw (h, core_row) (pair_row-IsBounded rt log headers pools emitter topics e)
      | inl h ↦ elim (Option-cases (pool_event rt topic0)) [
        | inr (e, g) ↦
            rw (h, g, core_row) (pool_row-IsBounded rt log headers pools emitter topics e)
        | inl g ↦ elim (Option-cases (manager_event rt topic0)) [
          | inr (e, k) ↦
              rw (h, g, k, core_row) (managed_row-IsBounded rt log headers emitter topics e)
          | inl k ↦ rw (h, g, k, core_row) (returned tt)
        ]
      ]
    ]

after_creation-IsBounded :
    (rt : Runtime) (log : Log) (headers : Headers) (pools : Pools) (topic0 : String)
    (created : Option PoolRow)
    → Is? StartIsBounded created
    → Ensures (Is? IsBounded) (after_creation rt log headers pools topic0 created)
unfolding after_creation
after_creation-IsBounded rt log headers pools topic0 (some pool) h =
    Ensures-found (creation_row-IsBounded rt log headers pool h)
after_creation-IsBounded rt log headers pools topic0 none h =
    elim (Option-cases (address? log.address)) [
      | inl e ↦ rw (e, after_creation) (returned tt)
      | inr (emitter, e) ↦
          rw (e, after_creation)
            (bind_any (topics_of log) _
              (λ topics. core_row-IsBounded rt log headers pools topic0 emitter topics))
    ]

decode_event-Ensures :
    (rt : Runtime) (log : Log) (headers : Headers) (pools : Pools)
    → Ensures (Is? IsBounded) (decode_event rt log headers pools)
unfolding decode_event
decode_event-Ensures rt log headers pools = elim (Option-cases (topic0_of log)) [
  | inl e ↦ rw (e, decode_event) (returned tt)
  | inr (topic0, e) ↦
      elim (Bool-cases (str_eq (topic rt "Transfer(address,address,uint256)") topic0)) [
        | inl t ↦ rw (e, t, decode_event) (decode_transfer-IsBounded rt log headers)
        | inr t ↦
            rw (e, t, decode_event)
              (bind_of (creation-IsBounded rt log topic0)
                (λ created h. after_creation-IsBounded rt log headers pools topic0 created h))
      ]
]

-- Whatever a log, its header and the known pools hold: a row that `_decode_event` returns has a price below
-- 2^160 and a liquidity below 2^128, where it has them, and its tick and its lower and upper ticks are
-- 24-bit integers.
pub decode_event-IsBounded :
    (rt : Runtime) (log : Log) (headers : Headers) (pools : Pools) (row : Row)
    → decode_event rt log headers pools ≡ ok (some row)
    → IsBounded row
decode_event-IsBounded rt log headers pools row h =
    Ensures-ok (decode_event-Ensures rt log headers pools) h
