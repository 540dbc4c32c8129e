-- ===== src/Market/Events/Emitter.antt =====
-- Which logs become rows: who emitted them, and the header that their block has.
mod Blocks
mod Anchors
mod Creations
use robinhoodpools.Prelude.{
  ℕ, ◌||◌, ◌≡◌, refl, sym, ap, ◌∙◌, String, List, Bool, true, false, not, Option, none, some,
  Result, ok, err, Option-cases, Result-cases, ◌⊎◌, inl, inr, Bool-cases, str_eq, eq_iff,
  if◌then◌else◌, ◌>>=◌, ◌>>◌, raise_if, length, ◌==◌, arith,
}
use robinhoodpools.Prelude.Int.{ℤ, pos, ltb_ℤ}
use robinhoodpools.Dict.{get}
use robinhoodpools.Market.{Log, Header, DecodeError, malformed, Runtime}
use robinhoodpools.Market.Words.{
  integer, address?, hash_of, raw_hex, topics_of, topic0_of, topic_address, topic_uint, topic_at,
  want_topics,
}
use robinhoodpools.Market.Rows.{
  Row, PoolRow, Headers, Pools, PoolInfo, base, header_of, pool_protocol, pool_fee,
}
use robinhoodpools.Market.Keys.{
  topic, pool_manager, manager_protocol, v2_factories, concentrated_factories, is_among,
  nft_position_key,
}
use robinhoodpools.Market.Created.{
  Creation, v4_initialize, v3_created, v3_created_compact, slipstream_created, v2_created,
  creation_at, creation_of, v4_creation, v2_creation, v3_creation, normalize_pool_creation,
  creation_row, found,
}
use robinhoodpools.Market.Ensured.{
  Ensures, returned, raised, Is?, Is?-map, Ensures-ok, Ensures-found, Ensures-if, bind_of, bind_any,
  bind_eq, bind_same, weaken, Ensures-guard,
}
use robinhoodpools.Market.Pairs.{PairEvent, pair_event}
use robinhoodpools.Market.Concentrated.{PoolEvent, pool_event}
use robinhoodpools.Market.Managed.{ManagerEvent, manager_event}
use robinhoodpools.Market.Events.{
  decode_event, after_creation, decode_transfer, transfer_row, core_row, pool_base, pool_of,
  pair_row, pool_row, managed_row,
}
use robinhoodpools.Market.Events.Emitter.Blocks.{Same, pair-Same, pool-Same, managed-Same}
use robinhoodpools.Market.Events.Emitter.Anchors.{IsAnchored, base-IsAnchored, IsAnchored-Same}
use robinhoodpools.Market.Events.Emitter.Creations.{Created, CreatedBy, creation-Created}

module _ (pools : Pools) (a : String) (row : Row) where
  -- Why a log of the emitter `a` may become this row
  pub data Source : Type 0 where
    known_pair :
        (pool : PoolInfo)
        → get a pools ≡ some pool
        → pool_protocol (some pool) ≡ some "v2"
        → row.protocol ≡ some "v2"
        → Source
    known_pool :
        (pool : PoolInfo)
        → get a pools ≡ some pool
        → pool_protocol (some pool) ≡ some "v3"
        → row.protocol ≡ some "v3"
        → Source
    managed : a ≡ pool_manager → row.protocol ≡ some "v4" → Source
    nft_moved :
        (protocol : String)
        → manager_protocol a ≡ some protocol
        → row.protocol ≡ some "nft"
        → row.custody ≡ some a
        → Source
    created_v4 : a ≡ pool_manager → row.kind ≡ some "create" → row.protocol ≡ some "v4" → Source
    created_v2 :
        is_among a v2_factories ≡ true
        → row.kind ≡ some "create"
        → row.protocol ≡ some "v2"
        → Source
    created_v3 :
        is_among a concentrated_factories ≡ true
        → row.kind ≡ some "create"
        → row.protocol ≡ some "v3"
        → Source

module _ (rt : Runtime) (log : Log) (headers : Headers) (pools : Pools) where
  -- The row is anchored, and its log has an emitter that it may come from.
  abbrev pub IsTrusted : Row → Type 0
  IsTrusted row =
      IsAnchored rt log headers row
      × ((a : String) × (address? log.address ≡ some a) × Source pools a row)

pool_of-some :
    (pools : Pools) (a protocol : String) (pool : PoolInfo)
    → pool_of pools a protocol ≡ some pool
    → (get a pools ≡ some pool) × (pool_protocol (some pool) ≡ some protocol)
pool_of-some pools a protocol pool h = elim (Option-cases (get a pools)) [
  | inl e ↦ absurd (cc (rw (e, pool_of) at h))
  | inr (p, e) ↦ elim (Option-cases (pool_protocol (some p))) [
    | inl g ↦ absurd (cc (rw (e, g, pool_of) at h))
    | inr (q, g) ↦ elim (Bool-cases (str_eq q protocol)) [
      | inl t ↦
          let same : p ≡ pool = cc (rw (e, g, t, pool_of) at h) in
          let named : q ≡ protocol = (eq_iff q protocol).0 t in (cc, rw (← same) (cc))
      | inr t ↦ absurd (cc (rw (e, g, t, pool_of) at h))
    ]
  ]
]

module _ (rt : Runtime) (log : Log) (headers : Headers) (pools : Pools) where
  creation_row-IsTrusted :
      (pool : PoolRow)
      → Created log pool
      → Ensures (IsTrusted rt log headers pools) (creation_row rt log headers pool)
  unfolding creation_row
  creation_row-IsTrusted pool (a, g, by) = bind_of (base-IsAnchored rt log headers) (λ row b.
      returned (
        b,
        (
          a,
          g,
          elim by [
            | inl (m, p) ↦ created_v4 m refl (ap (λ (s : String). some s) p)
            | inr r ↦ elim r [
              | inl (m, p) ↦ created_v2 m refl (ap (λ (s : String). some s) p)
              | inr (m, p) ↦ created_v3 m refl (ap (λ (s : String). some s) p)
            ]
          ],
        ),
      ))

  transfer_row-IsTrusted :
      (a protocol : String)
      → address? log.address ≡ some a
      → manager_protocol a ≡ some protocol
      → Ensures (IsTrusted rt log headers pools) (transfer_row rt log headers a protocol)
  unfolding transfer_row
  transfer_row-IsTrusted a protocol g h = bind_any (topics_of log) _ λ topics.
      bind_any (want_topics 4 topics "recognized NFT Transfer topics") _ λ _.
        bind_any (raw_hex log.payload "NFT Transfer data") _ λ bytes.
          bind_any
            (raise_if (not (length bytes == 0))
              (malformed "recognized NFT Transfer has non-empty data"))
            _
            λ _. bind_any (topic_address (topic_at topics 1) "NFT Transfer from") _ λ prior.
              bind_any (topic_address (topic_at topics 2) "NFT Transfer to") _ λ new.
                bind_any (topic_uint (topic_at topics 3) 256 "NFT token id") _ λ token.
                  bind_of (base-IsAnchored rt log headers) λ row b.
                    bind_any (nft_position_key a token) _
                      λ key. returned (b, (a, g, nft_moved protocol h refl refl))

  decode_transfer-IsTrusted :
      Ensures (Is? (IsTrusted rt log headers pools)) (decode_transfer rt log headers)
  unfolding decode_transfer
  decode_transfer-IsTrusted = elim (Option-cases (address? log.address)) [
    | inl e ↦ rw (e, decode_transfer) (returned tt)
    | inr (a, e) ↦ elim (Option-cases (manager_protocol a)) [
      | inl g ↦ rw (e, g, decode_transfer) (returned tt)
      | inr (protocol, g) ↦
          rw (e, g, decode_transfer) (Ensures-found (transfer_row-IsTrusted a protocol e g))
    ]
  ]

  pool_base-IsAnchored :
      (protocol a : String) (pool : PoolInfo)
      → Ensures
          (λ row. IsAnchored rt log headers row × (row.protocol ≡ some protocol))
          (pool_base rt log headers protocol a pool)
  unfolding pool_base
  pool_base-IsAnchored protocol a pool =
      bind_of (base-IsAnchored rt log headers)
        λ row b. bind_any (pool_fee rt (some pool)) _ λ fee. returned (b, refl)

  pool_row-IsTrusted :
      (a : String) (topics : List String) (e : PoolEvent)
      → address? log.address ≡ some a
      → Ensures (Is? (IsTrusted rt log headers pools)) (pool_row rt log headers pools a topics e)
  unfolding pool_row
  pool_row-IsTrusted a topics e g = elim (Option-cases (pool_of pools a "v3")) [
    | inl h ↦ rw (h, pool_row) (returned tt)
    | inr (pool, h) ↦
        let (there, kind) = pool_of-some pools a "v3" pool h in
        rw (h, pool_row)
          (Ensures-found (
            bind_of (pool_base-IsAnchored "v3" a pool) λ row b.
              weaken (pool-Same row log topics rt e pool) λ r s. (
                IsAnchored-Same rt log headers row b.0 r s,
                (a, g, known_pool pool there kind (s.5 ∙ b.1)),
              )))
  ]

  pair_row-IsTrusted :
      (a : String) (topics : List String) (e : PairEvent)
      → address? log.address ≡ some a
      → Ensures (Is? (IsTrusted rt log headers pools)) (pair_row rt log headers pools a topics e)
  unfolding pair_row
  pair_row-IsTrusted a topics e g = elim (Option-cases (pool_of pools a "v2")) [
    | inl h ↦ rw (h, pair_row) (returned tt)
    | inr (pool, h) ↦
        let (there, kind) = pool_of-some pools a "v2" pool h in
        rw (h, pair_row)
          (Ensures-found (
            bind_of (pool_base-IsAnchored "v2" a pool) λ row b.
              weaken (pair-Same row log topics e) λ r s. (
                IsAnchored-Same rt log headers row b.0 r s,
                (a, g, known_pair pool there kind (s.5 ∙ b.1)),
              )))
  ]

  managed_row-IsTrusted :
      (a : String) (topics : List String) (e : ManagerEvent)
      → address? log.address ≡ some a
      → Ensures (Is? (IsTrusted rt log headers pools)) (managed_row rt log headers a topics e)
  unfolding managed_row
  managed_row-IsTrusted a topics e g = elim (Bool-cases (str_eq a pool_manager)) [
    | inr h ↦ rw (h, managed_row) (returned tt)
    | inl h ↦
        rw (h, managed_row)
          (Ensures-found (
            bind_of (base-IsAnchored rt log headers) λ row b.
              weaken (managed-Same (record row { protocol = some "v4" }) log topics rt e) λ r s. (
                IsAnchored-Same rt log headers (record row { protocol = some "v4" }) b r s,
                (a, g, managed ((eq_iff _ _).0 h) s.5),
              )))
  ]

  core_row-IsTrusted :
      (topic0 a : String) (topics : List String)
      → address? log.address ≡ some a
      → Ensures
          (Is? (IsTrusted rt log headers pools))
          (core_row rt log headers pools topic0 a topics)
  unfolding core_row
  core_row-IsTrusted topic0 a topics g = elim (Option-cases (pair_event rt topic0)) [
    | inr (e, h) ↦ rw (h, core_row) (pair_row-IsTrusted a topics e g)
    | inl h ↦ elim (Option-cases (pool_event rt topic0)) [
      | inr (e, i) ↦ rw (h, i, core_row) (pool_row-IsTrusted a topics e g)
      | inl i ↦ elim (Option-cases (manager_event rt topic0)) [
        | inr (e, j) ↦ rw (h, i, j, core_row) (managed_row-IsTrusted a topics e g)
        | inl j ↦ rw (h, i, j, core_row) (returned tt)
      ]
    ]
  ]

  after_creation-IsTrusted :
      (topic0 : String) (created : Option PoolRow)
      → Is? (Created log) created
      → Ensures
          (Is? (IsTrusted rt log headers pools))
          (after_creation rt log headers pools topic0 created)
  unfolding after_creation
  after_creation-IsTrusted topic0 (some pool) h = Ensures-found (creation_row-IsTrusted pool h)
  after_creation-IsTrusted topic0 none h = elim (Option-cases (address? log.address)) [
    | inl e ↦ rw (e, after_creation) (returned tt)
    | inr (a, e) ↦
        rw (e, after_creation)
          (bind_any (topics_of log) _ (λ topics. core_row-IsTrusted topic0 a topics e))
  ]

  decode_event-Ensures :
      Ensures (Is? (IsTrusted rt log headers pools)) (decode_event rt log headers pools)
  unfolding decode_event
  decode_event-Ensures = elim (Option-cases (topic0_of log)) [
    | inl e ↦ rw (e, decode_event) (returned tt)
    | inr (topic0, e) ↦
        elim (Bool-cases (str_eq (topic rt "Transfer(address,address,uint256)") topic0)) [
          | inl t ↦ rw (e, t, decode_event) decode_transfer-IsTrusted
          | inr t ↦
              rw (e, t, decode_event)
                (bind_of (creation-Created rt log topic0) (after_creation-IsTrusted topic0))
        ]
  ]

  -- A row that `_decode_event` returns has the block number, the block hash, the transaction and the log
  -- index of its log, the header kept for its block number has that block hash, and the row's timestamp is that
  -- header's. Its log was emitted by a known V2 pair or V3 pool (a row of that protocol), by the pool
  -- manager (a v4 row), by a recognized position manager (an nft row in its custody), or by the manager or
  -- a listed factory of the protocol whose pool the row creates.
  pub decode_event-IsTrusted :
      (row : Row)
      → decode_event rt log headers pools ≡ ok (some row)
      → IsTrusted rt log headers pools row
  decode_event-IsTrusted row h = Ensures-ok decode_event-Ensures h
