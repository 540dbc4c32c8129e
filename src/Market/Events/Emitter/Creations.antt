-- ===== src/Market/Events/Emitter/Creations.antt =====
-- Which emitter creates a pool, and of which protocol.
use robinhoodpools.Prelude.{
  ◌≡◌, refl, sym, String, List, true, some, Option-cases, ◌⊎◌, inl, inr, str_eq, eq_iff,
}
use robinhoodpools.Prelude.Int.{ℤ}
use robinhoodpools.Market.{Log, Runtime}
use robinhoodpools.Market.Words.{integer, address?, topics_of}
use robinhoodpools.Market.Rows.{PoolRow}
use robinhoodpools.Market.Keys.{pool_manager, v2_factories, concentrated_factories, is_among}
use robinhoodpools.Market.Created.{
  Creation, v4_initialize, v3_created, v3_created_compact, slipstream_created, v2_created,
  creation_at, creation_of, v4_creation, v2_creation, v3_creation, normalize_pool_creation,
}
use robinhoodpools.Market.Ensured.{Ensures, returned, Is?, Is?-map, bind_any, weaken, Ensures-guard}

abbrev pub CreatedBy : String → PoolRow → Type 0
CreatedBy a pool =
    ((a ≡ pool_manager) × (pool.protocol ≡ "v4"))
    ⊎ ((is_among a v2_factories ≡ true) × (pool.protocol ≡ "v2"))
    ⊎ ((is_among a concentrated_factories ≡ true) × (pool.protocol ≡ "v3"))

ruleset creation_rules = (bind_any, returned, refl)

v4_creation-protocol :
    (rt : Runtime) (log : Log) (topics : List String) (block : ℤ)
    → Ensures (λ pool. pool.protocol ≡ "v4") (v4_creation rt log topics block)
unfolding v4_creation
v4_creation-protocol rt log topics block = search creation_rules depth 30

v2_creation-protocol :
    (log : Log) (a : String) (topics : List String) (block : ℤ)
    → Ensures (λ pool. pool.protocol ≡ "v2") (v2_creation log a topics block)
unfolding v2_creation
v2_creation-protocol log a topics block = search creation_rules depth 30

v3_creation-protocol :
    (shape : _) (log : Log) (a : String) (topics : List String) (block : ℤ)
    → Ensures (λ pool. pool.protocol ≡ "v3") (v3_creation shape log a topics block)
unfolding v3_creation
v3_creation-protocol shape log a topics block = search creation_rules depth 30

creation_of-CreatedBy :
    (rt : Runtime) (c : Creation) (log : Log) (a : String) (topics : List String) (block : ℤ)
    → Ensures (Is? (CreatedBy a)) (creation_of rt c log a topics block)
creation_of-CreatedBy rt v4_initialize log a topics block =
    Ensures-guard (str_eq pool_manager a) (v4_creation-protocol rt log topics block)
      (λ h pool p. inl (sym ((eq_iff _ _).0 h), p))
creation_of-CreatedBy rt v2_created log a topics block =
    Ensures-guard (is_among a v2_factories) (v2_creation-protocol log a topics block)
      (λ h pool p. inr (inl (h, p)))
creation_of-CreatedBy rt v3_created log a topics block =
    Ensures-guard (is_among a concentrated_factories) (v3_creation-protocol _ log a topics block)
      (λ h pool p. inr (inr (h, p)))
creation_of-CreatedBy rt v3_created_compact log a topics block =
    Ensures-guard (is_among a concentrated_factories) (v3_creation-protocol _ log a topics block)
      (λ h pool p. inr (inr (h, p)))
creation_of-CreatedBy rt slipstream_created log a topics block =
    Ensures-guard (is_among a concentrated_factories) (v3_creation-protocol _ log a topics block)
      (λ h pool p. inr (inr (h, p)))

abbrev pub Created : Log → PoolRow → Type 0
Created log pool = (a : String) × (address? log.address ≡ some a) × CreatedBy a pool

pub creation-Created :
    (rt : Runtime) (log : Log) (topic0 : String)
    → Ensures (Is? (Created log)) (normalize_pool_creation rt log topic0)
unfolding normalize_pool_creation
creation-Created rt log topic0 = elim (Option-cases (creation_at rt topic0)) [
  | inl e ↦ rw (e, normalize_pool_creation) (returned tt)
  | inr (c, e) ↦ elim (Option-cases (address? log.address)) [
    | inl g ↦ rw (e, g, normalize_pool_creation) (returned tt)
    | inr (a, g) ↦
        rw (e, g, normalize_pool_creation)
          (bind_any (topics_of log) _ (λ topics.
            bind_any (integer rt log.block_number "creation block") _ (λ block.
              weaken (creation_of-CreatedBy rt c log a topics block)
                (Is?-map (λ pool h. (a, g, h))))))
  ]
]
