-- ===== src/Gate/Oracle/Tests.antt =====
-- The oracle at concrete calls: one is answered by the node, a later one by the cache.
use robinhoodpools.Prelude.{◌≡◌, refl, none, some, [], arith}
use robinhoodpools.Dict.{get, put, put_last, remove, drop_first}
use robinhoodpools.Gate.Oracle.{
  Oracle, fetched_holding, supply_at, with_supply, usable, consult, observe,
}
use robinhoodpools.Gate.Oracle.Laws.{IsSound, IsCurrent, Given, observe-IsCurrent}

abbrev empty : Oracle
empty = record { cache = []; supplies = [] }

abbrev asked : Oracle
asked = (observe 1_000_000 "0xT" "0xw" 60 (some (5, 7)) (some 1000) empty).0

-- The node is silent a minute later, and the grace period covers the cached balance.
answered_from_cache :
    (observe 61_000_000 "0xT" "0xw" 60 none (some 1000) asked).1
    ≡ some (record (fetched_holding 1_000_000 "0xw" (5, 7)) { total_supply_raw = some 1000 })
unfolding observe consult with_supply supply_at usable get put put_last remove drop_first
answered_from_cache = refl

empty-IsSound : IsSound []
empty-IsSound = record { own = tt; small = omega arith }

observe-IsCurrent_example :
    IsSound asked.cache
    × Given
        (IsCurrent 1_000_000 60 "0xw")
        (observe 1_000_000 "0xT" "0xw" 60 (some (5, 7)) (some 1000) empty).1
observe-IsCurrent_example =
    observe-IsCurrent 1_000_000 "0xT" "0xw" 60 (some (5, 7)) (some 1000) empty empty-IsSound
