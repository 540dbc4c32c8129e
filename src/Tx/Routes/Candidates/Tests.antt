-- ===== src/Tx/Routes/Candidates/Tests.antt =====
-- Runs: a token with a pool against WETH, bought with USDG over a bridge.
use robinhoodpools.Prelude.{◌≤◌, refl, String, true, [], ◌∷◌, length, All, some}
use robinhoodpools.Prelude.Int.{pos}
use robinhoodpools.Tx.Chain.{native, weth, usdg, ur_v3_factory}
use robinhoodpools.Tx.Routes.{v3, buy, Pool, Route, swappable, bridge_routes}
use robinhoodpools.Tx.Routes.Candidates.{candidates, max_candidates}
use robinhoodpools.Tx.Routes.Candidates.Serve.{Serves, candidates-Serves}

abbrev token_a : String
token_a = "0x00000000000000000000000000000000000000aa"

abbrev token_pool : Pool
token_pool = record {
  venue = v3;
  id = "0x01";
  address = "0x01";
  token0 = token_a;
  token1 = weth;
  fee_ppm = 3000;
  tick_spacing = pos 60;
  hook = native;
  factory = ur_v3_factory;
}

abbrev bridge_pool : Pool
bridge_pool = record {
  venue = v3;
  id = "0x02";
  address = "0x02";
  token0 = weth;
  token1 = usdg;
  fee_ppm = 100;
  tick_spacing = pos 1;
  hook = native;
  factory = ur_v3_factory;
}

abbrev bridged : Route
bridged = record {
  first = record { pool = bridge_pool; currency_in = usdg; currency_out = weth };
  second = some (record { pool = token_pool; currency_in = weth; currency_out = token_a });
}

candidates-Serves_example :
    (length (bridged ∷ []) ≤ max_candidates) × All (Serves buy token_a usdg) (bridged ∷ [])
unfolding candidates swappable bridge_routes
candidates-Serves_example =
    candidates-Serves (λ p. true) (bridge_pool ∷ []) (token_pool ∷ []) buy token_a usdg
      (bridged ∷ []) refl
