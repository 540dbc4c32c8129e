-- ===== src/Tx/Sample.antt =====
-- A pool, a route, a trade and what its transaction moved, for the runs.
use robinhoodpools.Prelude.{String, true, none, [], ◌∷◌, Result, ok}
use robinhoodpools.Prelude.Int.{pos, negsuc}
use robinhoodpools.Tx.Errors.{TxError}
use robinhoodpools.Tx.Chain.{native, weth, ur_v3_factory}
use robinhoodpools.Tx.Routes.{v3, buy, Pool, HookPolicy, Route}
use robinhoodpools.Tx.Plan.{input, TxPolicy, SwapIntent, SwapShape, Split}
use robinhoodpools.Tx.Ledger.{Ledger}

abbrev pub token_a : String
token_a = "0x00000000000000000000000000000000000000aa"

abbrev pub wallet : String
wallet = "0x00000000000000000000000000000000000000cc"

abbrev pub treasury : String
treasury = "0x00000000000000000000000000000000000000dd"

abbrev pub pool_address : String
pool_address = "0x00000000000000000000000000000000000000ee"

abbrev pub router : String
router = "0x00000000000000000000000000000000000000ff"

abbrev pub sample_pool : Pool
sample_pool = record {
  venue = v3;
  id = pool_address;
  address = pool_address;
  token0 = token_a;
  token1 = weth;
  fee_ppm = 3000;
  tick_spacing = pos 60;
  hook = native;
  factory = ur_v3_factory;
}

abbrev pub sample_route : Route
sample_route = record {
  first = record { pool = sample_pool; currency_in = weth; currency_out = token_a };
  second = none;
}

abbrev pub sample_policy : TxPolicy
sample_policy = record {
  fee_bps = 100;
  fee_recipient = treasury;
  max_impact_bps = 1500;
  quote_ttl_s = 60;
}

abbrev pub sample_intent : SwapIntent
sample_intent = record {
  wallet = wallet;
  side = buy;
  token = token_a;
  quote_currency = weth;
  amount_in = 10_000;
  slippage_bps = 50;
}

abbrev pub sample_shape : SwapShape
sample_shape = record {
  wallet = wallet;
  route = sample_route;
  currency_in = weth;
  currency_out = token_a;
  amount_in = 10_000;
  fee_leg = input;
  fee_currency = weth;
  fee_recipient = treasury;
  fee_bps = 100;
}

abbrev pub sample_split : Split
sample_split = record {
  legs = record { route = sample_route; amount_in = 10_000; amount_out = pos 0 } ∷ [];
}

abbrev pub sample_ledger : Ledger
sample_ledger = record {
  transfers =
      record { currency = weth; from = wallet; to = router; amount = 10_000 }
      ∷ record { currency = weth; from = router; to = treasury; amount = 100 }
      ∷ record { currency = weth; from = router; to = pool_address; amount = 9_900 }
      ∷ record { currency = token_a; from = pool_address; to = wallet; amount = 5_000 }
      ∷ [];
  swaps =
      record { pool_key = pool_address; amount0 = negsuc 4_999; amount1 = pos 9_900; venue = v3 }
      ∷ [];
  nft_mints = [];
  nfpm_events = [];
  liquidity_deltas = [];
  native_traced = true;
  native_flows = [];
}

-- No pool of the sample has a hook.
abbrev pub no_hooks : Pool → Result TxError HookPolicy
no_hooks p = ok (record { hook_fee_bps = 0; creator_tax_bps = 0 })
