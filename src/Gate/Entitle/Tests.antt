-- ===== src/Gate/Entitle/Tests.antt =====
-- The states of a wallet at concrete holdings.
use robinhoodpools.Prelude.{◌≡◌, refl, none, some}
use robinhoodpools.Gate.Policy.{GatePolicy, default_fee_tiers}
use robinhoodpools.Gate.Entitle.{
  Anchor, HoldingState, grant, fee_of, best_tier, entitle, state, qualified, grace, below,
}
use robinhoodpools.Gate.Entitle.Laws.{observed}

abbrev policy : GatePolicy
policy = record {
  version = 3;
  token = some "0xT";
  decimals = 18;
  trade_threshold = 100;
  lp_threshold = 0;
  api_threshold = 500;
  flags_threshold = 500;
  grace_s = 60;
  issued_at = 1;
  base_fee_bps = 100;
  fee_tiers = default_fee_tiers;
}

abbrev anchor : Anchor
anchor = record { at = 1_000_000; version = 3 }

-- No observation, but an anchor of this version for every feature.
abbrev silent : HoldingState
silent = record { wallet = "0xw"; holding = none; last_ok = λ f. some anchor }

-- A fresh observation of a small balance.
abbrev sold : HoldingState
sold = record {
  wallet = "0xw";
  holding = some (observed "0xw" 50 7 2_000_000 1000);
  last_ok = λ f. some anchor;
}

silent_is_grace : state (entitle policy silent 2_000_000) policy ≡ grace
unfolding state qualified entitle grant fee_of best_tier
silent_is_grace = refl

sold_is_below : state (entitle policy sold 2_000_000) policy ≡ below
unfolding state qualified entitle grant fee_of best_tier
sold_is_below = refl
