-- ===== src/Tx/Reconcile/Split/Tests.antt =====
-- A run on the sample trade, as a split of one leg.
use robinhoodpools.Prelude.{◌≡◌, refl, ◌⊎◌, none, [], ◌∷◌, Bool, false}
use robinhoodpools.Prelude.Int.{pos, ◌+ℤ◌, ◌-ℤ◌, ◌*ℤ◌, div_ℕ}
use robinhoodpools.Dict.{get, put}
use robinhoodpools.Tx.Chain.{weth}
use robinhoodpools.Tx.Plan.{Amounts, Split}
use robinhoodpools.Tx.Ledger.{observable, received, sent, flow, hop_io}
use robinhoodpools.Tx.Reconcile.{floor_bps, fee_in}
use robinhoodpools.Tx.Reconcile.Agree.{Settled}
use robinhoodpools.Tx.Reconcile.Split.{
  sum_in, sum_out, net_legs, walk_leg, walk_legs, split_settle, split_amounts,
}
use robinhoodpools.Tx.Reconcile.Split.Laws.{split_amounts-Settled}
use robinhoodpools.Tx.Sample.{sample_shape, sample_split, sample_ledger, sample_route, no_hooks}

abbrev leg_amounts : Amounts
leg_amounts = record {
  amount_in = 10_000;
  pool_out = pos 5_000;
  hook_fee = none;
  creator_tax = none;
  rhpools_fee = record { currency = weth; amount = pos 100 };
  net_out = pos 5_000;
  min_out = pos 0;
  impact_bps = none;
}

abbrev filled : Split
filled = record {
  legs = record { route = sample_route; amount_in = 10_000; amount_out = pos 5_000 } ∷ [];
}

split_amounts-Settled_example :
    (Settled sample_ledger sample_shape leg_amounts × (sum_out filled.legs ≡ leg_amounts.net_out))
    × ((◌≡◌ {A = Bool} false false)
        ⊎ (sum_in sample_split.legs ≡ pos sample_shape.amount_in -ℤ fee_in sample_shape))
unfolding split_amounts walk_legs walk_leg split_settle net_legs floor_bps ◌+ℤ◌ ◌*ℤ◌ ◌-ℤ◌ div_ℕ
    hop_io observable received sent flow get put
split_amounts-Settled_example =
    split_amounts-Settled sample_shape sample_split sample_ledger no_hooks false leg_amounts filled
      refl
