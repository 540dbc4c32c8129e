-- ===== src/Tx/Reconcile/Agree/Tests.antt =====
-- A run on the sample trade.
use robinhoodpools.Prelude.{◌≡◌, refl, none}
use robinhoodpools.Prelude.Int.{ℤ, pos, ◌-ℤ◌, ◌*ℤ◌, div_ℕ}
use robinhoodpools.Tx.Chain.{weth}
use robinhoodpools.Tx.Routes.{hops}
use robinhoodpools.Tx.Plan.{Amounts}
use robinhoodpools.Tx.Ledger.{observable, received, sent, flow, hop_io}
use robinhoodpools.Tx.Reconcile.{floor_bps, fee_in, fee_amount, net_of, walk_hop, swap_amounts}
use robinhoodpools.Tx.Reconcile.Agree.{Carried, Settled, swap_amounts-Settled}
use robinhoodpools.Tx.Sample.{sample_shape, sample_ledger, no_hooks}

abbrev sample_amounts : Amounts
sample_amounts = record {
  amount_in = 10_000;
  pool_out = pos 5_000;
  hook_fee = none;
  creator_tax = none;
  rhpools_fee = record { currency = weth; amount = pos 100 };
  net_out = pos 5_000;
  min_out = pos 0;
  impact_bps = none;
}

swap_amounts-Settled_example :
    ((gross : ℤ) × (Carried sample_ledger no_hooks
          (hops sample_shape.route)
          (pos sample_shape.amount_in -ℤ fee_in sample_shape)
          gross
        × ((sample_amounts.net_out ≡ net_of sample_shape gross)
            × (sample_amounts.rhpools_fee.amount ≡ fee_amount sample_shape gross))))
    × Settled sample_ledger sample_shape sample_amounts
unfolding swap_amounts walk_hop floor_bps ◌*ℤ◌ ◌-ℤ◌ div_ℕ hop_io observable received sent flow
swap_amounts-Settled_example =
    swap_amounts-Settled sample_shape sample_ledger no_hooks sample_amounts refl
