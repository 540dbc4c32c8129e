-- ===== src/Gate/Entitle/Laws.antt =====
-- Who is entitled to what, and at which fee.
use robinhoodpools.Prelude.{ℕ, ◌<◌, ◌≡◌, true, false, none, some, arith, String}
use robinhoodpools.Gate.Policy.{Feature, GatePolicy, threshold}
use robinhoodpools.Gate.Entitle.{Holding, HoldingState, is_fresh, balance_of, entitle}

-- A fresh observation below the threshold refuses the feature, whatever anchor is stored: the grace
-- period covers a silent oracle, never a sold balance.
pub fresh_shortfall_refuses :
    (p : GatePolicy) (s : HoldingState) (now : ℕ) (f : Feature)
    → is_fresh s.holding now ≡ true
    → balance_of s.holding < threshold p f
    → ((entitle p s now).has f ≡ false) × ((entitle p s now).grace_until f ≡ none)
unfolding entitle
fresh_shortfall_refuses p s now f fresh short = ground arith

abbrev pub observed : String → ℕ → ℕ → ℕ → ℕ → Holding
observed wallet balance block at supply = record {
  wallet = wallet;
  balance_raw = balance;
  block = block;
  observed_at = at;
  total_supply_raw = some supply;
}
