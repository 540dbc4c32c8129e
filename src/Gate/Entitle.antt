-- ===== src/Gate/Entitle.antt =====
-- lp_gate.py: `Holding`, `HoldingState`, `Entitlement` and `entitle`. Clock readings are whole
-- microseconds; a difference that would be negative passes both tests of `entitle`, as 0 does.
pub mod Laws
mod Tests
use robinhoodpools.Prelude.{
  ℕ, zero, suc, ◌+◌, ◌-◌, ◌*◌, ◌≤◌, ◌<◌, String, Bool, true, false, not, ◌&&◌, ◌||◌, Option, none,
  some, List, [], ◌∷◌, ltb, leb, ◌==◌, if◌then◌else◌, any, all,
}
use robinhoodpools.Gate.Policy.{Feature, features, GatePolicy, FeeTier, threshold}

abbrev pub second : ℕ
second = 1_000_000

-- `ORACLE_TTL_S`
abbrev pub oracle_ttl : ℕ
oracle_ttl = 30 * second

pub record Holding : Type 0 where
  pub wallet : String
  pub balance_raw : ℕ
  pub block : ℕ
  pub observed_at : ℕ
  pub total_supply_raw : Option ℕ

-- When a feature was last qualified for, and under which policy version.
pub record Anchor : Type 0 where
  pub at : ℕ
  pub version : ℕ

pub record HoldingState : Type 0 where
  pub wallet : String
  pub holding : Option Holding
  pub last_ok : Feature → Option Anchor

-- The feature set and the grace ends, as functions of the feature.
pub record Entitlement : Type 0 where
  pub wallet : String
  pub has : Feature → Bool
  pub holding : Option Holding
  pub grace_until : Feature → Option ℕ
  pub policy_version : ℕ
  pub fee_bps : ℕ
  pub tier : ℕ

-- `state.holding is not None and now - state.holding.observed_at < ORACLE_TTL_S`
abbrev pub is_fresh : Option Holding → ℕ → Bool
is_fresh none now = false
is_fresh (some h) now = ltb (now - h.observed_at) oracle_ttl

abbrev pub balance_of : Option Holding → ℕ
balance_of none = 0
balance_of (some h) = h.balance_raw

abbrev pub grace_covers : GatePolicy → ℕ → Option Anchor → Bool
grace_covers p now none = false
grace_covers p now (some a) = (a.version == p.version) && leb (now - a.at) (p.grace_s * second)

abbrev pub grace_end : GatePolicy → Option Anchor → Option ℕ
grace_end p none = none
grace_end p (some a) = some (a.at + p.grace_s * second)

-- One round of the loop over the features: whether it is added, and its grace end.
unfoldable pub grant : GatePolicy → HoldingState → ℕ → Feature → Bool × Option ℕ
grant p s now f =
    let fresh = is_fresh s.holding now in
    let balance_ok = fresh && leb (threshold p f) (balance_of s.holding) in
    if threshold p f == 0 || balance_ok
    then (true, none)
    else if not fresh && grace_covers p now (s.last_ok f)
    then (true, grace_end p (s.last_ok f))
    else (false, none)

-- `for index, candidate in enumerate(policy.fee_tiers, 1)`
unfoldable pub best_tier : ℕ → ℕ → ℕ → List FeeTier → ℕ × ℕ → ℕ × ℕ
best_tier balance supply index [] found = found
best_tier balance supply index (t ∷ ts) found =
    best_tier balance supply (index + 1) ts
      (if leb (t.min_supply_bps * supply) (balance * 10000) then (index, t.fee_bps) else found)

-- The tier and the fee of a holding, from the base fee on.
unfoldable pub fee_of : GatePolicy → Option Holding → ℕ → ℕ × ℕ
fee_of p none now = (0, p.base_fee_bps)
fee_of p (some h) now = elim h.total_supply_raw [
  | none ↦ (0, p.base_fee_bps)
  | some supply ↦
      if is_fresh (some h) now && ltb 0 supply
      then best_tier h.balance_raw supply 1 p.fee_tiers (0, p.base_fee_bps)
      else (0, p.base_fee_bps)
]

abbrev pub has_token : GatePolicy → Bool
has_token p = elim p.token [ none ↦ false | some t ↦ true ]

unfoldable pub entitle : GatePolicy → HoldingState → ℕ → Entitlement
unfolding grant fee_of best_tier
entitle p s now = record {
  wallet = s.wallet;
  has = λ f. has_token p && (grant p s now f).0;
  holding = s.holding;
  grace_until = λ f. if has_token p then (grant p s now f).1 else none;
  policy_version = p.version;
  fee_bps = (fee_of p s.holding now).1;
  tier = (fee_of p s.holding now).0;
}

-- `Entitlement.qualified`
abbrev pub is_none : Option ℕ → Bool
is_none none = true
is_none (some t) = false

unfoldable pub qualified : Entitlement → Feature → Bool
qualified e f = e.has f && is_none (e.grace_until f)

pub data Status : Type 0 where
  unset holder grace below : Status

-- `Entitlement.state`
unfoldable pub state : Entitlement → GatePolicy → Status
unfolding qualified
state e p =
    if not (has_token p)
    then unset
    else if any (λ f. qualified e f && ltb 0 (threshold p f)) features
    then holder
    else if any (λ f. not (is_none (e.grace_until f))) features
    then grace
    else if all e.has features
    then holder
    else below
