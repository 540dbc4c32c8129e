-- ===== src/Gate/Entitlement.antt =====
-- lp_gate.py: `Gate.entitlement`, which reads and moves the rows of the table `qualified`. The rows
-- of one wallet are a function of the feature; the policy and what the oracle observes are
-- arguments, from `Gate.policy` and `_Oracle.observe`. The method holds the lock for the SELECT, for
-- the DELETE and for the INSERT, and not in between, so what other calls do to the wallet's rows
-- between these sections are two more arguments.
pub mod Laws
mod Tests
use robinhoodpools.Prelude.{
  ℕ, zero, suc, ◌+◌, ◌-◌, ◌*◌, ◌≤◌, String, Bool, true, false, not, ◌&&◌, ◌||◌, Option, none, some,
  ltb, leb, ◌==◌, if◌then◌else◌,
}
use robinhoodpools.Gate.Policy.{Feature, GatePolicy, threshold}
use robinhoodpools.Gate.Entitle.{
  second, Holding, Anchor, HoldingState, Entitlement, is_fresh, balance_of, has_token, entitle,
  qualified,
}

abbrev pub Anchors : Type 0
Anchors = Feature → Option Anchor

-- `QUALIFIED_WRITE_STEP_S`
abbrev pub write_step : ℕ
write_step = 5 * second

abbrev pub has_row : Option Anchor → Bool
has_row none = false
has_row (some a) = true

-- `dropped`: a fresh balance below the threshold drops a row that was read.
unfoldable pub is_dropped : GatePolicy → ℕ → Option Holding → Anchors → Feature → Bool
is_dropped p now h read f =
    has_row (read f)
    && (is_fresh h now && (ltb 0 (threshold p f) && ltb (balance_of h) (threshold p f)))

-- `DELETE FROM qualified` on the table, and `del anchors[feature]` on the rows that were read.
unfoldable pub kept : GatePolicy → ℕ → Option Holding → Anchors → Anchors → Anchors
unfolding is_dropped
kept p now h read rows f = if is_dropped p now h read f then none else rows f

abbrev pub is_due : GatePolicy → Holding → Option Anchor → Bool
is_due p h none = true
is_due p h (some a) = not (a.version == p.version) || leb (a.at + write_step) h.observed_at

-- `INSERT INTO qualified`, decided on the rows that were read; without a holding no feature with a
-- threshold is qualified.
unfoldable pub moved : GatePolicy → Entitlement → Option Holding → Anchors → Anchors → Anchors
moved p ent none anchors rows f = rows f
moved p ent (some h) anchors rows f =
    if qualified ent f && (ltb 0 (threshold p f) && is_due p h (anchors f))
    then some (record { at = h.observed_at; version = p.version })
    else rows f

-- `Gate.entitlement`; `before_delete` and `before_insert` are the other calls' writes.
unfoldable pub entitlement :
    GatePolicy
    → String
    → ℕ
    → Option Holding
    → (before_delete before_insert : Anchors → Anchors) → Anchors
    → Anchors × Entitlement
unfolding kept moved
entitlement p wallet now h before_delete before_insert rows =
    let held = if has_token p then h else none in
    let anchors = kept p now held rows rows in
    let table = kept p now held rows (before_delete rows) in
    let ent = entitle p (record { wallet = wallet; holding = held; last_ok = anchors }) now in
    (moved p ent held anchors (before_insert table), ent)
