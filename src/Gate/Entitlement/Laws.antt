-- ===== src/Gate/Entitlement/Laws.antt =====
-- The rows of a wallet that sold.
use robinhoodpools.Prelude.{
  ℕ, ◌<◌, ◌≡◌, refl, ◌∙◌, inl, inr, String, true, false, Option, none, some, arith, Bool-cases,
  Option-cases,
}
use robinhoodpools.Gate.Policy.{Feature, GatePolicy, threshold}
use robinhoodpools.Gate.Entitle.{
  Holding, HoldingState, Entitlement, is_fresh, balance_of, has_token, grant, entitle, qualified,
}
use robinhoodpools.Gate.Entitle.Laws.{fresh_shortfall_refuses}
use robinhoodpools.Gate.Entitlement.{Anchors, is_dropped, kept, moved, entitlement}

-- Writes that leave a feature without a row where it has none.
abbrev pub LeavesOut : Feature → (Anchors → Anchors) → Type 0
LeavesOut f writes = (rows : Anchors) → rows f ≡ none → writes rows f ≡ none

shortfall-kept :
    (p : GatePolicy) (now : ℕ) (h : Option Holding) (rows : Anchors) (writes : Anchors → Anchors)
    (f : Feature)
    → is_fresh h now ≡ true
    → balance_of h < threshold p f
    → LeavesOut f writes
    → kept p now h rows (writes rows) f ≡ none
unfolding kept is_dropped
shortfall-kept p now h rows writes f fresh short out = elim (Option-cases (rows f)) [
  | inl gone ↦ rw gone (out rows gone)
  | inr (a, there) ↦ rw there (ground (arith, fresh, short))
]

absent-kept :
    (p : GatePolicy) (now : ℕ) (h : Option Holding) (read rows : Anchors) (f : Feature)
    → rows f ≡ none
    → kept p now h read rows f ≡ none
unfolding kept
absent-kept p now h read rows f gone = ground (arith, gone)

unqualified-moved :
    (p : GatePolicy) (ent : Entitlement) (h : Option Holding) (anchors rows : Anchors) (f : Feature)
    → ent.has f ≡ false
    → moved p ent h anchors rows f ≡ rows f
unfolding moved qualified
unqualified-moved p ent none anchors rows f refusal = refl
unqualified-moved p ent (some h) anchors rows f refusal = rw refusal refl

-- Without a fresh observation and without a row, a feature with a threshold is refused.
unfounded-refused :
    (p : GatePolicy) (s : HoldingState) (now : ℕ) (f : Feature)
    → 0 < threshold p f
    → is_fresh s.holding now ≡ false
    → s.last_ok f ≡ none
    → (entitle p s now).has f ≡ false
unfolding entitle grant
unfounded-refused p s now f need unseen gone = ground (arith, need, unseen, gone)

-- A balance below the threshold, fresh or not, refuses a feature without a row.
sold-refused :
    (p : GatePolicy) (wallet : String) (now : ℕ) (h : Option Holding)
    (before_delete before_insert : Anchors → Anchors) (rows : Anchors) (f : Feature)
    → has_token p ≡ true
    → balance_of h < threshold p f
    → rows f ≡ none
    → (entitlement p wallet now h before_delete before_insert rows).1.has f ≡ false
unfolding entitlement
sold-refused p wallet now h before_delete before_insert rows f token short gone =
    let s : HoldingState = record {
      wallet = wallet;
      holding = h;
      last_ok = kept p now h rows rows;
    } in
    elim (Bool-cases (is_fresh h now)) [
      | inl fresh ↦ rw token (fresh_shortfall_refuses p s now f fresh short).0
      | inr unseen ↦ rw token (
          unfounded-refused p s now f (omega (arith, short)) unseen
            (absent-kept p now h rows rows f gone))
    ]

-- A call that sees no balance or too small a one gives no row to a feature that has none.
pub sold-LeavesOut :
    (p : GatePolicy) (wallet : String) (now : ℕ) (h : Option Holding)
    (before_delete before_insert : Anchors → Anchors) (f : Feature)
    → has_token p ≡ true
    → balance_of h < threshold p f
    → LeavesOut f before_delete
    → LeavesOut f before_insert
    → LeavesOut f (λ rows. (entitlement p wallet now h before_delete before_insert rows).0)
unfolding entitlement
sold-LeavesOut p wallet now h before_delete before_insert f token short out out' rows gone =
    let refusal = sold-refused p wallet now h before_delete before_insert rows f token short gone in
    let table = kept p now h rows (before_delete rows) in
    let unwritten = out' table (absent-kept p now h rows (before_delete rows) f (out rows gone)) in
    let s : HoldingState = record {
      wallet = wallet;
      holding = h;
      last_ok = kept p now h rows rows;
    } in
    rw token (
      unqualified-moved p (entitle p s now) h (kept p now h rows rows) (before_insert table) f
        (rw token at refusal)
      ∙ unwritten)

-- Where the policy names a token, a fresh observation below a feature's threshold leaves the feature
-- without a row, if the calls in between write none.
shortfall_deletes_row :
    (p : GatePolicy) (wallet : String) (now : ℕ) (h : Option Holding)
    (before_delete before_insert : Anchors → Anchors) (rows : Anchors) (f : Feature)
    → has_token p ≡ true
    → is_fresh h now ≡ true
    → balance_of h < threshold p f
    → LeavesOut f before_delete
    → LeavesOut f before_insert
    → (entitlement p wallet now h before_delete before_insert rows).0 f ≡ none
unfolding entitlement
shortfall_deletes_row p wallet now h before_delete before_insert rows f token fresh short out out' =
    let s : HoldingState = record {
      wallet = wallet;
      holding = h;
      last_ok = kept p now h rows rows;
    } in
    let refusal = fresh_shortfall_refuses p s now f fresh short in
    let table = kept p now h rows (before_delete rows) in
    let unwritten = out' table (shortfall-kept p now h rows before_delete f fresh short out) in
    rw token (
      unqualified-moved p (entitle p s now) h (kept p now h rows rows) (before_insert table) f
        refusal.0
      ∙ unwritten)

-- A wallet that sold below a feature's threshold, and was seen to have done so by a call with a fresh
-- observation, cannot come back through the grace period: as long as no other call writes it a row
-- for the feature during that call or since, a later call is refused the feature under the same
-- policy at any time, whether the oracle answers nothing, or a holding below the threshold, such as the
-- one that it had cached, and whatever other calls write meanwhile.
pub sold_then_silent :
    (p : GatePolicy) (wallet : String) (now later : ℕ) (h answer : Option Holding)
    (before_delete before_insert since before_delete' before_insert' : Anchors → Anchors)
    (rows : Anchors) (f : Feature)
    → has_token p ≡ true
    → is_fresh h now ≡ true
    → balance_of h < threshold p f
    → balance_of answer < threshold p f
    → LeavesOut f before_delete
    → LeavesOut f before_insert
    → LeavesOut f since
    → (entitlement p wallet later answer before_delete' before_insert'
          (since (entitlement p wallet now h before_delete before_insert rows).0)).1.has
        f
      ≡ false
sold_then_silent p wallet now later h answer before_delete before_insert since before_delete'
      before_insert' rows f token fresh short short' out out' out_since =
    let after = (entitlement p wallet now h before_delete before_insert rows).0 in
    let gone : after f ≡ none =
      shortfall_deletes_row p wallet now h before_delete before_insert rows f token fresh short out
        out' in
    sold-refused p wallet later answer before_delete' before_insert' (since after) f token short'
      (out_since after gone)
