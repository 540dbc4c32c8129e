-- ===== src/Gate/Owner.antt =====
-- lp_gate.py: `Gate.policy` and `Gate.apply_policy`, with the table `policy`, the newest row
-- first. The clock is in microseconds. The signer that `recover_signer` finds
-- (`none` where it raises) is an argument; `str.lower`, `int(text, 10)`, `str` on numbers and
-- `to_checksum_address` are parameters. A row keeps the JSON value of its body, which
-- `json.loads` gives back from what `json.dumps` wrote. `apply_policy` takes the lock in `policy`, for
-- the SELECT and for its last write, and lets it go in between, so what other callers and the
-- command line do to the store between these sections are two more arguments.
pub mod Rows
pub mod Loading
pub mod Outcome
pub mod Laws
mod Tests
use robinhoodpools.Prelude.{
  ℕ, zero, suc, ◌+◌, ◌-◌, ◌*◌, ◌≤◌, String, Bool, true, false, not, ◌&&◌, ◌||◌, Option, none, some,
  List, [], ◌∷◌, any, ltb, leb, ◌==◌, str_eq, if◌then◌else◌, Result, ok, err, ◌>>=◌,
}
use robinhoodpools.Prelude.Int.{ℤ}
use robinhoodpools.Gate.Policy.{Value, GatePolicy, PolicyError, unset_policy, parse, public}
use robinhoodpools.Gate.Entitle.{second}

-- A row of the table `policy`.
pub record PolicyRow : Type 0 where
  pub version : ℕ
  pub body : Value
  pub signature : String
  pub signer : String
  pub via : String
  pub applied_at : ℕ

-- The details that the audit table keeps, without the text of a reason.
pub data PolicyAction : Type 0 where
  policy_apply : Value → PolicyAction
  policy_refused : (version : ℕ) → PolicyAction

pub record PolicyAudit : Type 0 where
  pub at : ℕ
  pub actor : String
  pub via : String
  pub action : PolicyAction

-- What the gate keeps; `none` is a time before all others, and `forgotten` counts the calls of the
-- oracle's `forget_all`.
pub record PolicyStore : Type 0 where
  pub owner : Option String
  pub rows : List PolicyRow
  pub audit : List PolicyAudit
  pub current : GatePolicy
  pub read_at : Option ℕ
  pub refusals : ℕ
  pub log_at : Option ℕ
  pub forgotten : ℕ

-- A new gate over an empty table.
abbrev pub opened : Option String → PolicyStore
opened owner = record {
  owner = owner;
  rows = [];
  audit = [];
  current = unset_policy;
  read_at = none;
  refusals = 0;
  log_at = none;
  forgotten = 0;
}

pub data ApplyError : Type 0 where
  malformed not_owner stale_version issued_outside integrity : ApplyError
  unreadable : PolicyError → ApplyError

-- `now - self._policy_read_at >= 5.0 or self._policy_read_at > now`
abbrev pub is_stale : ℕ → Option ℕ → Bool
is_stale now none = true
is_stale now (some t) = leb (t + 5 * second) now || ltb now t

-- `ORDER BY version DESC LIMIT 1`
unfoldable pub newest : List PolicyRow → Option PolicyRow
newest [] = none
newest (r ∷ rows) = elim (newest rows) [
  | none ↦ some r
  | some s ↦ if ltb r.version s.version then some s else some r
]

abbrev pub same_token : Option String → Option String → Bool
same_token none none = true
same_token none (some t) = false
same_token (some t) none = false
same_token (some t) (some u) = str_eq t u

abbrev pub is_due : ℕ → Option ℕ → Bool
is_due now none = true
is_due now (some t) = leb (t + 60 * second) now

-- `_record_policy_refusal`
unfoldable pub refused : ℕ → PolicyStore → PolicyStore
refused now s =
    if is_due now s.log_at
    then record s { refusals = 0; log_at = some now }
    else record s { refusals = s.refusals + 1 }

-- `SELECT signature ... WHERE version = ?` finds this signature.
abbrev pub is_replay : ℕ → String → PolicyRow → Bool
is_replay version signature r = (r.version == version) && str_eq r.signature signature

-- `POLICY_SKEW_S`
abbrev pub policy_skew : ℕ
policy_skew = 600 * second

abbrev pub distance : ℕ → ℕ → ℕ
distance a b = (a - b) + (b - a)

abbrev pub audited : ℕ → String → String → PolicyAction → PolicyStore → PolicyStore
audited now actor via action s = record s {
  audit = record { at = now; actor = actor; via = via; action = action } ∷ s.audit;
}

module _ (parse_int : String → Option ℤ) (checksum : Value → Option String) where
  abbrev pub read_body : Option PolicyRow → Result PolicyError GatePolicy
  read_body none = ok unset_policy
  read_body (some r) = parse parse_int checksum r.body

  -- `policy`
  unfoldable pub load : ℕ → PolicyStore → Result PolicyError PolicyStore
  unfolding newest
  load now s =
      if is_stale now s.read_at
      then (do
        loaded ← read_body (newest s.rows)
        ok (record s {
          current = loaded;
          read_at = some now;
          forgotten =
              if same_token loaded.token s.current.token then s.forgotten else s.forgotten + 1;
        }))
      else ok s

-- `signer.lower() != self.owner.lower()`, negated
module _ (lower : String → String) where
  abbrev pub is_owner : Option String → String → Bool
  is_owner none signer = false
  is_owner (some o) signer = str_eq (lower signer) (lower o)

module _ (show : ℕ → String) where
  abbrev pub new_row : ℕ → GatePolicy → String → String → String → PolicyRow
  new_row now p signature signer via = record {
    version = p.version;
    body = public show p;
    signature = signature;
    signer = signer;
    via = via;
    applied_at = now;
  }

  -- The transaction at the end of `apply_policy`; a taken version rolls it back.
  unfoldable pub commit :
      ℕ
      → GatePolicy
      → String
      → String
      → String
      → PolicyStore
      → PolicyStore × Result ApplyError GatePolicy
  commit now p signature signer via s =
      if any (λ r. r.version == p.version) s.rows then (s, err integrity) else (
        record (audited now signer via (policy_apply (public show p)) s) {
          rows = new_row now p signature signer via ∷ s.rows;
          current = p;
          read_at = some now;
          forgotten = s.forgotten + 1;
        },
        ok p,
      )

  -- The end of `apply_policy`: `current` is what `policy` returned, and `found` whether the SELECT
  -- found the sent signature under the sent version. `late` is the clock that `_audit` reads.
  unfoldable pub decide :
      (now late : ℕ)
      → GatePolicy
      → String
      → String
      → String
      → (current : GatePolicy) → (found : Bool) → PolicyStore
      → PolicyStore × Result ApplyError GatePolicy
  unfolding commit
  decide now late p signature signer via current found s =
      if found && (p.version == current.version)
      then (s, ok current)
      else if leb p.version current.version
      then (audited late signer via (policy_refused p.version) s, err stale_version)
      else if ltb policy_skew (distance (p.issued_at * second) now)
      then (audited late signer via (policy_refused p.version) s, err issued_outside)
      else commit now p signature signer via s

module _ (parse_int : String → Option ℤ) (checksum : Value → Option String) (show : ℕ → String)
    (lower : String → String) where
  -- `apply_policy`; `before_select` and `before_write` are what others do to the store. The call reads
  -- the clock at `now`, `policy` or `_record_policy_refusal` at `at`, and `_audit` at `late`.
  unfoldable pub apply_policy :
      (now at late : ℕ)
      → GatePolicy
      → Option String
      → String
      → String
      → (before_select before_write : PolicyStore → PolicyStore) → PolicyStore
      → PolicyStore × Result ApplyError GatePolicy
  unfolding refused load decide
  apply_policy now at late p none signature via before_select before_write s =
      (refused at s, err malformed)
  apply_policy now at late p (some signer) signature via before_select before_write s =
      if is_owner lower s.owner signer
      then elim (load parse_int checksum at s) [
        | err e ↦ (s, err (unreadable e))
        | ok loaded ↦
            let read = before_select loaded in
            decide show now late p signature signer via loaded.current
              (any (is_replay p.version signature) read.rows) (before_write read)
      ]
      else (refused at s, err not_owner)
