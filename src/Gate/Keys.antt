-- ===== src/Gate/Keys.antt =====
-- lp_gate.py: the credentials. A row of the table is a record, and the table a list of them, the
-- newest first; `key_hash` and `key_id` are unique, as the schema says, so a second row with either
-- is refused. A call reads the clock once, in whole seconds. The secret that is drawn at random is
-- an argument, and so is the hash that `hashlib.sha256` gives.
pub mod Reach
pub mod Limit
pub mod Named
pub mod Revoked
mod Tests
use robinhoodpools.Prelude.{
  ℕ, zero, suc, ◌+◌, ◌≤◌, String, Bool, true, false, not, ◌&&◌, ◌||◌, Option, none, some, List, [],
  ◌∷◌, map, max, min, ltb, leb, ◌==◌, str_eq, any, count_if, if◌then◌else◌, Result, ok, err, ◌>>=◌,
  ◌>>◌, raise_if, take_chars, is_blank,
}
use robinhoodpools.Prelude.Int.{ℤ, pos, negsuc, pos_part}
use robinhoodpools.Gate.Entitle.{is_none}
use robinhoodpools.Gate.Limits.{Limits}

pub data Kind : Type 0 where
  session key : Kind

pub data Via : Type 0 where
  cookie bearer : Via

-- A row of the table `credential`.
pub record Credential : Type 0 where
  pub key_hash : String
  pub key_id : String
  pub wallet : String
  pub kind : Kind
  pub label : String
  pub created_at : ℕ
  pub expires_at : ℕ
  pub revoked_at : Option ℕ
  pub last_used_at : Option ℕ

pub record Principal : Type 0 where
  pub wallet : String
  pub key_id : String
  pub label : String
  pub via : Via
  pub kind : Kind
  pub expires_at : ℕ

-- The details that the audit table keeps.
pub data Action : Type 0 where
  session_sign_in : (key_id label ip : String) → Action
  key_mint : (key_id label by : String) → Action
  key_revoke : (key_id : String) → Action
  key_revoke_all : (count : ℕ) → Action

pub record AuditRow : Type 0 where
  pub at : ℕ
  pub actor : String
  pub via : String
  pub action : Action

pub record Store : Type 0 where
  pub credentials : List Credential
  pub audit : List AuditRow

pub data KeyError : Type 0 where
  integrity forbidden not_entitled key_limit : KeyError

abbrev pub is_session : Kind → Bool
is_session session = true
is_session key = false

abbrev pub is_cookie : Via → Bool
is_cookie cookie = true
is_cookie bearer = false

abbrev pub kind_name : Kind → String
kind_name session = "session"
kind_name key = "key"

-- `revoked_at IS NULL AND expires_at > ?`
abbrev pub is_live : ℕ → Credential → Bool
is_live now c = is_none c.revoked_at && ltb now c.expires_at

-- `wallet = ? AND kind = 'key' AND revoked_at IS NULL AND expires_at > ?`
abbrev pub is_live_key : ℕ → String → Credential → Bool
is_live_key now wallet c = str_eq c.wallet wallet && (not (is_session c.kind) && is_live now c)

abbrev pub is_taken : Credential → Credential → Bool
is_taken c d = str_eq d.key_hash c.key_hash || str_eq d.key_id c.key_id

-- `INSERT INTO credential`
unfoldable pub insert : Credential → List Credential → Result KeyError (List Credential)
insert c rows = if any (is_taken c) rows then err integrity else ok (c ∷ rows)

-- The first row that passes a test.
unfoldable pub find_row : (Credential → Bool) → List Credential → Option Credential
find_row p [] = none
find_row p (c ∷ rows) = if p c then some c else find_row p rows

-- `UPDATE credential SET ... WHERE ...`
unfoldable pub update :
    (Credential → Bool) → (Credential → Credential) → List Credential → List Credential
update p f [] = []
update p f (c ∷ rows) = (if p c then f c else c) ∷ update p f rows

abbrev pub revoked : ℕ → Credential → Credential
revoked now c = record c { revoked_at = some now }

abbrev pub used : ℕ → Credential → Credential
used now c = record c { last_used_at = some now }

abbrev pub logged : ℕ → String → String → Action → Store → List AuditRow
logged now actor via action s =
    record { at = now; actor = actor; via = via; action = action } ∷ s.audit

-- `LAST_USED_STEP_S`
abbrev pub last_used_step : ℕ
last_used_step = 60

abbrev pub is_stale : ℕ → Option ℕ → Bool
is_stale now none = true
is_stale now (some t) = leb (t + last_used_step) now

abbrev pub key_id_of : String → String
key_id_of key_hash = take_chars 16 key_hash

abbrev pub row_of : ℕ → String → String → Kind → String → ℕ → Credential
row_of now key_hash wallet kind label ttl = record {
  key_hash = key_hash;
  key_id = key_id_of key_hash;
  wallet = wallet;
  kind = kind;
  label = take_chars 64 (if is_blank label then kind_name kind else label);
  created_at = now;
  expires_at = now + ttl;
  revoked_at = none;
  last_used_at = none;
}

abbrev pub principal_of : Via → Credential → Principal
principal_of via c = record {
  wallet = c.wallet;
  key_id = c.key_id;
  label = c.label;
  via = via;
  kind = c.kind;
  expires_at = c.expires_at;
}

-- `_mint`
unfoldable pub mint :
    ℕ
    → String
    → String
    → Kind
    → String
    → ℕ
    → Via
    → List Credential
    → Result KeyError (List Credential × Principal)
unfolding insert
mint now key_hash wallet kind label ttl via rows = do
  rows' ← insert (row_of now key_hash wallet kind label ttl) rows
  ok (rows', principal_of via (row_of now key_hash wallet kind label ttl))

-- The end of `sign_in`, once the message and its signature are accepted.
unfoldable pub open_session :
    Limits → ℕ → String → String → String → String → Store → Result KeyError (Store × Principal)
open_session limits now key_hash wallet label ip s = do
  minted ← mint now key_hash wallet session label limits.session_ttl_s cookie s.credentials
  ok (
    record {
      credentials = minted.0;
      audit = logged now wallet "web" (session_sign_in minted.1.key_id label ip) s;
    },
    minted.1,
  )

-- `mint_key`; `entitled` is whether `_entitled` finds the wallet entitled to "api". Below 60 every
-- lifetime gives 60, so a negative one counts as 0.
unfoldable pub mint_key :
    Limits
    → ℕ
    → String
    → Principal
    → Bool
    → String
    → ℤ
    → Store
    → Result KeyError (Store × Principal)
mint_key limits now key_hash p entitled label ttl_s s = do
  raise_if (not (is_session p.kind) || not (is_cookie p.via)) forbidden
  raise_if (not entitled) not_entitled
  raise_if (leb limits.keys_per_wallet (count_if (is_live_key now p.wallet) s.credentials))
      key_limit
  minted ←
      mint now key_hash p.wallet key label (max 60 (min (pos_part ttl_s) limits.key_ttl_max_s))
        bearer s.credentials
  ok (
    record {
      credentials = minted.0;
      audit = logged now p.wallet "web" (key_mint minted.1.key_id label p.key_id) s;
    },
    minted.1,
  )

-- `_lookup`
unfoldable pub lookup : ℕ → String → Via → Store → Store × Option Principal
unfolding update find_row
lookup now key_hash via s =
    elim (find_row (λ c. str_eq c.key_hash key_hash && is_live now c) s.credentials) [
      | none ↦ (s, none)
      | some c ↦ (
        if is_stale now c.last_used_at
            then record s {
              credentials = update (λ d. str_eq d.key_id c.key_id) (used now) s.credentials;
            }
            else s,
        some (principal_of via c),
      )
    ]

-- `_lookup_id`
unfoldable pub lookup_id : ℕ → String → Store → Option String
unfolding find_row
lookup_id now key_id s =
    elim (find_row (λ c. str_eq c.key_id key_id && is_live now c) s.credentials) [
      | none ↦ none
      | some c ↦ some c.wallet
    ]

abbrev pub is_of : Option String → Credential → Bool
is_of none c = true
is_of (some w) c = str_eq c.wallet w

abbrev pub actor_of : Option String → String
actor_of none = "owner"
actor_of (some w) = if is_blank w then "owner" else w

abbrev pub is_revocable : String → Option String → Credential → Bool
is_revocable key_id wallet c = str_eq c.key_id key_id && (is_none c.revoked_at && is_of wallet c)

-- `revoke`
unfoldable pub revoke : ℕ → String → Option String → String → Store → Store × Bool
unfolding update
revoke now key_id wallet via s =
    let changed = count_if (is_revocable key_id wallet) s.credentials in
    let rows = update (is_revocable key_id wallet) (revoked now) s.credentials in
    if changed == 0 then (record s { credentials = rows }, false) else (
      record { credentials = rows; audit = logged now (actor_of wallet) via (key_revoke key_id) s },
      true,
    )

abbrev pub is_open_of : String → Credential → Bool
is_open_of wallet c = str_eq c.wallet wallet && is_none c.revoked_at

-- `revoke_all`
unfoldable pub revoke_all : ℕ → String → Store → Store × ℕ
unfolding update
revoke_all now wallet s =
    let changed = count_if (is_open_of wallet) s.credentials in
    let rows = update (is_open_of wallet) (revoked now) s.credentials in
    if changed == 0 then (record s { credentials = rows }, 0) else (
      record { credentials = rows; audit = logged now wallet "web" (key_revoke_all changed) s },
      changed,
    )
