-- ===== src/Gate/SignIn.antt =====
-- lp_gate.py: `Gate.nonce` and `Gate.sign_in`. The clock is in microseconds. What
-- `parse_message`, `host_of` and `verify_signer` of lp_gate_siwe.py and `_ip_bucket` give are
-- arguments, and so are `str.lower` and the value drawn at random. `sign_in` looks the nonce up,
-- then asks a node about the signature, then takes the nonce out, with other requests in between;
-- so it is two calls, `check_message` and `take_nonce`, each one step.
pub mod Laws
mod Tests
use robinhoodpools.Prelude.{
  ℕ, zero, suc, ◌+◌, ◌-◌, ◌*◌, ◌≤◌, String, Bool, true, false, not, ◌&&◌, ◌||◌, Option, none, some,
  List, [], ◌∷◌, length, any, ltb, leb, ◌==◌, str_eq, if◌then◌else◌, Result, ok, err, ◌>>=◌, ◌>>◌,
  raise_if, or_raise,
}
use robinhoodpools.Dict.{Dict, get, put, remove}
use robinhoodpools.Gate.Entitle.{second}
use robinhoodpools.Gate.Window.{Keys, allowed, admit}

-- The fields of a parsed message that `sign_in` reads; `uri_host` is `host_of(siwe.uri)`.
pub record Message : Type 0 where
  pub domain : String
  pub uri_host : String
  pub chain_id : ℕ
  pub expiration_time : Option ℕ
  pub not_before : Option ℕ
  pub issued_at : ℕ
  pub nonce : String
  pub address : String

pub record SignIns : Type 0 where
  pub nonces : Dict ℕ
  pub signins : Keys

pub data SignInError : Type 0 where
  bad_message domain_not_served wrong_chain message_expired not_yet_valid : SignInError
  issued_in_future nonce_unknown rate_limited bad_signature capacity : SignInError

-- `while self._nonces and next(iter(self._nonces.values())) <= now: popitem(last=False)`
unfoldable pub purge : ℕ → Dict ℕ → Dict ℕ
purge now [] = []
purge now ((v, until) ∷ nonces) =
    let rest = purge now nonces in if leb until now then rest else (v, until) ∷ nonces

abbrev pub max_nonces : ℕ
max_nonces = 4096

-- `nonce` once its own window has let the caller in; the purge stays where the call is refused.
unfoldable pub issue_nonce : ℕ → ℕ → String → Dict ℕ → Dict ℕ × Result SignInError String
unfolding purge
issue_nonce now ttl_s value nonces =
    let kept = purge now nonces in
    if leb max_nonces (length kept)
    then (kept, err capacity)
    else (put value (now + ttl_s * second) kept, ok value)

abbrev pub is_past : ℕ → Option ℕ → Bool
is_past now none = false
is_past now (some t) = leb t now

abbrev pub is_ahead : ℕ → Option ℕ → Bool
is_ahead now none = false
is_ahead now (some t) = ltb now t

-- `domain in self.hosts or (host is not None and domain == host.lower())`
module _ (lower : String → String) where
  abbrev pub is_served : List String → Option String → String → Bool
  is_served hosts none domain = any (str_eq domain) hosts
  is_served hosts (some host) domain = any (str_eq domain) hosts || str_eq domain (lower host)

  -- The tests up to the look-up of the nonce.
  unfoldable pub check_fields :
      List String → Option String → ℕ → ℕ → Message → Dict ℕ → Result SignInError (Unit {0})
  check_fields hosts host chain_id now m nonces = do
    raise_if
        (not (is_served hosts host (lower m.domain)) || not (str_eq m.uri_host (lower m.domain)))
        domain_not_served
    raise_if (not (m.chain_id == chain_id)) wrong_chain
    raise_if (is_past now m.expiration_time) message_expired
    raise_if (is_ahead now m.not_before) not_yet_valid
    raise_if (ltb (now + 60 * second) m.issued_at) issued_in_future
    until ← or_raise (get m.nonce nonces) nonce_unknown
    raise_if (leb until now) nonce_unknown
    ok tt

  -- `sign_in` before the nonce is taken: an attempt with a wrong signature counts in the window.
  unfoldable pub check_message :
      List String
      → Option String
      → ℕ
      → ℕ
      → ℕ
      → String
      → Bool
      → Option Message
      → SignIns
      → SignIns × Result SignInError Message
  unfolding check_fields allowed
  check_message hosts host chain_id per_ip now bucket verified none s = (s, err bad_message)
  check_message hosts host chain_id per_ip now bucket verified (some m) s =
      elim (check_fields hosts host chain_id now m s.nonces) [
        | err e ↦ (s, err e)
        | ok u ↦
            let (signins, free) = allowed per_ip now bucket s.signins in
            if not free
            then (record s { signins = signins }, err rate_limited)
            else if not verified
            then (record s { signins = (admit per_ip now bucket signins).0 }, err bad_signature)
            else (record s { signins = signins }, ok m)
      ]

-- `self._nonces.pop(siwe.nonce, None)`
unfoldable pub take_nonce : Message → SignIns → SignIns × Result SignInError String
unfolding remove
take_nonce m s = elim (get m.nonce s.nonces) [
  | none ↦ (s, err nonce_unknown)
  | some until ↦ (record s { nonces = remove m.nonce s.nonces }, ok m.address)
]
