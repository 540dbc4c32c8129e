-- ===== src/Gate/SignIn/Laws.antt =====
-- How often a nonce lets a sign-in through.
use robinhoodpools.Prelude.{
  ℕ, ◌+◌, ◌*◌, ◌≤◌, ◌≡◌, refl, String, Bool, Option, none, some, List, [], ◌∷◌, arith, count_if,
  length, leb, str_eq, eq_iff, Bool-cases, Option-cases, inl, inr, if◌then◌else◌, ok, err,
  Result-cases,
}
use robinhoodpools.Dict.{Dict, get, put, remove}
use robinhoodpools.Gate.Entitle.{second}
use robinhoodpools.Gate.Window.{allowed}
use robinhoodpools.Gate.SignIn.{
  Message, SignIns, SignInError, purge, issue_nonce, check_message, take_nonce, max_nonces,
  check_fields,
}

-- How often a nonce is stored, and how often it occurs in a list of events.
abbrev pub stored : String → Dict ℕ → ℕ
stored v nonces = count_if (λ e. str_eq e.0 v) nonces

abbrev pub times : String → List String → ℕ
times v events = count_if (λ w. str_eq w v) events

stored-purge :
    (v : String) (now : ℕ) (nonces : Dict ℕ) → stored v (purge now nonces) ≤ stored v nonces
unfolding purge
stored-purge v now [] = omega arith
stored-purge v now ((w, until) ∷ nonces) = ground (arith, stored-purge v now nonces)

stored-put :
    (v w : String) (until : ℕ) (nonces : Dict ℕ)
    → stored v (put w until nonces) ≤ stored v nonces + (if str_eq w v then 1 else 0)
unfolding put
stored-put v w until [] = omega arith
stored-put v w until ((u, t) ∷ nonces) = ground (arith, stored-put v w until nonces, eq_iff u w)

stored-remove :
    (v w : String) (nonces : Dict ℕ)
    → stored v (remove w nonces) ≤ (if str_eq w v then 0 else stored v nonces)
unfolding remove
stored-remove v w [] = ground arith
stored-remove v w ((u, t) ∷ nonces) =
    ground (arith, stored-remove v w nonces, eq_iff u w, eq_iff w v, eq_iff u v)

stored-get :
    (v : String) (until : ℕ) (nonces : Dict ℕ) → get v nonces ≡ some until → 1 ≤ stored v nonces
unfolding get
stored-get v until [] e = absurd (cc e)
stored-get v until ((u, t) ∷ nonces) e = elim (Bool-cases (str_eq u v)) [
  | inl same ↦ ground (arith, same)
  | inr other ↦ ground (arith, stored-get v until nonces (rw (other, get) at e))
]

-- The requests in any order: a nonce is issued, a message is checked, a nonce is taken. The lists
-- hold the nonces that were issued and those that let a sign-in through, the newest first.
pub data Reach : SignIns → List String → List String → Type 0 where
  start : Reach (record { nonces = []; signins = [] }) [] []
  issued :
      {s : SignIns} {given taken : List String} (now ttl_s : ℕ) (value : String)
      → Reach s given taken
      → (issue_nonce now ttl_s value s.nonces).1 ≡ ok value
      → Reach (record s { nonces = (issue_nonce now ttl_s value s.nonces).0 }) (value ∷ given) taken
  turned_away :
      {s : SignIns} {given taken : List String} (now ttl_s : ℕ) (value : String) (e : SignInError)
      → Reach s given taken
      → (issue_nonce now ttl_s value s.nonces).1 ≡ err e
      → Reach (record s { nonces = (issue_nonce now ttl_s value s.nonces).0 }) given taken
  checked :
      {s : SignIns} {given taken : List String} (hosts : List String) (host : Option String)
      (lower : String → String) (chain_id per_ip now : ℕ) (bucket : String) (verified : Bool)
      (m : Option Message)
      → Reach s given taken
      → Reach (check_message lower hosts host chain_id per_ip now bucket verified m s).0 given taken
  took :
      {s : SignIns} {given taken : List String} (m : Message) (address : String)
      → Reach s given taken
      → (take_nonce m s).1 ≡ ok address
      → Reach (take_nonce m s).0 given (m.nonce ∷ taken)

check_message-nonces :
    (lower : String → String) (hosts : List String) (host : Option String) (chain_id per_ip now : ℕ)
    (bucket : String) (verified : Bool) (m : Option Message) (s : SignIns)
    → (check_message lower hosts host chain_id per_ip now bucket verified m s).0.nonces ≡ s.nonces
unfolding check_message
check_message-nonces lower hosts host chain_id per_ip now bucket verified none s = refl
check_message-nonces lower hosts host chain_id per_ip now bucket verified (some m) s =
    elim (Result-cases (check_fields lower hosts host chain_id now m s.nonces)) [
      | inl (u, z) ↦
          rw (z, check_message)
            (elim (Bool-cases (allowed per_ip now bucket s.signins).1) [
              | inl free ↦
                  rw free
                    (elim (Bool-cases verified) [ inl good ↦ rw good refl | inr bad ↦ rw bad refl ])
              | inr full ↦ rw full refl
            ])
      | inr (e, z) ↦ rw (z, check_message) refl
    ]

issue_nonce-stored :
    (v : String) (now ttl_s : ℕ) (value : String) (nonces : Dict ℕ)
    → stored v (issue_nonce now ttl_s value nonces).0
      ≤ stored v nonces + (if str_eq value v then 1 else 0)
unfolding issue_nonce
issue_nonce-stored v now ttl_s value nonces =
    elim (Bool-cases (leb max_nonces (length (purge now nonces)))) [
      | inl full ↦ rw full (omega (arith, stored-purge v now nonces))
      | inr room ↦ rw room (
          omega (
            arith,
            stored-purge v now nonces,
            stored-put v value (now + ttl_s * second) (purge now nonces),
          ))
    ]

issue_nonce-refused :
    (v : String) (now ttl_s : ℕ) (value : String) (nonces : Dict ℕ) (e : SignInError)
    → (issue_nonce now ttl_s value nonces).1 ≡ err e
    → stored v (issue_nonce now ttl_s value nonces).0 ≤ stored v nonces
unfolding issue_nonce
issue_nonce-refused v now ttl_s value nonces e h =
    elim (Bool-cases (leb max_nonces (length (purge now nonces)))) [
      | inl full ↦ rw full (omega (arith, stored-purge v now nonces))
      | inr room ↦ absurd (cc (rw room at h))
    ]

take_nonce-stored :
    (v : String) (m : Message) (address : String) (s : SignIns)
    → (take_nonce m s).1 ≡ ok address
    → stored v (take_nonce m s).0.nonces + (if str_eq m.nonce v then 1 else 0) ≤ stored v s.nonces
unfolding take_nonce
take_nonce-stored v m address s h = elim (Option-cases (get m.nonce s.nonces)) [
  | inl z ↦ absurd (cc (rw (z, take_nonce) at h))
  | inr (until, z) ↦
      rw (z, take_nonce)
        (ground (
          arith,
          stored-remove v m.nonce s.nonces,
          stored-get m.nonce until s.nonces z,
          eq_iff m.nonce v,
        ))
]

taken-le-given :
    (v : String) {s : SignIns} {given taken : List String}
    → Reach s given taken
    → times v taken + stored v s.nonces ≤ times v given
taken-le-given v start = omega arith
taken-le-given v (turned_away {s} now ttl_s value e r h) =
    omega (arith, issue_nonce-refused v now ttl_s value s.nonces e h, taken-le-given v r)
taken-le-given v (issued {s} {given} {taken} now ttl_s value r h) =
    omega (arith, issue_nonce-stored v now ttl_s value s.nonces, taken-le-given v r)
taken-le-given v (checked {s} hosts host lower chain_id per_ip now bucket verified m r) =
    rw (check_message-nonces lower hosts host chain_id per_ip now bucket verified m s)
      (taken-le-given v r)
taken-le-given v (took {s} m address r h) =
    omega (arith, take_nonce-stored v m address s h, taken-le-given v r)

-- However requests interleave, a nonce lets no more sign-ins through than it was issued times: a
-- value that was drawn once lets at most one through.
pub nonce_single_use :
    (v : String) (s : SignIns) (given taken : List String)
    → Reach s given taken
    → times v taken ≤ times v given
nonce_single_use v s given taken r = omega (arith, taken-le-given v r)
