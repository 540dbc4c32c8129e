-- ===== src/Gate/Keys/Reach.antt =====
-- The calls on the credential store as steps of a relation, and how each changes the counts that
-- the theorems are about.
use robinhoodpools.Prelude.{
  ℕ, ◌≤◌, ◌<◌, ◌≡◌, refl, sym, ap, String, Bool, true, false, not, ◌||◌, Option, List, [], ◌∷◌,
  arith, any, count_if, leb, Result, ok, err, Bool-cases, inl, inr, leb→gt, max, min,
}
use robinhoodpools.Prelude.Int.{ℤ, pos_part}
use robinhoodpools.Gate.Limits.{Limits}
use robinhoodpools.Gate.Keys.{
  Credential, Principal, Store, Via, KeyError, open_session, mint_key, lookup, revoke, revoke_all,
  update, session, key, row_of, is_taken, is_live_key, is_session, is_cookie, mint, insert,
}

-- One call at time `now`, whichever arguments it gets.
pub data Step (limits : Limits) (now : ℕ) : Store → Store → Type 0 where
  signed_in :
      (key_hash wallet label ip : String) (s s' : Store) (p : Principal)
      → open_session limits now key_hash wallet label ip s ≡ ok (s', p)
      → Step limits now s s'
  minted :
      (key_hash : String) (by : Principal) (entitled : Bool) (label : String) (ttl_s : ℤ)
      (s s' : Store) (p : Principal)
      → mint_key limits now key_hash by entitled label ttl_s s ≡ ok (s', p)
      → Step limits now s s'
  looked_up :
      (key_hash : String) (via : Via) (s : Store) → Step limits now s (lookup now key_hash via s).0
  revoked_one :
      (key_id : String) (wallet : Option String) (via : String) (s : Store)
      → Step limits now s (revoke now key_id wallet via s).0
  revoked_all : (wallet : String) (s : Store) → Step limits now s (revoke_all now wallet s).0

-- Calls from `first` at time `since` on, with a clock that does not go back; `now` is the last time.
pub data Reach (limits : Limits) (since : ℕ) (first : Store) : ℕ → Store → Type 0 where
  here : Reach limits since first since first
  next :
      {t : ℕ} {s : Store} (now : ℕ) (s' : Store)
      → Reach limits since first t s
      → t ≤ now
      → Step limits now s s'
      → Reach limits since first now s'

abbrev pub empty : Store
empty = record { credentials = []; audit = [] }

-- An update changes no count of rows that it does not make pass a test.
pub count-update-le :
    (q p : Credential → Bool) (f : Credential → Credential) (rows : List Credential)
    → ((c : Credential) → q (f c) ≡ true → q c ≡ true)
    → count_if q (update p f rows) ≤ count_if q rows
unfolding update
count-update-le q p f [] h = omega arith
count-update-le q p f (c ∷ rows) h = ground (arith, count-update-le q p f rows h, h c)

pub count-update-eq :
    (q p : Credential → Bool) (f : Credential → Credential) (rows : List Credential)
    → ((c : Credential) → q (f c) ≡ q c)
    → count_if q (update p f rows) ≡ count_if q rows
unfolding update
count-update-eq q p f [] h = refl
count-update-eq q p f (c ∷ rows) h = ground (arith, count-update-eq q p f rows h, h c)

pub count_mono :
    (q p : Credential → Bool) (rows : List Credential)
    → ((c : Credential) → q c ≡ true → p c ≡ true)
    → count_if q rows ≤ count_if p rows
count_mono q p [] h = omega arith
count_mono q p (c ∷ rows) h = ground (arith, count_mono q p rows h, h c)

abbrev rows_of : List Credential → Result KeyError (Store × Principal) → List Credential
rows_of d (ok r) = r.0.credentials
rows_of d (err e) = d

-- What an accepted sign-in adds.
pub open_session-ok :
    (limits : Limits) (now : ℕ) (key_hash wallet label ip : String) (s s' : Store) (p : Principal)
    → open_session limits now key_hash wallet label ip s ≡ ok (s', p)
    → let c = row_of now key_hash wallet session label limits.session_ttl_s in
      (any (is_taken c) s.credentials ≡ false) × (s'.credentials ≡ c ∷ s.credentials)
unfolding open_session mint insert
open_session-ok limits now key_hash wallet label ip s s' p h =
    let c = row_of now key_hash wallet session label limits.session_ttl_s in
    elim (Bool-cases (any (is_taken c) s.credentials)) [
      | inl taken ↦ absurd (cc (rw taken at h))
      | inr free ↦ (free, sym (ap (rows_of []) (rw free at h)))
    ]

-- What an accepted `mint_key` has tested and what it adds.
pub mint_key-ok :
    (limits : Limits) (now : ℕ) (key_hash : String) (by : Principal) (entitled : Bool)
    (label : String) (ttl_s : ℤ) (s s' : Store) (p : Principal)
    → mint_key limits now key_hash by entitled label ttl_s s ≡ ok (s', p)
    → let c =
        row_of now key_hash by.wallet key label
          (max 60 (min (pos_part ttl_s) limits.key_ttl_max_s)) in
      (any (is_taken c) s.credentials ≡ false)
      × (s'.credentials ≡ c ∷ s.credentials)
      × (count_if (is_live_key now by.wallet) s.credentials < limits.keys_per_wallet)
unfolding mint_key mint insert
mint_key-ok limits now key_hash by entitled label ttl_s s s' p h =
    let c =
      row_of now key_hash by.wallet key label
        (max 60 (min (pos_part ttl_s) limits.key_ttl_max_s)) in
    elim (Bool-cases (not (is_session by.kind) || not (is_cookie by.via))) [
      | inl bad ↦ absurd (cc (rw bad at h))
      | inr good ↦ elim (Bool-cases (not entitled)) [
        | inl poor ↦ absurd (cc (rw (good, poor) at h))
        | inr rich ↦
            elim (Bool-cases
              (leb limits.keys_per_wallet (count_if (is_live_key now by.wallet) s.credentials))) [
                | inl full ↦ absurd (cc (rw (good, rich, full) at h))
                | inr room ↦ elim (Bool-cases (any (is_taken c) s.credentials)) [
                  | inl taken ↦ absurd (cc (rw (good, rich, room, taken) at h))
                  | inr free ↦ (
                    free,
                    sym (ap (rows_of []) (rw (good, rich, room, free) at h)),
                    leb→gt _ _ room,
                  )
                ]
              ]
      ]
    ]
