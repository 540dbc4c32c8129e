-- ===== src/Gate/Keys/Named.antt =====
-- How each call changes the numbers of rows with one key id.
use robinhoodpools.Prelude.{
  ℕ, ◌≤◌, ◌≡◌, refl, String, Bool, true, false, ◌&&◌, Option, List, [], ◌∷◌, arith, any, count_if,
  str_eq, eq_iff, Bool-cases, Option-cases, ◌==◌, inl, inr,
}
use robinhoodpools.Gate.Limits.{Limits}
use robinhoodpools.Gate.Entitle.{is_none}
use robinhoodpools.Gate.Keys.{
  Credential, Store, Via, lookup, revoke, revoke_all, update, find_row, is_stale, is_live, revoked,
  used, is_revocable, is_open_of, is_taken,
}
use robinhoodpools.Gate.Keys.Reach.{
  Step, signed_in, minted, looked_up, revoked_one, revoked_all, count-update-le, count-update-eq,
  open_session-ok, mint_key-ok,
}

-- How many rows have this `key_id`, and how many of those are not revoked.
abbrev pub named : String → List Credential → ℕ
named id rows = count_if (λ c. str_eq c.key_id id) rows

abbrev pub unrevoked : String → List Credential → ℕ
unrevoked id rows = count_if (λ c. str_eq c.key_id id && is_none c.revoked_at) rows

-- Both counts after each call; `named` rises only with a new row whose id was not taken.
pub record Follows (id : String) (rows rows' : List Credential) : Type 0 where
  pub kept :
      1 ≤ named id rows
      → (named id rows' ≡ named id rows) × (unrevoked id rows' ≤ unrevoked id rows)
  pub single : named id rows ≤ 1 → named id rows' ≤ 1

taken_when_named :
    (id : String) (c : Credential) (rows : List Credential)
    → str_eq c.key_id id ≡ true
    → any (is_taken c) rows ≡ false
    → named id rows ≡ 0
taken_when_named id c [] same free = refl
taken_when_named id c (d ∷ rows) same free =
    let e = (eq_iff c.key_id id).0 same in ground (arith, taken_when_named id c rows same, free, e)

insert-Follows :
    (id : String) (c : Credential) (rows : List Credential)
    → any (is_taken c) rows ≡ false
    → Follows id rows (c ∷ rows)
insert-Follows id c rows free = elim (Bool-cases (str_eq c.key_id id)) [
  | inl same ↦
      let z = taken_when_named id c rows same free in
      record { kept = λ h. absurd (omega (arith, h, z)); single = λ h. rw (same, z) (omega arith) }
  | inr other ↦ record {
    kept = λ h. rw other (omega arith, omega arith);
    single = λ h. rw other (omega (arith, h));
  }
]

update-Follows :
    (id : String) (p : Credential → Bool) (f : Credential → Credential) (rows : List Credential)
    → ((c : Credential) → str_eq (f c).key_id id ≡ str_eq c.key_id id)
    → ((c : Credential)
        → (str_eq (f c).key_id id && is_none (f c).revoked_at) ≡ true
        → (str_eq c.key_id id && is_none c.revoked_at) ≡ true)
    → Follows id rows (update p f rows)
update-Follows id p f rows same fewer =
    let n = count-update-eq (λ c. str_eq c.key_id id) p f rows same in
    let o = count-update-le (λ c. str_eq c.key_id id && is_none c.revoked_at) p f rows fewer in
    record { kept = λ h. (n, o); single = λ h. omega (arith, n, h) }

same-Follows : (id : String) (rows : List Credential) → Follows id rows rows
same-Follows id rows = record { kept = λ h. (refl, omega arith); single = λ h. h }

lookup-Follows :
    (id : String) (now : ℕ) (key_hash : String) (via : Via) (s : Store)
    → Follows id s.credentials (lookup now key_hash via s).0.credentials
unfolding lookup
lookup-Follows id now key_hash via s =
    elim (Option-cases
      (find_row (λ c. str_eq c.key_hash key_hash && is_live now c) s.credentials)) [
        | inl missing ↦ rw (missing, lookup) (same-Follows id s.credentials)
        | inr (c, found) ↦
            rw (found, lookup)
              (elim (Bool-cases (is_stale now c.last_used_at)) [
                | inl stale ↦ rw stale (
                    update-Follows id (λ d. str_eq d.key_id c.key_id) (used now) s.credentials
                      (λ d. refl) (λ d h. h))
                | inr recent ↦ rw recent (same-Follows id s.credentials)
              ])
      ]

pub revoked-Follows :
    (id : String) (now : ℕ) (p : Credential → Bool) (rows : List Credential)
    → Follows id rows (update p (revoked now) rows)
revoked-Follows id now p rows =
    update-Follows id p (revoked now) rows (λ c. refl) (λ c h. absurd (ground (arith, h)))

pub revoke-credentials :
    (now : ℕ) (key_id : String) (wallet : Option String) (via : String) (s : Store)
    → (revoke now key_id wallet via s).0.credentials
      ≡ update (is_revocable key_id wallet) (revoked now) s.credentials
unfolding revoke
revoke-credentials now key_id wallet via s =
    elim (Bool-cases (count_if (is_revocable key_id wallet) s.credentials == 0)) [
      | inl idle ↦ rw idle refl
      | inr changed ↦ rw changed refl
    ]

revoke_all-credentials :
    (now : ℕ) (wallet : String) (s : Store)
    → (revoke_all now wallet s).0.credentials
      ≡ update (is_open_of wallet) (revoked now) s.credentials
unfolding revoke_all
revoke_all-credentials now wallet s =
    elim (Bool-cases (count_if (is_open_of wallet) s.credentials == 0)) [
      | inl idle ↦ rw idle refl
      | inr changed ↦ rw changed refl
    ]

pub Step-Follows :
    (limits : Limits) (now : ℕ) (id : String) {s s' : Store}
    → Step limits now s s'
    → Follows id s.credentials s'.credentials
Step-Follows limits now id (signed_in key_hash wallet label ip s s' p h) =
    let (free, rows) = open_session-ok limits now key_hash wallet label ip s s' p h in
    rw rows (insert-Follows id _ s.credentials free)
Step-Follows limits now id (minted key_hash by entitled label ttl_s s s' p h) =
    let (free, rows, room) = mint_key-ok limits now key_hash by entitled label ttl_s s s' p h in
    rw rows (insert-Follows id _ s.credentials free)
Step-Follows limits now id (looked_up key_hash via s) = lookup-Follows id now key_hash via s
Step-Follows limits now id (revoked_one key_id wallet via s) =
    rw (revoke-credentials now key_id wallet via s)
      (revoked-Follows id now (is_revocable key_id wallet) s.credentials)
Step-Follows limits now id (revoked_all wallet s) =
    rw (revoke_all-credentials now wallet s)
      (revoked-Follows id now (is_open_of wallet) s.credentials)
