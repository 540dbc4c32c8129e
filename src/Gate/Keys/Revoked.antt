-- ===== src/Gate/Keys/Revoked.antt =====
-- What later calls find of a revoked key.
use robinhoodpools.Prelude.{
  ℕ, ◌+◌, ◌≤◌, ◌≡◌, ◌≢◌, refl, ap, ◌∙◌, String, true, ◌&&◌, Option, none, some, List, [], ◌∷◌,
  arith, count_if, str_eq, eq_iff, Bool-cases, Option-cases, inl, inr,
}
use robinhoodpools.Gate.Limits.{Limits}
use robinhoodpools.Gate.Keys.{
  Credential, Principal, Store, Via, lookup, lookup_id, revoke, update, find_row, is_live, revoked,
  is_revocable,
}
use robinhoodpools.Gate.Keys.Reach.{Reach, here, next, empty}
use robinhoodpools.Gate.Keys.Named.{
  named, unrevoked, revoked-Follows, revoke-credentials, Step-Follows,
}

Reach-single :
    (limits : Limits) (since : ℕ) (id : String) {now : ℕ} {s : Store}
    → Reach limits since empty now s
    → named id s.credentials ≤ 1
Reach-single limits since id here = omega arith
Reach-single limits since id (next {t} {s} now s' r le step) =
    (Step-Follows limits now id step).single (Reach-single limits since id r)

-- The id is taken, and no row with it is open.
abbrev IsBarred : String → List Credential → Type 0
IsBarred id rows = (1 ≤ named id rows) × (unrevoked id rows ≡ 0)

Reach-IsBarred :
    (limits : Limits) (since : ℕ) (id : String) (first : Store) {now : ℕ} {s : Store}
    → IsBarred id first.credentials
    → Reach limits since first now s
    → IsBarred id s.credentials
Reach-IsBarred limits since id first b here = b
Reach-IsBarred limits since id first b (next {t} {s} now s' r le step) =
    let ih = Reach-IsBarred limits since id first b r in
    let k = (Step-Follows limits now id step).kept ih.0 in
    (omega (arith, ih.0, k.0), omega (arith, ih.1, k.1))

unrevoked-revoked :
    (id : String) (wallet : Option String) (now : ℕ) (rows : List Credential)
    → unrevoked id (update (is_revocable id wallet) (revoked now) rows)
        + count_if (is_revocable id wallet) rows
      ≡ unrevoked id rows
unfolding update
unrevoked-revoked id wallet now [] = omega arith
unrevoked-revoked id none now (c ∷ rows) = ground (arith, unrevoked-revoked id none now rows)
unrevoked-revoked id (some w) now (c ∷ rows) =
    ground (arith, unrevoked-revoked id (some w) now rows)

unrevoked-le-named : (id : String) (rows : List Credential) → unrevoked id rows ≤ named id rows
unrevoked-le-named id [] = omega arith
unrevoked-le-named id (c ∷ rows) = ground (arith, unrevoked-le-named id rows)

revoke-changed :
    (now : ℕ) (id : String) (wallet : Option String) (via : String) (s : Store)
    → (revoke now id wallet via s).1 ≡ true
    → 1 ≤ count_if (is_revocable id wallet) s.credentials
unfolding revoke
revoke-changed now id wallet via s h = ground (arith, h)

revoke-IsBarred :
    (now : ℕ) (id : String) (wallet : Option String) (via : String) (s : Store)
    → named id s.credentials ≤ 1
    → (revoke now id wallet via s).1 ≡ true
    → IsBarred id (revoke now id wallet via s).0.credentials
revoke-IsBarred now id wallet via s single h =
    let changed = revoke-changed now id wallet via s h in
    let counted = unrevoked-revoked id wallet now s.credentials in
    let le = unrevoked-le-named id s.credentials in
    let f =
      (revoked-Follows id now (is_revocable id wallet) s.credentials).kept
        (omega (arith, changed, counted, le)) in
    rw (revoke-credentials now id wallet via s)
      (omega (arith, changed, counted, le, f.0), omega (arith, changed, counted, le, single))

find_by_id-none :
    (id : String) (now : ℕ) (rows : List Credential)
    → unrevoked id rows ≡ 0
    → find_row (λ c. str_eq c.key_id id && is_live now c) rows ≡ none
unfolding find_row
find_by_id-none id now [] h = refl
find_by_id-none id now (c ∷ rows) h = ground (arith, find_by_id-none id now rows, h)

abbrev id_of : Option Credential → String
id_of none = ""
id_of (some c) = c.key_id

find_by_hash-other :
    (id key_hash : String) (now : ℕ) (rows : List Credential) (c : Credential)
    → unrevoked id rows ≡ 0
    → find_row (λ d. str_eq d.key_hash key_hash && is_live now d) rows ≡ some c
    → c.key_id ≢ id
unfolding find_row
find_by_hash-other id key_hash now [] c h found e = cc
find_by_hash-other id key_hash now (d ∷ rows) c h found e =
    elim (Bool-cases (str_eq d.key_hash key_hash && is_live now d)) [
      | inl hit ↦
          let same = (eq_iff d.key_id id).1 (ap id_of (rw hit at found) ∙ e) in
          ground (arith, h, hit, same)
      | inr missed ↦
          find_by_hash-other id key_hash now rows c (ground (arith, h)) (rw missed at found) e
    ]

barred_later :
    (limits : Limits) (since at : ℕ) (id : String) (wallet : Option String) (via : String)
    (s : Store) {now : ℕ} {later : Store}
    → Reach limits since empty at s
    → (revoke at id wallet via s).1 ≡ true
    → Reach limits at (revoke at id wallet via s).0 now later
    → unrevoked id later.credentials ≡ 0
barred_later limits since at id wallet via s r changed after =
    let single = Reach-single limits since id r in
    (Reach-IsBarred limits at id (revoke at id wallet via s).0
      (revoke-IsBarred at id wallet via s single changed) after).1

-- On a table that the gate filled from empty, once `revoke` has reported a change for a key id, the
-- check of a running stream finds that id gone, at whatever later time and after whatever later
-- calls.
pub revoked_id_stays_gone :
    (limits : Limits) (since at : ℕ) (id : String) (wallet : Option String) (via : String)
    (s : Store) (now : ℕ) (later : Store)
    → Reach limits since empty at s
    → (revoke at id wallet via s).1 ≡ true
    → Reach limits at (revoke at id wallet via s).0 now later
    → lookup_id now id later ≡ none
unfolding lookup_id
revoked_id_stays_gone limits since at id wallet via s now later r changed after =
    rw
      (
        find_by_id-none id now later.credentials
            (barred_later limits since at id wallet via s r changed after),
        lookup_id,
      )
      refl

abbrev principal_id : Option Principal → String
principal_id none = ""
principal_id (some p) = p.key_id

-- On a table that the gate filled from empty, once `revoke` has reported a change for a key id, no
-- secret resolves to a principal with that key id, at whatever later time and after whatever later
-- calls.
pub revoked_secret_stays_gone :
    (limits : Limits) (since at : ℕ) (id : String) (wallet : Option String) (via : String)
    (s : Store) (now : ℕ) (later : Store) (key_hash : String) (v : Via) (p : Principal)
    → Reach limits since empty at s
    → (revoke at id wallet via s).1 ≡ true
    → Reach limits at (revoke at id wallet via s).0 now later
    → (lookup now key_hash v later).1 ≡ some p
    → p.key_id ≢ id
unfolding lookup
revoked_secret_stays_gone limits since at id wallet via s now later key_hash v p r changed after h
      e =
    let closed = barred_later limits since at id wallet via s r changed after in
    elim (Option-cases
      (find_row (λ c. str_eq c.key_hash key_hash && is_live now c) later.credentials)) [
        | inl missing ↦ absurd (cc (rw (missing, lookup) at h))
        | inr (c, found) ↦
            find_by_hash-other id key_hash now later.credentials c closed found
              (ap principal_id (rw (found, lookup) at h) ∙ e)
      ]
