-- ===== src/Gate/Keys/Limit.antt =====
-- The number of live keys of a wallet, over any calls.
use robinhoodpools.Prelude.{
  ℕ, ◌≤◌, ◌<◌, ◌≡◌, String, true, ◌&&◌, Option, ◌∷◌, arith, count_if, str_eq, eq_iff, Bool-cases,
  Option-cases, ◌==◌, inl, inr, max, min,
}
use robinhoodpools.Prelude.Int.{pos_part}
use robinhoodpools.Gate.Limits.{Limits}
use robinhoodpools.Gate.Keys.{
  Credential, Store, Via, lookup, revoke, revoke_all, find_row, key, row_of, is_live_key, is_stale,
  is_live, revoked, used, is_revocable, is_open_of,
}
use robinhoodpools.Gate.Keys.Reach.{
  Step, signed_in, minted, looked_up, revoked_one, revoked_all, Reach, here, next, empty,
  count-update-le, count_mono, open_session-ok, mint_key-ok,
}

abbrev pub live_keys : ℕ → String → Store → ℕ
live_keys now wallet s = count_if (is_live_key now wallet) s.credentials

live_later :
    (t now : ℕ) (wallet : String) (c : Credential)
    → t ≤ now
    → is_live_key now wallet c ≡ true
    → is_live_key t wallet c ≡ true
live_later t now wallet c le h = ground arith

live_keys-later :
    (t now : ℕ) (wallet : String) (s : Store)
    → t ≤ now
    → live_keys now wallet s ≤ live_keys t wallet s
live_keys-later t now wallet s le =
    count_mono (is_live_key now wallet) (is_live_key t wallet) s.credentials
      (λ c. live_later t now wallet c le)

revoked-live :
    (now : ℕ) (wallet : String) (c : Credential)
    → is_live_key now wallet (revoked now c) ≡ true
    → is_live_key now wallet c ≡ true
revoked-live now wallet c h = ground arith

live_keys-lookup :
    (now : ℕ) (wallet key_hash : String) (via : Via) (s : Store)
    → live_keys now wallet (lookup now key_hash via s).0 ≤ live_keys now wallet s
unfolding lookup
live_keys-lookup now wallet key_hash via s =
    elim (Option-cases
      (find_row (λ c. str_eq c.key_hash key_hash && is_live now c) s.credentials)) [
        | inl missing ↦ rw (missing, lookup) (omega arith)
        | inr (c, found) ↦
            rw (found, lookup)
              (elim (Bool-cases (is_stale now c.last_used_at)) [
                | inl stale ↦ rw stale (
                    count-update-le (is_live_key now wallet) (λ d. str_eq d.key_id c.key_id)
                      (used now) s.credentials (λ d h. h))
                | inr recent ↦ rw recent (omega arith)
              ])
      ]

live_keys-revoke :
    (now : ℕ) (w key_id : String) (wallet : Option String) (via : String) (s : Store)
    → live_keys now w (revoke now key_id wallet via s).0 ≤ live_keys now w s
unfolding revoke
live_keys-revoke now w key_id wallet via s =
    let le =
      count-update-le (is_live_key now w) (is_revocable key_id wallet) (revoked now) s.credentials
        (revoked-live now w) in
    elim (Bool-cases (count_if (is_revocable key_id wallet) s.credentials == 0)) [
      | inl idle ↦ rw idle le
      | inr some_row ↦ rw some_row le
    ]

live_keys-revoke_all :
    (now : ℕ) (w wallet : String) (s : Store)
    → live_keys now w (revoke_all now wallet s).0 ≤ live_keys now w s
unfolding revoke_all
live_keys-revoke_all now w wallet s =
    let le =
      count-update-le (is_live_key now w) (is_open_of wallet) (revoked now) s.credentials
        (revoked-live now w) in
    elim (Bool-cases (count_if (is_open_of wallet) s.credentials == 0)) [
      | inl idle ↦ rw idle le
      | inr some_row ↦ rw some_row le
    ]

-- A new key counts for its own wallet only.
live_keys-key :
    (limits : Limits) (now : ℕ) (w key_hash wallet label : String) (ttl : ℕ) (s : Store)
    → live_keys now wallet s < limits.keys_per_wallet
    → live_keys now w s ≤ limits.keys_per_wallet
    → count_if (is_live_key now w) (row_of now key_hash wallet key label ttl ∷ s.credentials)
      ≤ limits.keys_per_wallet
live_keys-key limits now w key_hash wallet label ttl s room le =
    elim (Bool-cases (str_eq wallet w)) [
      | inl same ↦ let e = (eq_iff wallet w).0 same in ground (arith, same, (rw e at room))
      | inr other ↦ rw other (omega (arith, le))
    ]

Step-live_keys :
    (limits : Limits) (now : ℕ) (w : String) {s s' : Store}
    → Step limits now s s'
    → live_keys now w s ≤ limits.keys_per_wallet
    → live_keys now w s' ≤ limits.keys_per_wallet
Step-live_keys limits now w (signed_in key_hash wallet label ip s s' p h) le =
    let (free, rows) = open_session-ok limits now key_hash wallet label ip s s' p h in
    rw rows (ground (arith, le))
Step-live_keys limits now w (minted key_hash by entitled label ttl_s s s' p h) le =
    let (free, rows, room) = mint_key-ok limits now key_hash by entitled label ttl_s s s' p h in
    rw rows (
      live_keys-key limits now w key_hash by.wallet label
        (max 60 (min (pos_part ttl_s) limits.key_ttl_max_s)) s room le)
Step-live_keys limits now w (looked_up key_hash via s) le =
    omega (arith, live_keys-lookup now w key_hash via s, le)
Step-live_keys limits now w (revoked_one key_id wallet via s) le =
    omega (arith, live_keys-revoke now w key_id wallet via s, le)
Step-live_keys limits now w (revoked_all wallet s) le =
    omega (arith, live_keys-revoke_all now w wallet s, le)

-- From an empty table, over any calls by any callers with a clock that does not go back, no wallet
-- has more live keys than the limit at the time of the last call.
pub live_keys-le-keys_per_wallet :
    (limits : Limits) (since : ℕ) (wallet : String) {now : ℕ} {s : Store}
    → Reach limits since empty now s
    → live_keys now wallet s ≤ limits.keys_per_wallet
live_keys-le-keys_per_wallet limits since wallet here = omega arith
live_keys-le-keys_per_wallet limits since wallet (next {t} {s} now s' r le step) =
    Step-live_keys limits now wallet step (
      omega (
        arith,
        live_keys-later t now wallet s le,
        live_keys-le-keys_per_wallet limits since wallet r,
      ))
