-- ===== src/Gate/Keys/Tests.antt =====
-- The credentials at concrete calls: a wallet signs in, mints a key and revokes it.
use robinhoodpools.Prelude.{◌≤◌, ◌≡◌, ◌≢◌, refl, true, none, [], ◌∷◌, arith}
use robinhoodpools.Prelude.Int.{pos}
use robinhoodpools.Gate.Limits.{default_limits}
use robinhoodpools.Gate.Keys.{
  Principal, Store, session, key, cookie, bearer, row_of, principal_of, logged, session_sign_in,
  key_mint, open_session, mint_key, mint, insert, lookup, revoke, update, find_row,
}
use robinhoodpools.Gate.Keys.Reach.{signed_in, minted, looked_up, Reach, here, next, empty}
use robinhoodpools.Gate.Keys.Limit.{live_keys, live_keys-le-keys_per_wallet}
use robinhoodpools.Gate.Keys.Revoked.{revoked_secret_stays_gone}

abbrev visitor : Principal
visitor = principal_of cookie (row_of 100 "h1" "0xw" session "" 604800)

abbrev holder : Principal
holder = principal_of bearer (row_of 200 "h2" "0xw" key "bot" 3600)

abbrev signed : Store
signed = record {
  credentials = row_of 100 "h1" "0xw" session "" 604800 ∷ [];
  audit = logged 100 "0xw" "web" (session_sign_in "h1" "" "127.0.0.1") empty;
}

abbrev keyed : Store
keyed = record {
  credentials = row_of 200 "h2" "0xw" key "bot" 3600 ∷ signed.credentials;
  audit = logged 200 "0xw" "web" (key_mint "h2" "bot" "h1") signed;
}

two_calls : Reach default_limits 0 empty 200 keyed
unfolding open_session mint_key mint insert
two_calls =
    next 200 keyed
      (next 100 signed here (omega arith)
        (signed_in "h1" "0xw" "" "127.0.0.1" empty signed visitor refl))
      (omega arith) (minted "h2" visitor true "bot" (pos 3600) signed keyed holder refl)

live_keys-le-keys_per_wallet_example : live_keys 200 "0xw" keyed ≤ 8
live_keys-le-keys_per_wallet_example = live_keys-le-keys_per_wallet default_limits 0 "0xw" two_calls

one_live_key : live_keys 200 "0xw" keyed ≡ 1
one_live_key = refl

abbrev ended : Store
ended = (revoke 300 "h2" none "cli" keyed).0

revoked_secret_stays_gone_example : visitor.key_id ≢ "h2"
unfolding revoke update lookup find_row
revoked_secret_stays_gone_example =
    revoked_secret_stays_gone default_limits 0 300 "h2" none "cli" keyed 300 ended "h1" cookie
      visitor (next 300 keyed two_calls (omega arith) (looked_up "none" bearer keyed)) refl here
      refl
