-- ===== src/Gate/SignIn/Tests.antt =====
-- A sign-in with a nonce that was issued for it.
use robinhoodpools.Prelude.{◌≤◌, refl, none, [], ◌∷◌}
use robinhoodpools.Dict.{get, put, remove}
use robinhoodpools.Gate.SignIn.{Message, SignIns, purge, issue_nonce, take_nonce}
use robinhoodpools.Gate.SignIn.Laws.{Reach, start, issued, took, times, nonce_single_use}

abbrev message : Message
message = record {
  domain = "lp.example";
  uri_host = "lp.example";
  chain_id = 4663;
  expiration_time = none;
  not_before = none;
  issued_at = 1_000_000;
  nonce = "n1";
  address = "0xw";
}

abbrev waiting : SignIns
waiting = record { nonces = ("n1", 601_000_000) ∷ []; signins = [] }

abbrev taken : SignIns
taken = (take_nonce message waiting).0

one_sign_in : Reach taken ("n1" ∷ []) ("n1" ∷ [])
unfolding issue_nonce purge put take_nonce get remove
one_sign_in = took message "0xw" (issued 1_000_000 600 "n1" start refl) refl

nonce_single_use_example : times "n1" ("n1" ∷ []) ≤ times "n1" ("n1" ∷ [])
nonce_single_use_example = nonce_single_use "n1" taken ("n1" ∷ []) ("n1" ∷ []) one_sign_in
