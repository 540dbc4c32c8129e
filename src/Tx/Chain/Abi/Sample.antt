-- ===== src/Tx/Chain/Abi/Sample.antt =====
-- A small ABI library that knows the shapes of values that the runs need.
use robinhoodpools.Prelude.{
  zero, suc, ◌≡◌, refl, sym, ap, String, true, List, [], ◌∷◌, ◌++◌, Result, ok, err, length,
  if◌then◌else◌, str_eq, eq_iff, Bool-cases, inl, inr,
}
use robinhoodpools.Tx.Errors.{TxError, value_error}
use robinhoodpools.Tx.Chain.{Bytes, msg_sender}
use robinhoodpools.Tx.Chain.Path.{take, drop, take-append, drop-append}
use robinhoodpools.Tx.Chain.Abi.{
  Abi, AbiLaws, AbiValues, all_normal, v_address, v_uint, v_bytes, v_blobs, done, ◌▸◌,
}

unfoldable pub tiny_encode : List String → AbiValues → Result TxError Bytes
tiny_encode types (v_address a ▸ v_uint n ▸ done) =
    if str_eq a msg_sender then ok (0 ∷ n ∷ []) else err value_error
tiny_encode types (v_bytes cs ▸ v_blobs (x ∷ []) ▸ v_uint d ▸ done) =
    ok (1 ∷ d ∷ length cs ∷ (cs ++ x))
tiny_encode types (v_address a ▸ v_address r ▸ done) =
    if str_eq a msg_sender
    then if str_eq r msg_sender then ok (2 ∷ []) else err value_error
    else err value_error
tiny_encode types (v_bytes cs ▸ v_blobs (x ∷ []) ▸ done) = ok (3 ∷ length cs ∷ (cs ++ x))
tiny_encode types (v_bytes u ▸ v_uint d ▸ done) = ok (4 ∷ d ∷ u)
tiny_encode types _ = err value_error

unfoldable pub tiny_decode : List String → Bytes → Result TxError AbiValues
tiny_decode types (zero ∷ n ∷ []) = ok (v_address msg_sender ▸ v_uint n ▸ done)
tiny_decode types (suc zero ∷ d ∷ k ∷ rest) =
    ok (v_bytes (take k rest) ▸ v_blobs (drop k rest ∷ []) ▸ v_uint d ▸ done)
tiny_decode types (suc (suc zero) ∷ []) = ok (v_address msg_sender ▸ v_address msg_sender ▸ done)
tiny_decode types (suc (suc (suc zero)) ∷ k ∷ rest) =
    ok (v_bytes (take k rest) ▸ v_blobs (drop k rest ∷ []) ▸ done)
tiny_decode types (suc (suc (suc (suc n))) ∷ d ∷ u) = ok (v_bytes u ▸ v_uint d ▸ done)
tiny_decode types _ = err value_error

abbrev pub tiny : Abi
tiny = record {
  encode = tiny_encode;
  decode = tiny_decode;
  selector = λ s. 1 ∷ 2 ∷ 3 ∷ 4 ∷ [];
  is_normal = λ a. true;
}

blob_in : Result TxError Bytes → Bytes
blob_in (ok b) = b
blob_in (err e) = []

tiny_round_trip :
    (types : List String) (vs : AbiValues) (b : Bytes)
    → all_normal (λ a. true) vs ≡ true
    → tiny_encode types vs ≡ ok b
    → tiny_decode types b ≡ ok vs
unfolding tiny_encode tiny_decode blob_in
tiny_round_trip types (v_address a ▸ v_uint n ▸ done) b m h =
    elim (Bool-cases (str_eq a msg_sender)) [
      | inl e ↦
          let h' : ok (0 ∷ n ∷ []) ≡ ok b = rw (e) at h in
          let eb : b ≡ 0 ∷ n ∷ [] = sym (ap blob_in h') in
          let ea : a ≡ msg_sender = (eq_iff a msg_sender).0 e in rw (eb, ea) refl
      | inr e ↦ absurd (cc (rw (e) at h))
    ]
tiny_round_trip types (v_address a ▸ v_address r ▸ done) b m h =
    elim (Bool-cases (str_eq a msg_sender)) [
      | inr e ↦ absurd (cc (rw (e) at h))
      | inl e ↦ elim (Bool-cases (str_eq r msg_sender)) [
        | inr er ↦ absurd (cc (rw (e, er) at h))
        | inl er ↦
            let h' : ok (2 ∷ []) ≡ ok b = rw (e, er) at h in
            let eb : b ≡ 2 ∷ [] = sym (ap blob_in h') in
            let ea : a ≡ msg_sender = (eq_iff a msg_sender).0 e in
            let r_eq : r ≡ msg_sender = (eq_iff r msg_sender).0 er in rw (eb, ea, r_eq) refl
      ]
    ]
tiny_round_trip types (v_bytes cs ▸ v_blobs (x ∷ []) ▸ v_uint d ▸ done) b m h =
    let eb : b ≡ 1 ∷ d ∷ length cs ∷ (cs ++ x) = sym (ap blob_in h) in
    rw (eb, take-append (length cs) cs x refl, drop-append (length cs) cs x refl) refl
tiny_round_trip types (v_bytes cs ▸ v_blobs (x ∷ []) ▸ done) b m h =
    let eb : b ≡ 3 ∷ length cs ∷ (cs ++ x) = sym (ap blob_in h) in
    rw (eb, take-append (length cs) cs x refl, drop-append (length cs) cs x refl) refl
tiny_round_trip types (v_bytes u ▸ v_uint d ▸ done) b m h =
    let eb : b ≡ 4 ∷ d ∷ u = sym (ap blob_in h) in rw (eb) refl
tiny_round_trip types _ b m h = absurd (cc h)

pub tiny_laws : AbiLaws tiny
tiny_laws = record { round_trip = tiny_round_trip; selector_size = λ s. refl }
