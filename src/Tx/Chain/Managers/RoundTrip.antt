-- ===== src/Tx/Chain/Managers/RoundTrip.antt =====
-- The round trips of the position managers' calldata of tx_chain.py, over what the ABI library
-- promises.
use robinhoodpools.Prelude.{
  ℕ, ◌≡◌, refl, sym, ap, Bool, true, false, List, [], ◌∷◌, ◌++◌, map, all, some, ok, Result-cases,
  inl, inr, Bool-cases, length,
}
use robinhoodpools.Tx.Chain.{
  Bytes, PosmParam, posm_mint, posm_increase, posm_decrease, posm_settle_pair, posm_take_pair,
  posm_sweep, NfpmCall, nfpm_mint, nfpm_increase, nfpm_decrease, nfpm_collect,
}
use robinhoodpools.Tx.Chain.Path.{take-append, drop-append}
use robinhoodpools.Tx.Chain.Abi.{
  Abi, AbiLaws, all_normal, v_uint, v_bytes, v_blobs, done, ◌▸◌, bytes_eq,
}
use robinhoodpools.Tx.Chain.Abi.Items.{encode_items, decode_items-encode_items}
use robinhoodpools.Tx.Chain.Commands.RoundTrip.{bytes_eq_refl, bytes_in}
use robinhoodpools.Tx.Chain.Managers.{
  posm_action, posm_code, posm_values, posm_encode, posm_decode, sel_modify_liquidities, two_lists,
  unlock_types, posm_modify_liquidities, decode_posm_modify_liquidities, NfpmKind, mint_, increase_,
  decrease_, collect_, nfpm_kind_of, nfpm_type, nfpm_values, nfpm_of, nfpm_selector, nfpm_encode,
  nfpm_kind, decode_nfpm_call,
}

module _ (abi : Abi) where
  -- Every address of the call is in the lower case that the library reads back.
  abbrev pub posm_normal : PosmParam → Bool
  posm_normal p = all_normal abi.is_normal (posm_values p)

module _ (abi : Abi) (laws : AbiLaws abi) where
  posm_back :
      (p : PosmParam) (b : Bytes)
      → posm_normal abi p ≡ true
      → posm_encode abi p ≡ ok b
      → posm_decode abi (posm_code (posm_action p)) b ≡ ok p
  posm_back (posm_mint k l u q x y o) b n h = rw (laws.round_trip _ _ b n h) refl
  posm_back (posm_increase t q x y) b n h = rw (laws.round_trip _ _ b n h) refl
  posm_back (posm_decrease t q x y) b n h = rw (laws.round_trip _ _ b n h) refl
  posm_back (posm_settle_pair x y) b n h = rw (laws.round_trip _ _ b n h) refl
  posm_back (posm_take_pair x y r) b n h = rw (laws.round_trip _ _ b n h) refl
  posm_back (posm_sweep c r) b n h = rw (laws.round_trip _ _ b n h) refl

  -- Calldata that `posm_modify_liquidities` returns for actions whose addresses are in lower case is
  -- read back as the same actions, in order, with the same deadline.
  pub decode_posm_modify_liquidities-posm_modify_liquidities :
      (params : List PosmParam) (deadline : ℕ) (b : Bytes)
      → all (posm_normal abi) params ≡ true
      → posm_modify_liquidities abi params deadline ≡ ok b
      → decode_posm_modify_liquidities abi b ≡ ok (params, deadline)
  unfolding posm_modify_liquidities decode_posm_modify_liquidities bytes_in
  decode_posm_modify_liquidities-posm_modify_liquidities params deadline b n h =
      elim (Result-cases (encode_items (posm_encode abi) params)) [
        | inr (e, eb) ↦ absurd (cc (rw (eb) at h))
        | inl (blobs, eb) ↦
            let vs = v_bytes (map (λ p. posm_code (posm_action p)) params) ▸ v_blobs blobs ▸ done in
            elim (Result-cases (abi.encode (two_lists abi) vs)) [
              | inr (e, eu) ↦ absurd (cc (rw (eb, eu) at h))
              | inl (unlock, eu) ↦
                  let us = v_bytes unlock ▸ v_uint deadline ▸ done in
                  elim (Result-cases (abi.encode (unlock_types abi) us)) [
                    | inr (e, ea) ↦ absurd (cc (rw (eb, eu, ea) at h))
                    | inl (args, ea) ↦
                        let sel = sel_modify_liquidities abi in
                        let h' : ok (sel ++ args) ≡ ok b = rw (eb, eu, ea) at h in
                        let eq : b ≡ sel ++ args = sym (ap bytes_in h') in
                        let size = laws.selector_size "modifyLiquidities(bytes,uint256)" in
                        let inner =
                          decode_items-encode_items (posm_encode abi)
                            (λ p. posm_code (posm_action p)) (posm_decode abi) (posm_normal abi)
                            posm_back params blobs n eb in
                        rw
                          (
                            eq,
                            take-append 4 sel args size,
                            drop-append 4 sel args size,
                            bytes_eq_refl sel,
                            laws.round_trip (unlock_types abi) us args refl ea,
                            laws.round_trip (two_lists abi) vs unlock refl eu,
                            inner,
                          )
                          refl
                  ]
            ]
      ]

  nfpm_of-values : (c : NfpmCall) → nfpm_of (nfpm_kind_of c) (nfpm_values c) ≡ some c
  nfpm_of-values (nfpm_mint t0 t1 f l u a b x d r e) = refl
  nfpm_of-values (nfpm_increase t a b x d e) = refl
  nfpm_of-values (nfpm_decrease t q a b e) = refl
  nfpm_of-values (nfpm_collect t r a b) = refl

  -- The four selectors are told apart.
  abbrev pub SelectorsDiffer : Type 0
  SelectorsDiffer =
      (k j : NfpmKind) → bytes_eq (nfpm_selector abi k) (nfpm_selector abi j) ≡ true → k ≡ j

  nfpm_kind-selector :
      (k : NfpmKind) → SelectorsDiffer → nfpm_kind abi (nfpm_selector abi k) ≡ some k
  nfpm_kind-selector k differ =
      elim (Bool-cases (bytes_eq (nfpm_selector abi k) (nfpm_selector abi mint_))) [
        | inl e ↦ rw (differ k mint_ e, bytes_eq_refl (nfpm_selector abi mint_)) refl
        | inr e0 ↦
            elim (Bool-cases (bytes_eq (nfpm_selector abi k) (nfpm_selector abi increase_))) [
              | inl e ↦ rw (e0, e) (ap some (sym (differ k increase_ e)))
              | inr e1 ↦
                  elim (Bool-cases (bytes_eq (nfpm_selector abi k) (nfpm_selector abi decrease_))) [
                    | inl e ↦ rw (e0, e1, e) (ap some (sym (differ k decrease_ e)))
                    | inr e2 ↦
                        elim (Bool-cases
                          (bytes_eq (nfpm_selector abi k) (nfpm_selector abi collect_))) [
                            | inl e ↦ rw (e0, e1, e2, e) (ap some (sym (differ k collect_ e)))
                            | inr e3 ↦ absurd (none_left k e0 e1 e2 e3)
                          ]
                  ]
            ]
      ]
    where
      none_left :
          (k : NfpmKind)
          → bytes_eq (nfpm_selector abi k) (nfpm_selector abi mint_) ≡ false
          → bytes_eq (nfpm_selector abi k) (nfpm_selector abi increase_) ≡ false
          → bytes_eq (nfpm_selector abi k) (nfpm_selector abi decrease_) ≡ false
          → bytes_eq (nfpm_selector abi k) (nfpm_selector abi collect_) ≡ false
          → ⊥
      none_left mint_ a b x d = cc (a, bytes_eq_refl (nfpm_selector abi mint_))
      none_left increase_ a b x d = cc (b, bytes_eq_refl (nfpm_selector abi increase_))
      none_left decrease_ a b x d = cc (x, bytes_eq_refl (nfpm_selector abi decrease_))
      none_left collect_ a b x d = cc (d, bytes_eq_refl (nfpm_selector abi collect_))

  -- Where the selectors differ, calldata that the `encode` of a V3 manager's call returns, its
  -- addresses in lower case, is read back by `decode_nfpm_call` as the same call.
  pub decode_nfpm_call-nfpm_encode :
      SelectorsDiffer
      → (c : NfpmCall) (b : Bytes) → all_normal abi.is_normal (nfpm_values c) ≡ true
      → nfpm_encode abi c ≡ ok b
      → decode_nfpm_call abi b ≡ ok c
  unfolding nfpm_encode decode_nfpm_call bytes_in
  decode_nfpm_call-nfpm_encode differ c b n h =
      let types = nfpm_type (nfpm_kind_of c) ∷ [] in
      elim (Result-cases (abi.encode types (nfpm_values c))) [
        | inr (e, ea) ↦ absurd (cc (rw (ea) at h))
        | inl (args, ea) ↦
            let sel = nfpm_selector abi (nfpm_kind_of c) in
            let h' : ok (sel ++ args) ≡ ok b = rw (ea) at h in
            let eq : b ≡ sel ++ args = sym (ap bytes_in h') in
            let size : length sel ≡ 4 = laws.selector_size _ in
            rw
              (
                eq,
                take-append 4 sel args size,
                nfpm_kind-selector (nfpm_kind_of c) differ,
                drop-append 4 sel args size,
                laws.round_trip types (nfpm_values c) args n ea,
                nfpm_of-values c,
              )
              refl
      ]
