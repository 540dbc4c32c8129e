-- ===== src/Tx/Chain/Commands/RoundTrip.antt =====
-- The round trip of the UniversalRouter calldata of tx_chain.py, over what the ABI library promises.
use robinhoodpools.Prelude.{
  ℕ, ◌≡◌, refl, sym, ap, Bool, true, List, [], ◌∷◌, ◌++◌, map, all, arith, Result, ok, err,
  Result-cases, inl, inr,
}
use robinhoodpools.Tx.Errors.{TxError}
use robinhoodpools.Tx.Chain.{
  Bytes, V4Param, v4_settle, v4_settle_all, v4_take, v4_swap_exact_in_single, UrCommand, wrap_eth,
  unwrap_weth, pay_portion, sweep, permit2_transfer_from, permit2_permit, v3_swap, v2_swap, v4_swap,
}
use robinhoodpools.Tx.Chain.Path.{take-append, drop-append}
use robinhoodpools.Tx.Chain.Abi.{
  Abi, AbiLaws, AbiValues, all_normal, v_uint, v_bytes, v_blobs, done, ◌▸◌, bytes_eq,
}
use robinhoodpools.Tx.Chain.Abi.Items.{encode_items, decode_items-encode_items}
use robinhoodpools.Tx.Chain.Commands.{
  v4_action, v4_code, v4_values, v4_encode, v4_decode, cmd_of, cmd_code, cmd_values, cmd_encode,
  cmd_decode, sel_execute, execute_types, ur_execute, decode_ur_execute,
}

pub bytes_eq_refl : (b : Bytes) → bytes_eq b b ≡ true
bytes_eq_refl [] = refl
bytes_eq_refl (b ∷ bs) = ground (arith, bytes_eq_refl bs)

unfoldable pub bytes_in : Result TxError Bytes → Bytes
bytes_in (ok b) = b
bytes_in (err e) = []

module _ (abi : Abi) where
  -- Every address of a command is in the lower case that the library reads back.
  abbrev pub v4_normal : V4Param → Bool
  v4_normal p = all_normal abi.is_normal (v4_values p)

  abbrev pub values_normal : Result TxError AbiValues → Bool
  values_normal (ok vs) = all_normal abi.is_normal vs
  values_normal (err e) = true

  abbrev pub cmd_normal : UrCommand → Bool
  cmd_normal (v4_swap ps) = all v4_normal ps
  cmd_normal (wrap_eth r a) = values_normal (cmd_values abi (wrap_eth r a))
  cmd_normal (unwrap_weth r a) = values_normal (cmd_values abi (unwrap_weth r a))
  cmd_normal (pay_portion t r b) = values_normal (cmd_values abi (pay_portion t r b))
  cmd_normal (sweep t r a) = values_normal (cmd_values abi (sweep t r a))
  cmd_normal (permit2_transfer_from t r a) =
      values_normal (cmd_values abi (permit2_transfer_from t r a))
  cmd_normal (permit2_permit p s) = values_normal (cmd_values abi (permit2_permit p s))
  cmd_normal (v3_swap r a m p u) = values_normal (cmd_values abi (v3_swap r a m p u))
  cmd_normal (v2_swap r a m p u) = values_normal (cmd_values abi (v2_swap r a m p u))

module _ (abi : Abi) (laws : AbiLaws abi) where
  v4_back :
      (p : V4Param) (b : Bytes)
      → v4_normal abi p ≡ true
      → v4_encode abi p ≡ ok b
      → v4_decode abi (v4_code (v4_action p)) b ≡ ok p
  v4_back (v4_settle c a p) b n h = rw (laws.round_trip _ _ b n h) refl
  v4_back (v4_settle_all c m) b n h = rw (laws.round_trip _ _ b n h) refl
  v4_back (v4_take c r a) b n h = rw (laws.round_trip _ _ b n h) refl
  v4_back (v4_swap_exact_in_single k z a m) b n h = rw (laws.round_trip _ _ b n h) refl

  cmd_back :
      (c : UrCommand) (b : Bytes)
      → cmd_normal abi c ≡ true
      → cmd_encode abi c ≡ ok b
      → cmd_decode abi (cmd_code (cmd_of c)) b ≡ ok c
  unfolding cmd_encode cmd_decode
  cmd_back (wrap_eth r a) b n h = rw (laws.round_trip _ _ b n h) refl
  cmd_back (unwrap_weth r a) b n h = rw (laws.round_trip _ _ b n h) refl
  cmd_back (pay_portion t r x) b n h = rw (laws.round_trip _ _ b n h) refl
  cmd_back (sweep t r a) b n h = rw (laws.round_trip _ _ b n h) refl
  cmd_back (permit2_transfer_from t r a) b n h = rw (laws.round_trip _ _ b n h) refl
  cmd_back (permit2_permit p s) b n h = rw (laws.round_trip _ _ b n h) refl
  cmd_back (v3_swap r a m p u) b n h = rw (laws.round_trip _ _ b n h) refl
  cmd_back (v2_swap r a m p u) b n h = rw (laws.round_trip _ _ b n h) refl
  cmd_back (v4_swap ps) b n h = elim (Result-cases (encode_items (v4_encode abi) ps)) [
    | inl (blobs, eb) ↦
        let h' = rw (eb) at h in
        let inner =
          decode_items-encode_items (v4_encode abi) (λ p. v4_code (v4_action p)) (v4_decode abi)
            (v4_normal abi) v4_back ps blobs n eb in
        rw (laws.round_trip _ _ b refl h', inner) refl
    | inr (e, eb) ↦ absurd (cc (rw (eb) at h))
  ]

  -- Calldata that `ur_execute` returns for commands whose addresses are in lower case is read back by
  -- `decode_ur_execute` as the same commands, in order, with the same deadline.
  pub decode_ur_execute-ur_execute :
      (commands : List UrCommand) (deadline : ℕ) (b : Bytes)
      → all (cmd_normal abi) commands ≡ true
      → ur_execute abi commands deadline ≡ ok b
      → decode_ur_execute abi b ≡ ok (commands, deadline)
  unfolding ur_execute decode_ur_execute bytes_in
  decode_ur_execute-ur_execute commands deadline b n h =
      elim (Result-cases (encode_items (cmd_encode abi) commands)) [
        | inr (e, eb) ↦ absurd (cc (rw (eb) at h))
        | inl (blobs, eb) ↦
            let vs =
              v_bytes (map (λ c. cmd_code (cmd_of c)) commands)
              ▸ v_blobs blobs
              ▸ v_uint deadline
              ▸ done in
            elim (Result-cases (abi.encode (execute_types abi) vs)) [
              | inr (e, ea) ↦ absurd (cc (rw (eb, ea) at h))
              | inl (args, ea) ↦
                  let h' : ok (sel_execute abi ++ args) ≡ ok b = rw (eb, ea) at h in
                  let eq : b ≡ sel_execute abi ++ args = sym (ap bytes_in h') in
                  let size = laws.selector_size "execute(bytes,bytes[],uint256)" in
                  let inner =
                    decode_items-encode_items (cmd_encode abi) (λ c. cmd_code (cmd_of c))
                      (cmd_decode abi) (cmd_normal abi) cmd_back commands blobs n eb in
                  rw
                    (
                      eq,
                      take-append 4 (sel_execute abi) args size,
                      drop-append 4 (sel_execute abi) args size,
                      bytes_eq_refl (sel_execute abi),
                      laws.round_trip (execute_types abi) vs args refl ea,
                      inner,
                    )
                    refl
            ]
      ]
