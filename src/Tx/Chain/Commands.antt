-- ===== src/Tx/Chain/Commands.antt =====
-- tx_chain.py: the UniversalRouter commands, with their codes, their ABI types and the values that
-- `encode` writes and `decode` reads; `ur_execute` and `decode_ur_execute`.
pub mod RoundTrip
mod Tests
use robinhoodpools.Prelude.{
  ℕ, ◌≡◌, refl, String, Bool, true, false, not, ◌&&◌, ◌||◌, Option, none, some, List, [], ◌∷◌, ◌++◌,
  map, all, ◌==◌, if◌then◌else◌, Result, ok, err, ◌>>=◌, ◌>>◌, raise_if, or_raise,
}
use robinhoodpools.Tx.Errors.{TxError, value_error, key_error}
use robinhoodpools.Tx.Chain.{
  Bytes, PoolKey, PermitDetails, PermitSingle, V4Param, v4_settle, v4_settle_all, v4_take,
  v4_swap_exact_in_single, UrCommand, wrap_eth, unwrap_weth, pay_portion, sweep,
  permit2_transfer_from, permit2_permit, v3_swap, v2_swap, v4_swap,
}
use robinhoodpools.Tx.Chain.Path.{take, drop}
use robinhoodpools.Tx.Chain.Abi.{
  Abi, AbiValue, AbiValues, v_address, v_uint, v_int, v_bool, v_bytes, v_addresses, v_blobs,
  v_array, v_tuple, done, ◌▸◌, v4_single_type, permit_single_type, key_tuple, single_tuple,
  bytes_eq,
}
use robinhoodpools.Tx.Chain.Abi.Items.{encode_items, decode_items}

pub data V4Action : Type 0 where
  swap_exact_in_single settle settle_all take_ : V4Action

pub data Cmd : Type 0 where
  v3_swap_exact_in permit2_transfer_from_ sweep_ pay_portion_ v2_swap_exact_in : Cmd
  permit2_permit_ wrap_eth_ unwrap_weth_ v4_swap_ : Cmd

abbrev pub v4_code : V4Action → ℕ
v4_code swap_exact_in_single = 6
v4_code settle = 11
v4_code settle_all = 12
v4_code take_ = 14

-- `_V4_PARAMS[a]`
abbrev pub v4_kind : ℕ → Option V4Action
v4_kind n =
    if n == 11
    then some settle
    else if n == 12
    then some settle_all
    else if n == 14
    then some take_
    else if n == 6
    then some swap_exact_in_single
    else none

abbrev pub v4_action : V4Param → V4Action
v4_action (v4_settle c a p) = settle
v4_action (v4_settle_all c m) = settle_all
v4_action (v4_take c r a) = take_
v4_action (v4_swap_exact_in_single k z a m) = swap_exact_in_single

abbrev pub v4_types : V4Action → List String
v4_types settle = "address" ∷ "uint256" ∷ "bool" ∷ []
v4_types settle_all = "address" ∷ "uint256" ∷ []
v4_types take_ = "address" ∷ "address" ∷ "uint256" ∷ []
v4_types swap_exact_in_single = v4_single_type ∷ []

abbrev pub v4_values : V4Param → AbiValues
v4_values (v4_settle c a p) = v_address c ▸ v_uint a ▸ v_bool p ▸ done
v4_values (v4_settle_all c m) = v_address c ▸ v_uint m ▸ done
v4_values (v4_take c r a) = v_address c ▸ v_address r ▸ v_uint a ▸ done
v4_values (v4_swap_exact_in_single k z a m) =
    v_tuple (key_tuple k ▸ v_bool z ▸ v_uint a ▸ v_uint m ▸ v_uint 0 ▸ v_bytes [] ▸ done) ▸ done

-- The `decode` of each subclass, after the library's; other values do not fit the class.
abbrev pub v4_of : V4Action → AbiValues → Option V4Param
v4_of settle (v_address c ▸ v_uint a ▸ v_bool p ▸ done) = some (v4_settle c a p)
v4_of settle_all (v_address c ▸ v_uint m ▸ done) = some (v4_settle_all c m)
v4_of take_ (v_address c ▸ v_address r ▸ v_uint a ▸ done) = some (v4_take c r a)
v4_of swap_exact_in_single
      (v_tuple (
          v_tuple (v_address c0 ▸ v_address c1 ▸ v_uint f ▸ v_int t ▸ v_address h ▸ done)
          ▸ v_bool z
          ▸ v_uint a
          ▸ v_uint m
          ▸ v_uint x
          ▸ v_bytes y
          ▸ done)
        ▸ done) =
    some (
      v4_swap_exact_in_single
        (record { currency0 = c0; currency1 = c1; fee = f; tick_spacing = t; hooks = h }) z a m)
v4_of _ _ = none

abbrev pub cmd_code : Cmd → ℕ
cmd_code v3_swap_exact_in = 0
cmd_code permit2_transfer_from_ = 2
cmd_code sweep_ = 4
cmd_code pay_portion_ = 6
cmd_code v2_swap_exact_in = 8
cmd_code permit2_permit_ = 10
cmd_code wrap_eth_ = 11
cmd_code unwrap_weth_ = 12
cmd_code v4_swap_ = 16

-- `_UR_COMMANDS[c]`
abbrev pub cmd_kind : ℕ → Option Cmd
cmd_kind n =
    if n == 0
    then some v3_swap_exact_in
    else if n == 2
    then some permit2_transfer_from_
    else if n == 4
    then some sweep_
    else if n == 6
    then some pay_portion_
    else if n == 8
    then some v2_swap_exact_in
    else if n == 10
    then some permit2_permit_
    else if n == 11
    then some wrap_eth_
    else if n == 12
    then some unwrap_weth_
    else if n == 16
    then some v4_swap_
    else none

abbrev pub cmd_of : UrCommand → Cmd
cmd_of (wrap_eth r a) = wrap_eth_
cmd_of (unwrap_weth r a) = unwrap_weth_
cmd_of (pay_portion t r b) = pay_portion_
cmd_of (sweep t r a) = sweep_
cmd_of (permit2_transfer_from t r a) = permit2_transfer_from_
cmd_of (permit2_permit p s) = permit2_permit_
cmd_of (v3_swap r a m p u) = v3_swap_exact_in
cmd_of (v2_swap r a m p u) = v2_swap_exact_in
cmd_of (v4_swap ps) = v4_swap_

abbrev pub cmd_types : Cmd → List String
cmd_types wrap_eth_ = "address" ∷ "uint256" ∷ []
cmd_types unwrap_weth_ = "address" ∷ "uint256" ∷ []
cmd_types pay_portion_ = "address" ∷ "address" ∷ "uint256" ∷ []
cmd_types sweep_ = "address" ∷ "address" ∷ "uint256" ∷ []
cmd_types permit2_transfer_from_ = "address" ∷ "address" ∷ "uint160" ∷ []
cmd_types permit2_permit_ = permit_single_type ∷ "bytes" ∷ []
cmd_types v3_swap_exact_in = "address" ∷ "uint256" ∷ "uint256" ∷ "bytes" ∷ "bool" ∷ "uint256[]" ∷ []
cmd_types v2_swap_exact_in =
    "address" ∷ "uint256" ∷ "uint256" ∷ "address[]" ∷ "bool" ∷ "uint256[]" ∷ []
cmd_types v4_swap_ = "bytes" ∷ "bytes[]" ∷ []

module _ (abi : Abi) where
  abbrev pub v4_encode : V4Param → Result TxError Bytes
  v4_encode p = abi.encode (v4_types (v4_action p)) (v4_values p)

  abbrev pub v4_decode : ℕ → Bytes → Result TxError V4Param
  v4_decode n data_ = do
    kind ← or_raise (v4_kind n) key_error
    vs ← abi.decode (v4_types kind) data_
    or_raise (v4_of kind vs) value_error

  -- `encode` of each subclass of `UrCommand`: the values.
  abbrev pub cmd_values : UrCommand → Result TxError AbiValues
  cmd_values (wrap_eth r a) = ok (v_address r ▸ v_uint a ▸ done)
  cmd_values (unwrap_weth r a) = ok (v_address r ▸ v_uint a ▸ done)
  cmd_values (pay_portion t r b) = ok (v_address t ▸ v_address r ▸ v_uint b ▸ done)
  cmd_values (sweep t r a) = ok (v_address t ▸ v_address r ▸ v_uint a ▸ done)
  cmd_values (permit2_transfer_from t r a) = ok (v_address t ▸ v_address r ▸ v_uint a ▸ done)
  cmd_values (permit2_permit p s) = ok (single_tuple p ▸ v_bytes s ▸ done)
  cmd_values (v3_swap r a m p u) =
      ok (v_address r ▸ v_uint a ▸ v_uint m ▸ v_bytes p ▸ v_bool u ▸ v_array done ▸ done)
  cmd_values (v2_swap r a m p u) =
      ok (v_address r ▸ v_uint a ▸ v_uint m ▸ v_addresses p ▸ v_bool u ▸ v_array done ▸ done)
  cmd_values (v4_swap ps) = do
    blobs ← encode_items v4_encode ps
    ok (v_bytes (map (λ p. v4_code (v4_action p)) ps) ▸ v_blobs blobs ▸ done)

  unfoldable pub cmd_encode : UrCommand → Result TxError Bytes
  cmd_encode c = cmd_values c >>= λ vs. abi.encode (cmd_types (cmd_of c)) vs

  -- `decode` of each subclass, after the library's.
  abbrev pub cmd_from : Cmd → AbiValues → Result TxError UrCommand
  cmd_from wrap_eth_ (v_address r ▸ v_uint a ▸ done) = ok (wrap_eth r a)
  cmd_from unwrap_weth_ (v_address r ▸ v_uint a ▸ done) = ok (unwrap_weth r a)
  cmd_from pay_portion_ (v_address t ▸ v_address r ▸ v_uint b ▸ done) = ok (pay_portion t r b)
  cmd_from sweep_ (v_address t ▸ v_address r ▸ v_uint a ▸ done) = ok (sweep t r a)
  cmd_from permit2_transfer_from_ (v_address t ▸ v_address r ▸ v_uint a ▸ done) =
      ok (permit2_transfer_from t r a)
  cmd_from permit2_permit_
        (v_tuple (
            v_tuple (v_address t ▸ v_uint a ▸ v_uint e ▸ v_uint n ▸ done)
            ▸ v_address sp
            ▸ v_uint d
            ▸ done)
          ▸ v_bytes s
          ▸ done) =
      ok (
        permit2_permit
          (record {
            details = record { token = t; amount = a; expiration = e; nonce = n };
            spender = sp;
            sig_deadline = d;
          })
          s)
  cmd_from v3_swap_exact_in
        (v_address r ▸ v_uint a ▸ v_uint m ▸ v_bytes p ▸ v_bool u ▸ v_array x ▸ done) =
      ok (v3_swap r a m p u)
  cmd_from v2_swap_exact_in
        (v_address r ▸ v_uint a ▸ v_uint m ▸ v_addresses p ▸ v_bool u ▸ v_array x ▸ done) =
      ok (v2_swap r a m p u)
  cmd_from v4_swap_ (v_bytes actions ▸ v_blobs params ▸ done) = do
    ps ← decode_items v4_decode actions params
    ok (v4_swap ps)
  cmd_from _ _ = err value_error

  unfoldable pub cmd_decode : ℕ → Bytes → Result TxError UrCommand
  cmd_decode n data_ = do
    kind ← or_raise (cmd_kind n) key_error
    vs ← abi.decode (cmd_types kind) data_
    cmd_from kind vs

  abbrev pub sel_execute : Bytes
  sel_execute = abi.selector "execute(bytes,bytes[],uint256)"

  abbrev pub execute_types : List String
  execute_types = "bytes" ∷ "bytes[]" ∷ "uint256" ∷ []

  unfoldable pub ur_execute : List UrCommand → ℕ → Result TxError Bytes
  ur_execute commands deadline = do
    blobs ← encode_items cmd_encode commands
    args ←
        abi.encode execute_types (
          v_bytes (map (λ c. cmd_code (cmd_of c)) commands)
          ▸ v_blobs blobs
          ▸ v_uint deadline
          ▸ done)
    ok (sel_execute ++ args)

  abbrev pub execute_from : AbiValues → Result TxError (List UrCommand × ℕ)
  execute_from (v_bytes cmds ▸ v_blobs inputs ▸ v_uint deadline ▸ done) = do
    commands ← decode_items cmd_decode cmds inputs
    ok (commands, deadline)
  execute_from _ = err value_error

  unfoldable pub decode_ur_execute : Bytes → Result TxError (List UrCommand × ℕ)
  decode_ur_execute data_ = do
    raise_if (not (bytes_eq (take 4 data_) sel_execute)) value_error
    vs ← abi.decode execute_types (drop 4 data_)
    execute_from vs
