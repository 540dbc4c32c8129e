-- ===== src/Tx/Chain/Managers.antt =====
-- tx_chain.py: the actions of the V4 position manager and the calls of the V3 position managers, with
-- what `encode` writes and `decode` reads.
pub mod RoundTrip
mod Tests
use robinhoodpools.Prelude.{
  ℕ, String, Bool, not, Option, none, some, List, [], ◌∷◌, ◌++◌, map, ◌==◌, if◌then◌else◌, Result,
  ok, err, ◌>>=◌, ◌>>◌, raise_if, or_raise,
}
use robinhoodpools.Tx.Errors.{TxError, value_error, key_error}
use robinhoodpools.Tx.Chain.{
  Bytes, PoolKey, PermitBatch, PosmParam, posm_mint, posm_increase, posm_decrease, posm_settle_pair,
  posm_take_pair, posm_sweep, NfpmCall, nfpm_mint, nfpm_increase, nfpm_decrease, nfpm_collect,
}
use robinhoodpools.Tx.Chain.Path.{take, drop}
use robinhoodpools.Tx.Chain.Abi.{
  Abi, AbiValues, v_address, v_uint, v_int, v_bytes, v_blobs, v_tuple, done, ◌▸◌, pool_key_type,
  permit_batch_type, key_tuple, batch_tuple, bytes_eq,
}
use robinhoodpools.Tx.Chain.Abi.Items.{encode_items, decode_items}

pub data PosmAction : Type 0 where
  increase_liquidity decrease_liquidity mint_position settle_pair take_pair sweep_ : PosmAction

abbrev pub posm_code : PosmAction → ℕ
posm_code increase_liquidity = 0
posm_code decrease_liquidity = 1
posm_code mint_position = 2
posm_code settle_pair = 13
posm_code take_pair = 17
posm_code sweep_ = 20

-- `_POSM_PARAMS[a]`
abbrev pub posm_kind : ℕ → Option PosmAction
posm_kind n =
    if n == 2
    then some mint_position
    else if n == 0
    then some increase_liquidity
    else if n == 1
    then some decrease_liquidity
    else if n == 13
    then some settle_pair
    else if n == 17
    then some take_pair
    else if n == 20
    then some sweep_
    else none

abbrev pub posm_action : PosmParam → PosmAction
posm_action (posm_mint k l u q a b o) = mint_position
posm_action (posm_increase t q a b) = increase_liquidity
posm_action (posm_decrease t q a b) = decrease_liquidity
posm_action (posm_settle_pair a b) = settle_pair
posm_action (posm_take_pair a b r) = take_pair
posm_action (posm_sweep c r) = sweep_

abbrev pub posm_types : PosmAction → List String
posm_types mint_position =
    pool_key_type ∷ "int24" ∷ "int24" ∷ "uint256" ∷ "uint128" ∷ "uint128" ∷ "address" ∷ "bytes" ∷ []
posm_types increase_liquidity = "uint256" ∷ "uint256" ∷ "uint128" ∷ "uint128" ∷ "bytes" ∷ []
posm_types decrease_liquidity = "uint256" ∷ "uint256" ∷ "uint128" ∷ "uint128" ∷ "bytes" ∷ []
posm_types settle_pair = "address" ∷ "address" ∷ []
posm_types take_pair = "address" ∷ "address" ∷ "address" ∷ []
posm_types sweep_ = "address" ∷ "address" ∷ []

-- `encode` of each subclass of `PosmParam`: the values.
abbrev pub posm_values : PosmParam → AbiValues
posm_values (posm_mint k l u q a b o) =
    key_tuple k
    ▸ v_int l
    ▸ v_int u
    ▸ v_uint q
    ▸ v_uint a
    ▸ v_uint b
    ▸ v_address o
    ▸ v_bytes []
    ▸ done
posm_values (posm_increase t q a b) = v_uint t ▸ v_uint q ▸ v_uint a ▸ v_uint b ▸ v_bytes [] ▸ done
posm_values (posm_decrease t q a b) = v_uint t ▸ v_uint q ▸ v_uint a ▸ v_uint b ▸ v_bytes [] ▸ done
posm_values (posm_settle_pair a b) = v_address a ▸ v_address b ▸ done
posm_values (posm_take_pair a b r) = v_address a ▸ v_address b ▸ v_address r ▸ done
posm_values (posm_sweep c r) = v_address c ▸ v_address r ▸ done

-- `decode` of each subclass, after the library's.
abbrev pub posm_of : PosmAction → AbiValues → Option PosmParam
posm_of mint_position
      (v_tuple (v_address c0 ▸ v_address c1 ▸ v_uint f ▸ v_int t ▸ v_address h ▸ done)
        ▸ v_int l
        ▸ v_int u
        ▸ v_uint q
        ▸ v_uint a
        ▸ v_uint b
        ▸ v_address o
        ▸ v_bytes x
        ▸ done) =
    some (
      posm_mint (record { currency0 = c0; currency1 = c1; fee = f; tick_spacing = t; hooks = h }) l
        u q a b o)
posm_of increase_liquidity (v_uint t ▸ v_uint q ▸ v_uint a ▸ v_uint b ▸ v_bytes x ▸ done) =
    some (posm_increase t q a b)
posm_of decrease_liquidity (v_uint t ▸ v_uint q ▸ v_uint a ▸ v_uint b ▸ v_bytes x ▸ done) =
    some (posm_decrease t q a b)
posm_of settle_pair (v_address a ▸ v_address b ▸ done) = some (posm_settle_pair a b)
posm_of take_pair (v_address a ▸ v_address b ▸ v_address r ▸ done) = some (posm_take_pair a b r)
posm_of sweep_ (v_address c ▸ v_address r ▸ done) = some (posm_sweep c r)
posm_of _ _ = none

-- The selectors' signatures and the one type of each call of the V3 managers
pub data NfpmKind : Type 0 where
  mint_ increase_ decrease_ collect_ : NfpmKind

abbrev pub nfpm_kind_of : NfpmCall → NfpmKind
nfpm_kind_of (nfpm_mint t0 t1 f l u a b c d r e) = mint_
nfpm_kind_of (nfpm_increase t a b c d e) = increase_
nfpm_kind_of (nfpm_decrease t q a b e) = decrease_
nfpm_kind_of (nfpm_collect t r a b) = collect_

abbrev pub nfpm_type : NfpmKind → String
nfpm_type mint_ =
    "(address,address,uint24,int24,int24,uint256,uint256,uint256,uint256,address,uint256)"
nfpm_type increase_ = "(uint256,uint256,uint256,uint256,uint256,uint256)"
nfpm_type decrease_ = "(uint256,uint128,uint256,uint256,uint256)"
nfpm_type collect_ = "(uint256,address,uint128,uint128)"

abbrev pub nfpm_signature : NfpmKind → String
nfpm_signature mint_ =
    "mint((address,address,uint24,int24,int24,uint256,uint256,uint256,uint256,address,uint256))"
nfpm_signature increase_ = "increaseLiquidity((uint256,uint256,uint256,uint256,uint256,uint256))"
nfpm_signature decrease_ = "decreaseLiquidity((uint256,uint128,uint256,uint256,uint256))"
nfpm_signature collect_ = "collect((uint256,address,uint128,uint128))"

-- `encode` of each of the calls: the one tuple.
abbrev pub nfpm_values : NfpmCall → AbiValues
nfpm_values (nfpm_mint t0 t1 f l u a b c d r e) =
    v_tuple (
      v_address t0
      ▸ v_address t1
      ▸ v_uint f
      ▸ v_int l
      ▸ v_int u
      ▸ v_uint a
      ▸ v_uint b
      ▸ v_uint c
      ▸ v_uint d
      ▸ v_address r
      ▸ v_uint e
      ▸ done)
    ▸ done
nfpm_values (nfpm_increase t a b c d e) =
    v_tuple (v_uint t ▸ v_uint a ▸ v_uint b ▸ v_uint c ▸ v_uint d ▸ v_uint e ▸ done) ▸ done
nfpm_values (nfpm_decrease t q a b e) =
    v_tuple (v_uint t ▸ v_uint q ▸ v_uint a ▸ v_uint b ▸ v_uint e ▸ done) ▸ done
nfpm_values (nfpm_collect t r a b) =
    v_tuple (v_uint t ▸ v_address r ▸ v_uint a ▸ v_uint b ▸ done) ▸ done

-- `decode` of each of the calls, after the library's.
abbrev pub nfpm_of : NfpmKind → AbiValues → Option NfpmCall
nfpm_of mint_
      (v_tuple (
          v_address t0
          ▸ v_address t1
          ▸ v_uint f
          ▸ v_int l
          ▸ v_int u
          ▸ v_uint a
          ▸ v_uint b
          ▸ v_uint c
          ▸ v_uint d
          ▸ v_address r
          ▸ v_uint e
          ▸ done)
        ▸ done) =
    some (nfpm_mint t0 t1 f l u a b c d r e)
nfpm_of increase_
      (v_tuple (v_uint t ▸ v_uint a ▸ v_uint b ▸ v_uint c ▸ v_uint d ▸ v_uint e ▸ done) ▸ done) =
    some (nfpm_increase t a b c d e)
nfpm_of decrease_ (v_tuple (v_uint t ▸ v_uint q ▸ v_uint a ▸ v_uint b ▸ v_uint e ▸ done) ▸ done) =
    some (nfpm_decrease t q a b e)
nfpm_of collect_ (v_tuple (v_uint t ▸ v_address r ▸ v_uint a ▸ v_uint b ▸ done) ▸ done) =
    some (nfpm_collect t r a b)
nfpm_of _ _ = none

module _ (abi : Abi) where
  abbrev pub posm_encode : PosmParam → Result TxError Bytes
  posm_encode p = abi.encode (posm_types (posm_action p)) (posm_values p)

  abbrev pub posm_decode : ℕ → Bytes → Result TxError PosmParam
  posm_decode n data_ = do
    kind ← or_raise (posm_kind n) key_error
    vs ← abi.decode (posm_types kind) data_
    or_raise (posm_of kind vs) value_error

  abbrev pub sel_modify_liquidities : Bytes
  sel_modify_liquidities = abi.selector "modifyLiquidities(bytes,uint256)"

  abbrev pub two_lists : List String
  two_lists = "bytes" ∷ "bytes[]" ∷ []

  abbrev pub unlock_types : List String
  unlock_types = "bytes" ∷ "uint256" ∷ []

  unfoldable pub posm_modify_liquidities : List PosmParam → ℕ → Result TxError Bytes
  posm_modify_liquidities params deadline = do
    blobs ← encode_items posm_encode params
    unlock ←
        abi.encode two_lists
          (v_bytes (map (λ p. posm_code (posm_action p)) params) ▸ v_blobs blobs ▸ done)
    args ← abi.encode unlock_types (v_bytes unlock ▸ v_uint deadline ▸ done)
    ok (sel_modify_liquidities ++ args)

  abbrev pub actions_from : AbiValues → Result TxError (List PosmParam)
  actions_from (v_bytes actions ▸ v_blobs params ▸ done) = decode_items posm_decode actions params
  actions_from _ = err value_error

  abbrev pub unlock_from : AbiValues → Result TxError (List PosmParam × ℕ)
  unlock_from (v_bytes unlock ▸ v_uint deadline ▸ done) = do
    vs ← abi.decode two_lists unlock
    params ← actions_from vs
    ok (params, deadline)
  unlock_from _ = err value_error

  unfoldable pub decode_posm_modify_liquidities : Bytes → Result TxError (List PosmParam × ℕ)
  decode_posm_modify_liquidities data_ = do
    raise_if (not (bytes_eq (take 4 data_) sel_modify_liquidities)) value_error
    vs ← abi.decode unlock_types (drop 4 data_)
    unlock_from vs

  unfoldable pub posm_permit_batch : String → PermitBatch → Bytes → Result TxError Bytes
  posm_permit_batch owner permit signature = do
    args ←
        abi.encode ("address" ∷ permit_batch_type ∷ "bytes" ∷ [])
          (v_address owner ▸ batch_tuple permit ▸ v_bytes signature ▸ done)
    ok (
        abi.selector
          "permitBatch(address,((address,uint160,uint48,uint48)[],address,uint256),bytes)"
        ++ args)

  abbrev pub nfpm_selector : NfpmKind → Bytes
  nfpm_selector kind = abi.selector (nfpm_signature kind)

  unfoldable pub nfpm_encode : NfpmCall → Result TxError Bytes
  nfpm_encode c = do
    args ← abi.encode (nfpm_type (nfpm_kind_of c) ∷ []) (nfpm_values c)
    ok (nfpm_selector (nfpm_kind_of c) ++ args)

  abbrev pub nfpm_decode : NfpmKind → Bytes → Result TxError NfpmCall
  nfpm_decode kind data_ = do
    vs ← abi.decode (nfpm_type kind ∷ []) (drop 4 data_)
    or_raise (nfpm_of kind vs) value_error

  -- `_NFPM_CALLS.get(selector)`
  abbrev pub nfpm_kind : Bytes → Option NfpmKind
  nfpm_kind b =
      if bytes_eq b (nfpm_selector mint_)
      then some mint_
      else if bytes_eq b (nfpm_selector increase_)
      then some increase_
      else if bytes_eq b (nfpm_selector decrease_)
      then some decrease_
      else if bytes_eq b (nfpm_selector collect_)
      then some collect_
      else none

  unfoldable pub decode_nfpm_call : Bytes → Result TxError NfpmCall
  decode_nfpm_call data_ = do
    kind ← or_raise (nfpm_kind (take 4 data_)) value_error
    nfpm_decode kind data_
