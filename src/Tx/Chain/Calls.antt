-- ===== src/Tx/Chain/Calls.antt =====
-- tx_chain.py: the other calls whose data the planners write: approvals and reads, `multicall`, and the
-- swaps of the venues' own routers.
use robinhoodpools.Prelude.{
  ℕ, String, Bool, not, List, [], ◌∷◌, ◌++◌, Option, str_eq, if◌then◌else◌, Result, ok, err, ◌>>=◌,
  ◌>>◌, raise_if, or_raise,
}
use robinhoodpools.Prelude.Int.{pos}
use robinhoodpools.Tx.Errors.{TxError, value_error, index_error}
use robinhoodpools.Tx.Chain.{Bytes, native}
use robinhoodpools.Tx.Chain.Path.{take, drop, v3_path}
use robinhoodpools.Tx.Chain.Abi.{
  Abi, AbiValues, v_address, v_uint, v_int, v_bytes, v_blobs, v_tuple, done, ◌▸◌, bytes_eq,
}

module _ (abi : Abi) where
  -- `SELECTOR + encode(types, values)`
  abbrev pub call_data : String → List String → AbiValues → Result TxError Bytes
  call_data signature types values = do
    args ← abi.encode types values
    ok (abi.selector signature ++ args)

  unfoldable pub erc20_approve : String → ℕ → Result TxError Bytes
  erc20_approve spender amount =
      call_data "approve(address,uint256)" ("address" ∷ "uint256" ∷ [])
        (v_address spender ▸ v_uint amount ▸ done)

  unfoldable pub erc20_allowance : String → String → Result TxError Bytes
  erc20_allowance owner spender =
      call_data "allowance(address,address)" ("address" ∷ "address" ∷ [])
        (v_address owner ▸ v_address spender ▸ done)

  unfoldable pub erc20_balance_of : String → Result TxError Bytes
  erc20_balance_of owner = call_data "balanceOf(address)" ("address" ∷ []) (v_address owner ▸ done)

  unfoldable pub permit2_approve : String → String → ℕ → ℕ → Result TxError Bytes
  permit2_approve token spender amount expiration =
      call_data "approve(address,address,uint160,uint48)"
        ("address" ∷ "address" ∷ "uint160" ∷ "uint48" ∷ [])
        (v_address token ▸ v_address spender ▸ v_uint amount ▸ v_uint expiration ▸ done)

  unfoldable pub permit2_allowance : String → String → String → Result TxError Bytes
  permit2_allowance owner token spender =
      call_data "allowance(address,address,address)" ("address" ∷ "address" ∷ "address" ∷ [])
        (v_address owner ▸ v_address token ▸ v_address spender ▸ done)

  unfoldable pub multicall : List Bytes → Result TxError Bytes
  multicall calls = call_data "multicall(bytes[])" ("bytes[]" ∷ []) (v_blobs calls ▸ done)

  abbrev pub blobs_from : AbiValues → Result TxError (List Bytes)
  blobs_from (v_blobs calls ▸ done) = ok calls
  blobs_from _ = err value_error

  unfoldable pub decode_multicall : Bytes → Result TxError (List Bytes)
  decode_multicall data_ = do
    raise_if (not (bytes_eq (take 4 data_) (abi.selector "multicall(bytes[])"))) value_error
    vs ← abi.decode ("bytes[]" ∷ []) (drop 4 data_)
    blobs_from vs

  unfoldable pub v3_router_fee : String → ℕ → String → ℕ → String → Result TxError Bytes
  v3_router_fee token minimum wallet bps recipient =
      if str_eq token native
      then call_data "unwrapWETH9WithFee(uint256,address,uint256,address)"
          ("uint256" ∷ "address" ∷ "uint256" ∷ "address" ∷ [])
          (v_uint minimum ▸ v_address wallet ▸ v_uint bps ▸ v_address recipient ▸ done)
      else call_data "sweepTokenWithFee(address,uint256,address,uint256,address)"
          ("address" ∷ "uint256" ∷ "address" ∷ "uint256" ∷ "address" ∷ [])
          (v_address token
            ▸ v_uint minimum
            ▸ v_address wallet
            ▸ v_uint bps
            ▸ v_address recipient
            ▸ done)

  -- `v3_router_swap` with one fee
  abbrev pub swap_single : String → String → ℕ → ℕ → ℕ → String → Bool → Bool → Result TxError Bytes
  swap_single token_in token_out fee amount deadline recipient pancake slipstream =
      if pancake
      then call_data "exactInputSingle((address,address,uint24,address,uint256,uint256,uint160))"
          ("address" ∷ "address" ∷ "uint24" ∷ "address" ∷ "uint256" ∷ "uint256" ∷ "uint160" ∷ [])
          (v_address token_in
            ▸ v_address token_out
            ▸ v_uint fee
            ▸ v_address recipient
            ▸ v_uint amount
            ▸ v_uint 0
            ▸ v_uint 0
            ▸ done)
      else if slipstream
      then call_data
          "exactInputSingle((address,address,int24,address,uint256,uint256,uint256,uint160))"
          ("address" ∷ "address" ∷ "int24" ∷ "address" ∷ "uint256" ∷ "uint256" ∷ "uint256"
            ∷ "uint160" ∷ [])
          (v_address token_in
            ▸ v_address token_out
            ▸ v_int (pos fee)
            ▸ v_address recipient
            ▸ v_uint deadline
            ▸ v_uint amount
            ▸ v_uint 0
            ▸ v_uint 0
            ▸ done)
      else call_data
          "exactInputSingle((address,address,uint24,address,uint256,uint256,uint256,uint160))"
          ("address" ∷ "address" ∷ "uint24" ∷ "address" ∷ "uint256" ∷ "uint256" ∷ "uint256"
            ∷ "uint160" ∷ [])
          (v_address token_in
            ▸ v_address token_out
            ▸ v_uint fee
            ▸ v_address recipient
            ▸ v_uint deadline
            ▸ v_uint amount
            ▸ v_uint 0
            ▸ v_uint 0
            ▸ done)

  -- `v3_router_swap` with other than one fee; `none` of `v3_path` is the error it raises.
  abbrev pub swap_path : Option Bytes → ℕ → ℕ → String → Bool → Result TxError Bytes
  swap_path path amount deadline recipient pancake = do
    route ← or_raise path value_error
    (if pancake
        then call_data "exactInput((bytes,address,uint256,uint256))"
            ("(bytes,address,uint256,uint256)" ∷ [])
            (v_tuple (v_bytes route ▸ v_address recipient ▸ v_uint amount ▸ v_uint 0 ▸ done) ▸ done)
        else call_data "exactInput((bytes,address,uint256,uint256,uint256))"
            ("(bytes,address,uint256,uint256,uint256)" ∷ [])
            (v_tuple (
                v_bytes route
                ▸ v_address recipient
                ▸ v_uint deadline
                ▸ v_uint amount
                ▸ v_uint 0
                ▸ done)
              ▸ done))

  unfoldable pub v3_router_swap :
      (String → Bytes)
      → (Bytes → String)
      → List String
      → List ℕ
      → ℕ
      → ℕ
      → String
      → Bool
      → Bool
      → Result TxError Bytes
  v3_router_swap fromhex hex (t0 ∷ t1 ∷ ts) (fee ∷ []) amount deadline recipient pancake
        slipstream =
      swap_single t0 t1 fee amount deadline recipient pancake slipstream
  v3_router_swap fromhex hex ts (fee ∷ []) amount deadline recipient pancake slipstream =
      err index_error
  v3_router_swap fromhex hex ts fees amount deadline recipient pancake slipstream =
      swap_path (v3_path fromhex hex ts fees) amount deadline recipient pancake
