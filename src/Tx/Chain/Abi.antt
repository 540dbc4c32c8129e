-- ===== src/Tx/Chain/Abi.antt =====
-- What tx_chain.py calls of `eth_abi` and `eth_utils`: `encode`, `decode`, the selector that `keccak`
-- gives for a signature, and the test that an address is in the lower case `decode` returns. They are
-- the fields of `Abi`, and what the code relies on is the record `AbiLaws`.
pub mod Items
pub mod Sample
use robinhoodpools.Prelude.{
  ℕ, ◌+◌, ◌≡◌, String, Bool, true, false, ◌&&◌, List, [], ◌∷◌, ◌++◌, all, length, Result, ok,
  str_eq, ◌==◌,
}
use robinhoodpools.Prelude.Int.{ℤ}
use robinhoodpools.Tx.Errors.{TxError}
use robinhoodpools.Tx.Chain.{Bytes, PoolKey, PermitDetails, PermitSingle, PermitBatch}

infixr 20 ◌▸◌
mutual
  pub data AbiValue : Type 0 where
    v_address : String → AbiValue
    v_uint : ℕ → AbiValue
    v_int : ℤ → AbiValue
    v_bool : Bool → AbiValue
    v_bytes : Bytes → AbiValue
    v_addresses : List String → AbiValue
    v_blobs : List Bytes → AbiValue
    v_array : AbiValues → AbiValue
    v_tuple : AbiValues → AbiValue

  pub data AbiValues : Type 0 where
    done : AbiValues
    ◌▸◌ : AbiValue → AbiValues → AbiValues

pub record Abi : Type 0 where
  pub encode : List String → AbiValues → Result TxError Bytes
  pub decode : List String → Bytes → Result TxError AbiValues
  pub selector : String → Bytes
  pub is_normal : String → Bool

abbrev mutual
  -- Every address among the values is in lower case.
  pub normal : (String → Bool) → AbiValue → Bool
  normal p (v_address a) = p a
  normal p (v_addresses as_) = all p as_
  normal p (v_array vs) = all_normal p vs
  normal p (v_tuple vs) = all_normal p vs
  normal p (v_uint n) = true
  normal p (v_int n) = true
  normal p (v_bool b) = true
  normal p (v_bytes b) = true
  normal p (v_blobs b) = true

  pub all_normal : (String → Bool) → AbiValues → Bool
  all_normal p done = true
  all_normal p (v ▸ vs) = normal p v && all_normal p vs

pub record AbiLaws (abi : Abi) : Type 0 where
  pub round_trip :
      (types : List String) (vs : AbiValues) (b : Bytes)
      → all_normal abi.is_normal vs ≡ true
      → abi.encode types vs ≡ ok b
      → abi.decode types b ≡ ok vs
  pub selector_size : (signature : String) → length (abi.selector signature) ≡ 4

-- `POOL_KEY_TYPE` and the types that are made of it, and the types of the permits
abbrev pub pool_key_type : String
pool_key_type = "(address,address,uint24,int24,address)"

abbrev pub v4_single_type : String
v4_single_type = "((address,address,uint24,int24,address),bool,uint128,uint128,uint256,bytes)"

abbrev pub permit_single_type : String
permit_single_type = "((address,uint160,uint48,uint48),address,uint256)"

abbrev pub permit_batch_type : String
permit_batch_type = "((address,uint160,uint48,uint48)[],address,uint256)"

-- The `tuple` methods
abbrev pub key_tuple : PoolKey → AbiValue
key_tuple k = v_tuple (
    v_address k.currency0
    ▸ v_address k.currency1
    ▸ v_uint k.fee
    ▸ v_int k.tick_spacing
    ▸ v_address k.hooks
    ▸ done)

abbrev pub details_tuple : PermitDetails → AbiValue
details_tuple d =
    v_tuple (v_address d.token ▸ v_uint d.amount ▸ v_uint d.expiration ▸ v_uint d.nonce ▸ done)

abbrev pub single_tuple : PermitSingle → AbiValue
single_tuple p =
    v_tuple (details_tuple p.details ▸ v_address p.spender ▸ v_uint p.sig_deadline ▸ done)

abbrev pub details_tuples : List PermitDetails → AbiValues
details_tuples [] = done
details_tuples (d ∷ ds) = details_tuple d ▸ details_tuples ds

abbrev pub batch_tuple : PermitBatch → AbiValue
batch_tuple p =
    v_tuple
      (v_array (details_tuples p.details) ▸ v_address p.spender ▸ v_uint p.sig_deadline ▸ done)

-- `a == b` of bytes
abbrev pub bytes_eq : Bytes → Bytes → Bool
bytes_eq [] [] = true
bytes_eq (a ∷ as_) (b ∷ bs) = a == b && bytes_eq as_ bs
bytes_eq _ _ = false
