-- ===== src/Market.antt =====
-- lp_market_protocols.py: the logs of the pools, decoded into the rows of the market index. A log comes
-- from a provider, so each of its values is whatever the provider sent; an error is a
-- `ProtocolDecodeError`, with the message's name for the value.
pub mod Hex
pub mod Words
pub mod Rows
pub mod Keys
pub mod Created
pub mod Pairs
pub mod Positions
pub mod Concentrated
pub mod Managed
pub mod Ensured
pub mod Events
mod Tests
use robinhoodpools.Prelude.{ℕ, Bool, String, List, Option}
use robinhoodpools.Prelude.Int.{ℤ}

abbrev pub Bytes : Type 0
Bytes = List ℕ

-- `Any` of a log or a header; `missing` is None, or a key that is not there.
pub data Value : Type 0 where
  missing : Value
  truth : Bool → Value
  whole : ℤ → Value
  text : String → Value
  raw : Bytes → Value

pub data DecodeError : Type 0 where
  is_boolean not_integer not_address not_hash not_hex malformed_hex : String → DecodeError
  not_whole_words not_canonical_address not_indexed_word malformed : String → DecodeError
  word_count : String → ℕ → ℕ → DecodeError
  not_uint not_int : ℕ → String → DecodeError
  no_header hash_mismatch : ℤ → DecodeError

-- `topics` is `none` where the value is not a sequence.
pub record Log : Type 0 where
  pub address : Value
  pub topics : Option (List Value)
  pub payload : Value
  pub block_number : Value
  pub tx_index : Value
  pub log_index : Value
  pub block_hash : Value
  pub tx_hash : Value

pub record Header : Type 0 where
  pub hash : Value
  pub timestamp : Value

-- The three keys under which a header may be kept: a number, its digits, its hexadecimal digits.
pub data HeaderKey : Type 0 where
  number digits hex_digits : ℤ → HeaderKey

-- What the code calls outside the repository: `keccak` of bytes and of a text. `int_of base s` is
-- `int(s, base)`, `none` where that raises.
pub record Runtime : Type 0 where
  pub keccak : Bytes → Bytes
  pub keccak_text : String → Bytes
  pub int_of : ℕ → String → Option ℤ
