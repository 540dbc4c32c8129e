-- ===== src/Market/Keys.antt =====
-- lp_market_protocols.py: the addresses that the decoder trusts, the topics of the events, and the keys
-- of pools and positions, which are hashes.
use robinhoodpools.Prelude.{
  ℕ, ◌+◌, ◌-◌, ◌^◌, String, List, [], ◌∷◌, ◌++◌, Bool, Option, none, some, Result, ok, err, ◌>>=◌,
  str_eq, if◌then◌else◌, any, leb,
}
use robinhoodpools.Prelude.Int.{ℤ, pos, negsuc}
use robinhoodpools.Market.{Bytes, text, DecodeError, malformed, not_uint, Runtime}
use robinhoodpools.Market.Hex.{hex, from_hex, hex_body, prefixed, lower}
use robinhoodpools.Market.Words.{address_of, hash_of, to_bytes}
use robinhoodpools.Market.Rows.{PositionKey, nft, core}

abbrev pub zero_address : String
zero_address = "0x0000000000000000000000000000000000000000"

abbrev pub pool_manager : String
pool_manager = "0x8366a39cc670b4001a1121b8f6a443a643e40951"

abbrev pub slipstream_factory : String
slipstream_factory = "0x1ac9db4a2608ba45d6127b1737949b51bb54b7f3"

abbrev pub uniswap_v3_factory : String
uniswap_v3_factory = "0x1f7d7550b1b028f7571e69a784071f0205fd2efa"

abbrev pub pancake_v3_factory : String
pancake_v3_factory = "0x0bfbcf9fa4f9c56b0f40a671ad40e0805a091865"

abbrev pub extended_v3_factory : String
extended_v3_factory = "0xece6ecd61177336ea6fb9b17937ac439d85ee20b"

abbrev pub v2_factories : List String
v2_factories =
    "0x8bceaa40b9acdfaedf85adf4ff01f5ad6517937f" ∷ "0xdaa80fe4ee10de529d98ea4bde15bcaf7f7324b3"
    ∷ "0x0d1ebb179cdbca88d74c923c4255cb2b17474afd" ∷ []

abbrev pub concentrated_factories : List String
concentrated_factories =
    slipstream_factory ∷ pancake_v3_factory ∷ extended_v3_factory ∷ uniswap_v3_factory ∷ []

abbrev pub v4_position_manager : String
v4_position_manager = "0x58daec3116aae6d93017baaea7749052e8a04fa7"

-- `V3_NFT_MANAGER_ADDRESSES`
abbrev pub v3_nft_managers : List String
v3_nft_managers =
    "0x73991a25c818bf1f1128deaab1492d45638de0d3" ∷ "0x46a15b0b27311cedf172ab29e4f4766fbe7f4364"
    ∷ "0xa79f5775b0b49e51202c48ddf03f380faa96f641" ∷ []

-- `value in addresses`
abbrev pub is_among : String → List String → Bool
is_among a known = any (λ k. str_eq k a) known

-- `MANAGER_INFO[manager]["protocol"]`
unfoldable pub manager_protocol : String → Option String
manager_protocol a =
    if is_among a v3_nft_managers
    then some "v3"
    else if str_eq v4_position_manager a
    then some "v4"
    else none

-- `MANAGER_INFO[manager]["source"]`, of one of the four managers
unfoldable pub manager_source : String → String
manager_source a =
    if str_eq "0x46a15b0b27311cedf172ab29e4f4766fbe7f4364" a
    then "https://github.com/pancakeswap/pancake-v3-contracts/blob/main/projects/v3-periphery/contracts/NonfungiblePositionManager.sol"
    else if str_eq "0xa79f5775b0b49e51202c48ddf03f380faa96f641" a
    then "https://robinhoodchain.blockscout.com/address/0xa79f5775b0b49e51202c48ddf03f380faa96f641"
    else "https://github.com/Uniswap/contracts/blob/56928a9/deployments/4663.md"

-- `nft_position_key`, of a token id that is not below zero
unfoldable pub nft_position_key : String → ℕ → Result DecodeError PositionKey
unfolding address_of
nft_position_key manager token = do
  a ← address_of (text manager) "NFT manager"
  if leb (2 ^ 256) token then err (not_uint 256 "NFT token id") else ok (nft a token)

-- `core_position_key`
unfoldable pub core_position_key : String → String → String → Result DecodeError PositionKey
unfolding address_of hash_of lower
core_position_key protocol pool_id core_key = do
  pool ←
      if str_eq (lower protocol) "v3"
      then address_of (text pool_id) "V3 core position pool"
      else if str_eq (lower protocol) "v4"
      then hash_of (text pool_id) "V4 core position pool"
      else err (malformed "core position protocol must be v3 or v4")
  key ← hash_of (text core_key) "core position key"
  ok (core (lower protocol) pool key)

-- `n.to_bytes(3, "big", signed=True)`, of a tick
abbrev pub signed_bytes3 : ℤ → Bytes
signed_bytes3 (pos n) = to_bytes 3 n
signed_bytes3 (negsuc n) = to_bytes 3 (2 ^ 24 - (n + 1))

-- `bytes.fromhex(s[2:])`, of a text that `_address` or `_topic_address` gave
abbrev pub bytes_of_text : String → Bytes
bytes_of_text s = elim (hex_body s) [
  | none ↦ []
  | some body ↦ elim (from_hex body) [ none ↦ [] | some b ↦ b ]
]

-- `_v3_position_key`
unfoldable pub v3_position_key : Runtime → String → ℤ → ℤ → String
v3_position_key rt owner lower upper =
    prefixed (hex (rt.keccak (bytes_of_text owner ++ (signed_bytes3 lower ++ signed_bytes3 upper))))

-- `_v4_position_key`
unfoldable pub v4_position_key : Runtime → String → ℤ → ℤ → String → String
v4_position_key rt owner lower upper salt = prefixed (
    hex (
      rt.keccak (
        bytes_of_text owner
        ++ (signed_bytes3 lower ++ (signed_bytes3 upper ++ bytes_of_text salt)))))

-- `spacing if spacing >= 0 else (1 << 256) + spacing`
abbrev pub spacing_word : ℤ → ℕ
spacing_word (pos n) = n
spacing_word (negsuc n) = 2 ^ 256 - (n + 1)

-- The word of `int(address, 16)`
abbrev pub address_word : String → Bytes
address_word a = 0 ∷ 0 ∷ 0 ∷ 0 ∷ 0 ∷ 0 ∷ 0 ∷ 0 ∷ 0 ∷ 0 ∷ 0 ∷ 0 ∷ bytes_of_text a

-- `_v4_pool_id`
unfoldable pub v4_pool_id : Runtime → String → String → ℕ → ℤ → String → String
v4_pool_id rt token0 token1 fee spacing hook = prefixed (
    hex (
      rt.keccak (
        address_word token0
        ++ (address_word token1
            ++ (to_bytes 32 fee ++ (to_bytes 32 (spacing_word spacing) ++ address_word hook))))))

-- `_topic`
unfoldable pub topic : Runtime → String → String
topic rt signature = prefixed (hex (rt.keccak_text signature))

-- The event whose topic a text is, if any of these is it
unfoldable pub event_at {ℓ} : {E : Type ℓ} → String → List (String × E) → Option E
event_at t [] = none
event_at t ((s, e) ∷ es) = if str_eq s t then some e else event_at t es
