-- ===== src/Tx/Chain.antt =====
-- tx_chain.py and lp_chain.py: the deployed contracts, the UniversalRouter commands, the position
-- manager calls and the V3 path. Calldata is kept as the call that `eth_abi.encode` writes out.
pub mod Path
pub mod Abi
pub mod Commands
pub mod Managers
pub mod Calls
use robinhoodpools.Prelude.{
  ℕ, ◌-◌, ◌^◌, String, Bool, List, Option, none, some, str_eq, if◌then◌else◌,
}
use robinhoodpools.Prelude.Int.{ℤ}

abbrev pub native : String
native = "0x0000000000000000000000000000000000000000"

abbrev pub weth : String
weth = "0x0bd7d308f8e1639fab988df18a8011f41eacad73"

abbrev pub usdg : String
usdg = "0x5fc5360d0400a0fd4f2af552add042d716f1d168"

abbrev pub pool_manager : String
pool_manager = "0x8366a39cc670b4001a1121b8f6a443a643e40951"

abbrev pub ur : String
ur = "0x8876789976decbfcbbbe364623c63652db8c0904"

abbrev pub permit2 : String
permit2 = "0x000000000022d473030f116ddee9f6b43ac78ba3"

abbrev pub ur_v2_factory : String
ur_v2_factory = "0x8bceaa40b9acdfaedf85adf4ff01f5ad6517937f"

abbrev pub ur_v3_factory : String
ur_v3_factory = "0x1f7d7550b1b028f7571e69a784071f0205fd2efa"

abbrev pub posm : String
posm = "0x58daec3116aae6d93017baaea7749052e8a04fa7"

abbrev pub pons_hook : String
pons_hook = "0xe5e702641ea86f4ae6cc3cdaed2b886f976be044"

abbrev pub nfpm_uniswap : String
nfpm_uniswap = "0x73991a25c818bf1f1128deaab1492d45638de0d3"

abbrev pub nfpm_pancake : String
nfpm_pancake = "0x46a15b0b27311cedf172ab29e4f4766fbe7f4364"

abbrev pub nfpm_giga : String
nfpm_giga = "0xa79f5775b0b49e51202c48ddf03f380faa96f641"

abbrev pub giga_swap_router : String
giga_swap_router = "0x56b2e2ee0487223663b458cf3492bccbe04536f2"

abbrev pub pancake_smart_router : String
pancake_smart_router = "0x13f4ea83d0bd40e75c8222255bc855a974568dd4"

abbrev pub pancake_v3_factory : String
pancake_v3_factory = "0x0bfbcf9fa4f9c56b0f40a671ad40e0805a091865"

abbrev pub giga_v3_factory : String
giga_v3_factory = "0xece6ecd61177336ea6fb9b17937ac439d85ee20b"

abbrev pub slipstream_factory : String
slipstream_factory = "0x1ac9db4a2608ba45d6127b1737949b51bb54b7f3"

abbrev pub slipstream_swap_router : String
slipstream_swap_router = "0xc062b870e813fca720f1e002c234369ab3ab9415"

abbrev pub msg_sender : String
msg_sender = "0x0000000000000000000000000000000000000001"

abbrev pub address_this : String
address_this = "0x0000000000000000000000000000000000000002"

-- `V3_ROUTER_BY_FACTORY`
abbrev pub v3_router_by_factory : String → Option String
v3_router_by_factory factory =
    if str_eq factory pancake_v3_factory
    then some pancake_smart_router
    else if str_eq factory giga_v3_factory
    then some giga_swap_router
    else if str_eq factory slipstream_factory
    then some slipstream_swap_router
    else none

-- `NFPM_BY_FACTORY`
abbrev pub nfpm_by_factory : String → Option String
nfpm_by_factory factory =
    if str_eq factory ur_v3_factory
    then some nfpm_uniswap
    else if str_eq factory pancake_v3_factory
    then some nfpm_pancake
    else if str_eq factory giga_v3_factory
    then some nfpm_giga
    else none

-- `CONTRACT_BALANCE`
abbrev pub contract_balance : ℕ
contract_balance = 2 ^ 255

-- `OPEN_DELTA`
abbrev pub open_delta : ℕ
open_delta = 0

abbrev pub max_uint128 : ℕ
max_uint128 = 2 ^ 128 - 1

abbrev pub max_uint256 : ℕ
max_uint256 = 2 ^ 256 - 1

abbrev pub Bytes : Type 0
Bytes = List ℕ

pub record PoolKey : Type 0 where
  pub currency0 : String
  pub currency1 : String
  pub fee : ℕ
  pub tick_spacing : ℤ
  pub hooks : String

pub record PermitDetails : Type 0 where
  pub token : String
  pub amount : ℕ
  pub expiration : ℕ
  pub nonce : ℕ

pub record PermitSingle : Type 0 where
  pub details : PermitDetails
  pub spender : String
  pub sig_deadline : ℕ

pub record PermitBatch : Type 0 where
  pub details : List PermitDetails
  pub spender : String
  pub sig_deadline : ℕ

-- The subclasses of `V4Param` that the planner makes.
pub data V4Param : Type 0 where
  v4_settle : (currency : String) (amount : ℕ) (payer_is_user : Bool) → V4Param
  v4_settle_all : (currency : String) (max_amount : ℕ) → V4Param
  v4_take : (currency recipient : String) (amount : ℕ) → V4Param
  v4_swap_exact_in_single : (key : PoolKey) (zero_for_one : Bool) (amount_in min_out : ℕ) → V4Param

-- The subclasses of `UrCommand`.
pub data UrCommand : Type 0 where
  wrap_eth : (recipient : String) (amount : ℕ) → UrCommand
  unwrap_weth : (recipient : String) (amount_min : ℕ) → UrCommand
  pay_portion : (token recipient : String) (bips : ℕ) → UrCommand
  sweep : (token recipient : String) (amount_min : ℕ) → UrCommand
  permit2_transfer_from : (token recipient : String) (amount : ℕ) → UrCommand
  permit2_permit : (permit : PermitSingle) (signature : Bytes) → UrCommand
  v3_swap :
      (recipient : String) (amount_in min_out : ℕ) (path : Bytes) (payer_is_user : Bool) → UrCommand
  v2_swap :
      (recipient : String) (amount_in min_out : ℕ) (path : List String) (payer_is_user : Bool)
      → UrCommand
  v4_swap : (params : List V4Param) → UrCommand

-- The subclasses of `PosmParam`.
pub data PosmParam : Type 0 where
  posm_mint :
      (key : PoolKey) (tick_lower tick_upper : ℤ) (liquidity amount0_max amount1_max : ℕ)
      (owner : String)
      → PosmParam
  posm_increase : (token_id : ℕ) (liquidity amount0_max amount1_max : ℕ) → PosmParam
  posm_decrease : (token_id : ℕ) (liquidity amount0_min amount1_min : ℕ) → PosmParam
  posm_settle_pair : (currency0 currency1 : String) → PosmParam
  posm_take_pair : (currency0 currency1 recipient : String) → PosmParam
  posm_sweep : (currency recipient : String) → PosmParam

-- `NfpmMint`, `NfpmIncrease`, `NfpmDecrease` and `NfpmCollect`.
pub data NfpmCall : Type 0 where
  nfpm_mint :
      (token0 token1 : String) (fee : ℕ) (tick_lower tick_upper : ℤ)
      (amount0_desired amount1_desired amount0_min amount1_min : ℕ) (recipient : String)
      (deadline : ℕ)
      → NfpmCall
  nfpm_increase :
      (token_id : ℕ) (amount0_desired amount1_desired amount0_min amount1_min deadline : ℕ)
      → NfpmCall
  nfpm_decrease : (token_id : ℕ) (liquidity amount0_min amount1_min deadline : ℕ) → NfpmCall
  nfpm_collect : (token_id : ℕ) (recipient : String) (amount0_max amount1_max : ℕ) → NfpmCall

-- `NfpmCollect` with the maxima that it has by default.
abbrev pub collect_all : ℕ → String → NfpmCall
collect_all token_id recipient = nfpm_collect token_id recipient max_uint128 max_uint128
