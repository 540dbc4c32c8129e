-- ===== src/Tx/Plan.antt =====
-- tx_plan.py: the intents, the plans that the planners make of them, and the calldata of a plan.
-- Addresses are in lower case. What a client sends is unsigned.
use robinhoodpools.Prelude.{
  ℕ, String, Bool, not, ◌&&◌, ◌||◌, Option, none, some, List, [], ◌∷◌, str_eq, leb, any, length,
  if◌then◌else◌, Result, ok, ◌>>=◌, ◌>>◌, raise_if,
}
use robinhoodpools.Prelude.Int.{ℤ, pos_part}
use robinhoodpools.Tx.Errors.{TxError, value_error}
use robinhoodpools.Tx.Chain.{
  Bytes, UrCommand, permit2_permit, PermitSingle, PermitBatch, PosmParam, NfpmCall,
  pancake_smart_router, slipstream_swap_router,
}
use robinhoodpools.Tx.Chain.Abi.{Abi, v_uint, v_blobs, done, ◌▸◌}
use robinhoodpools.Tx.Chain.Commands.{ur_execute}
use robinhoodpools.Tx.Chain.Managers.{nfpm_encode, posm_modify_liquidities, posm_permit_batch}
use robinhoodpools.Tx.Chain.Calls.{call_data, multicall, v3_router_swap, v3_router_fee}
use robinhoodpools.Tx.Routes.{Side, buy, sell, Pool, Hop, Route, hops, route_in}

pub data FeeLeg : Type 0 where
  input output : FeeLeg

pub data LpOp : Type 0 where
  mint increase decrease collect : LpOp

pub record TxPolicy : Type 0 where
  pub fee_bps : ℕ
  pub fee_recipient : String
  pub max_impact_bps : ℕ
  pub quote_ttl_s : ℕ

pub record SwapIntent : Type 0 where
  pub wallet : String
  pub side : Side
  pub token : String
  pub quote_currency : String
  pub amount_in : ℕ
  pub slippage_bps : ℕ

abbrev pub currency_in : SwapIntent → String
currency_in i = elim i.side [ buy ↦ i.quote_currency | sell ↦ i.token ]

abbrev pub currency_out : SwapIntent → String
currency_out i = elim i.side [ buy ↦ i.token | sell ↦ i.quote_currency ]

abbrev pub fee_leg : SwapIntent → FeeLeg
fee_leg i = elim i.side [ buy ↦ input | sell ↦ output ]

pub record LpIntent : Type 0 where
  pub wallet : String
  pub op : LpOp
  pub pool_id : String
  pub slippage_bps : ℕ
  pub tick_lower : ℤ
  pub tick_upper : ℤ
  pub amount0 : ℕ
  pub amount1 : ℕ
  pub liquidity : ℕ
  pub token_id : Option ℕ

pub record ApprovalNeed : Type 0 where
  pub token : String
  pub spender : String
  pub approve_amount : ℕ
  pub required : ℕ

pub record Call : Type 0 where
  pub to : String
  pub calldata : Bytes
  pub value : ℕ

pub record Fee : Type 0 where
  pub currency : String
  pub amount : ℤ

pub record SwapShape : Type 0 where
  pub wallet : String
  pub route : Route
  pub currency_in : String
  pub currency_out : String
  pub amount_in : ℕ
  pub fee_leg : FeeLeg
  pub fee_currency : String
  pub fee_recipient : String
  pub fee_bps : ℕ

pub record SplitLeg : Type 0 where
  pub route : Route
  pub amount_in : ℕ
  pub amount_out : ℤ

pub record Split : Type 0 where
  pub legs : List SplitLeg

-- `Split.__post_init__`
unfoldable pub make_split : List SplitLeg → Result TxError Split
make_split legs = do
  raise_if
      (not (leb 1 (length legs) && leb (length legs) 3) || any (λ leg. leb leg.amount_in 0) legs)
      value_error
  ok (record { legs = legs })

pub record LpShape : Type 0 where
  pub wallet : String
  pub op : LpOp
  pub pool : Pool
  pub manager : String
  pub token_id : Option ℕ
  pub tick_lower : ℤ
  pub tick_upper : ℤ
  pub liquidity : ℕ

-- `SwapBody`, `RouterBody`, `NfpmBody` and `PosmBody`
pub data Body : Type 0 where
  swap_body :
      (commands : List UrCommand) (min_out_index : ℕ) (shape : SwapShape) (split : Option Split)
      → Body
  router_body : (shape : SwapShape) (gross_min_out : ℕ) → Body
  nfpm_body : (call : NfpmCall) (collect : Option NfpmCall) (shape : LpShape) → Body
  posm_body : (params : List PosmParam) (shape : LpShape) → Body

pub data Permit : Type 0 where
  single : PermitSingle → Permit
  batch : PermitBatch → Permit

pub record Plan : Type 0 where
  pub to : String
  pub value : ℕ
  pub deadline : ℕ
  pub body : Body
  pub approvals : List ApprovalNeed
  pub permit : Option Permit
  pub staging : List Call
  pub signature : Option Bytes

pub record Amounts : Type 0 where
  pub amount_in : ℕ
  pub pool_out : ℤ
  pub hook_fee : Option Fee
  pub creator_tax : Option Fee
  pub rhpools_fee : Fee
  pub net_out : ℤ
  pub min_out : ℤ
  pub impact_bps : Option ℤ

pub record LpAmounts : Type 0 where
  pub liquidity : ℕ
  pub amount0 : ℤ
  pub amount1 : ℤ
  pub fees0 : Option ℤ
  pub fees1 : Option ℤ
  pub token_id : Option ℕ
  pub bound0 : ℤ
  pub bound1 : ℤ

abbrev pub route_tokens : List Hop → List String
route_tokens [] = []
route_tokens (h ∷ hs) = h.currency_out ∷ route_tokens hs

-- `hop.pool.tick_spacing if self.to == SLIPSTREAM_SWAP_ROUTER else hop.pool.fee_ppm`; a pool of that
-- router has a spacing above zero.
abbrev pub route_fees : Bool → List Hop → List ℕ
route_fees slipstream [] = []
route_fees slipstream (h ∷ hs) =
    (if slipstream then pos_part h.pool.tick_spacing else h.pool.fee_ppm) ∷ route_fees slipstream hs

module _ (abi : Abi) (fromhex : String → Bytes) (hex : Bytes → String) where
  abbrev pub router_calldata : String → ℕ → SwapShape → ℕ → Result TxError Bytes
  router_calldata to deadline shape gross_min_out =
      let pancake = str_eq to pancake_smart_router in
      let slipstream = str_eq to slipstream_swap_router in
      let route = hops shape.route in
      do
        swap ←
            v3_router_swap abi fromhex hex (route_in shape.route ∷ route_tokens route)
              (route_fees slipstream route) shape.amount_in deadline to pancake slipstream
        fee ←
            v3_router_fee abi shape.currency_out gross_min_out shape.wallet shape.fee_bps
              shape.fee_recipient
        (if pancake
            then call_data abi "multicall(uint256,bytes[])" ("uint256" ∷ "bytes[]" ∷ [])
                (v_uint deadline ▸ v_blobs (swap ∷ fee ∷ []) ▸ done)
            else multicall abi (swap ∷ fee ∷ []))

  -- The permit command stands first where the plan carries a signature of one permit.
  abbrev pub signed_commands : Option Bytes → Option Permit → List UrCommand → List UrCommand
  signed_commands (some signature) (some (single permit)) commands =
      permit2_permit permit signature ∷ commands
  signed_commands _ _ commands = commands

  abbrev pub nfpm_calldata : NfpmCall → Option NfpmCall → Result TxError Bytes
  nfpm_calldata call none = nfpm_encode abi call
  nfpm_calldata call (some collect_call) = do
    first ← nfpm_encode abi call
    second ← nfpm_encode abi collect_call
    multicall abi (first ∷ second ∷ [])

  abbrev pub posm_calldata : String → Option Bytes → Option Permit → Bytes → Result TxError Bytes
  posm_calldata wallet (some signature) (some (batch permit)) modify = do
    permits ← posm_permit_batch abi wallet permit signature
    multicall abi (permits ∷ modify ∷ [])
  posm_calldata wallet _ _ modify = ok modify

  -- `Plan.calldata`
  unfoldable pub plan_calldata : Plan → Result TxError Bytes
  plan_calldata plan = elim plan.body [
    | swap_body commands i shape split ↦
        ur_execute abi (signed_commands plan.signature plan.permit commands) plan.deadline
    | router_body shape gross_min_out ↦ router_calldata plan.to plan.deadline shape gross_min_out
    | nfpm_body call collect_call shape ↦ nfpm_calldata call collect_call
    | posm_body params shape ↦
        posm_modify_liquidities abi params plan.deadline
        >>= (λ modify. posm_calldata shape.wallet plan.signature plan.permit modify)
  ]
