-- ===== src/Tx/Swap.antt =====
-- tx_plan.py: `SwapPlanner.plan`. The hexadecimal conversions of the path and the ABI library are
-- parameters.
pub mod Finalize
pub mod Split
pub mod Bounded
use robinhoodpools.Prelude.{
  ℕ, String, Bool, true, false, not, ◌&&◌, ◌||◌, Option, none, some, List, [], ◌∷◌, ◌++◌, all,
  length, str_eq, if◌then◌else◌, Result, ok, err, ◌>>=◌, ◌>>◌, raise_if, or_raise, map,
}
use robinhoodpools.Tx.Errors.{TxError, internal, value_error}
use robinhoodpools.Tx.Chain.{
  Bytes, native, weth, ur, permit2, msg_sender, address_this, contract_balance, open_delta,
  max_uint256, v3_router_by_factory, v4_settle, v4_swap_exact_in_single, v4_take, UrCommand,
  wrap_eth, unwrap_weth, pay_portion, sweep, permit2_transfer_from, v3_swap, v2_swap, v4_swap,
}
use robinhoodpools.Tx.Chain.Path.{v3_path}
use robinhoodpools.Tx.Chain.Abi.{Abi}
use robinhoodpools.Tx.Chain.Calls.{erc20_approve, permit2_approve}
use robinhoodpools.Tx.Routes.{
  v2, v3, v4, is_v3, Pool, pool_key, Hop, Route, hops, route_in, route_out, same_asset,
}
use robinhoodpools.Tx.Plan.{
  FeeLeg, input, output, TxPolicy, SwapIntent, currency_in, currency_out, fee_leg, ApprovalNeed,
  Call, SwapShape, Body, swap_body, router_body, Permit, single, Plan,
}

-- What the planner builds up: the commands, the currency that is held, and `min_out_index`, where it is
-- not -1.
pub record Build : Type 0 where
  pub commands : List UrCommand
  pub held : String
  pub slot : Option ℕ

abbrev pub add_command : UrCommand → Build → Build
add_command c b = record b { commands = b.commands ++ (c ∷ []) }

-- Adds the command that is to carry the minimum.
abbrev pub add_slot : UrCommand → Build → Build
add_slot c b = record b { commands = b.commands ++ (c ∷ []); slot = some (length b.commands) }

abbrev pub is_input : FeeLeg → Bool
is_input input = true
is_input output = false

-- The planner's guard on a route
abbrev pub serves : SwapIntent → Route → Bool
serves i r = same_asset (route_in r) (currency_in i) && same_asset (route_out r) (currency_out i)

-- `V3_ROUTER_BY_FACTORY`, of a route whose hops are all of that factory.
abbrev pub own_router : Route → Option String
own_router r =
    let factory = r.first.pool.factory in
    if all (λ h. is_v3 h.pool.venue && str_eq h.pool.factory factory) (hops r)
    then v3_router_by_factory factory
    else none

-- `WrapEth` or `UnwrapWeth`, where the hop does not take what is held.
abbrev pub convert : Hop → Build → Build
convert h b =
    if str_eq h.currency_in b.held
    then b
    else record (add_command
        (if str_eq b.held native
          then wrap_eth address_this contract_balance
          else unwrap_weth address_this 0)
        b) { held = h.currency_in }

abbrev pub no_hops : List Hop → Bool
no_hops [] = true
no_hops (h ∷ hs) = false

abbrev pub is_direct : SwapIntent → Hop → List Hop → Bool
is_direct i h rest =
    no_hops rest && (is_input (fee_leg i) && str_eq h.currency_out (currency_out i))

-- The commands at the end of a trade whose fee is on the output
abbrev pub wrap_output : SwapIntent → Build → Build
wrap_output i b =
    if str_eq (currency_out i) weth && str_eq b.held native
    then record (add_command (wrap_eth address_this contract_balance) b) { held = weth }
    else b

abbrev pub pay_and_send : SwapIntent → TxPolicy → Build → Build
pay_and_send i policy b =
    add_slot
      (if str_eq (currency_out i) native && str_eq b.held weth
        then unwrap_weth msg_sender 0
        else sweep b.held msg_sender 0)
      (add_command (pay_portion b.held policy.fee_recipient policy.fee_bps) b)

unfoldable pub close : SwapIntent → TxPolicy → Build → Build
close i policy b = if is_input (fee_leg i) then b else pay_and_send i policy (wrap_output i b)

-- The commands before the hops
abbrev pub pull_input : SwapIntent → List UrCommand
pull_input i =
    if str_eq (currency_in i) native
    then []
    else permit2_transfer_from (currency_in i) address_this i.amount_in ∷ []

abbrev pub input_fee : SwapIntent → TxPolicy → List UrCommand
input_fee i policy =
    if is_input (fee_leg i)
    then pay_portion (currency_in i) policy.fee_recipient policy.fee_bps ∷ []
    else []

abbrev pub opening : SwapIntent → TxPolicy → Build
opening i policy = record {
  commands = pull_input i ++ input_fee i policy;
  held = currency_in i;
  slot = none;
}

abbrev pub ur_permit : SwapIntent → ℕ → ℕ → Option Permit
ur_permit i deadline permit_nonce =
    if str_eq (currency_in i) native
    then none
    else some (
        single (record {
          details = record {
            token = currency_in i;
            amount = i.amount_in;
            expiration = deadline;
            nonce = permit_nonce;
          };
          spender = ur;
          sig_deadline = deadline;
        }))

abbrev pub ur_approvals : SwapIntent → List ApprovalNeed
ur_approvals i =
    if str_eq (currency_in i) native
    then []
    else record {
      token = currency_in i;
      spender = permit2;
      approve_amount = max_uint256;
      required = i.amount_in;
    }
      ∷ []

abbrev pub router_approvals : SwapIntent → String → List ApprovalNeed
router_approvals i to =
    if str_eq (currency_in i) native
    then []
    else record {
      token = currency_in i;
      spender = to;
      approve_amount = i.amount_in;
      required = i.amount_in;
    }
      ∷ []

abbrev pub plan_value : SwapIntent → ℕ
plan_value i = if str_eq (currency_in i) native then i.amount_in else 0

abbrev pub router_shape : SwapIntent → Route → TxPolicy → SwapShape
router_shape i r policy = record {
  wallet = i.wallet;
  route = r;
  currency_in = currency_in i;
  currency_out = currency_out i;
  amount_in = i.amount_in;
  fee_leg = output;
  fee_currency = currency_out i;
  fee_recipient = policy.fee_recipient;
  fee_bps = policy.fee_bps;
}

-- `fee_currency`: what is held before the hops, or what the fee on the output is paid in.
abbrev pub ur_shape : SwapIntent → Route → TxPolicy → Build → SwapShape
ur_shape i r policy b = record {
  wallet = i.wallet;
  route = r;
  currency_in = currency_in i;
  currency_out = currency_out i;
  amount_in = i.amount_in;
  fee_leg = fee_leg i;
  fee_currency = if is_input (fee_leg i) then currency_in i else (wrap_output i b).held;
  fee_recipient = policy.fee_recipient;
  fee_bps = policy.fee_bps;
}

module _ (abi : Abi) (fromhex : String → Bytes) (hex : Bytes → String) where
  -- `_hop_command`
  unfoldable pub hop_command : Hop → String → ℕ → Result TxError UrCommand
  hop_command h recipient min_out = elim h.pool.venue [
    | v3 ↦ (do
      path ←
          or_raise (v3_path fromhex hex (h.currency_in ∷ h.currency_out ∷ []) (h.pool.fee_ppm ∷ []))
            value_error
      ok (v3_swap recipient contract_balance min_out path false))
    | v2 ↦
        ok (v2_swap recipient contract_balance min_out (h.currency_in ∷ h.currency_out ∷ []) false)
    | v4 ↦ (do
      key ← pool_key h.pool
      ok (
          v4_swap (
            v4_settle h.currency_in contract_balance false
            ∷ v4_swap_exact_in_single key (str_eq h.currency_in h.pool.token0) open_delta min_out
            ∷ v4_take h.currency_out recipient open_delta
            ∷ [])))
  ]

  -- One round of the loop over the hops, after the conversion.
  unfoldable pub add_hop : Bool → Hop → Build → Result TxError Build
  add_hop direct h b = do
    c ← hop_command h (if direct then msg_sender else address_this) 0
    ok (record (if direct then add_slot c b else add_command c b) { held = h.currency_out })

  unfoldable pub add_hops : SwapIntent → List Hop → Build → Result TxError Build
  add_hops i [] b = ok b
  add_hops i (h ∷ hs) b =
      add_hop (is_direct i h hs) h (convert h b) >>= (λ next. add_hops i hs next)

  abbrev pub approve_all : List ApprovalNeed → Result TxError (List Call)
  approve_all [] = ok []
  approve_all (a ∷ as_) = do
    call ← erc20_approve abi a.spender a.approve_amount
    calls ← approve_all as_
    ok (record { to = a.token; calldata = call; value = 0 } ∷ calls)

  abbrev pub ur_staging : SwapIntent → ℕ → Result TxError (List Call)
  ur_staging i deadline = if str_eq (currency_in i) native then ok [] else (do
    first ← erc20_approve abi permit2 max_uint256
    second ← permit2_approve abi (currency_in i) ur i.amount_in deadline
    ok (
        record { to = currency_in i; calldata = first; value = 0 }
        ∷ record { to = permit2; calldata = second; value = 0 }
        ∷ []))

  unfoldable pub plan_router : SwapIntent → Route → TxPolicy → ℕ → String → Result TxError Plan
  plan_router i r policy deadline to = do
    calls ← approve_all (router_approvals i to)
    ok (record {
      to = to;
      value = plan_value i;
      deadline = deadline;
      body = router_body (router_shape i r policy) 0;
      approvals = router_approvals i to;
      permit = none;
      staging = calls;
      signature = none;
    })

  unfoldable pub plan_ur : SwapIntent → Route → TxPolicy → ℕ → ℕ → Result TxError Plan
  plan_ur i r policy deadline permit_nonce = do
    calls ← ur_staging i deadline
    b ← add_hops i (hops r) (opening i policy)
    index ← or_raise (close i policy b).slot internal
    ok (record {
      to = ur;
      value = plan_value i;
      deadline = deadline;
      body = swap_body (close i policy b).commands index (ur_shape i r policy b) none;
      approvals = ur_approvals i;
      permit = ur_permit i deadline permit_nonce;
      staging = calls;
      signature = none;
    })

  unfoldable pub plan : SwapIntent → Route → TxPolicy → ℕ → ℕ → Result TxError Plan
  plan i r policy deadline permit_nonce =
      if not (serves i r) then err internal else elim (own_router r) [
        | some to ↦ plan_router i r policy deadline to
        | none ↦ plan_ur i r policy deadline permit_nonce
      ]
