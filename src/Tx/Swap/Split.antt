-- ===== src/Tx/Swap/Split.antt =====
-- tx_plan.py: `SwapPlanner.plan_split`.
use robinhoodpools.Prelude.{
  ℕ, ◌+◌, ◌-◌, String, Bool, true, false, not, ◌&&◌, some, List, [], ◌∷◌, ◌++◌, length, str_eq,
  ◌==◌, if◌then◌else◌, Result, ok, err, ◌>>=◌, ◌>>◌, raise_if,
}
use robinhoodpools.Prelude.Int.{ℤ, pos, ◌+ℤ◌, ◌-ℤ◌, ◌*ℤ◌, div_ℕ}
use robinhoodpools.Tx.Errors.{TxError, internal, index_error, zero_division}
use robinhoodpools.Tx.Chain.{
  Bytes, native, weth, ur, msg_sender, address_this, contract_balance, V4Param, v4_settle,
  v4_settle_all, v4_take, v4_swap_exact_in_single, UrCommand, wrap_eth, unwrap_weth, pay_portion,
  sweep, v3_swap, v2_swap, v4_swap,
}
use robinhoodpools.Tx.Chain.Abi.{Abi}
use robinhoodpools.Tx.Routes.{Hop, hops}
use robinhoodpools.Tx.Plan.{
  TxPolicy, SwapIntent, currency_in, currency_out, fee_leg, SwapShape, SplitLeg, Split, Body,
  swap_body, Plan,
}
use robinhoodpools.Tx.Reconcile.{floor_bps}
use robinhoodpools.Tx.Reconcile.Split.{is_last}
use robinhoodpools.Tx.Swap.{is_input, serves, pull_input, input_fee, hop_command, plan}
use robinhoodpools.Tx.Swap.Finalize.{as_uint}

-- `sum(leg.amount_in for leg in split.legs)`
abbrev pub legs_in : List SplitLeg → ℕ
legs_in [] = 0
legs_in (x ∷ xs) = x.amount_in + legs_in xs

-- The input after the fee on it
abbrev pub net_input : SwapIntent → TxPolicy → ℤ
net_input i policy =
    if is_input (fee_leg i)
    then pos i.amount_in -ℤ floor_bps (pos i.amount_in) policy.fee_bps
    else pos i.amount_in

-- `share`: the last leg takes the rest.
abbrev pub split_share : ℕ → ℤ → ℤ → SplitLeg → List SplitLeg → Result TxError ℤ
split_share amount_in net allocated leg [] = ok (net -ℤ allocated)
split_share amount_in net allocated leg (next ∷ rest) = do
  raise_if (amount_in == 0) zero_division
  ok (div_ℕ (pos leg.amount_in *ℤ net) amount_in)

abbrev pub param_share : ℕ → V4Param → V4Param
param_share n (v4_settle c a p) = v4_settle c n p
param_share n (v4_swap_exact_in_single k z a m) = v4_swap_exact_in_single k z n m
param_share n (v4_settle_all c a) = v4_settle_all c a
param_share n (v4_take c r a) = v4_take c r a

abbrev pub params_share : ℕ → List V4Param → List V4Param
params_share n [] = []
params_share n (p ∷ ps) = param_share n p ∷ params_share n ps

-- The swap of a leg's first hop takes the leg's share.
unfoldable pub with_share : ℕ → UrCommand → UrCommand
with_share n (v3_swap r a m p u) = v3_swap r n m p u
with_share n (v2_swap r a m p u) = v2_swap r n m p u
with_share n (v4_swap ps) = v4_swap (params_share n ps)
with_share n c = c

-- The commands, and the currency that is held.
abbrev pub Held : Type 0
Held = List UrCommand × String

abbrev pub enter_hop : Bool → ℕ → Hop → Held → Held
enter_hop first share h b = if str_eq h.currency_in b.1 then b else (
  b.0
      ++ ((if str_eq b.1 native
            then wrap_eth address_this (if first then share else contract_balance)
            else unwrap_weth address_this 0)
          ∷ []),
  h.currency_in,
)

-- After a leg: every leg leaves the output currency, or WETH where that is the native one.
abbrev pub leave_leg : SwapIntent → Held → List UrCommand
leave_leg i b =
    if str_eq b.1 native && str_eq (currency_out i) native
    then b.0 ++ (wrap_eth address_this contract_balance ∷ [])
    else if str_eq b.1 (currency_out i)
    then b.0
    else b.0
      ++ ((if str_eq b.1 native
            then wrap_eth address_this contract_balance
            else unwrap_weth address_this 0)
          ∷ [])

abbrev pub split_output : SwapIntent → String
split_output i = if str_eq (currency_out i) native then weth else currency_out i

abbrev pub split_close : SwapIntent → TxPolicy → List UrCommand
split_close i policy =
    (if is_input (fee_leg i)
      then []
      else pay_portion (split_output i) policy.fee_recipient policy.fee_bps ∷ [])
    ++ ((if str_eq (currency_out i) native
          then unwrap_weth msg_sender 0
          else sweep (split_output i) msg_sender 0)
        ∷ [])

abbrev pub split_shape : SwapIntent → SwapShape → SwapShape
split_shape i shape =
    if is_input (fee_leg i) then shape else record shape { fee_currency = split_output i }

module _ (abi : Abi) (fromhex : String → Bytes) (hex : Bytes → String) where
  unfoldable pub leg_hops : Bool → ℕ → List Hop → Held → Result TxError Held
  leg_hops first share [] b = ok b
  leg_hops first share (h ∷ hs) b =
      let entered = enter_hop first share h b in
      hop_command abi fromhex hex h address_this 0 >>= (λ c.
        leg_hops false share hs
          (entered.0 ++ ((if first then with_share share c else c) ∷ []), h.currency_out))

  unfoldable pub split_legs :
      SwapIntent → ℤ → ℤ → List SplitLeg → List UrCommand → Result TxError (List UrCommand)
  split_legs i net allocated [] commands = ok commands
  split_legs i net allocated (leg ∷ legs) commands =
      raise_if (not (serves i leg.route)) internal
      >> (split_share i.amount_in net allocated leg legs >>= (λ share. as_uint share >>= (λ n.
          leg_hops true n (hops leg.route) (commands, currency_in i)
          >>= (λ b. split_legs i net (allocated +ℤ share) legs (leave_leg i b)))))

  -- The plan of more than one leg, from the plan of the first.
  abbrev pub split_from : SwapIntent → Split → TxPolicy → Plan → Body → Result TxError Plan
  split_from i split policy base (swap_body old index shape none_yet) = do
    raise_if (not (str_eq base.to ur)) internal
    commands ←
        split_legs i (net_input i policy) (pos 0) split.legs (pull_input i ++ input_fee i policy)
    ok (record base {
      body =
          swap_body (commands ++ split_close i policy)
            (length (commands ++ split_close i policy) - 1) (split_shape i shape) (some split);
    })
  split_from i split policy base _ = err internal

  abbrev pub plan_legs :
      SwapIntent → Split → TxPolicy → ℕ → ℕ → SplitLeg → Bool → Result TxError Plan
  plan_legs i split policy deadline nonce leg alone =
      if alone
      then plan abi fromhex hex i leg.route policy deadline nonce
      else if not (legs_in split.legs == i.amount_in)
      then err internal
      else plan abi fromhex hex i leg.route policy deadline nonce
        >>= (λ base. split_from i split policy base base.body)

  -- A split has a leg (`make_split`).
  unfoldable pub plan_split : SwapIntent → Split → TxPolicy → ℕ → ℕ → Result TxError Plan
  plan_split i split policy deadline nonce = elim split.legs [
    | [] ↦ err index_error
    | leg ∷ legs ↦ plan_legs i split policy deadline nonce leg (is_last legs)
  ]
