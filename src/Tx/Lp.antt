-- ===== src/Tx/Lp.antt =====
-- tx_plan.py: `LpPlanner.plan` with `_nfpm` and `_posm`. The ABI library is a parameter.
pub mod Finalize
pub mod Amounts
pub mod Adds
mod Tests
use robinhoodpools.Prelude.{
  ℕ, ◌%◌, String, Bool, true, false, not, ◌&&◌, ◌||◌, Option, none, some, List, [], ◌∷◌, ◌++◌, map,
  str_eq, ltb, leb, ◌==◌, if◌then◌else◌, Result, ok, err, ◌>>=◌, ◌>>◌, raise_if, or_raise,
  Result-cases,
}
use robinhoodpools.Prelude.Int.{ℤ, pos, negsuc, ltb_ℤ, leb_ℤ, abs}
use robinhoodpools.Dict.{Dict, get}
use robinhoodpools.Math.{MathError, sqrt_ratio_at_tick}
use robinhoodpools.Tx.Errors.{
  TxError, unsupported_pool, invalid_intent, key_error, value_error, zero_division, in_math,
}
use robinhoodpools.Tx.Chain.{
  Bytes, native, posm, permit2, max_uint128, max_uint256, nfpm_by_factory, PosmParam, posm_mint,
  posm_increase, posm_decrease, posm_settle_pair, posm_take_pair, posm_sweep, NfpmCall, nfpm_mint,
  nfpm_increase, nfpm_decrease, collect_all, PermitDetails, PoolKey,
}
use robinhoodpools.Tx.Chain.Abi.{Abi}
use robinhoodpools.Tx.Chain.Calls.{erc20_approve, permit2_approve}
use robinhoodpools.Tx.Routes.{Venue, v2, v3, v4, Pool, pool_key}
use robinhoodpools.Tx.Plan.{
  LpOp, mint, increase, decrease, collect, LpIntent, ApprovalNeed, Call, LpShape, Body, nfpm_body,
  posm_body, Permit, batch, Plan,
}
use robinhoodpools.Tx.Liquidity.{liquidity_for_amounts}

pub record PositionState : Type 0 where
  pub tick_lower : ℤ
  pub tick_upper : ℤ
  pub liquidity : ℕ

unfoldable pub manager_for : Pool → Option String
manager_for p = elim p.venue [ v4 ↦ some posm | v3 ↦ nfpm_by_factory p.factory | v2 ↦ none ]

abbrev pub is_adding : LpOp → Bool
is_adding mint = true
is_adding increase = true
is_adding decrease = false
is_adding collect = false

abbrev pub is_mint : LpOp → Bool
is_mint mint = true
is_mint _ = false

-- `tick % spacing` is not zero, for a spacing above zero.
abbrev pub off_grid : ℤ → ℤ → Bool
off_grid tick spacing = not (abs tick % abs spacing == 0)

abbrev pub bad_ticks : Pool → ℤ → ℤ → Bool
bad_ticks p lower upper =
    not (ltb_ℤ lower upper)
    || (leb_ℤ p.tick_spacing (pos 0)
        || (off_grid lower p.tick_spacing || off_grid upper p.tick_spacing))

-- `lower, upper`
unfoldable pub plan_ticks : LpIntent → Pool → Option PositionState → Result TxError (ℤ × ℤ)
plan_ticks i p position =
    if is_mint i.op
    then raise_if (bad_ticks p i.tick_lower i.tick_upper) invalid_intent
      >> ok (i.tick_lower, i.tick_upper)
    else (do
      token ← or_raise i.token_id invalid_intent
      state ← or_raise position invalid_intent
      ok (state.tick_lower, state.tick_upper))

abbrev pub within_position : ℕ → Option PositionState → Result TxError (Unit {0})
within_position liquidity position = do
  state ← or_raise position value_error
  raise_if (not (ltb 0 liquidity && leb liquidity state.liquidity)) invalid_intent

-- The call and the collection of `_nfpm`
unfoldable pub nfpm_call :
    LpIntent → Pool → ℕ → ℤ → ℤ → Option PositionState → Result TxError (NfpmCall × Option NfpmCall)
nfpm_call i p deadline lower upper position = elim i.op [
  | mint ↦ ok (
    nfpm_mint p.token0 p.token1 p.fee_ppm lower upper i.amount0 i.amount1 0 0 i.wallet deadline,
    none,
  )
  | increase ↦ (do
    token ← or_raise i.token_id value_error
    ok (nfpm_increase token i.amount0 i.amount1 0 0 deadline, none))
  | decrease ↦ (do
    token ← or_raise i.token_id value_error
    within_position i.liquidity position
    ok (nfpm_decrease token i.liquidity 0 0 deadline, some (collect_all token i.wallet)))
  | collect ↦ (do token ← or_raise i.token_id value_error; ok (collect_all token i.wallet, none))
]

abbrev pub need : String → String → ℕ → ℕ → ApprovalNeed
need token spender approve_amount required = record {
  token = token;
  spender = spender;
  approve_amount = approve_amount;
  required = required;
}

-- `ApprovalNeed(...) for token, amount in (...) if amount > 0`
abbrev pub nfpm_approvals : LpIntent → Pool → String → List ApprovalNeed
nfpm_approvals i p manager =
    if is_adding i.op
    then (if ltb 0 i.amount0 then need p.token0 manager i.amount0 i.amount0 ∷ [] else [])
      ++ (if ltb 0 i.amount1 then need p.token1 manager i.amount1 i.amount1 ∷ [] else [])
    else []

-- `permit_nonces[token]` is read for a token that is not native and has an amount.
abbrev pub permit_detail : Dict ℕ → ℕ → String → ℕ → Result TxError (List PermitDetails)
permit_detail nonces deadline token amount =
    if not (str_eq token native) && ltb 0 amount
    then (do
      nonce ← or_raise (get token nonces) key_error
      ok (record { token = token; amount = amount; expiration = deadline; nonce = nonce } ∷ []))
    else ok []

abbrev pub posm_permit : ℕ → List PermitDetails → Option Permit
posm_permit deadline [] = none
posm_permit deadline (d ∷ ds) =
    some (batch (record { details = d ∷ ds; spender = posm; sig_deadline = deadline }))

abbrev pub of_math : {A : Type 0} → Result MathError A → Result TxError A
of_math (ok a) = ok a
of_math (err e) = err (in_math e)

abbrev pub lp_shape : LpIntent → Pool → String → ℤ → ℤ → ℕ → LpShape
lp_shape i p manager lower upper liquidity = record {
  wallet = i.wallet;
  op = i.op;
  pool = p;
  manager = manager;
  token_id = i.token_id;
  tick_lower = lower;
  tick_upper = upper;
  liquidity = liquidity;
}

-- The first action that adds liquidity; its maxima are set by `finalize`.
abbrev pub posm_first : LpIntent → PoolKey → ℤ → ℤ → ℕ → Result TxError PosmParam
posm_first i key lower upper liquidity =
    if is_mint i.op
    then ok (posm_mint key lower upper liquidity max_uint128 max_uint128 i.wallet)
    else or_raise i.token_id value_error
      >>= (λ token. ok (posm_increase token liquidity max_uint128 max_uint128))

abbrev pub posm_refund : LpIntent → Pool → List PosmParam
posm_refund i p = if str_eq p.token0 native then posm_sweep native i.wallet ∷ [] else []

module _ (abi : Abi) where
  abbrev pub approve_calls : List ApprovalNeed → Result TxError (List Call)
  approve_calls [] = ok []
  approve_calls (a ∷ as_) = do
    call ← erc20_approve abi a.spender a.approve_amount
    calls ← approve_calls as_
    ok (record { to = a.token; calldata = call; value = 0 } ∷ calls)

  -- `_nfpm`
  unfoldable pub plan_nfpm :
      LpIntent → Pool → ℕ → String → ℤ → ℤ → Option PositionState → Result TxError Plan
  plan_nfpm i p deadline manager lower upper position = do
    calls ← nfpm_call i p deadline lower upper position
    staging ← approve_calls (nfpm_approvals i p manager)
    ok (record {
      to = manager;
      value = 0;
      deadline = deadline;
      body = nfpm_body calls.0 calls.1 (lp_shape i p manager lower upper i.liquidity);
      approvals = nfpm_approvals i p manager;
      permit = none;
      staging = staging;
      signature = none;
    })

  abbrev pub permit_calls : ℕ → List PermitDetails → Result TxError (List Call)
  permit_calls deadline [] = ok []
  permit_calls deadline (d ∷ ds) = do
    first ← erc20_approve abi permit2 max_uint256
    second ← permit2_approve abi d.token posm d.amount deadline
    calls ← permit_calls deadline ds
    ok (
        record { to = d.token; calldata = first; value = 0 }
        ∷ (record { to = permit2; calldata = second; value = 0 } ∷ calls))

  -- The branch of `_posm` that adds liquidity, after the key and the liquidity.
  unfoldable pub posm_add : LpIntent → Pool → ℕ → ℤ → ℤ → Dict ℕ → PoolKey → ℕ → Result TxError Plan
  posm_add i p deadline lower upper nonces key liquidity = do
    raise_if (leb liquidity 0) invalid_intent
    first ← posm_first i key lower upper liquidity
    d0 ← permit_detail nonces deadline p.token0 i.amount0
    d1 ← permit_detail nonces deadline p.token1 i.amount1
    staging ← permit_calls deadline (d0 ++ d1)
    ok (record {
      to = posm;
      value = if str_eq p.token0 native then i.amount0 else 0;
      deadline = deadline;
      body =
          posm_body (first ∷ (posm_settle_pair p.token0 p.token1 ∷ posm_refund i p))
            (lp_shape i p posm lower upper liquidity);
      approvals = map (λ d. need d.token permit2 max_uint256 d.amount) (d0 ++ d1);
      permit = posm_permit deadline (d0 ++ d1);
      staging = staging;
      signature = none;
    })

  abbrev pub removed : LpIntent → ℕ
  removed i = elim i.op [ decrease ↦ i.liquidity | mint ↦ 0 | increase ↦ 0 | collect ↦ 0 ]

  abbrev pub is_decrease : LpOp → Bool
  is_decrease decrease = true
  is_decrease _ = false

  -- The branch of `_posm` that takes liquidity or only fees.
  unfoldable pub posm_remove :
      LpIntent → Pool → ℕ → ℤ → ℤ → Option PositionState → Result TxError Plan
  posm_remove i p deadline lower upper position = do
    token ← or_raise i.token_id value_error
    (if is_decrease i.op then within_position i.liquidity position else ok tt)
    ok (record {
      to = posm;
      value = 0;
      deadline = deadline;
      body =
          posm_body
            (posm_decrease token (removed i) 0 0 ∷ posm_take_pair p.token0 p.token1 i.wallet ∷ [])
            (lp_shape i p posm lower upper (removed i));
      approvals = [];
      permit = none;
      staging = [];
      signature = none;
    })

  -- `_posm`
  unfoldable pub plan_posm :
      LpIntent → Pool → ℕ → ℤ → ℤ → ℕ → Option PositionState → Dict ℕ → Result TxError Plan
  plan_posm i p deadline lower upper sqrt_price position nonces = pool_key p >>= (λ key.
      if is_adding i.op
      then of_math (sqrt_ratio_at_tick lower) >>= (λ a. of_math (sqrt_ratio_at_tick upper) >>= (λ b.
        of_math (liquidity_for_amounts sqrt_price a b i.amount0 i.amount1)
        >>= (λ l. posm_add i p deadline lower upper nonces key l)))
      else posm_remove i p deadline lower upper position)

  -- `LpPlanner.plan`
  unfoldable pub plan :
      LpIntent → Pool → ℕ → ℕ → Option PositionState → Dict ℕ → Result TxError Plan
  plan i p deadline sqrt_price position nonces =
      or_raise (manager_for p) unsupported_pool >>= (λ manager.
        plan_ticks i p position >>= (λ ticks.
          if str_eq manager posm
          then plan_posm i p deadline ticks.0 ticks.1 sqrt_price position nonces
          else plan_nfpm i p deadline manager ticks.0 ticks.1 position))
