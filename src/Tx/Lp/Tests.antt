-- ===== src/Tx/Lp/Tests.antt =====
-- Runs: a position minted in a V4 pool of two tokens, and one increased at a V3 manager.
use robinhoodpools.Prelude.{
  ℕ, ◌-◌, ◌*◌, ◌/◌, ◌≤◌, ◌≡◌, refl, arith, true, none, some, [], ◌∷◌, ok, str_eq,
}
use robinhoodpools.Prelude.Int.{pos, negsuc, ◌≤ℤ◌, ◌*ℤ◌, div_ℕ}
use robinhoodpools.Dict.{get}
use robinhoodpools.Math.{
  q96, sqrt_ratio_at_tick, ratio_at, multiply_bits, round_up_32, floor_div, tick_multipliers,
}
use robinhoodpools.Tx.Chain.{
  native, weth, usdg, posm, nfpm_uniswap, permit2, max_uint128, max_uint256, pool_manager,
  posm_mint, posm_settle_pair,
}
use robinhoodpools.Tx.Chain.Abi.{Abi, done}
use robinhoodpools.Tx.Chain.Calls.{erc20_approve, permit2_approve}
use robinhoodpools.Tx.Routes.{v4, Pool, pool_key}
use robinhoodpools.Tx.Plan.{mint, increase, LpShape, LpAmounts, LpIntent, posm_body, batch, Plan}
use robinhoodpools.Tx.Liquidity.{liquidity_for_amounts, sorted_liquidity, principal_at}
use robinhoodpools.Tx.Lp.{plan, plan_ticks, plan_posm, posm_add, manager_for, lp_shape}
use robinhoodpools.Tx.Lp.Adds.{AddsLiquidity, plan-AddsLiquidity}
use robinhoodpools.Tx.Sample.{wallet, sample_pool, sample_ledger}
use robinhoodpools.Tx.Ledger.{Ledger}
use robinhoodpools.Tx.Ledger.Logs.{Topics}
use robinhoodpools.Tx.Reconcile.{min_out_for}
use robinhoodpools.Tx.Lp.Amounts.{amounts, position_id, nfpm_moved, lp_bound}
use robinhoodpools.Tx.Lp.Amounts.Bounds.{OnSide, amounts-OnSide}

abbrev blank : Abi
blank = record {
  encode = λ types vs. ok [];
  decode = λ types b. ok done;
  selector = λ s. [];
  is_normal = λ a. true;
}

abbrev v4_pool : Pool
v4_pool = record {
  venue = v4;
  id = "0x09";
  address = "";
  token0 = weth;
  token1 = usdg;
  fee_ppm = 500;
  tick_spacing = pos 10;
  hook = native;
  factory = pool_manager;
}

abbrev minting : LpIntent
minting = record {
  wallet = wallet;
  op = mint;
  pool_id = "0x09";
  slippage_bps = 50;
  tick_lower = negsuc 9;
  tick_upper = pos 10;
  amount0 = 0;
  amount1 = 1_000;
  liquidity = 0;
  token_id = none;
}

abbrev above : ℕ
above = 2 * q96

abbrev low_ratio : ℕ
low_ratio = ratio_at (negsuc 9)

abbrev high_ratio : ℕ
high_ratio = ratio_at (pos 10)

abbrev minted_liquidity : ℕ
minted_liquidity = 1_000 * q96 / (high_ratio - low_ratio)

abbrev minted : Plan
minted = record {
  to = posm;
  value = 0;
  deadline = 99;
  body =
      posm_body
        (posm_mint
            (record {
              currency0 = weth;
              currency1 = usdg;
              fee = 500;
              tick_spacing = pos 10;
              hooks = native;
            })
            (negsuc 9) (pos 10) minted_liquidity max_uint128 max_uint128 wallet
          ∷ posm_settle_pair weth usdg
          ∷ [])
        (lp_shape minting v4_pool posm (negsuc 9) (pos 10) minted_liquidity);
  approvals =
      record { token = usdg; spender = permit2; approve_amount = max_uint256; required = 1_000 }
      ∷ [];
  permit = some (
      batch (record {
        details = record { token = usdg; amount = 1_000; expiration = 99; nonce = 3 } ∷ [];
        spender = posm;
        sig_deadline = 99;
      }));
  staging =
      record { to = usdg; calldata = []; value = 0 }
      ∷ record { to = permit2; calldata = []; value = 0 }
      ∷ [];
  signature = none;
}

plan-AddsLiquidity_example :
    (l : ℕ) × (AddsLiquidity minting v4_pool (negsuc 9) (pos 10) l minted
      × ((u : ℕ) × ((v : ℕ) × ((principal_at above low_ratio high_ratio l true ≡ ok (u, v))
              × ((u ≤ 0) × (v ≤ 1_000))))))
unfolding plan plan_posm posm_add manager_for pool_key plan_ticks sqrt_ratio_at_tick ratio_at
    multiply_bits round_up_32 liquidity_for_amounts sorted_liquidity floor_div erc20_approve
    permit2_approve get tick_multipliers
plan-AddsLiquidity_example =
    plan-AddsLiquidity blank minting v4_pool 99 above none ((usdg, 3) ∷ []) (negsuc 9) (pos 10)
      low_ratio high_ratio minted refl refl refl refl refl (omega arith) (omega arith) refl

abbrev names : Topics
names = record {
  transfer = "transfer";
  v4_swap = "v4_swap";
  v3_swap = "v3_swap";
  pancake_swap = "pancake_swap";
  v2_swap = "v2_swap";
  nfpm_increase = "increase";
  nfpm_decrease = "decrease";
  nfpm_collect = "collect";
  v4_modify_liquidity = "modify";
}

abbrev increasing : LpShape
increasing = record {
  wallet = wallet;
  op = increase;
  pool = sample_pool;
  manager = nfpm_uniswap;
  token_id = some 7;
  tick_lower = negsuc 59;
  tick_upper = pos 60;
  liquidity = 0;
}

abbrev increased : Ledger
increased = record sample_ledger {
  nfpm_events =
      record {
        manager = nfpm_uniswap;
        topic = "increase";
        token_id = 7;
        liquidity = 5;
        amount0 = 100;
        amount1 = 200;
      }
      ∷ [];
}

abbrev found : LpAmounts
found = record {
  liquidity = 5;
  amount0 = pos 100;
  amount1 = pos 200;
  fees0 = none;
  fees1 = none;
  token_id = some 7;
  bound0 = pos 99;
  bound1 = pos 199;
}

amounts-OnSide_example :
    ((pos 0 ≤ℤ found.amount0) × (pos 0 ≤ℤ found.amount1))
    × (OnSide (str_eq increasing.manager posm) found.amount0 found.bound0
        × OnSide (str_eq increasing.manager posm) found.amount1 found.bound1)
unfolding amounts position_id nfpm_moved lp_bound min_out_for ◌*ℤ◌ div_ℕ
amounts-OnSide_example =
    amounts-OnSide names increasing increased 50 none found refl (omega arith) refl
