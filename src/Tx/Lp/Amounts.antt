-- ===== src/Tx/Lp/Amounts.antt =====
-- tx_plan.py: `LpPlanner.amounts`, which reads what a position's transaction moved off the ledger, and
-- `_bound_up`.
pub mod Bounds
use robinhoodpools.Prelude.{
  ℕ, ◌+◌, String, Bool, false, ◌&&◌, ◌||◌, Option, none, some, List, [], ◌∷◌, keep, str_eq, ◌==◌,
  if◌then◌else◌, Result, ok, err, ◌>>=◌, ◌>>◌, raise_if,
}
use robinhoodpools.Prelude.Int.{ℤ, pos, ◌-ℤ◌, ◌*ℤ◌, div_ℕ, ltb_ℤ, abs}
use robinhoodpools.Tx.Errors.{TxError, unmodeled_fee}
use robinhoodpools.Tx.Chain.{posm}
use robinhoodpools.Tx.Plan.{mint, increase, decrease, collect, LpShape, LpAmounts}
use robinhoodpools.Tx.Ledger.{Ledger, flow, NfpmEvent}
use robinhoodpools.Tx.Ledger.Logs.{Topics}
use robinhoodpools.Tx.Reconcile.{min_out_for}
use robinhoodpools.Tx.Liquidity.{principal_for_liquidity}
use robinhoodpools.Tx.Lp.{is_adding, is_mint, of_math}

unfoldable pub bound_up : ℤ → ℕ → ℤ
bound_up amount slippage_bps =
    pos 0 -ℤ div_ℕ ((pos 0 -ℤ amount) *ℤ pos (10_000 + slippage_bps)) 10_000

-- The one item of a list
abbrev pub only : {A : Type 0} → List A → Result TxError A
only [] = err unmodeled_fee
only (x ∷ []) = ok x
only (x ∷ y ∷ rest) = err unmodeled_fee

-- What the branches find
pub record Moved : Type 0 where
  pub liquidity : ℕ
  pub amount0 : ℤ
  pub amount1 : ℤ
  pub fees0 : Option ℤ
  pub fees1 : Option ℤ

abbrev pub optional : Option ℤ → ℤ
optional none = pos 0
optional (some x) = x

abbrev pub same_id : Option ℕ → ℕ → Bool
same_id none t = false
same_id (some n) t = n == t

unfoldable pub position_id : LpShape → Ledger → Result TxError (Option ℕ)
position_id s l =
    if is_mint s.op
    then only (keep (λ m. str_eq m.manager s.manager && str_eq m.owner s.wallet) l.nft_mints)
      >>= (λ m. ok (some m.token_id))
    else ok s.token_id

-- The fees are what came beyond the principal, where there is a price to read it at.
abbrev pub posm_fees : LpShape → ℕ → ℤ → ℤ → Option ℕ → Result TxError (Option ℤ × Option ℤ)
posm_fees s liquidity amount0 amount1 none = ok (none, none)
posm_fees s liquidity amount0 amount1 (some price) =
    if is_adding s.op
    then ok (none, none)
    else of_math (principal_for_liquidity price s.tick_lower s.tick_upper liquidity false)
      >>= (λ p. ok (some (amount0 -ℤ pos p.0), some (amount1 -ℤ pos p.1)))

unfoldable pub posm_moved : LpShape → Ledger → Option ℕ → Result TxError Moved
posm_moved s l price = do
  d ← only (keep (λ x. str_eq x.pool_id s.pool.id) l.liquidity_deltas)
  flow0 ← flow l s.pool.token0 s.wallet
  flow1 ← flow l s.pool.token1 s.wallet
  fees ←
      posm_fees s (abs d.delta) (if is_adding s.op then pos 0 -ℤ flow0 else flow0)
        (if is_adding s.op then pos 0 -ℤ flow1 else flow1) price
  ok (record {
    liquidity = abs d.delta;
    amount0 = if is_adding s.op then pos 0 -ℤ flow0 else flow0;
    amount1 = if is_adding s.op then pos 0 -ℤ flow1 else flow1;
    fees0 = fees.0;
    fees1 = fees.1;
  })

abbrev pub events_of : String → List NfpmEvent → List NfpmEvent
events_of name events = keep (λ e. str_eq e.topic name) events

abbrev pub nfpm_taken : List NfpmEvent → List NfpmEvent → Result TxError Moved
nfpm_taken [] (c ∷ []) = ok (record {
  liquidity = 0;
  amount0 = pos c.amount0;
  amount1 = pos c.amount1;
  fees0 = some (pos c.amount0 -ℤ pos 0);
  fees1 = some (pos c.amount1 -ℤ pos 0);
})
nfpm_taken (d ∷ []) (c ∷ []) = ok (record {
  liquidity = d.liquidity;
  amount0 = pos c.amount0;
  amount1 = pos c.amount1;
  fees0 = some (pos c.amount0 -ℤ pos d.amount0);
  fees1 = some (pos c.amount1 -ℤ pos d.amount1);
})
nfpm_taken _ _ = err unmodeled_fee

unfoldable pub nfpm_moved : Topics → LpShape → Ledger → Option ℕ → Result TxError Moved
nfpm_moved names s l token_id =
    let events =
      keep (λ e. str_eq e.manager s.manager && same_id token_id e.token_id) l.nfpm_events in
    if is_adding s.op
    then only (events_of names.nfpm_increase events) >>= (λ e. ok (record {
      liquidity = e.liquidity;
      amount0 = pos e.amount0;
      amount1 = pos e.amount1;
      fees0 = none;
      fees1 = none;
    }))
    else nfpm_taken (events_of names.nfpm_decrease events) (events_of names.nfpm_collect events)

-- `bound0` or `bound1`, of an amount and its fees.
unfoldable pub lp_bound : LpShape → ℕ → ℤ → Option ℤ → ℤ
lp_bound s slippage_bps amount fees =
    if is_adding s.op && str_eq s.manager posm
    then bound_up amount slippage_bps
    else if is_adding s.op
    then min_out_for amount slippage_bps
    else elim s.op [
      | collect ↦ pos 0
      | decrease ↦ min_out_for (amount -ℤ optional fees) slippage_bps
      | mint ↦ min_out_for (amount -ℤ optional fees) slippage_bps
      | increase ↦ min_out_for (amount -ℤ optional fees) slippage_bps
    ]

-- `LpPlanner.amounts`
unfoldable pub amounts : Topics → LpShape → Ledger → ℕ → Option ℕ → Result TxError LpAmounts
amounts names s l slippage_bps price = do
  token_id ← position_id s l
  m ← (if str_eq s.manager posm then posm_moved s l price else nfpm_moved names s l token_id)
  raise_if (ltb_ℤ m.amount0 (pos 0) || ltb_ℤ m.amount1 (pos 0)) unmodeled_fee
  ok (record {
    liquidity = m.liquidity;
    amount0 = m.amount0;
    amount1 = m.amount1;
    fees0 = m.fees0;
    fees1 = m.fees1;
    token_id = token_id;
    bound0 = lp_bound s slippage_bps m.amount0 m.fees0;
    bound1 = lp_bound s slippage_bps m.amount1 m.fees1;
  })
