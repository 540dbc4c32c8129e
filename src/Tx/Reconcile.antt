-- ===== src/Tx/Reconcile.antt =====
-- tx_plan.py: `swap_amounts`, which reads the amounts of a swap off the ledger and refuses any
-- disagreement, `min_out_for` and `impact_bps`. `hook_policy` is an argument, as it is there.
pub mod Agree
pub mod Split
use robinhoodpools.Prelude.{
  ℕ, ◌+◌, ◌-◌, ◌*◌, String, Bool, true, false, not, ◌&&◌, Option, none, some, List, [], ◌∷◌, str_eq,
  ltb, ◌==◌, if◌then◌else◌, Result, ok, err, ◌>>=◌, ◌>>◌, raise_if,
}
use robinhoodpools.Prelude.Int.{ℤ, pos, negsuc, ◌+ℤ◌, ◌-ℤ◌, ◌*ℤ◌, div_ℕ, eq_ℤ, max_ℤ, sub_ℕ}
use robinhoodpools.Tx.Errors.{TxError, unmodeled_fee, zero_division}
use robinhoodpools.Tx.Chain.{native}
use robinhoodpools.Tx.Routes.{Pool, HookPolicy, is_pons, Hop, hops}
use robinhoodpools.Tx.Plan.{FeeLeg, input, output, Fee, SwapShape, Amounts}
use robinhoodpools.Tx.Ledger.{Ledger, observable, received, sent, flow, hop_io}

-- `_floor_bps`
unfoldable pub floor_bps : ℤ → ℕ → ℤ
floor_bps amount bps = div_ℕ (amount *ℤ pos bps) 10_000

-- What the loop over the hops carries.
pub record Walk : Type 0 where
  pub carry : ℤ
  pub pool_out : ℤ
  pub hook_fee : Option Fee
  pub creator_tax : Option Fee

abbrev pub hook_part : HookPolicy → ℤ → ℤ
hook_part p out = floor_bps out p.hook_fee_bps

abbrev pub creator_part : HookPolicy → ℤ → ℤ
creator_part p out = floor_bps out p.creator_tax_bps

-- `carry`, after a hop that gave out `out`
abbrev pub after_hook : HookPolicy → ℤ → ℤ
after_hook p out = if is_pons p then out -ℤ (hook_part p out +ℤ creator_part p out) else out

abbrev pub next_walk : Hop → HookPolicy → ℤ → Walk → Walk
next_walk h p out w = record {
  carry = after_hook p out;
  pool_out = out;
  hook_fee =
      if is_pons p
      then some (record { currency = h.currency_out; amount = hook_part p out })
      else w.hook_fee;
  creator_tax =
      if is_pons p
      then some (record { currency = h.currency_out; amount = creator_part p out })
      else w.creator_tax;
}

-- The fee that is taken of what comes in.
abbrev pub fee_in : SwapShape → ℤ
fee_in s = elim s.fee_leg [ input ↦ floor_bps (pos s.amount_in) s.fee_bps | output ↦ pos 0 ]

-- `fee_amount` and `net_out`, of what the last hop leaves.
abbrev pub fee_amount : SwapShape → ℤ → ℤ
fee_amount s gross = elim s.fee_leg [ input ↦ fee_in s | output ↦ floor_bps gross s.fee_bps ]

abbrev pub net_of : SwapShape → ℤ → ℤ
net_of s gross = elim s.fee_leg [ input ↦ gross | output ↦ gross -ℤ floor_bps gross s.fee_bps ]

module _ (ledger : Ledger) (hook_policy : Pool → Result TxError HookPolicy) where
  unfoldable pub walk_hop : Hop → Walk → Result TxError Walk
  walk_hop h w = do
    io ← hop_io ledger h none
    raise_if (not (eq_ℤ io.0 w.carry)) unmodeled_fee
    p ← hook_policy h.pool
    ok (next_walk h p io.1 w)

  unfoldable pub walk_hops : List Hop → Walk → Result TxError Walk
  walk_hops [] w = ok w
  walk_hops (h ∷ hs) w = walk_hop h w >>= (λ next. walk_hops hs next)

-- The three comparisons with the ledger at the end.
abbrev pub check_fee : Ledger → SwapShape → ℤ → Result TxError (Unit {0})
check_fee l s fee =
    raise_if
      (observable l s.fee_currency
        && not (eq_ℤ (pos (received l s.fee_currency s.fee_recipient)) fee))
      unmodeled_fee

abbrev pub check_out : Ledger → SwapShape → ℤ → Result TxError (Unit {0})
check_out l s net_out =
    if observable l s.currency_out
    then flow l s.currency_out s.wallet >>= (λ got. raise_if (not (eq_ℤ got net_out)) unmodeled_fee)
    else ok tt

abbrev pub check_in : Ledger → SwapShape → Result TxError (Unit {0})
check_in l s =
    raise_if
      (not (str_eq s.currency_in native) && not (sent l s.currency_in s.wallet == s.amount_in))
      unmodeled_fee

abbrev pub made_amounts : SwapShape → Walk → Amounts
made_amounts s w = record {
  amount_in = s.amount_in;
  pool_out = w.pool_out;
  hook_fee = w.hook_fee;
  creator_tax = w.creator_tax;
  rhpools_fee = record { currency = s.fee_currency; amount = fee_amount s w.carry };
  net_out = net_of s w.carry;
  min_out = pos 0;
  impact_bps = none;
}

abbrev pub first_walk : SwapShape → Walk
first_walk s = record {
  carry = pos s.amount_in -ℤ fee_in s;
  pool_out = pos 0;
  hook_fee = none;
  creator_tax = none;
}

unfoldable pub swap_amounts :
    SwapShape → Ledger → (Pool → Result TxError HookPolicy) → Result TxError Amounts
unfolding walk_hops
swap_amounts s l hook_policy = do
  w ← walk_hops l hook_policy (hops s.route) (first_walk s)
  check_fee l s (fee_amount s w.carry)
  check_out l s (net_of s w.carry)
  check_in l s
  ok (made_amounts s w)

unfoldable pub min_out_for : ℤ → ℕ → ℤ
min_out_for net_out slippage_bps = div_ℕ (net_out *ℤ sub_ℕ 10_000 slippage_bps) 10_000

-- `a // b`, which rounds down, for b other than zero.
abbrev pub floor_div : ℤ → ℤ → ℤ
floor_div a (pos b) = div_ℕ a b
floor_div a (negsuc b) = div_ℕ (pos 0 -ℤ a) (b + 1)

abbrev pub is_zero : ℤ → Bool
is_zero a = eq_ℤ a (pos 0)

unfoldable pub impact_bps : Amounts → Amounts → Option ℤ
impact_bps full small =
    if is_zero small.net_out
    then none
    else if full.amount_in == 0
    then none
    else let ratio =
        floor_div (pos 10_000 *ℤ full.net_out *ℤ pos small.amount_in)
          (pos full.amount_in *ℤ small.net_out) in
      some (max_ℤ (pos 0) (pos 10_000 -ℤ ratio))
