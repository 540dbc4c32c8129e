-- ===== src/Tx/Reconcile/Split.antt =====
-- tx_plan.py: `split_amounts`, which reads the amounts of an order split over several routes off the
-- ledger.
pub mod Laws
mod Tests
use robinhoodpools.Prelude.{
  ℕ, ◌+◌, String, Bool, true, false, not, ◌&&◌, Option, none, some, List, [], ◌∷◌, ◌++◌, map,
  str_eq, ◌==◌, if◌then◌else◌, Result, ok, err, ◌>>=◌, ◌>>◌, raise_if,
}
use robinhoodpools.Prelude.Int.{ℤ, pos, ◌+ℤ◌, ◌-ℤ◌, ◌*ℤ◌, div_ℕ, eq_ℤ}
use robinhoodpools.Dict.{Dict, get, put}
use robinhoodpools.Tx.Errors.{TxError, unmodeled_fee, zero_division}
use robinhoodpools.Tx.Routes.{Pool, HookPolicy, is_pons, Hop, Route, hops}
use robinhoodpools.Tx.Plan.{FeeLeg, input, output, Fee, SwapShape, SplitLeg, Split, Amounts}
use robinhoodpools.Tx.Ledger.{Ledger, hop_key, hop_io, or_zero}
use robinhoodpools.Tx.Reconcile.{
  floor_bps, hook_part, creator_part, after_hook, fee_in, fee_amount, net_of, floor_div, is_zero,
  check_fee, check_out, check_in,
}

-- What the loop over the hops of one leg carries, with what it adds to over all legs.
pub record LegWalk : Type 0 where
  pub carry : ℤ
  pub hop_out : ℤ
  pub seen : Dict ℕ
  pub hook_total : ℤ
  pub creator_total : ℤ
  pub hook_currency : Option String

abbrev pub next_leg_walk : Hop → HookPolicy → ℤ → LegWalk → LegWalk
next_leg_walk h p out w = record {
  carry = after_hook p out;
  hop_out = out;
  seen = put (hop_key h) (or_zero (get (hop_key h) w.seen) + 1) w.seen;
  hook_total = if is_pons p then w.hook_total +ℤ hook_part p out else w.hook_total;
  creator_total = if is_pons p then w.creator_total +ℤ creator_part p out else w.creator_total;
  hook_currency = if is_pons p then some h.currency_out else w.hook_currency;
}

-- What the loop over the legs carries.
pub record SplitWalk : Type 0 where
  pub allocated : ℤ
  pub pool_out : ℤ
  pub outs : List SplitLeg
  pub last : LegWalk

abbrev pub is_last : List SplitLeg → Bool
is_last [] = true
is_last (x ∷ xs) = false

-- The input of a leg that does not take the rest
abbrev pub leg_share : SwapShape → ℤ → SplitLeg → Result TxError ℤ
leg_share s net_input leg = do
  raise_if (s.amount_in == 0) zero_division
  ok (div_ℕ (pos leg.amount_in *ℤ net_input) s.amount_in)

abbrev pub share_of : Bool → SwapShape → ℤ → ℤ → SplitLeg → List SplitLeg → Result TxError ℤ
share_of net_shares s net_input allocated leg rest =
    if net_shares
    then ok (pos leg.amount_in)
    else if is_last rest
    then ok (net_input -ℤ allocated)
    else leg_share s net_input leg

abbrev pub sum_in : List SplitLeg → ℤ
sum_in [] = pos 0
sum_in (x ∷ xs) = pos x.amount_in +ℤ sum_in xs

abbrev pub sum_out : List SplitLeg → ℤ
sum_out [] = pos 0
sum_out (x ∷ xs) = x.amount_out +ℤ sum_out xs

-- The loop that shares the net output out: the last leg gets the rest.
unfoldable pub distribute : ℤ → ℤ → ℤ → List SplitLeg → List SplitLeg
distribute net_out gross_out distributed [] = []
distribute net_out gross_out distributed (x ∷ []) =
    record x { amount_out = net_out -ℤ distributed } ∷ []
distribute net_out gross_out distributed (x ∷ y ∷ xs) =
    let net_leg = floor_div (x.amount_out *ℤ net_out) gross_out in
    record x { amount_out = net_leg }
    ∷ distribute net_out gross_out (distributed +ℤ net_leg) (y ∷ xs)

-- The legs' outputs after the fee
unfoldable pub net_legs : FeeLeg → ℤ → ℤ → List SplitLeg → List SplitLeg
net_legs input net_out gross_out outs = outs
net_legs output net_out gross_out outs =
    if is_zero gross_out then outs else distribute net_out gross_out (pos 0) outs

abbrev pub hook_fee_of : Option String → ℤ → Option Fee
hook_fee_of none amount = none
hook_fee_of (some currency) amount = some (record { currency = currency; amount = amount })

abbrev pub split_made : SwapShape → SplitWalk → ℤ → Amounts
split_made s w gross_out = record {
  amount_in = s.amount_in;
  pool_out = w.pool_out;
  hook_fee = hook_fee_of w.last.hook_currency w.last.hook_total;
  creator_tax = hook_fee_of w.last.hook_currency w.last.creator_total;
  rhpools_fee = record { currency = s.fee_currency; amount = fee_amount s gross_out };
  net_out = net_of s gross_out;
  min_out = pos 0;
  impact_bps = none;
}

module _ (ledger : Ledger) (hook_policy : Pool → Result TxError HookPolicy) where
  unfoldable pub walk_leg : List Hop → LegWalk → Result TxError LegWalk
  walk_leg [] w = ok w
  walk_leg (h ∷ hs) w = hop_io ledger h (some (or_zero (get (hop_key h) w.seen))) >>= (λ io.
      raise_if (not (eq_ℤ io.0 w.carry)) unmodeled_fee
      >> (hook_policy h.pool >>= (λ p. walk_leg hs (next_leg_walk h p io.1 w))))

  abbrev pub add_leg : SplitLeg → ℤ → SplitWalk → LegWalk → SplitWalk
  add_leg leg share w walked = record {
    allocated = w.allocated +ℤ share;
    pool_out = w.pool_out +ℤ walked.hop_out;
    outs = w.outs ++ (record leg { amount_out = walked.carry } ∷ []);
    last = walked;
  }

  unfoldable pub walk_legs :
      Bool → SwapShape → ℤ → List SplitLeg → SplitWalk → Result TxError SplitWalk
  walk_legs net_shares s net_input [] w = ok w
  walk_legs net_shares s net_input (leg ∷ legs) w =
      share_of net_shares s net_input w.allocated leg legs >>= (λ share.
        walk_leg (hops leg.route) (record w.last { carry = share })
        >>= (λ walked. walk_legs net_shares s net_input legs (add_leg leg share w walked)))

abbrev pub first_split : SplitWalk
first_split = record {
  allocated = pos 0;
  pool_out = pos 0;
  outs = [];
  last = record {
    carry = pos 0;
    hop_out = pos 0;
    seen = [];
    hook_total = pos 0;
    creator_total = pos 0;
    hook_currency = none;
  };
}

-- The checks and the answer, after the loop over the legs
unfoldable pub split_settle : SwapShape → Ledger → SplitWalk → Result TxError (Amounts × Split)
split_settle s l w =
    let gross_out = sum_out w.outs in
    do
      check_fee l s (fee_amount s gross_out)
      check_out l s (net_of s gross_out)
      check_in l s
      ok (
        split_made s w gross_out,
        record { legs = net_legs s.fee_leg (net_of s gross_out) gross_out w.outs },
      )

unfoldable pub split_amounts :
    SwapShape
    → Split
    → Ledger
    → (Pool → Result TxError HookPolicy)
    → Bool
    → Result TxError (Amounts × Split)
split_amounts s split l hook_policy net_shares =
    let net_input = pos s.amount_in -ℤ fee_in s in
    raise_if (net_shares && not (eq_ℤ (sum_in split.legs) net_input)) unmodeled_fee
    >> (walk_legs l hook_policy net_shares s net_input split.legs first_split
        >>= (λ w. split_settle s l w))
