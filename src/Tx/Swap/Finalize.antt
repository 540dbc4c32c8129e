-- ===== src/Tx/Swap/Finalize.antt =====
-- tx_plan.py: `_with_min_out` and `SwapPlanner.finalize`.
use robinhoodpools.Prelude.{
  ℕ, zero, suc, ◌+◌, ◌-◌, ◌*◌, ◌/◌, Bool, true, false, not, ◌&&◌, Option, none, some, List, [], ◌∷◌,
  ltb, leb, ◌==◌, length, get_elem?, if◌then◌else◌, Result, ok, err, ◌>>=◌, ◌>>◌, raise_if,
  or_raise,
}
use robinhoodpools.Prelude.Int.{ℤ, pos, negsuc, ◌+ℤ◌, ◌-ℤ◌, ◌*ℤ◌}
use robinhoodpools.Tx.Errors.{
  TxError, internal, permit_required, zero_division, index_error, value_error,
}
use robinhoodpools.Tx.Chain.{
  Bytes, V4Param, v4_settle, v4_settle_all, v4_take, v4_swap_exact_in_single, UrCommand,
  unwrap_weth, sweep, v3_swap, v2_swap, v4_swap,
}
use robinhoodpools.Tx.Routes.{hops}
use robinhoodpools.Tx.Plan.{
  SplitLeg, Split, swap_body, router_body, nfpm_body, posm_body, Permit, Plan,
}
use robinhoodpools.Tx.Reconcile.{floor_div, is_zero}
use robinhoodpools.Tx.Reconcile.Split.{sum_out}

abbrev pub param_min : ℕ → V4Param → V4Param
param_min m (v4_swap_exact_in_single k z a x) = v4_swap_exact_in_single k z a m
param_min m (v4_settle c a p) = v4_settle c a p
param_min m (v4_settle_all c a) = v4_settle_all c a
param_min m (v4_take c r a) = v4_take c r a

abbrev pub params_min : ℕ → List V4Param → List V4Param
params_min m [] = []
params_min m (p ∷ ps) = param_min m p ∷ params_min m ps

-- `_with_min_out`
unfoldable pub with_min_out : UrCommand → ℕ → Result TxError UrCommand
with_min_out (v3_swap r a x p u) m = ok (v3_swap r a m p u)
with_min_out (v2_swap r a x p u) m = ok (v2_swap r a m p u)
with_min_out (sweep t r x) m = ok (sweep t r m)
with_min_out (unwrap_weth r x) m = ok (unwrap_weth r m)
with_min_out (v4_swap ps) m = ok (v4_swap (params_min m ps))
with_min_out _ m = err internal

-- `commands[i] = c`
unfoldable pub set_at : List UrCommand → ℕ → UrCommand → Result TxError (List UrCommand)
set_at [] i c = err index_error
set_at (x ∷ xs) zero c = ok (c ∷ xs)
set_at (x ∷ xs) (suc i) c = set_at xs i c >>= (λ rest. ok (x ∷ rest))

-- `commands[i] = _with_min_out(commands[i], m)`
unfoldable pub bound_at : List UrCommand → ℕ → ℕ → Result TxError (List UrCommand)
bound_at commands i m = do
  c ← or_raise (get_elem? commands i) index_error
  bounded ← with_min_out c m
  set_at commands i bounded

abbrev pub is_swap : UrCommand → Bool
is_swap (v3_swap r a x p u) = true
is_swap (v2_swap r a x p u) = true
is_swap (v4_swap ps) = true
is_swap _ = false

-- `swaps`: the indices of the swaps, the first command having index `i`.
unfoldable pub swap_indices : ℕ → List UrCommand → List ℕ
swap_indices i [] = []
swap_indices i (c ∷ cs) = let rest = swap_indices (suc i) cs in if is_swap c then i ∷ rest else rest

-- A bound below zero, which the encoding refuses, is refused here.
abbrev pub as_uint : ℤ → Result TxError ℕ
as_uint (pos n) = ok n
as_uint (negsuc n) = err value_error

-- The loop over the legs: the bound of the leg goes to its last swap, the last leg taking the rest.
abbrev pub leg_bound : ℕ → ℤ → ℤ → SplitLeg → List SplitLeg → ℤ
leg_bound min_out total assigned leg [] = pos min_out -ℤ assigned
leg_bound min_out total assigned leg (next ∷ rest) = floor_div (pos min_out *ℤ leg.amount_out) total

unfoldable pub bound_legs :
    ℕ → ℤ → List ℕ → ℕ → ℤ → List SplitLeg → List UrCommand → Result TxError (List UrCommand)
bound_legs min_out total swaps count assigned [] commands = ok commands
bound_legs min_out total swaps count assigned (leg ∷ legs) commands =
    let bound = leg_bound min_out total assigned leg legs in
    let counted = count + length (hops leg.route) in
    or_raise (get_elem? swaps (counted - 1)) index_error >>= (λ at_. as_uint bound >>= (λ m.
      bound_at commands at_ m
      >>= (λ next. bound_legs min_out total swaps counted (assigned +ℤ bound) legs next)))

abbrev pub bound_split : ℕ → Option Split → List UrCommand → Result TxError (List UrCommand)
bound_split min_out none commands = ok commands
bound_split min_out (some split) commands =
    if ltb 1 (length split.legs) && not (is_zero (sum_out split.legs))
    then bound_legs min_out (sum_out split.legs) (swap_indices 0 commands) 0 (pos 0) split.legs
        commands
    else ok commands

-- `gross_min`; with a fee of all or more it is reached only for a minimum of zero.
unfoldable pub gross_min : ℕ → ℕ → Result TxError ℕ
gross_min min_out fee_bps =
    if leb 10_000 fee_bps && ltb 0 min_out
    then err internal
    else if fee_bps == 10_000
    then err zero_division
    else if ltb 10_000 fee_bps
    then ok ((fee_bps - 10_000 + 1) / (fee_bps - 10_000))
    else ok ((min_out * 10_000 + (10_000 - fee_bps) - 1) / (10_000 - fee_bps))

abbrev pub lacks_signature : Option Permit → Option Bytes → Bool
lacks_signature (some permit) none = true
lacks_signature _ _ = false

-- `finalize`, of the signature in `sigs.permit`
unfoldable pub finalize : Plan → ℕ → Option Bytes → Result TxError Plan
finalize plan min_out signature = elim plan.body [
  | router_body shape gross ↦
      gross_min min_out shape.fee_bps >>= (λ g. ok (record plan { body = router_body shape g }))
  | swap_body commands i shape split ↦
      raise_if (lacks_signature plan.permit signature) permit_required
      >> (bound_at commands i min_out >>= (λ bounded.
          bound_split min_out split bounded >>= (λ final.
            ok (record plan { body = swap_body final i shape split; signature = signature }))))
  | nfpm_body call collect_call shape ↦ err internal
  | posm_body params shape ↦ err internal
]
