-- ===== src/Tx/Lp/Finalize.antt =====
-- tx_plan.py: `LpPlanner.finalize`.
use robinhoodpools.Prelude.{ℕ, Option, map, Result, ok, err, ◌>>◌, raise_if}
use robinhoodpools.Tx.Errors.{TxError, internal, permit_required}
use robinhoodpools.Tx.Chain.{
  Bytes, PosmParam, posm_mint, posm_increase, posm_decrease, posm_settle_pair, posm_take_pair,
  posm_sweep, NfpmCall, nfpm_mint, nfpm_increase, nfpm_decrease, nfpm_collect,
}
use robinhoodpools.Tx.Plan.{swap_body, router_body, nfpm_body, posm_body, Plan}
use robinhoodpools.Tx.Swap.Finalize.{lacks_signature}

abbrev pub bound_call : ℕ → ℕ → NfpmCall → NfpmCall
bound_call b0 b1 (nfpm_mint t0 t1 f l u x y m0 m1 r d) = nfpm_mint t0 t1 f l u x y b0 b1 r d
bound_call b0 b1 (nfpm_increase t x y m0 m1 d) = nfpm_increase t x y b0 b1 d
bound_call b0 b1 (nfpm_decrease t q m0 m1 d) = nfpm_decrease t q b0 b1 d
bound_call b0 b1 (nfpm_collect t r m0 m1) = nfpm_collect t r m0 m1

abbrev pub bound_param : ℕ → ℕ → PosmParam → PosmParam
bound_param b0 b1 (posm_mint k l u q m0 m1 o) = posm_mint k l u q b0 b1 o
bound_param b0 b1 (posm_increase t q m0 m1) = posm_increase t q b0 b1
bound_param b0 b1 (posm_decrease t q m0 m1) = posm_decrease t q b0 b1
bound_param b0 b1 (posm_settle_pair x y) = posm_settle_pair x y
bound_param b0 b1 (posm_take_pair x y r) = posm_take_pair x y r
bound_param b0 b1 (posm_sweep c r) = posm_sweep c r

unfoldable pub finalize : Plan → ℕ → ℕ → Option Bytes → Result TxError Plan
finalize plan b0 b1 signature = elim plan.body [
  | nfpm_body call collect_call shape ↦
      ok (record plan { body = nfpm_body (bound_call b0 b1 call) collect_call shape })
  | posm_body params shape ↦
      raise_if (lacks_signature plan.permit signature) permit_required
      >> ok (record plan {
        body = posm_body (map (bound_param b0 b1) params) shape;
        signature = signature;
      })
  | swap_body commands index shape split ↦ err internal
  | router_body shape gross ↦ err internal
]
