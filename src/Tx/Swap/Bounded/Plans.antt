-- ===== src/Tx/Swap/Bounded/Plans.antt =====
-- `SwapPlanner.finalize` of tx_plan.py on the plans that `SwapPlanner.plan` makes.
use robinhoodpools.Prelude.{
  ℕ, zero, suc, ◌+◌, ◌-◌, ◌*◌, ◌/◌, ◌≤◌, ◌<◌, ◌≡◌, refl, sym, ap, String, false, not, Option, none,
  some, List, [], ◌∷◌, arith, get_elem?, Bool-cases, Option-cases, Result-cases, inl, inr, Result,
  ok, err,
}
use robinhoodpools.Math.Deltas.{le-ceil}
use robinhoodpools.Tx.Errors.{TxError}
use robinhoodpools.Tx.Chain.{Bytes, UrCommand}
use robinhoodpools.Tx.Chain.Abi.{Abi}
use robinhoodpools.Tx.Routes.{Route, hops}
use robinhoodpools.Tx.Plan.{
  TxPolicy, SwapIntent, Body, swap_body, router_body, nfpm_body, posm_body, Plan, Permit,
}
use robinhoodpools.Tx.Swap.{
  Build, serves, own_router, close, opening, ur_shape, router_shape, router_approvals, add_hops,
  approve_all, ur_staging, plan_router, plan_ur, plan, plan_value, ur_approvals, ur_permit,
}
use robinhoodpools.Tx.Swap.Finalize.{set_at, bound_at, gross_min, lacks_signature, finalize}
use robinhoodpools.Tx.Swap.Bounded.{carries, Minable, SlotOk, add_hops-SlotOk, close-SlotOk}
use robinhoodpools.Tx.Chain.{ur}

-- What bounds the output of a finalized plan: the command in the slot carries the minimum, or the
-- router's own minimum, less the fee on it, is enough for it.
abbrev pub Bounds : ℕ → Body → Type 0
Bounds m (swap_body commands i shape split) =
    (c : UrCommand) × ((get_elem? commands i ≡ some c) × (carries c ≡ some m))
Bounds m (router_body shape gross) = m * 10_000 ≤ gross * (10_000 - shape.fee_bps)
Bounds m (nfpm_body call collect_call shape) = ⊥
Bounds m (posm_body params shape) = ⊥

set_at-some :
    (cs : List UrCommand) (i : ℕ) (c d : UrCommand)
    → get_elem? cs i ≡ some c
    → (ds : List UrCommand) × ((set_at cs i d ≡ ok ds) × (get_elem? ds i ≡ some d))
unfolding set_at
set_at-some [] i c d h = absurd (cc h)
set_at-some (x ∷ xs) zero c d h = (d ∷ xs, (refl, refl))
set_at-some (x ∷ xs) (suc i) c d h =
    let (ds, (e, at_)) = set_at-some xs i c d h in (x ∷ ds, (rw (set_at, e) refl, at_))

bound_at-some :
    (cs : List UrCommand) (i m : ℕ) (c : UrCommand)
    → get_elem? cs i ≡ some c
    → Minable c
    → (ds : List UrCommand) × ((bound_at cs i m ≡ ok ds)
        × ((d : UrCommand) × ((get_elem? ds i ≡ some d) × (carries d ≡ some m))))
unfolding bound_at
bound_at-some cs i m c h min =
    let (d, (ed, carried)) = min m in
    let (ds, (es, at_)) = set_at-some cs i c d h in
    (ds, (rw (bound_at, h, ed, es) refl, (d, (at_, carried))))

gross_min-enough :
    (m bps : ℕ)
    → bps < 10_000
    → (g : ℕ) × ((gross_min m bps ≡ ok g) × (m * 10_000 ≤ g * (10_000 - bps)))
unfolding gross_min
gross_min-enough m bps small =
    let d = 10_000 - bps in
    (
      (m * 10_000 + d - 1) / d,
      (ground (arith, small), le-ceil (m * 10_000) d (omega (arith, small))),
    )

-- What `finalize` needs of a plan.
abbrev pub Ready : TxPolicy → Body → Type 0
Ready policy (swap_body commands i shape split) =
    (split ≡ none) × ((c : UrCommand) × ((get_elem? commands i ≡ some c) × Minable c))
Ready policy (router_body shape gross) = shape.fee_bps ≡ policy.fee_bps
Ready policy (nfpm_body call collect_call shape) = ⊥
Ready policy (posm_body params shape) = ⊥

signed_lem :
    (permit : Option Permit) (signature : Bytes) → lacks_signature permit (some signature) ≡ false
signed_lem none signature = refl
signed_lem (some permit) signature = refl

finalize-Bounds :
    (policy : TxPolicy) (p : Plan) (m : ℕ) (signature : Bytes)
    → policy.fee_bps < 10_000
    → Ready policy p.body
    → (q : Plan) × ((finalize p m (some signature) ≡ ok q) × Bounds m q.body)
unfolding finalize
finalize-Bounds policy p m signature small ready =
    elim p.body
        as (λ (b : Body).
          p.body ≡ b
          → Ready policy b
          → (q : Plan) × ((finalize p m (some signature) ≡ ok q) × Bounds m q.body)) [
            | swap_body commands i shape split ↦ λ e r.
                let (unsplit, (c, (at_, min))) = r in
                let (ds, (eb, bounded)) = bound_at-some commands i m c at_ min in
                (
                  record p { body = swap_body ds i shape split; signature = some signature },
                  (rw (finalize, e, signed_lem p.permit signature, eb, unsplit) refl, bounded),
                )
            | router_body shape gross ↦ λ e r.
                let (g, (eg, enough)) = gross_min-enough m shape.fee_bps (rw (r) small) in
                (record p { body = router_body shape g }, (rw (finalize, e, eg) refl, enough))
            | nfpm_body call collect_call shape ↦ λ e r. absurd r
            | posm_body params shape ↦ λ e r. absurd r
          ]
      refl ready

plan_of : Result TxError Plan → Plan → Plan
plan_of (ok p) d = p
plan_of (err e) d = d

module _ (abi : Abi) (fromhex : String → Bytes) (hex : Bytes → String) where
  plan_router-Ready :
      (i : SwapIntent) (r : Route) (policy : TxPolicy) (deadline : ℕ) (to : String) (p : Plan)
      → plan_router abi fromhex hex i r policy deadline to ≡ ok p
      → Ready policy p.body
  unfolding plan_router plan_of
  plan_router-Ready i r policy deadline to p h =
      elim (Result-cases (approve_all abi fromhex hex (router_approvals i to))) [
        | inr (x, e) ↦ absurd (cc (rw (plan_router, e) at h))
        | inl (calls, e) ↦
            let made : Plan = record {
              to = to;
              value = plan_value i;
              deadline = deadline;
              body = router_body (router_shape i r policy) 0;
              approvals = router_approvals i to;
              permit = none;
              staging = calls;
              signature = none;
            } in
            let h' : ok made ≡ ok p = rw (plan_router, e) at h in
            let is : p ≡ made = sym (ap (λ (x : Result TxError Plan). plan_of x p) h') in rw is refl
      ]

  plan_ur-Ready :
      (i : SwapIntent) (r : Route) (policy : TxPolicy) (deadline nonce : ℕ) (p : Plan)
      → plan_ur abi fromhex hex i r policy deadline nonce ≡ ok p
      → Ready policy p.body
  unfolding plan_ur plan_of
  plan_ur-Ready i r policy deadline nonce p h =
      elim (Result-cases (ur_staging abi fromhex hex i deadline)) [
        | inr (x, e) ↦ absurd (cc (rw (plan_ur, e) at h))
        | inl (calls, ec) ↦
            elim (Result-cases (add_hops abi fromhex hex i (hops r) (opening i policy))) [
              | inr (x, e) ↦ absurd (cc (rw (plan_ur, ec, e) at h))
              | inl (b, eb) ↦ elim (Option-cases (close i policy b).slot) [
                | inl e ↦ absurd (cc (rw (plan_ur, ec, eb, e) at h))
                | inr (index, es) ↦
                    let made : Plan = record {
                      to = ur;
                      value = plan_value i;
                      deadline = deadline;
                      body =
                          swap_body (close i policy b).commands index (ur_shape i r policy b) none;
                      approvals = ur_approvals i;
                      permit = ur_permit i deadline nonce;
                      staging = calls;
                      signature = none;
                    } in
                    let h' : ok made ≡ ok p = rw (plan_ur, ec, eb, es) at h in
                    let is : p ≡ made = sym (ap (λ (x : Result TxError Plan). plan_of x p) h') in
                    let slot =
                      close-SlotOk i policy b
                        (add_hops-SlotOk fromhex hex abi i (hops r) (opening i policy) b tt eb) in
                    rw is (refl, slot_at (close i policy b) index es slot)
              ]
            ]
      ]
    where
      slot_at :
          (b : Build) (index : ℕ)
          → b.slot ≡ some index
          → SlotOk b
          → (c : UrCommand) × ((get_elem? b.commands index ≡ some c) × Minable c)
      slot_at b index e s = rw (e) at s

  -- Every plan that `plan` makes can be finalized with a signature, where the fee is less than all. The
  -- output is then bounded by the minimum asked for: in a plan for the UniversalRouter the command at
  -- `min_out_index` carries it, and for a venue's own router the gross minimum is enough for it after
  -- the fee.
  pub plan-finalize :
      (i : SwapIntent) (r : Route) (policy : TxPolicy) (deadline nonce m : ℕ) (signature : Bytes)
      (p : Plan)
      → policy.fee_bps < 10_000
      → plan abi fromhex hex i r policy deadline nonce ≡ ok p
      → (q : Plan) × ((finalize p m (some signature) ≡ ok q) × Bounds m q.body)
  unfolding plan
  plan-finalize i r policy deadline nonce m signature p small h =
      finalize-Bounds policy p m signature small ready
    where
      ready : Ready policy p.body
      ready = elim (Bool-cases (not (serves i r))) [
        | inl e ↦ absurd (cc (rw (plan, e) at h))
        | inr e0 ↦ elim (Option-cases (own_router r)) [
          | inr (to, e) ↦ plan_router-Ready i r policy deadline to p (rw (plan, e0, e) at h)
          | inl e ↦ plan_ur-Ready i r policy deadline nonce p (rw (plan, e0, e) at h)
        ]
      ]
