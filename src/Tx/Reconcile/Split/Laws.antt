-- ===== src/Tx/Reconcile/Split/Laws.antt =====
-- What an answer of `split_amounts` of tx_plan.py says of the ledger and of the legs.
use robinhoodpools.Prelude.{
  ℕ, ◌≡◌, refl, sym, ap, ◌∙◌, Bool, true, false, not, ◌&&◌, List, [], ◌∷◌, arith, Bool-cases,
  Result-cases, inl, inr, Result, ok, err, ◌⊎◌,
}
use robinhoodpools.Prelude.Int.{
  ℤ, pos, ◌+ℤ◌, ◌-ℤ◌, ◌*ℤ◌, eq_ℤ, eq_of_parts, +ℤ_parts, -ℤ_parts, div_ℕ,
}
use robinhoodpools.Tx.Errors.{TxError}
use robinhoodpools.Tx.Routes.{Pool, HookPolicy}
use robinhoodpools.Tx.Plan.{FeeLeg, input, output, SwapShape, SplitLeg, Split, Amounts}
use robinhoodpools.Tx.Ledger.{Ledger}
use robinhoodpools.Tx.Reconcile.{
  floor_bps, fee_in, fee_amount, net_of, floor_div, is_zero, check_fee, check_out, check_in,
}
use robinhoodpools.Tx.Reconcile.Agree.{Settled, eq_ℤ→≡, check_fee-lem, check_out-lem, check_in-lem}
use robinhoodpools.Tx.Reconcile.Split.{
  SplitWalk, sum_in, sum_out, distribute, net_legs, split_made, walk_legs, first_split,
  split_settle, split_amounts,
}

-- What is shared out is the net output, less what was already.
distribute-sum :
    (net gross done : ℤ) (x : SplitLeg) (xs : List SplitLeg)
    → sum_out (distribute net gross done (x ∷ xs)) ≡ net -ℤ done
unfolding distribute
distribute-sum net gross done x [] = eq_of_parts _ _ (omega (arith, +ℤ_parts (net -ℤ done) (pos 0)))
distribute-sum net gross done x (y ∷ xs) =
    let leg = floor_div (x.amount_out *ℤ net) gross in
    let ih = distribute-sum net gross (done +ℤ leg) y xs in
    let target : leg +ℤ (net -ℤ (done +ℤ leg)) ≡ net -ℤ done = eq_of_parts _ _ (
      omega (
        arith,
        +ℤ_parts leg (net -ℤ (done +ℤ leg)),
        -ℤ_parts net (done +ℤ leg),
        +ℤ_parts done leg,
        -ℤ_parts net done,
      )) in
    rw (distribute, ih) target

minus_zero : (a : ℤ) → a -ℤ pos 0 ≡ a
minus_zero a = eq_of_parts _ _ (omega (arith, -ℤ_parts a (pos 0)))

zero_fee : (bps : ℕ) → pos 0 -ℤ floor_bps (pos 0) bps ≡ pos 0
unfolding floor_bps ◌*ℤ◌ ◌-ℤ◌ div_ℕ
zero_fee bps = ground arith

shared-sum :
    (net : ℤ) (legs : List SplitLeg)
    → is_zero (sum_out legs) ≡ false
    → sum_out (distribute net (sum_out legs) (pos 0) legs) ≡ net
shared-sum net [] z = absurd (cc z)
shared-sum net (x ∷ xs) z =
    let e = distribute-sum net (sum_out (x ∷ xs)) (pos 0) x xs in rw e (minus_zero net)

net_legs_by-sum :
    (leg : FeeLeg) (net : ℤ) (outs : List SplitLeg)
    → (leg ≡ input → net ≡ sum_out outs)
    → (sum_out outs ≡ pos 0 → net ≡ pos 0)
    → sum_out (net_legs leg net (sum_out outs) outs) ≡ net
unfolding net_legs
net_legs_by-sum input net outs whole zero_net = sym (whole refl)
net_legs_by-sum output net outs whole zero_net = elim (Bool-cases (is_zero (sum_out outs))) [
  | inl z ↦
      let zero_out : sum_out outs ≡ pos 0 = eq_ℤ→≡ (sum_out outs) (pos 0) z in
      rw (net_legs, z) (zero_out ∙ sym (zero_net zero_out))
  | inr z ↦ rw (net_legs, z) (shared-sum net outs z)
]

net_of-zero : (s : SwapShape) → net_of s (pos 0) ≡ pos 0
net_of-zero s =
    elim s.fee_leg
      as (λ (leg : FeeLeg).
        elim leg [ input ↦ pos 0 | output ↦ pos 0 -ℤ floor_bps (pos 0) s.fee_bps ] ≡ pos 0) [
          | input ↦ refl
          | output ↦ zero_fee s.fee_bps
        ]

-- The legs' net outputs add up to the net output.
net_legs-sum :
    (s : SwapShape) (outs : List SplitLeg)
    → sum_out (net_legs s.fee_leg (net_of s (sum_out outs)) (sum_out outs) outs)
      ≡ net_of s (sum_out outs)
net_legs-sum s outs =
    net_legs_by-sum s.fee_leg (net_of s (sum_out outs)) outs (λ e. rw (e) refl)
      (λ z. rw (z) (net_of-zero s))

abbrev answer_of : Result TxError (Amounts × Split) → (Amounts × Split) → Amounts × Split
answer_of (ok a) d = a
answer_of (err e) d = d

split_settle-lem :
    (s : SwapShape) (l : Ledger) (w : SplitWalk) (a : Amounts) (t : Split)
    → split_settle s l w ≡ ok (a, t)
    → Settled l s a × (sum_out t.legs ≡ a.net_out)
unfolding split_settle
split_settle-lem s l w a t h =
    let gross = sum_out w.outs in
    elim (Result-cases (check_fee l s (fee_amount s gross))) [
      | inr (x, e) ↦ absurd (cc (rw (split_settle, e) at h))
      | inl (u, ef) ↦ elim (Result-cases (check_out l s (net_of s gross))) [
        | inr (x, e) ↦ absurd (cc (rw (split_settle, ef, e) at h))
        | inl (v, eo) ↦ elim (Result-cases (check_in l s)) [
          | inr (x, e) ↦ absurd (cc (rw (split_settle, ef, eo, e) at h))
          | inl (z, ei) ↦
              let made : Split = record {
                legs = net_legs s.fee_leg (net_of s gross) gross w.outs;
              } in
              let h' : ok (split_made s w gross, made) ≡ ok (a, t) =
                rw (split_settle, ef, eo, ei) at h in
              let answer : Amounts × Split = (a, t) in
              let both : (a, t) ≡ (split_made s w gross, made) =
                sym (ap (λ (r : Result TxError (Amounts × Split)). answer_of r answer) h') in
              let ea : a ≡ split_made s w gross = ap (λ (r : Amounts × Split). r.0) both in
              let et : t ≡ made = ap (λ (r : Amounts × Split). r.1) both in
              rw (ea, et)
                (
                  (
                    check_fee-lem l s (fee_amount s gross) ef,
                    (check_out-lem l s (net_of s gross) eo, check_in-lem l s ei),
                  ),
                  net_legs-sum s w.outs,
                )
        ]
      ]
    ]

-- Amounts that `split_amounts` returns are those of the ledger: the fee that the recipient received and
-- the wallet's change, wherever the ledger can see them, and the wallet's spending, unless it is in the
-- native currency. The outputs of the legs it returns with them add up to the net output exactly,
-- whatever rounding shared them out; and where the legs' inputs are taken as net shares, they add up to
-- the input after the fee on it.
pub split_amounts-Settled :
    (s : SwapShape) (split : Split) (l : Ledger) (hook_policy : Pool → Result TxError HookPolicy)
    (net_shares : Bool) (a : Amounts) (t : Split)
    → split_amounts s split l hook_policy net_shares ≡ ok (a, t)
    → (Settled l s a × (sum_out t.legs ≡ a.net_out))
      × ((net_shares ≡ false) ⊎ (sum_in split.legs ≡ pos s.amount_in -ℤ fee_in s))
unfolding split_amounts
split_amounts-Settled s split l hook_policy net_shares a t h =
    let net_input = pos s.amount_in -ℤ fee_in s in
    elim (Bool-cases (net_shares && not (eq_ℤ (sum_in split.legs) net_input))) [
      | inl e ↦ absurd (cc (rw (split_amounts, e) at h))
      | inr e0 ↦
          elim (Result-cases
            (walk_legs l hook_policy net_shares s net_input split.legs first_split)) [
              | inr (x, e) ↦ absurd (cc (rw (split_amounts, e0, e) at h))
              | inl (w, ew) ↦ (
                split_settle-lem s l w a t (rw (split_amounts, e0, ew) at h),
                covered net_shares e0,
              )
            ]
    ]
  where
    covered :
        (b : Bool)
        → (b && not (eq_ℤ (sum_in split.legs) (pos s.amount_in -ℤ fee_in s))) ≡ false
        → (b ≡ false) ⊎ (sum_in split.legs ≡ pos s.amount_in -ℤ fee_in s)
    covered false e = inl refl
    covered true e = inr (eq_ℤ→≡ _ _ (ground (arith, e)))
