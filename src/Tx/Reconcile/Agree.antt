-- ===== src/Tx/Reconcile/Agree.antt =====
-- What an answer of `swap_amounts` of tx_plan.py says of the ledger.
mod Tests
use robinhoodpools.Prelude.{
  ℕ, ◌≡◌, refl, sym, ap, ◌⊎◌, inl, inr, String, Bool, true, false, not, ◌&&◌, Option, none, some,
  List, [], ◌∷◌, arith, str_eq, eq_iff, ◌==◌, ==_iff, if◌then◌else◌, Bool-cases, Result-cases,
  Result, ok, err, ◌>>=◌, raise_if,
}
use robinhoodpools.Prelude.Int.{ℤ, pos, ◌-ℤ◌, eq_ℤ, eq_of_parts}
use robinhoodpools.Tx.Errors.{TxError, unmodeled_fee}
use robinhoodpools.Tx.Chain.{native}
use robinhoodpools.Tx.Routes.{Pool, HookPolicy, is_pons, Hop, hops}
use robinhoodpools.Tx.Plan.{SwapShape, Amounts}
use robinhoodpools.Tx.Ledger.{Ledger, observable, received, sent, flow, hop_io}
use robinhoodpools.Tx.Reconcile.{
  Walk, after_hook, fee_in, fee_amount, net_of, walk_hop, walk_hops, check_fee, check_out, check_in,
  made_amounts, first_walk, swap_amounts,
}

pub eq_ℤ→≡ : (a b : ℤ) → eq_ℤ a b ≡ true → a ≡ b
eq_ℤ→≡ a b h = eq_of_parts a b (ground (arith, h))

module _ (ledger : Ledger) (hook_policy : Pool → Result TxError HookPolicy) where
  -- Along the hops an amount goes in and what the hooks leave of the output is carried on: each hop's
  -- one Swap log took in exactly what was carried to it.
  pub data Carried : List Hop → ℤ → ℤ → Type 0 where
    arrived : {x : ℤ} → Carried [] x x
    through :
        {h : Hop} {hs : List Hop} {x out y : ℤ} {p : HookPolicy}
        → hop_io ledger h none ≡ ok (x, out)
        → hook_policy h.pool ≡ ok p
        → Carried hs (after_hook p out) y
        → Carried (h ∷ hs) x y

module _ (ledger : Ledger) where
  -- The ledger has the stated fee and the stated output, wherever it can see them, and the stated input,
  -- unless that is native.
  abbrev pub Settled : SwapShape → Amounts → Type 0
  Settled s a =
      ((observable ledger s.fee_currency ≡ false)
        ⊎ (pos (received ledger s.fee_currency s.fee_recipient) ≡ a.rhpools_fee.amount))
      × (((observable ledger s.currency_out ≡ false)
            ⊎ (flow ledger s.currency_out s.wallet ≡ ok a.net_out))
          × ((s.currency_in ≡ native) ⊎ (sent ledger s.currency_in s.wallet ≡ s.amount_in)))

walk_of : Result TxError Walk → Walk → Walk
walk_of (ok w) d = w
walk_of (err e) d = d

amounts_of : Result TxError Amounts → Amounts → Amounts
amounts_of (ok a) d = a
amounts_of (err e) d = d

module _ (ledger : Ledger) (hook_policy : Pool → Result TxError HookPolicy) where
  walk_hops-Carried :
      (hs : List Hop) (w end : Walk)
      → walk_hops ledger hook_policy hs w ≡ ok end
      → Carried ledger hook_policy hs w.carry end.carry
  unfolding walk_hops walk_hop walk_of
  walk_hops-Carried [] w end h =
      let e : end ≡ w = sym (ap (λ (r : Result TxError Walk). walk_of r end) h) in rw e arrived
  walk_hops-Carried (hop ∷ hs) w end h = elim (Result-cases (hop_io ledger hop none)) [
    | inr (x, e) ↦ absurd (cc (rw (walk_hops, e) at h))
    | inl (io, eio) ↦ elim (Bool-cases (eq_ℤ io.0 w.carry)) [
      | inr e ↦ absurd (cc (rw (walk_hops, eio, e) at h))
      | inl same ↦ elim (Result-cases (hook_policy hop.pool)) [
        | inr (x, e) ↦ absurd (cc (rw (walk_hops, eio, same, e) at h))
        | inl (p, ep) ↦
            let rest = walk_hops-Carried hs _ end (rw (walk_hops, eio, same, ep) at h) in
            let got : hop_io ledger hop none ≡ ok (w.carry, io.1) =
              rw (sym (eq_ℤ→≡ io.0 w.carry same)) eio in
            through got ep rest
      ]
    ]
  ]

pub check_fee-lem :
    (l : Ledger) (s : SwapShape) (fee : ℤ)
    → check_fee l s fee ≡ ok tt
    → (observable l s.fee_currency ≡ false)
      ⊎ (pos (received l s.fee_currency s.fee_recipient) ≡ fee)
check_fee-lem l s fee h = elim (Bool-cases (observable l s.fee_currency)) [
  | inr e ↦ inl e
  | inl eo ↦ elim (Bool-cases (eq_ℤ (pos (received l s.fee_currency s.fee_recipient)) fee)) [
    | inl e ↦ inr (eq_ℤ→≡ _ _ e)
    | inr e ↦ absurd (cc (rw (eo, e) at h))
  ]
]

pub check_out-lem :
    (l : Ledger) (s : SwapShape) (net_out : ℤ)
    → check_out l s net_out ≡ ok tt
    → (observable l s.currency_out ≡ false) ⊎ (flow l s.currency_out s.wallet ≡ ok net_out)
check_out-lem l s net_out h = elim (Bool-cases (observable l s.currency_out)) [
  | inr e ↦ inl e
  | inl eo ↦ elim (Result-cases (flow l s.currency_out s.wallet)) [
    | inr (x, e) ↦ absurd (cc (rw (eo, e) at h))
    | inl (got, eg) ↦ elim (Bool-cases (eq_ℤ got net_out)) [
      | inl e ↦ inr (rw (sym (eq_ℤ→≡ got net_out e)) eg)
      | inr e ↦ absurd (cc (rw (eo, eg, e) at h))
    ]
  ]
]

pub check_in-lem :
    (l : Ledger) (s : SwapShape)
    → check_in l s ≡ ok tt
    → (s.currency_in ≡ native) ⊎ (sent l s.currency_in s.wallet ≡ s.amount_in)
check_in-lem l s h = elim (Bool-cases (str_eq s.currency_in native)) [
  | inl e ↦ inl ((eq_iff s.currency_in native).0 e)
  | inr e0 ↦ elim (Bool-cases (sent l s.currency_in s.wallet == s.amount_in)) [
    | inl e ↦ inr ((==_iff (sent l s.currency_in s.wallet) s.amount_in).0 e)
    | inr e ↦ absurd (cc (rw (e0, e) at h))
  ]
]

-- Amounts that `swap_amounts` returns are those of the ledger. What is left of the input after the fee
-- on it went through every hop, each hop's one Swap log taking in exactly what was carried to it; the
-- net output and the fee are those of what arrived; the fee recipient's receipts and the wallet's change
-- are exactly the stated amounts, wherever the ledger can see them; and so is the wallet's spending,
-- unless it is in the native currency.
pub swap_amounts-Settled :
    (s : SwapShape) (l : Ledger) (hook_policy : Pool → Result TxError HookPolicy) (a : Amounts)
    → swap_amounts s l hook_policy ≡ ok a
    → ((gross : ℤ) × (Carried l hook_policy (hops s.route) (pos s.amount_in -ℤ fee_in s) gross
          × ((a.net_out ≡ net_of s gross) × (a.rhpools_fee.amount ≡ fee_amount s gross))))
      × Settled l s a
unfolding swap_amounts amounts_of
swap_amounts-Settled s l hook_policy a h =
    elim (Result-cases (walk_hops l hook_policy (hops s.route) (first_walk s))) [
      | inr (x, e) ↦ absurd (cc (rw (e) at h))
      | inl (w, ew) ↦ elim (Result-cases (check_fee l s (fee_amount s w.carry))) [
        | inr (x, e) ↦ absurd (cc (rw (ew, e) at h))
        | inl (u, ef) ↦ elim (Result-cases (check_out l s (net_of s w.carry))) [
          | inr (x, e) ↦ absurd (cc (rw (ew, ef, e) at h))
          | inl (v, eo) ↦ elim (Result-cases (check_in l s)) [
            | inr (x, e) ↦ absurd (cc (rw (ew, ef, eo, e) at h))
            | inl (z, ei) ↦
                let h' : ok (made_amounts s w) ≡ ok a = rw (ew, ef, eo, ei) at h in
                let made : a ≡ made_amounts s w =
                  sym (ap (λ (r : Result TxError Amounts). amounts_of r a) h') in
                let carried = walk_hops-Carried l hook_policy (hops s.route) (first_walk s) w ew in
                rw made (
                  (w.carry, (carried, (refl, refl))),
                  (
                    check_fee-lem l s (fee_amount s w.carry) ef,
                    (check_out-lem l s (net_of s w.carry) eo, check_in-lem l s ei),
                  ),
                )
          ]
        ]
      ]
    ]
