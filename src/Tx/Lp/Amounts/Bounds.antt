-- ===== src/Tx/Lp/Amounts/Bounds.antt =====
-- The bounds that `LpPlanner.amounts` of tx_plan.py puts on an amount.
use robinhoodpools.Prelude.{
  ℕ, zero, suc, ◌+◌, ◌-◌, ◌*◌, ◌/◌, ◌≤◌, ◌≡◌, arith, Bool, true, false, if◌then◌else◌, sym, ap,
  ◌||◌, Option, str_eq, Bool-cases, Result-cases, inl, inr, Result, ok, err,
}
use robinhoodpools.Prelude.Int.{ℤ, pos, negsuc, sub_ℕ, ◌-ℤ◌, ◌*ℤ◌, div_ℕ, ◌≤ℤ◌, ltb_ℤ}
use robinhoodpools.Tx.Reconcile.{min_out_for}
use robinhoodpools.Tx.Errors.{TxError}
use robinhoodpools.Tx.Chain.{posm}
use robinhoodpools.Tx.Plan.{LpShape, LpAmounts}
use robinhoodpools.Tx.Ledger.{Ledger}
use robinhoodpools.Tx.Ledger.Logs.{Topics}
use robinhoodpools.Tx.Lp.{is_adding}
use robinhoodpools.Tx.Lp.Amounts.{bound_up, position_id, posm_moved, nfpm_moved, lp_bound, amounts}

-- `n * (10_000 - s)` and `(n + 1) * (10_000 + s)`, as natural numbers
down_product : (n s : ℕ) → s ≤ 10_000 → pos n *ℤ sub_ℕ 10_000 s ≡ pos (n * (10_000 - s))
unfolding ◌*ℤ◌
down_product n s h = ground arith

up_product :
    (n s : ℕ) → (pos 0 -ℤ pos (suc n)) *ℤ pos (10_000 + s) ≡ negsuc (suc n * (10_000 + s) - 1)
unfolding ◌*ℤ◌ ◌-ℤ◌
up_product n s = grind arith

min_out_for-le : (n s : ℕ) → s ≤ 10_000 → min_out_for (pos n) s ≤ℤ pos n
unfolding min_out_for div_ℕ
min_out_for-le n s h = rw (min_out_for, down_product n s h) (grind arith)

zero_bound : (s : ℕ) → pos 0 ≤ℤ bound_up (pos 0) s
unfolding bound_up div_ℕ ◌-ℤ◌ ◌*ℤ◌
zero_bound s = grind arith

negated : (m : ℕ) → pos 0 -ℤ negsuc m ≡ pos (suc m)
unfolding ◌-ℤ◌
negated m = ground arith

le-bound_up : (n s : ℕ) → pos n ≤ℤ bound_up (pos n) s
unfolding bound_up div_ℕ
le-bound_up zero s = zero_bound s
le-bound_up (suc n) s =
    let m = suc n * (10_000 + s) - 1 in
    let enough : n * 10_000 ≤ m = grind arith in
    rw (bound_up, up_product n s, negated (m / 10_000)) (omega (arith, enough))

unfoldable amount_of : Result TxError LpAmounts → LpAmounts → LpAmounts
amount_of (ok a) d = a
amount_of (err e) d = d

min_bound : (x : ℤ) (s : ℕ) → s ≤ 10_000 → pos 0 ≤ℤ x → min_out_for x s ≤ℤ x
min_bound (pos n) s h le = min_out_for-le n s h
min_bound (negsuc n) s h le = absurd (omega (arith, le))

max_bound : (x : ℤ) (s : ℕ) → pos 0 ≤ℤ x → x ≤ℤ bound_up x s
max_bound (pos n) s le = le-bound_up n s
max_bound (negsuc n) s le = absurd (omega (arith, le))

-- Which side of an added amount its bound is on: the most that is paid, for the V4 manager, and the least
-- that is put in, for the others.
abbrev pub OnSide : Bool → ℤ → ℤ → Type 0
OnSide true amount bound = amount ≤ℤ bound
OnSide false amount bound = bound ≤ℤ amount

lp_bound-OnSide :
    (s : LpShape) (slippage : ℕ) (amount : ℤ) (fees : Option ℤ)
    → is_adding s.op ≡ true
    → slippage ≤ 10_000
    → pos 0 ≤ℤ amount
    → OnSide (str_eq s.manager posm) amount (lp_bound s slippage amount fees)
unfolding lp_bound
lp_bound-OnSide s slippage amount fees adding small le = elim (Bool-cases (str_eq s.manager posm)) [
  | inl e ↦ rw (lp_bound, adding, e) (max_bound amount slippage le)
  | inr e ↦ rw (lp_bound, adding, e) (min_bound amount slippage small le)
]

-- Where liquidity was added, with a slippage of at most all, the amounts that `LpPlanner.amounts` returns
-- are not negative, and the bounds are on the safe side of them: the maxima for the V4 position manager
-- are at least the amounts, and the minima for the V3 position managers at most the amounts.
pub amounts-OnSide :
    (names : Topics) (s : LpShape) (l : Ledger) (slippage : ℕ) (price : Option ℕ) (a : LpAmounts)
    → is_adding s.op ≡ true
    → slippage ≤ 10_000
    → amounts names s l slippage price ≡ ok a
    → ((pos 0 ≤ℤ a.amount0) × (pos 0 ≤ℤ a.amount1))
      × (OnSide (str_eq s.manager posm) a.amount0 a.bound0
          × OnSide (str_eq s.manager posm) a.amount1 a.bound1)
unfolding amounts amount_of
amounts-OnSide names s l slippage price a adding small h = elim (Result-cases (position_id s l)) [
  | inr (x, e) ↦ absurd (cc (rw (amounts, e) at h))
  | inl (token_id, et) ↦
      elim (Result-cases
        (if str_eq s.manager posm then posm_moved s l price else nfpm_moved names s l token_id)) [
          | inr (x, e) ↦ absurd (cc (rw (amounts, et, e) at h))
          | inl (m, em) ↦ elim (Bool-cases (ltb_ℤ m.amount0 (pos 0) || ltb_ℤ m.amount1 (pos 0))) [
            | inl e ↦ absurd (cc (rw (amounts, et, em, e) at h))
            | inr e ↦
                let made : LpAmounts = record {
                  liquidity = m.liquidity;
                  amount0 = m.amount0;
                  amount1 = m.amount1;
                  fees0 = m.fees0;
                  fees1 = m.fees1;
                  token_id = token_id;
                  bound0 = lp_bound s slippage m.amount0 m.fees0;
                  bound1 = lp_bound s slippage m.amount1 m.fees1;
                } in
                let h' : ok made ≡ ok a = rw (amounts, et, em, e) at h in
                let is : a ≡ made = sym (ap (λ (r : Result TxError LpAmounts). amount_of r a) h') in
                let le0 : pos 0 ≤ℤ m.amount0 = ground (arith, e) in
                let le1 : pos 0 ≤ℤ m.amount1 = ground (arith, e) in
                rw is (
                  (le0, le1),
                  (
                    lp_bound-OnSide s slippage m.amount0 m.fees0 adding small le0,
                    lp_bound-OnSide s slippage m.amount1 m.fees1 adding small le1,
                  ),
                )
          ]
        ]
]
