-- ===== src/Tx/Allocate/Covers.antt =====
-- What `allocate_split` of tx_core.py shares out.
use robinhoodpools.Prelude.{
  ℕ, zero, suc, ◌+◌, ◌-◌, ◌*◌, ◌/◌, ◌≤◌, ◌≡◌, refl, sym, ap, arith, true, false, not, ◌&&◌, ◌||◌,
  List, [], ◌∷◌, sum, length, any, count_if, ltb, leb, leb→le, ◌==◌, Bool-cases, Result-cases, inl,
  inr, Result, ok, err,
}
use robinhoodpools.Math.Deltas.{floor-le}
use robinhoodpools.Tx.Errors.{TxError}
use robinhoodpools.Tx.Routes.{Route}
use robinhoodpools.Tx.Plan.{SplitLeg, Split, make_split}
use robinhoodpools.Tx.Swap.Split.{legs_in}
use robinhoodpools.Tx.Allocate.{
  Curve, split_steps, at_step, options_from, best_of, bump, allocate, split_legs_of, add_remainder,
  no_counts, or_nothing, allocate_split,
}

unfoldable counts_in : Result TxError (List ℕ) → List ℕ
counts_in (ok ns) = ns
counts_in (err e) = []

unfoldable legs_of : Result TxError (List SplitLeg) → List SplitLeg
legs_of (ok xs) = xs
legs_of (err e) = []

unfoldable split_of : Result TxError Split → Split → Split
split_of (ok s) d = s
split_of (err e) d = d

bump-sum : (i : ℕ) (ns ms : List ℕ) → bump i ns ≡ ok ms → sum ms ≡ sum ns + 1
unfolding bump counts_in
bump-sum i [] ms h = absurd (cc h)
bump-sum zero (n ∷ ns) ms h = let e : ms ≡ (n + 1) ∷ ns = sym (ap counts_in h) in rw e (omega arith)
bump-sum (suc i) (n ∷ ns) ms h = elim (Result-cases (bump i ns)) [
  | inr (x, e) ↦ absurd (cc (rw (bump, e) at h))
  | inl (rest, e) ↦
      let h' : ok (n ∷ rest) ≡ ok ms = rw (bump, e) at h in
      let is : ms ≡ n ∷ rest = sym (ap counts_in h') in
      let ih = bump-sum i ns rest e in rw is (omega (arith, ih))
]

-- Every round gives one step to one route.
allocate-sum :
    (curves : List Curve) (rounds : ℕ) (ns ms : List ℕ)
    → allocate curves rounds ns ≡ ok ms
    → sum ms ≡ sum ns + rounds
unfolding allocate counts_in
allocate-sum curves zero ns ms h = let e : ms ≡ ns = sym (ap counts_in h) in rw e (omega arith)
allocate-sum curves (suc rounds) ns ms h =
    elim (Result-cases (options_from (count_if (ltb 0) ns) 0 curves ns)) [
      | inr (x, e) ↦ absurd (cc (rw (allocate, e) at h))
      | inl (options, eo) ↦ elim (Result-cases (best_of options)) [
        | inr (x, e) ↦ absurd (cc (rw (allocate, eo, e) at h))
        | inl (index, ei) ↦ elim (Result-cases (bump index ns)) [
          | inr (x, e) ↦ absurd (cc (rw (allocate, eo, ei, e) at h))
          | inl (next, eb) ↦
              let ih = allocate-sum curves rounds next ms (rw (allocate, eo, ei, eb) at h) in
              let one = bump-sum index ns next eb in omega (arith, ih, one)
        ]
      ]
    ]

nothing-le :
    (k amount : ℕ) (xs : List SplitLeg)
    → ◌≡◌ {A = Result TxError (List SplitLeg)} (ok []) (ok xs)
    → legs_in xs * k ≤ amount
unfolding legs_of
nothing-le k amount xs h = let e : xs ≡ [] = sym (ap legs_of h) in rw e (omega arith)

-- The legs' shares, rounded down, are within the order.
split_legs_of-le :
    (amount : ℕ) (rs : List Route) (cs : List Curve) (ns : List ℕ) (xs : List SplitLeg)
    → split_legs_of amount rs cs ns ≡ ok xs
    → legs_in xs * split_steps ≤ amount * sum ns
unfolding split_legs_of legs_of
split_legs_of-le amount (r ∷ rs) (c ∷ cs) (n ∷ ns) xs h =
    elim (Result-cases (split_legs_of amount rs cs ns)) [
      | inr (x, e) ↦ absurd (cc (rw (split_legs_of, e) at h))
      | inl (rest, er) ↦
          let ih = split_legs_of-le amount rs cs ns rest er in
          let spread : amount * (n + sum ns) ≡ amount * n + amount * sum ns = grind arith in
          elim (Bool-cases (n == 0)) [
            | inl e ↦
                let h' : ok rest ≡ ok xs = rw (split_legs_of, er, e) at h in
                let is : xs ≡ rest = sym (ap legs_of h') in rw is (omega (arith, ih, spread))
            | inr e ↦ elim (Result-cases (at_step c n)) [
              | inr (x, ec) ↦ absurd (cc (rw (split_legs_of, er, e, ec) at h))
              | inl (out, ec) ↦
                  let leg : SplitLeg = record {
                    route = r;
                    amount_in = amount * n / split_steps;
                    amount_out = or_nothing out;
                  } in
                  let h' : ok (leg ∷ rest) ≡ ok xs = rw (split_legs_of, er, e, ec) at h in
                  let is : xs ≡ leg ∷ rest = sym (ap legs_of h') in
                  rw is (omega (arith, ih, spread, floor-le (amount * n) split_steps))
            ]
          ]
    ]
split_legs_of-le amount [] cs ns xs h = nothing-le split_steps (amount * sum ns) xs h
split_legs_of-le amount (r ∷ rs) [] ns xs h = nothing-le split_steps (amount * sum ns) xs h
split_legs_of-le amount (r ∷ rs) (c ∷ cs) [] xs h = nothing-le split_steps (amount * 0) xs h

add_remainder-sum :
    (remainder : ℕ) (xs ys : List SplitLeg)
    → add_remainder remainder xs ≡ ok ys
    → legs_in ys ≡ legs_in xs + remainder
unfolding add_remainder legs_of
add_remainder-sum remainder [] ys h = absurd (cc h)
add_remainder-sum remainder (x ∷ []) ys h =
    let leg : SplitLeg = record x { amount_in = x.amount_in + remainder } in
    let is : ys ≡ leg ∷ [] = sym (ap legs_of h) in rw is (omega arith)
add_remainder-sum remainder (x ∷ y ∷ xs) ys h =
    elim (Result-cases (add_remainder remainder (y ∷ xs))) [
      | inr (z, e) ↦ absurd (cc (rw (add_remainder, e) at h))
      | inl (rest, e) ↦
          let h' : ok (x ∷ rest) ≡ ok ys = rw (add_remainder, e) at h in
          let is : ys ≡ x ∷ rest = sym (ap legs_of h') in
          let ih = add_remainder-sum remainder (y ∷ xs) rest e in rw is (omega (arith, ih))
    ]

no_counts-sum : (rs : List Route) → sum (no_counts rs) ≡ 0
no_counts-sum [] = refl
no_counts-sum (r ∷ rs) = omega (arith, no_counts-sum rs)

-- The inputs of the legs of a split that `allocate_split` returns add up to the order exactly, whatever the
-- rounding of the shares leaves over, and the split has one to three legs, each with an input above zero.
pub allocate_split-covers :
    (routes : List Route) (curves : List Curve) (amount : ℕ) (s : Split)
    → allocate_split routes curves amount ≡ ok s
    → (legs_in s.legs ≡ amount)
      × ((1 ≤ length s.legs)
          × ((length s.legs ≤ 3) × (any (λ leg. leb leg.amount_in 0) s.legs ≡ false)))
unfolding allocate_split make_split split_of
allocate_split-covers routes curves amount s h =
    elim (Result-cases (allocate curves split_steps (no_counts routes))) [
      | inr (x, e) ↦ absurd (cc (rw (allocate_split, e) at h))
      | inl (counts, ec) ↦ elim (Result-cases (split_legs_of amount routes curves counts)) [
        | inr (x, e) ↦ absurd (cc (rw (allocate_split, ec, e) at h))
        | inl (legs, el) ↦ elim (Result-cases (add_remainder (amount - legs_in legs) legs)) [
          | inr (x, e) ↦ absurd (cc (rw (allocate_split, ec, el, e) at h))
          | inl (all_legs, ea) ↦
              let steps : sum counts ≡ split_steps = omega (
                arith,
                allocate-sum curves split_steps (no_counts routes) counts ec,
                no_counts-sum routes,
              ) in
              let within = split_legs_of-le amount routes curves counts legs el in
              let le : legs_in legs ≤ amount = omega (arith, rw (steps) at within) in
              let whole = add_remainder-sum (amount - legs_in legs) legs all_legs ea in
              let total : legs_in all_legs ≡ amount = omega (arith, le, whole) in
              made all_legs total (rw (allocate_split, ec, el, ea) at h)
        ]
      ]
    ]
  where
    made :
        (xs : List SplitLeg)
        → legs_in xs ≡ amount
        → make_split xs ≡ ok s
        → (legs_in s.legs ≡ amount)
          × ((1 ≤ length s.legs)
              × ((length s.legs ≤ 3) × (any (λ leg. leb leg.amount_in 0) s.legs ≡ false)))
    made xs total m =
        elim (Bool-cases
          (not (leb 1 (length xs) && leb (length xs) 3) || any (λ leg. leb leg.amount_in 0) xs)) [
            | inl e ↦ absurd (cc (rw (make_split, e) at m))
            | inr e ↦
                let m' : ok (record { legs = xs }) ≡ ok s = rw (make_split, e) at m in
                let is : s ≡ record { legs = xs } =
                  sym (ap (λ (r : Result TxError Split). split_of r s) m') in
                let lo : leb 1 (length xs) ≡ true = ground (arith, e) in
                let hi : leb (length xs) 3 ≡ true = ground (arith, e) in
                let pos_legs : any (λ leg. leb leg.amount_in 0) xs ≡ false = ground (arith, e) in
                rw is (total, (leb→le 1 (length xs) lo, (leb→le (length xs) 3 hi, pos_legs)))
          ]
