-- ===== src/Tx/Lp/Adds.antt =====
-- The plans of `LpPlanner` of tx_plan.py that add liquidity to a V4 pool.
use robinhoodpools.Prelude.{
  ℕ, ◌≤◌, ◌<◌, ◌≡◌, refl, sym, ap, true, Option, none, some, Option-cases, ◌∷◌, ◌++◌, map, leb,
  leb→gt, str_eq, if◌then◌else◌, Bool-cases, Result-cases, inl, inr, Result, ok, err,
}
use robinhoodpools.Prelude.Int.{ℤ}
use robinhoodpools.Dict.{Dict}
use robinhoodpools.Math.{sqrt_ratio_at_tick}
use robinhoodpools.Tx.Errors.{TxError}
use robinhoodpools.Tx.Chain.{
  native, posm, permit2, max_uint256, PosmParam, max_uint128, posm_mint, posm_increase,
  posm_settle_pair, PoolKey,
}
use robinhoodpools.Tx.Chain.Abi.{Abi}
use robinhoodpools.Tx.Routes.{v4, Pool, pool_key}
use robinhoodpools.Tx.Plan.{LpIntent, posm_body, Plan}
use robinhoodpools.Tx.Liquidity.{principal_at}
use robinhoodpools.Tx.Liquidity.Within.{liquidity_for_amounts-within}
use robinhoodpools.Tx.Lp.{
  PositionState, manager_for, is_adding, is_mint, plan_ticks, permit_detail, posm_permit, lp_shape,
  posm_first, posm_refund, need, permit_calls, posm_add, plan_posm, plan,
}

plan_of : Result TxError Plan → Plan → Plan
plan_of (ok p) d = p
plan_of (err e) d = d

-- The key of a V4 pool, as the calls to the position manager name it.
abbrev pub v4_key : Pool → PoolKey
v4_key p = record {
  currency0 = p.token0;
  currency1 = p.token1;
  fee = p.fee_ppm;
  tick_spacing = p.tick_spacing;
  hooks = p.hook;
}

-- The action that puts in the liquidity: a mint to the wallet, or an increase of the token of the
-- intent; in either the maxima are left open for `finalize` to set.
abbrev pub AddsBy : LpIntent → Pool → ℤ → ℤ → ℕ → PosmParam → Type 0
AddsBy i p lower upper l first =
    if is_mint i.op
    then first ≡ posm_mint (v4_key p) lower upper l max_uint128 max_uint128 i.wallet
    else (token : ℕ) × (i.token_id ≡ some token)
      × (first ≡ posm_increase token l max_uint128 max_uint128)

param_of : PosmParam → Result TxError PosmParam → PosmParam
param_of d (ok x) = x
param_of d (err e) = d

manager_for-v4 : (p : Pool) → p.venue ≡ v4 → manager_for p ≡ some posm
unfolding manager_for
manager_for-v4 p e = rw (manager_for, e) refl

pool_key-v4 : (p : Pool) → p.venue ≡ v4 → pool_key p ≡ ok (v4_key p)
unfolding pool_key
pool_key-v4 p e = rw (pool_key, e) refl

posm_first-AddsBy :
    (i : LpIntent) (p : Pool) (lower upper : ℤ) (l : ℕ) (first : PosmParam)
    → posm_first i (v4_key p) lower upper l ≡ ok first
    → AddsBy i p lower upper l first
unfolding param_of
posm_first-AddsBy i p lower upper l first h = elim (Bool-cases (is_mint i.op)) [
  | inl minting ↦ rw minting (sym (ap (param_of first) (rw minting at h)))
  | inr increasing ↦ elim (Option-cases i.token_id) [
    | inl none_given ↦ absurd (cc (rw (increasing, none_given) at h))
    | inr (token, given) ↦
        rw increasing (token, given, sym (ap (param_of first) (rw (increasing, given) at h)))
  ]
]

-- A plan that adds some liquidity: it puts it in first, settles both tokens, and native value is sent for token0 alone.
abbrev pub AddsLiquidity : LpIntent → Pool → ℤ → ℤ → ℕ → Plan → Type 0
AddsLiquidity i p lower upper l q =
    (0 < l)
    × ((q.value ≡ (if str_eq p.token0 native then i.amount0 else 0))
        × ((first : PosmParam) × AddsBy i p lower upper l first
            × (q.body
                ≡ posm_body (first ∷ (posm_settle_pair p.token0 p.token1 ∷ posm_refund i p))
                    (lp_shape i p posm lower upper l))))

module _ (abi : Abi) where
  posm_add-AddsLiquidity :
      (i : LpIntent) (p : Pool) (deadline : ℕ) (lower upper : ℤ) (nonces : Dict ℕ) (l : ℕ)
      (q : Plan)
      → posm_add abi i p deadline lower upper nonces (v4_key p) l ≡ ok q
      → AddsLiquidity i p lower upper l q
  unfolding posm_add plan_of
  posm_add-AddsLiquidity i p deadline lower upper nonces l q h = elim (Bool-cases (leb l 0)) [
    | inl e ↦ absurd (cc (rw (posm_add, e) at h))
    | inr some_l ↦ elim (Result-cases (posm_first i (v4_key p) lower upper l)) [
      | inr (x, e) ↦ absurd (cc (rw (posm_add, some_l, e) at h))
      | inl (first, e1) ↦ elim (Result-cases (permit_detail nonces deadline p.token0 i.amount0)) [
        | inr (x, e) ↦ absurd (cc (rw (posm_add, some_l, e1, e) at h))
        | inl (d0, e2) ↦ elim (Result-cases (permit_detail nonces deadline p.token1 i.amount1)) [
          | inr (x, e) ↦ absurd (cc (rw (posm_add, some_l, e1, e2, e) at h))
          | inl (d1, e3) ↦ elim (Result-cases (permit_calls abi deadline (d0 ++ d1))) [
            | inr (x, e) ↦ absurd (cc (rw (posm_add, some_l, e1, e2, e3, e) at h))
            | inl (staging, e4) ↦
                let made : Plan = record {
                  to = posm;
                  value = if str_eq p.token0 native then i.amount0 else 0;
                  deadline = deadline;
                  body =
                      posm_body (first ∷ (posm_settle_pair p.token0 p.token1 ∷ posm_refund i p))
                        (lp_shape i p posm lower upper l);
                  approvals = map (λ d. need d.token permit2 max_uint256 d.amount) (d0 ++ d1);
                  permit = posm_permit deadline (d0 ++ d1);
                  staging = staging;
                  signature = none;
                } in
                let h' : ok made ≡ ok q = rw (posm_add, some_l, e1, e2, e3, e4) at h in
                let is : q ≡ made = sym (ap (λ (r : Result TxError Plan). plan_of r q) h') in
                rw is (
                  leb→gt l 0 some_l,
                  (refl, (first, posm_first-AddsBy i p lower upper l first e1, refl)),
                )
          ]
        ]
      ]
    ]
  ]

  -- A plan that mints or increases a position in a V4 pool adds a liquidity above zero: its first action
  -- mints that liquidity to the wallet, over the plan's ticks, or increases by it the position of the
  -- intent's token; it then settles both tokens. Where the ticks'
  -- ratios are in order and not zero, the amounts that this liquidity asks for at the given price, even
  -- rounded up, are at most the amounts of the intent; the value sent is the whole token0 amount where
  -- that is the native currency, and nothing otherwise.
  pub plan-AddsLiquidity :
      (i : LpIntent) (p : Pool) (deadline price : ℕ) (position : Option PositionState)
      (nonces : Dict ℕ) (lower upper : ℤ) (a b : ℕ) (q : Plan)
      → p.venue ≡ v4
      → is_adding i.op ≡ true
      → plan_ticks i p position ≡ ok (lower, upper)
      → sqrt_ratio_at_tick lower ≡ ok a
      → sqrt_ratio_at_tick upper ≡ ok b
      → 0 < a
      → a < b
      → plan abi i p deadline price position nonces ≡ ok q
      → (l : ℕ) × (AddsLiquidity i p lower upper l q
          × ((u : ℕ) × ((v : ℕ) × ((principal_at price a b l true ≡ ok (u, v))
                  × ((u ≤ i.amount0) × (v ≤ i.amount1))))))
  unfolding plan plan_posm
  plan-AddsLiquidity i p deadline price position nonces lower upper a b q is_v4 adding ticks ea eb
        ha hab h =
      let (l, (el, within)) = liquidity_for_amounts-within price a b i.amount0 i.amount1 ha hab in
      let ek = pool_key-v4 p is_v4 in
      let h1 = rw (plan, manager_for-v4 p is_v4, ticks) at h in
      let h2 = rw (plan_posm, ek, adding, ea, eb, el) at h1 in
      (l, (posm_add-AddsLiquidity i p deadline lower upper nonces l q h2, within))
