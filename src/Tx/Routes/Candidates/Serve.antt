-- ===== src/Tx/Routes/Candidates/Serve.antt =====
-- What the candidates of tx_routes.py serve: the two ends of the trade.
use robinhoodpools.Prelude.{
  ℕ, zero, suc, ◌≤◌, ◌≡◌, refl, sym, ap, String, Bool, true, not, ◌&&◌, ◌||◌, none, some, List, [],
  ◌∷◌, ◌++◌, arith, length, All, All-append, any, str_eq, eq_refl, Bool-cases, Option-cases,
  Result-cases, inl, inr, Result, ok, err, ◌>>=◌,
}
use robinhoodpools.Tx.Errors.{TxError}
use robinhoodpools.Tx.Chain.{pons_hook}
use robinhoodpools.Tx.Routes.{
  Venue, Side, buy, sell, Pool, other, swappable, Hop, Route, same_asset, check_hop, make_route,
  hops, route_in, route_out, is_quote, token_hop, end_like, clash, bridge_route, bridge_routes,
  venue_eq,
}
use robinhoodpools.Tx.Routes.Candidates.{
  venue_of_hops, route_eq, routes_across, pool_routes, ranked_routes, best_of_venues, add_others,
  first_routes, max_candidates, candidates,
}

-- The currencies of a trade (`SwapIntent.currency_in` and `currency_out`), and the guard of the planner
-- on a route.
abbrev pub trade_in : Side → String → String → String
trade_in buy token quote = quote
trade_in sell token quote = token

abbrev pub trade_out : Side → String → String → String
trade_out buy token quote = token
trade_out sell token quote = quote

abbrev pub Serves : Side → String → String → Route → Type 0
Serves side token quote r =
    (same_asset (route_in r) (trade_in side token quote) ≡ true)
    × (same_asset (route_out r) (trade_out side token quote) ≡ true)

unfoldable routes_in : Result TxError (List Route) → List Route
routes_in (ok rs) = rs
routes_in (err e) = []

unfoldable route_of : Result TxError Route → Route → Route
route_of (ok r) d = r
route_of (err e) d = d

same_asset_refl : (a : String) → same_asset a a ≡ true
same_asset_refl a = rw (eq_refl a) refl

make_route-one :
    (a : Hop) (r : Route) → make_route (a ∷ []) ≡ ok r → r ≡ record { first = a; second = none }
unfolding make_route route_of
make_route-one a r h = elim (Result-cases (check_hop a)) [
  | inl (u, e) ↦ sym (ap (λ (x : Result TxError Route). route_of x r) (rw (e) at h))
  | inr (x, e) ↦ absurd (cc (rw (e) at h))
]

make_route-two :
    (a b : Hop) (r : Route)
    → make_route (a ∷ b ∷ []) ≡ ok r
    → r ≡ record { first = a; second = some b }
unfolding make_route route_of
make_route-two a b r h = elim (Result-cases (check_hop a)) [
  | inr (x, e) ↦ absurd (cc (rw (e) at h))
  | inl (u, ea) ↦ elim (Result-cases (check_hop b)) [
    | inr (x, e) ↦ absurd (cc (rw (ea, e) at h))
    | inl (w, eb) ↦ elim (Bool-cases (same_asset a.currency_out b.currency_in)) [
      | inl e ↦ sym (ap (λ (x : Result TxError Route). route_of x r) (rw (ea, eb, e) at h))
      | inr e ↦ absurd (cc (rw (ea, eb, e) at h))
    ]
  ]
]

end_like-same : (b : Pool) (x c : String) → end_like b x ≡ some c → same_asset c x ≡ true
end_like-same b x c h = elim (Bool-cases (same_asset b.token0 x)) [
  | inl e ↦
      let h' : some b.token0 ≡ some c = rw (e) at h in
      let e' : b.token0 ≡ c = ground (arith, h') in rw e' at e
  | inr e0 ↦ elim (Bool-cases (same_asset b.token1 x)) [
    | inl e ↦
        let h' : some b.token1 ≡ some c = rw (e0, e) at h in
        let e' : b.token1 ≡ c = ground (arith, h') in rw e' at e
    | inr e ↦ absurd (cc (rw (e0, e) at h))
  ]
]

module _ (side : Side) (token quote : String) where
  one_hop-Serves :
      (p : Pool) (across : String) (rs : List Route)
      → same_asset across quote ≡ true
      → make_route (token_hop side p across token ∷ []) >>= (λ r. ok (r ∷ [])) ≡ ok rs
      → All (Serves side token quote) rs
  unfolding routes_in
  one_hop-Serves p across rs near h =
      elim (Result-cases (make_route (token_hop side p across token ∷ []))) [
        | inr (x, e) ↦ absurd (cc (rw (e) at h))
        | inl (r, e) ↦
            let h' : ok (r ∷ []) ≡ ok rs = rw (e) at h in
            let out : rs ≡ r ∷ [] = sym (ap routes_in h') in
            let shape = make_route-one (token_hop side p across token) r e in
            rw (out, shape) (serves side, tt)
      ]
    where
      serves :
          (s : Side)
          → Serves s token quote (record { first = token_hop s p across token; second = none })
      serves buy = (near, same_asset_refl token)
      serves sell = (same_asset_refl token, near)

  two_hops-Serves :
      (a b : Hop) (rs : List Route)
      → Serves side token quote (record { first = a; second = some b })
      → make_route (a ∷ b ∷ []) >>= (λ r. ok (r ∷ [])) ≡ ok rs
      → All (Serves side token quote) rs
  unfolding routes_in
  two_hops-Serves a b rs serves h = elim (Result-cases (make_route (a ∷ b ∷ []))) [
    | inr (x, e) ↦ absurd (cc (rw (e) at h))
    | inl (r, e) ↦
        let h' : ok (r ∷ []) ≡ ok rs = rw (e) at h in
        let out : rs ≡ r ∷ [] = sym (ap routes_in h') in
        let shape = make_route-two a b r e in rw (out, shape) (serves, tt)
  ]

  nothing-Serves :
      (rs : List Route)
      → ◌≡◌ {A = Result TxError (List Route)} (ok []) (ok rs)
      → All (Serves side token quote) rs
  unfolding routes_in
  nothing-Serves rs h = let out : rs ≡ [] = sym (ap routes_in h) in rw out tt

module _ (token quote : String) where
  bridge_route-Serves :
      (side : Side) (p : Pool) (across : String) (bridge : Pool) (rs : List Route)
      → bridge_route side p token across quote bridge ≡ ok rs
      → All (Serves side token quote) rs
  unfolding bridge_route
  bridge_route-Serves side p across bridge rs h = elim (Option-cases (end_like bridge across)) [
    | inl e ↦ nothing-Serves side token quote rs (rw (bridge_route, e) at h)
    | inr (near, en) ↦ elim (Option-cases (end_like bridge quote)) [
      | inl e ↦ nothing-Serves side token quote rs (rw (bridge_route, en, e) at h)
      | inr (far, ef) ↦ elim (Bool-cases (str_eq near far || clash p bridge)) [
        | inl e ↦ nothing-Serves side token quote rs (rw (bridge_route, en, ef, e) at h)
        | inr e ↦
            let far_is = end_like-same bridge quote far ef in
            elim side
                as (λ (s : Side).
                  bridge_route s p token across quote bridge ≡ ok rs
                  → All (Serves s token quote) rs) [
                    | buy ↦ λ h.
                        two_hops-Serves buy token quote
                          (record { pool = bridge; currency_in = far; currency_out = near })
                          (token_hop buy p across token) rs (far_is, same_asset_refl token)
                          (rw (bridge_route, en, ef, e) at h)
                    | sell ↦ λ h.
                        two_hops-Serves sell token quote (token_hop sell p across token)
                          (record { pool = bridge; currency_in = near; currency_out = far }) rs
                          (same_asset_refl token, far_is) (rw (bridge_route, en, ef, e) at h)
                  ]
              h
      ]
    ]
  ]

  append-Serves :
      (side : Side) (mine theirs : Result TxError (List Route)) (rs : List Route)
      → ((xs : List Route) → mine ≡ ok xs → All (Serves side token quote) xs)
      → ((xs : List Route) → theirs ≡ ok xs → All (Serves side token quote) xs)
      → mine >>= (λ xs. theirs >>= (λ ys. ok (xs ++ ys))) ≡ ok rs
      → All (Serves side token quote) rs
  unfolding routes_in
  append-Serves side (ok xs) (ok ys) rs hx hy h =
      let out : rs ≡ xs ++ ys = sym (ap routes_in h) in
      rw out (All-append (Serves side token quote) xs ys (hx xs refl) (hy ys refl))
  append-Serves side (ok xs) (err e) rs hx hy h = absurd (cc h)
  append-Serves side (err e) theirs rs hx hy h = absurd (cc h)

  bridge_routes-Serves :
      (side : Side) (p : Pool) (across : String) (bridges : List Pool) (rs : List Route)
      → bridge_routes side p token across quote bridges ≡ ok rs
      → All (Serves side token quote) rs
  unfolding bridge_routes
  bridge_routes-Serves side p across [] rs h = nothing-Serves side token quote rs h
  bridge_routes-Serves side p across (b ∷ bridges) rs h =
      append-Serves side (bridge_route side p token across quote b)
        (bridge_routes side p token across quote bridges) rs (bridge_route-Serves side p across b)
        (bridge_routes-Serves side p across bridges) h

  routes_across-Serves :
      (known : Pool → Bool) (bridges : List Pool) (side : Side) (p : Pool) (across : String)
      (rs : List Route)
      → routes_across known bridges side token quote p across ≡ ok rs
      → All (Serves side token quote) rs
  unfolding routes_across
  routes_across-Serves known bridges side p across rs h =
      elim (Bool-cases (str_eq p.hook pons_hook && not (known p))) [
        | inl e ↦ nothing-Serves side token quote rs (rw (e) at h)
        | inr e0 ↦ elim (Bool-cases (same_asset across quote)) [
          | inl e ↦ one_hop-Serves side token quote p across rs e (rw (e0, e) at h)
          | inr e1 ↦ elim (Bool-cases (not (is_quote across))) [
            | inl e ↦ nothing-Serves side token quote rs (rw (e0, e1, e) at h)
            | inr e2 ↦ bridge_routes-Serves side p across bridges rs (rw (e0, e1, e2) at h)
          ]
        ]
      ]

  pool_routes-Serves :
      (known : Pool → Bool) (bridges : List Pool) (side : Side) (p : Pool) (rs : List Route)
      → pool_routes known bridges side token quote p ≡ ok rs
      → All (Serves side token quote) rs
  unfolding pool_routes
  pool_routes-Serves known bridges side p rs h = elim (Bool-cases (not (swappable p))) [
    | inl e ↦ nothing-Serves side token quote rs (rw (e) at h)
    | inr e ↦ elim (Result-cases (other p token)) [
      | inl (across, eo) ↦ routes_across-Serves known bridges side p across rs (rw (e, eo) at h)
      | inr (x, eo) ↦ absurd (cc (rw (e, eo) at h))
    ]
  ]

  ranked_routes-Serves :
      (known : Pool → Bool) (bridges : List Pool) (side : Side) (pools : List Pool)
      (rs : List Route)
      → ranked_routes known bridges side token quote pools ≡ ok rs
      → All (Serves side token quote) rs
  unfolding ranked_routes
  ranked_routes-Serves known bridges side [] rs h = nothing-Serves side token quote rs h
  ranked_routes-Serves known bridges side (p ∷ pools) rs h =
      append-Serves side (pool_routes known bridges side token quote p)
        (ranked_routes known bridges side token quote pools) rs
        (pool_routes-Serves known bridges side p) (ranked_routes-Serves known bridges side pools) h

-- What holds of every ranked route holds of every route that is chosen.
module _ (P : Route → Type 0) where
  best_of_venues-All :
      (token : String) (venues : List Venue) (rs : List Route)
      → All P rs
      → All P (best_of_venues token venues rs)
  unfolding best_of_venues
  best_of_venues-All token venues [] h = tt
  best_of_venues-All token venues (r ∷ rs) (hr, h) =
      let skip = best_of_venues-All token venues rs h in
      let more = best_of_venues-All token (venue_of_hops token (hops r) ∷ venues) rs h in
      elim (Bool-cases (any (venue_eq (venue_of_hops token (hops r))) venues)) [
        | inl e ↦ rw (e) skip
        | inr e ↦ rw (e) (hr, more)
      ]

  add_others-All : (chosen rs : List Route) → All P chosen → All P rs → All P (add_others chosen rs)
  unfolding add_others
  add_others-All chosen [] hc h = hc
  add_others-All chosen (r ∷ rs) hc (hr, h) =
      let same = add_others-All chosen rs hc h in
      let more =
        add_others-All (chosen ++ (r ∷ [])) rs (All-append P chosen (r ∷ []) hc (hr, tt)) h in
      elim (Bool-cases (any (route_eq r) chosen)) [ inl e ↦ rw (e) same | inr e ↦ rw (e) more ]

  first_routes-All : (n : ℕ) (rs : List Route) → All P rs → All P (first_routes n rs)
  unfolding first_routes
  first_routes-All zero rs h = tt
  first_routes-All (suc n) [] h = tt
  first_routes-All (suc n) (r ∷ rs) (hr, h) = (hr, first_routes-All n rs h)

first_routes-short : (n : ℕ) (rs : List Route) → length (first_routes n rs) ≤ n
unfolding first_routes
first_routes-short zero rs = omega arith
first_routes-short (suc n) [] = omega arith
first_routes-short (suc n) (r ∷ rs) = omega (arith, first_routes-short n rs)

-- Whatever pools and bridges there are, the candidates that are returned for a trade are at most six,
-- and each passes the planner's guard: its ends are, as assets, the currencies of the trade.
pub candidates-Serves :
    (known : Pool → Bool) (bridges pools : List Pool) (side : Side) (token quote : String)
    (rs : List Route)
    → candidates known bridges pools side token quote ≡ ok rs
    → (length rs ≤ max_candidates) × All (Serves side token quote) rs
unfolding candidates routes_in
candidates-Serves known bridges pools side token quote rs h =
    elim (Bool-cases (not (is_quote quote) || same_asset token quote)) [
      | inl e ↦
          let h' : ok [] ≡ ok rs = rw (e) at h in
          let out : rs ≡ [] = sym (ap routes_in h') in rw out (omega arith, tt)
      | inr e ↦ elim (Result-cases (ranked_routes known bridges side token quote pools)) [
        | inr (x, er) ↦ absurd (cc (rw (e, er) at h))
        | inl (ranked, er) ↦
            let all_of = add_others (best_of_venues token [] ranked) ranked in
            let h' : ok (first_routes max_candidates all_of) ≡ ok rs = rw (e, er) at h in
            let out : rs ≡ first_routes max_candidates all_of = sym (ap routes_in h') in
            let P = Serves side token quote in
            let served = ranked_routes-Serves token quote known bridges side pools ranked er in
            let best = best_of_venues-All P token [] ranked served in
            let chosen = add_others-All P (best_of_venues token [] ranked) ranked best served in
            rw out (
              first_routes-short max_candidates all_of,
              first_routes-All P max_candidates all_of chosen,
            )
      ]
    ]
