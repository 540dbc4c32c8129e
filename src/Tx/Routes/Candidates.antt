-- ===== src/Tx/Routes/Candidates.antt =====
-- tx_routes.py: `RouteBook.candidates` and `pool_for`, over the pools that the database gives.
pub mod Serve
mod Tests
use robinhoodpools.Prelude.{
  ℕ, zero, suc, String, Bool, true, false, not, ◌&&◌, ◌||◌, Option, none, some, List, [], ◌∷◌, ◌++◌,
  str_eq, ltb, ◌==◌, any, if◌then◌else◌, Result, ok, err, ◌>>=◌,
}
use robinhoodpools.Prelude.Int.{ℤ, pos, eq_ℤ}
use robinhoodpools.Tx.Errors.{TxError}
use robinhoodpools.Tx.Chain.{pons_hook}
use robinhoodpools.Tx.Routes.{
  Venue, v2, v3, v4, Side, Pool, other, swappable, HookPolicy, Hop, Route, same_asset, make_route,
  hops, is_quote, token_hop, bridge_routes, venue_eq, pool_eq,
}

abbrev pub hop_eq : Hop → Hop → Bool
hop_eq a b =
    pool_eq a.pool b.pool
    && (str_eq a.currency_in b.currency_in && str_eq a.currency_out b.currency_out)

abbrev pub second_eq : Option Hop → Option Hop → Bool
second_eq none none = true
second_eq (some a) (some b) = hop_eq a b
second_eq none (some b) = false
second_eq (some a) none = false

-- `==` of two routes
abbrev pub route_eq : Route → Route → Bool
route_eq r s = hop_eq r.first s.first && second_eq r.second s.second

-- One round of the loop over the pools, after `other = pool.other(token)`; `known` says that
-- `hook_policy` finds a launch policy.
unfoldable pub routes_across :
    (Pool → Bool) → List Pool → Side → String → String → Pool → String → Result TxError (List Route)
unfolding make_route
routes_across known bridges side token quote p across =
    if str_eq p.hook pons_hook && not (known p)
    then ok []
    else if same_asset across quote
    then make_route (token_hop side p across token ∷ []) >>= (λ r. ok (r ∷ []))
    else if not (is_quote across)
    then ok []
    else bridge_routes side p token across quote bridges

unfoldable pub pool_routes :
    (Pool → Bool) → List Pool → Side → String → String → Pool → Result TxError (List Route)
unfolding routes_across
pool_routes known bridges side token quote p =
    if not (swappable p)
    then ok []
    else other p token >>= (λ across. routes_across known bridges side token quote p across)

-- `ranked`
unfoldable pub ranked_routes :
    (Pool → Bool) → List Pool → Side → String → String → List Pool → Result TxError (List Route)
unfolding pool_routes
ranked_routes known bridges side token quote [] = ok []
ranked_routes known bridges side token quote (p ∷ pools) = do
  here ← pool_routes known bridges side token quote p
  rest ← ranked_routes known bridges side token quote pools
  ok (here ++ rest)

-- `next(hop.pool.venue for hop in route.hops if token in (...))`; every route has such a hop.
abbrev pub has_token : String → Pool → Bool
has_token token p = str_eq token p.token0 || str_eq token p.token1

abbrev pub venue_of_hops : String → List Hop → Venue
venue_of_hops token [] = v4
venue_of_hops token (h ∷ hs) =
    let rest = venue_of_hops token hs in if has_token token h.pool then h.pool.venue else rest

-- The first loop over `ranked`: the best route of each venue. `venues` are those that have one.
unfoldable pub best_of_venues : String → List Venue → List Route → List Route
best_of_venues token venues [] = []
best_of_venues token venues (r ∷ ranked) =
    let venue = venue_of_hops token (hops r) in
    let skip = best_of_venues token venues ranked in
    let keep_it = r ∷ best_of_venues token (venue ∷ venues) ranked in
    if any (venue_eq venue) venues then skip else keep_it

-- The second loop: the others, each once.
unfoldable pub add_others : List Route → List Route → List Route
add_others chosen [] = chosen
add_others chosen (r ∷ ranked) =
    let same = add_others chosen ranked in
    let more = add_others (chosen ++ (r ∷ [])) ranked in
    if any (route_eq r) chosen then same else more

-- `MAX_CANDIDATES`
abbrev pub max_candidates : ℕ
max_candidates = 6

-- `chosen[:n]`
unfoldable pub first_routes : ℕ → List Route → List Route
first_routes zero rs = []
first_routes (suc n) [] = []
first_routes (suc n) (r ∷ rs) = r ∷ first_routes n rs

-- `candidates`, of a token in lower case.
unfoldable pub candidates :
    (Pool → Bool) → List Pool → List Pool → Side → String → String → Result TxError (List Route)
unfolding ranked_routes best_of_venues add_others first_routes
candidates known bridges pools side token quote =
    if not (is_quote quote) || same_asset token quote
    then ok []
    else ranked_routes known bridges side token quote pools >>= λ ranked.
        ok (first_routes max_candidates (add_others (best_of_venues token [] ranked) ranked))

-- `accepts` inside `pool_for`
abbrev pub accepts : Option ℕ → Option String → Option ℤ → Pool → Bool
accepts fee_ppm factory tick_spacing p =
    elim fee_ppm [ none ↦ true | some fee ↦ p.fee_ppm == fee ]
    && (elim tick_spacing [ none ↦ true | some spacing ↦ eq_ℤ p.tick_spacing spacing ]
        && elim factory [ none ↦ swappable p | some f ↦ str_eq p.factory f ])

-- The pools of the loops in `pool_for`: the first that is accepted.
abbrev pub find_pool : (Pool → Bool) → List Pool → Option Pool
find_pool test [] = none
find_pool test (p ∷ pools) = let rest = find_pool test pools in if test p then some p else rest

-- `pool_for`, of the two tokens in order; `rows` is what the database has for the pair.
unfoldable pub pool_for :
    List Pool
    → List Pool
    → Venue
    → String
    → String
    → Option ℕ
    → Option String
    → Option ℤ
    → Option Pool
pool_for bridges rows venue token0 token1 fee_ppm factory tick_spacing =
    elim (find_pool
      (λ b.
        venue_eq b.venue venue
        && ((str_eq b.token0 token0 && str_eq b.token1 token1)
            && accepts fee_ppm factory tick_spacing b))
      bridges) [ some b ↦ some b | none ↦ find_pool (accepts fee_ppm factory tick_spacing) rows ]
