-- ===== src/Tx/Routes.antt =====
-- tx_routes.py: pools, hops and routes, and the candidates for a trade. Fees are unsigned. The pools
-- that `quote_pools` reads from the database, in its order, and the hooks that have a launch policy
-- are arguments; so are the bridges, which the source takes from `DEFAULT_BRIDGES`.
pub mod Candidates
use robinhoodpools.Prelude.{
  ℕ, zero, suc, ◌+◌, ◌-◌, ◌*◌, ◌/◌, ◌%◌, ◌^◌, String, Bool, true, false, not, ◌&&◌, ◌||◌, Option,
  none, some, List, [], ◌∷◌, ◌++◌, str_eq, ltb, leb, ◌==◌, any, if◌then◌else◌, Result, ok, err,
  ◌>>=◌, ◌>>◌, raise_if,
}
use robinhoodpools.Prelude.Int.{ℤ, pos, negsuc, eq_ℤ}
use robinhoodpools.Tx.Errors.{TxError, value_error}
use robinhoodpools.Tx.Chain.{
  native, weth, usdg, pons_hook, ur_v2_factory, ur_v3_factory, giga_v3_factory, pancake_v3_factory,
  slipstream_factory, PoolKey,
}

pub data Venue : Type 0 where
  v2 v3 v4 : Venue

pub data Side : Type 0 where
  buy sell : Side

pub record Pool : Type 0 where
  pub venue : Venue
  pub id : String
  pub address : String
  pub token0 : String
  pub token1 : String
  pub fee_ppm : ℕ
  pub tick_spacing : ℤ
  pub hook : String
  pub factory : String

abbrev pub is_v2 : Venue → Bool
is_v2 v2 = true
is_v2 _ = false

abbrev pub is_v3 : Venue → Bool
is_v3 v3 = true
is_v3 _ = false

abbrev pub is_v4 : Venue → Bool
is_v4 v4 = true
is_v4 _ = false

abbrev pub venue_eq : Venue → Venue → Bool
venue_eq v2 v = is_v2 v
venue_eq v3 v = is_v3 v
venue_eq v4 v = is_v4 v

abbrev pub pool_eq : Pool → Pool → Bool
pool_eq a b =
    venue_eq a.venue b.venue
    && (str_eq a.id b.id
        && (str_eq a.address b.address
            && (str_eq a.token0 b.token0
                && (str_eq a.token1 b.token1
                    && (a.fee_ppm == b.fee_ppm
                        && (eq_ℤ a.tick_spacing b.tick_spacing
                            && (str_eq a.hook b.hook && str_eq a.factory b.factory)))))))

-- `Pool.key`
unfoldable pub pool_key : Pool → Result TxError PoolKey
pool_key p = do
  raise_if (not (is_v4 p.venue)) value_error
  ok (record {
    currency0 = p.token0;
    currency1 = p.token1;
    fee = p.fee_ppm;
    tick_spacing = p.tick_spacing;
    hooks = p.hook;
  })

-- `Pool.other`
unfoldable pub other : Pool → String → Result TxError String
other p currency =
    if str_eq currency p.token0
    then ok p.token1
    else if str_eq currency p.token1
    then ok p.token0
    else err value_error

-- `fee & DYNAMIC_FEE_FLAG`
abbrev pub is_dynamic : ℕ → Bool
is_dynamic fee = (fee / 2 ^ 23) % 2 == 1

abbrev pub max_pool_fee_ppm : ℕ
max_pool_fee_ppm = 100_000

abbrev pub has_own_router : String → Bool
has_own_router factory =
    str_eq factory giga_v3_factory
    || (str_eq factory pancake_v3_factory || str_eq factory slipstream_factory)

abbrev pub is_served_by_venue : Pool → Bool
is_served_by_venue p = elim p.venue [
  | v2 ↦ str_eq p.factory ur_v2_factory
  | v3 ↦ str_eq p.factory ur_v3_factory || has_own_router p.factory
  | v4 ↦ str_eq p.hook native || str_eq p.hook pons_hook
]

-- `Pool.swappable`
unfoldable pub swappable : Pool → Bool
swappable p =
    let static_fee = if is_v4 p.venue && is_dynamic p.fee_ppm then 0 else p.fee_ppm in
    if not (is_v4 p.venue && str_eq p.hook pons_hook) && ltb max_pool_fee_ppm static_fee
    then false
    else is_served_by_venue p

pub record HookPolicy : Type 0 where
  pub hook_fee_bps : ℕ
  pub creator_tax_bps : ℕ

abbrev pub is_pons : HookPolicy → Bool
is_pons h = ltb 0 h.hook_fee_bps || ltb 0 h.creator_tax_bps

pub record Hop : Type 0 where
  pub pool : Pool
  pub currency_in : String
  pub currency_out : String

abbrev pub same_asset : String → String → Bool
same_asset a b =
    str_eq a b || ((str_eq a native && str_eq b weth) || (str_eq a weth && str_eq b native))

-- `Route`, one hop or two; `make_route` is its `__post_init__`.
pub record Route : Type 0 where
  pub first : Hop
  pub second : Option Hop

abbrev pub check_hop : Hop → Result TxError (Unit {0})
check_hop h = do
  out ← other h.pool h.currency_in
  raise_if (not (str_eq out h.currency_out)) value_error

unfoldable pub make_route : List Hop → Result TxError Route
unfolding other
make_route [] = err value_error
make_route (a ∷ []) = do check_hop a; ok (record { first = a; second = none })
make_route (a ∷ b ∷ []) = do
  check_hop a
  check_hop b
  raise_if (not (same_asset a.currency_out b.currency_in)) value_error
  ok (record { first = a; second = some b })
make_route (a ∷ b ∷ c ∷ rest) = err value_error

-- `Route.hops`
abbrev pub hops : Route → List Hop
hops r = elim r.second [ none ↦ r.first ∷ [] | some b ↦ r.first ∷ b ∷ [] ]

abbrev pub route_in : Route → String
route_in r = r.first.currency_in

abbrev pub route_out : Route → String
route_out r = elim r.second [ none ↦ r.first.currency_out | some b ↦ b.currency_out ]

-- `QUOTE_CURRENCIES`
abbrev pub is_quote : String → Bool
is_quote c = str_eq c native || (str_eq c weth || str_eq c usdg)

abbrev pub token_hop : Side → Pool → String → String → Hop
token_hop buy p other token = record { pool = p; currency_in = other; currency_out = token }
token_hop sell p other token = record { pool = p; currency_in = token; currency_out = other }

-- `next((c for c in ends if same_asset(c, x)), None)`; no bridge has two ends that are one asset.
abbrev pub end_like : Pool → String → Option String
end_like bridge x =
    if same_asset bridge.token0 x
    then some bridge.token0
    else if same_asset bridge.token1 x
    then some bridge.token1
    else none

-- Two pools whose routers do not go together.
abbrev pub clash : Pool → Pool → Bool
clash p bridge =
    (has_own_router p.factory
      && (not (is_v3 bridge.venue) || not (str_eq bridge.factory p.factory)))
    || (has_own_router bridge.factory && not (str_eq p.factory bridge.factory))

-- One round of the loop over the bridges.
unfoldable pub bridge_route :
    Side → Pool → String → String → String → Pool → Result TxError (List Route)
unfolding make_route
bridge_route side p token other quote bridge = elim (end_like bridge other) [
  | none ↦ ok []
  | some near ↦ elim (end_like bridge quote) [
    | none ↦ ok []
    | some far ↦ if str_eq near far || clash p bridge then ok [] else elim side [
      | buy ↦ (do
        r ← make_route (
            record { pool = bridge; currency_in = far; currency_out = near }
            ∷ token_hop buy p other token
            ∷ [])
        ok (r ∷ []))
      | sell ↦ (do
        r ← make_route (
            token_hop sell p other token
            ∷ record { pool = bridge; currency_in = near; currency_out = far }
            ∷ [])
        ok (r ∷ []))
    ]
  ]
]

unfoldable pub bridge_routes :
    Side → Pool → String → String → String → List Pool → Result TxError (List Route)
unfolding bridge_route
bridge_routes side p token other quote [] = ok []
bridge_routes side p token other quote (b ∷ bridges) = do
  here ← bridge_route side p token other quote b
  rest ← bridge_routes side p token other quote bridges
  ok (here ++ rest)
