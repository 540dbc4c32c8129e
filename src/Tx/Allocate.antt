-- ===== src/Tx/Allocate.antt =====
-- tx_core.py: `allocate_split`, which shares an order out over routes step by step, each step to the route
-- whose output it raises most. A curve has the output of a route after each number of steps, `none` where
-- it was not quoted.
pub mod Covers
mod Tests
use robinhoodpools.Prelude.{
  ℕ, zero, suc, ◌+◌, ◌-◌, ◌*◌, ◌/◌, Bool, true, false, not, ◌&&◌, ◌||◌, Option, none, some, List,
  [], ◌∷◌, get_elem?, count_if, ltb, leb, ◌==◌, if◌then◌else◌, Result, ok, err, ◌>>=◌, or_raise,
  map,
}
use robinhoodpools.Prelude.Int.{ℤ, pos, ◌-ℤ◌, leb_ℤ}
use robinhoodpools.Tx.Errors.{TxError, index_error, no_route}
use robinhoodpools.Tx.Routes.{Route}
use robinhoodpools.Tx.Plan.{SplitLeg, Split, make_split}
use robinhoodpools.Tx.Swap.Split.{legs_in}

abbrev pub Curve : Type 0
Curve = List (Option ℤ)

abbrev pub split_steps : ℕ
split_steps = 10

-- `curve[i]`
abbrev pub at_step : Curve → ℕ → Result TxError (Option ℤ)
at_step curve i = or_raise (get_elem? curve i) index_error

-- The option of one route: what one more step raises its output by.
abbrev pub gain : Bool → ℕ → ℤ → Option ℤ → List (ℤ × ℕ)
gain true index here (some next) = (next -ℤ here, index) ∷ []
gain _ index here _ = []

abbrev pub next_option : Bool → ℕ → Curve → ℕ → Option ℤ → Result TxError (List (ℤ × ℕ))
next_option may_add index curve count none = ok []
next_option may_add index curve count (some here) =
    at_step curve (count + 1) >>= (λ next. ok (gain may_add index here next))

abbrev pub option_of : ℕ → ℕ → Curve → ℕ → Result TxError (List (ℤ × ℕ))
option_of used index curve count =
    if not (ltb count split_steps)
    then ok []
    else at_step curve count
      >>= (λ here. next_option (ltb 0 count || ltb used 3) index curve count here)

-- `options`; `used` is how many routes have a step.
unfoldable pub options_from : ℕ → ℕ → List Curve → List ℕ → Result TxError (List (ℤ × ℕ))
options_from used index [] counts = ok []
options_from used index (c ∷ cs) [] = err index_error
options_from used index (c ∷ cs) (n ∷ counts) =
    option_of used index c n
    >>= (λ here. options_from used (index + 1) cs counts >>= (λ rest. ok (pick here rest)))
  where
    pick : List (ℤ × ℕ) → List (ℤ × ℕ) → List (ℤ × ℕ)
    pick [] rest = rest
    pick (o ∷ os) rest = o ∷ rest

-- `max(options)[1]`: of equal gains, the last route.
abbrev pub best_from : ℤ × ℕ → List (ℤ × ℕ) → ℕ
best_from best [] = best.1
best_from best (o ∷ os) =
    let keep_it = best_from best os in
    let take_it = best_from o os in if leb_ℤ best.0 o.0 then take_it else keep_it

abbrev pub best_of : List (ℤ × ℕ) → Result TxError ℕ
best_of [] = err no_route
best_of (o ∷ os) = ok (best_from o os)

-- `counts[i] += 1`
unfoldable pub bump : ℕ → List ℕ → Result TxError (List ℕ)
bump i [] = err index_error
bump zero (n ∷ ns) = ok ((n + 1) ∷ ns)
bump (suc i) (n ∷ ns) = bump i ns >>= (λ rest. ok (n ∷ rest))

-- The loop, for a number of rounds.
unfoldable pub allocate : List Curve → ℕ → List ℕ → Result TxError (List ℕ)
allocate curves zero counts = ok counts
allocate curves (suc rounds) counts =
    options_from (count_if (ltb 0) counts) 0 curves counts >>= (λ options.
      best_of options >>= (λ index. bump index counts >>= (λ next. allocate curves rounds next)))

abbrev pub or_nothing : Option ℤ → ℤ
or_nothing none = pos 0
or_nothing (some x) = x

-- `legs`, of the routes that have a step
unfoldable pub split_legs_of : ℕ → List Route → List Curve → List ℕ → Result TxError (List SplitLeg)
split_legs_of amount (r ∷ rs) (c ∷ cs) (n ∷ ns) = split_legs_of amount rs cs ns >>= (λ rest.
    if n == 0
    then ok rest
    else at_step c n >>= (λ out. ok (
        record { route = r; amount_in = amount * n / split_steps; amount_out = or_nothing out }
        ∷ rest)))
split_legs_of amount rs cs ns = ok []

-- The last leg takes the remainder.
unfoldable pub add_remainder : ℕ → List SplitLeg → Result TxError (List SplitLeg)
add_remainder remainder [] = err index_error
add_remainder remainder (x ∷ []) = ok (record x { amount_in = x.amount_in + remainder } ∷ [])
add_remainder remainder (x ∷ y ∷ xs) = add_remainder remainder (y ∷ xs) >>= (λ rest. ok (x ∷ rest))

abbrev pub no_counts : List Route → List ℕ
no_counts rs = map (λ r. 0) rs

unfoldable pub allocate_split : List Route → List Curve → ℕ → Result TxError Split
allocate_split routes curves amount = allocate curves split_steps (no_counts routes) >>= (λ counts.
    split_legs_of amount routes curves counts
    >>= (λ legs. add_remainder (amount - legs_in legs) legs >>= (λ all_legs. make_split all_legs)))
