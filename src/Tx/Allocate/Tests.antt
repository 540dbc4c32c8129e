-- ===== src/Tx/Allocate/Tests.antt =====
-- A run: two routes, of which the first is better for the first four steps.
use robinhoodpools.Prelude.{◌≤◌, ◌≡◌, refl, false, some, [], ◌∷◌, any, leb, length}
use robinhoodpools.Prelude.Int.{pos, ◌-ℤ◌}
use robinhoodpools.Tx.Plan.{Split, make_split}
use robinhoodpools.Tx.Swap.Split.{legs_in}
use robinhoodpools.Tx.Allocate.{
  Curve, options_from, bump, allocate, split_legs_of, add_remainder, allocate_split,
}
use robinhoodpools.Tx.Allocate.Covers.{allocate_split-covers}
use robinhoodpools.Tx.Sample.{sample_route}

abbrev steep : Curve
steep =
    some (pos 0)
    ∷ some (pos 50)
    ∷ some (pos 90)
    ∷ some (pos 120)
    ∷ some (pos 140)
    ∷ some (pos 150)
    ∷ some (pos 155)
    ∷ some (pos 158)
    ∷ some (pos 160)
    ∷ some (pos 161)
    ∷ some (pos 161)
    ∷ []

abbrev flat : Curve
flat =
    some (pos 0)
    ∷ some (pos 15)
    ∷ some (pos 30)
    ∷ some (pos 45)
    ∷ some (pos 60)
    ∷ some (pos 75)
    ∷ some (pos 90)
    ∷ some (pos 105)
    ∷ some (pos 120)
    ∷ some (pos 135)
    ∷ some (pos 150)
    ∷ []

abbrev shared : Split
shared = record {
  legs =
      record { route = sample_route; amount_in = 402; amount_out = pos 140 }
      ∷ record { route = sample_route; amount_in = 604; amount_out = pos 90 }
      ∷ [];
}

allocate_split-covers_example :
    (legs_in shared.legs ≡ 1_006)
    × ((1 ≤ length shared.legs)
        × ((length shared.legs ≤ 3) × (any (λ leg. leb leg.amount_in 0) shared.legs ≡ false)))
unfolding allocate_split allocate options_from bump split_legs_of add_remainder make_split ◌-ℤ◌
allocate_split-covers_example =
    allocate_split-covers (sample_route ∷ sample_route ∷ []) (steep ∷ flat ∷ []) 1_006 shared refl
