-- ===== src/Gate/Streams/Tests.antt =====
-- Streams of two wallets that open and close.
use robinhoodpools.Prelude.{ℕ, ◌≤◌, ◌≡◌, refl, [], ◌∷◌}
use robinhoodpools.Dict.{Dict, get, put, remove}
use robinhoodpools.Gate.Streams.{or_zero, enter, leave}
use robinhoodpools.Gate.Streams.Laws.{Reach, start, entered, left, slots-le-per_wallet}

abbrev two_open : Dict ℕ
two_open = ("a", 2) ∷ []

abbrev three_open : Dict ℕ
three_open = ("a", 2) ∷ ("b", 1) ∷ []

opened : Reach 4 three_open ("b" ∷ "a" ∷ "a" ∷ [])
unfolding enter get put
opened =
    entered "b" three_open (entered "a" two_open (entered "a" (("a", 1) ∷ []) start refl) refl) refl

closed : Reach 4 two_open ("a" ∷ "a" ∷ [])
unfolding leave get remove
closed = left [] ("a" ∷ "a" ∷ []) "b" two_open opened refl

slots-le-per_wallet_example : (or_zero (get "a" two_open) ≡ 2) × (2 ≤ 4)
slots-le-per_wallet_example = slots-le-per_wallet 4 two_open ("a" ∷ "a" ∷ []) "a" closed
