-- ===== src/Gate/Window/Tests.antt =====
-- The window at concrete calls.
use robinhoodpools.Prelude.{◌≤◌, ◌≡◌, refl, true, false, List, [], ◌∷◌, arith, count_if}
use robinhoodpools.Dict.{get, put, put_last, drop_first, remove}
use robinhoodpools.Gate.Window.{expire, admit_bucket, admit, allowed}
use robinhoodpools.Gate.Window.Recent.{is_recent}
use robinhoodpools.Gate.Window.Laws.{Call, start, call, run, admitted-le-per_key}

-- Two requests of "a" at once with one of "b" between, a third one, and one when the first have left.
abbrev calls : List Call
calls =
    record { admits = true; key = "a"; at = 0 }
    ∷ record { admits = true; key = "b"; at = 0 }
    ∷ record { admits = true; key = "a"; at = 0 }
    ∷ record { admits = false; key = "a"; at = 1 }
    ∷ record { admits = true; key = "a"; at = 1 }
    ∷ record { admits = true; key = "a"; at = 60_000_000 }
    ∷ []

admitted_of_calls : (run 2 "a" calls start).admitted ≡ 0 ∷ 0 ∷ 60_000_000 ∷ []
unfolding run call admit allowed admit_bucket expire get put put_last drop_first remove
admitted_of_calls = refl

admitted-le-per_key_example : count_if (is_recent 60_000_000) (run 2 "a" calls start).admitted ≤ 2
unfolding call admit allowed admit_bucket expire get put put_last drop_first remove
admitted-le-per_key_example =
    admitted-le-per_key 2 "a" calls
      (omega arith, (omega arith, (omega arith, (omega arith, (omega arith, (omega arith, tt))))))
      (refl, (refl, (refl, (refl, (refl, (refl, tt))))))
