-- ===== src/Circuit/Tests.antt =====
-- A run: three failures.
use robinhoodpools.Prelude.{◌+◌, ◌≡◌, ◌&&◌, List, [], ◌∷◌, ltb, leb}
use robinhoodpools.Circuit.{failure_threshold, open_time, is_open, Event, failed, succeeded, run}
use robinhoodpools.Circuit.Streak.{streak, last_failure, is_open-streak}

abbrev history : List Event
history =
    failed 30 "t3" "timeout"
    ∷ failed 20 "t2" "timeout"
    ∷ failed 10 "t1" "timeout"
    ∷ succeeded
    ∷ failed 5 "t0" "timeout"
    ∷ []

is_open-streak_example :
    ((run history).failures ≡ streak history)
    × (is_open 40 (run history)
        ≡ (leb failure_threshold (streak history) && ltb 40 (last_failure history + open_time)))
is_open-streak_example = is_open-streak history 40
