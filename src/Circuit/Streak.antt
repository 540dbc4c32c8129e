-- ===== src/Circuit/Streak.antt =====
-- `_Circuit` of lp_fomo_flow.py against the history of answers.
use robinhoodpools.Prelude.{ℕ, ◌+◌, ◌≡◌, refl, arith, ◌&&◌, List, [], ◌∷◌, ltb, leb, if◌then◌else◌}
use robinhoodpools.Circuit.{
  failure_threshold, open_time, record_failure, record_success, is_open, Event, failed, succeeded,
  run,
}

-- The failures since the last success, and the time of the last failure.
abbrev pub streak : List Event → ℕ
streak [] = 0
streak (failed now until_text error ∷ es) = streak es + 1
streak (succeeded ∷ es) = 0

abbrev pub last_failure : List Event → ℕ
last_failure [] = 0
last_failure (failed now until_text error ∷ es) = now
last_failure (succeeded ∷ es) = last_failure es

run-failures : (es : List Event) → (run es).failures ≡ streak es
unfolding record_failure record_success
run-failures [] = refl
run-failures (failed now until_text error ∷ es) = omega (arith, run-failures es)
run-failures (succeeded ∷ es) = refl

run-open_until :
    (es : List Event)
    → (run es).open_until
      ≡ (if leb failure_threshold (streak es) then last_failure es + open_time else 0)
unfolding record_failure record_success
run-open_until [] = refl
run-open_until (failed now until_text error ∷ es) =
    ground (arith, run-failures es, run-open_until es)
run-open_until (succeeded ∷ es) = refl

-- After any answers, the circuit counts the failures since the last success, and is open exactly when
-- there are as many as the threshold and the last one is less than the opening time ago.
pub is_open-streak :
    (es : List Event) (now : ℕ)
    → ((run es).failures ≡ streak es)
      × (is_open now (run es)
          ≡ (leb failure_threshold (streak es) && ltb now (last_failure es + open_time)))
unfolding is_open
is_open-streak es now = (run-failures es, opened)
  where
    opened :
        ltb now (run es).open_until
        ≡ (leb failure_threshold (streak es) && ltb now (last_failure es + open_time))
    opened = rw (run-open_until es) (ground arith)
