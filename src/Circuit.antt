-- ===== src/Circuit.antt =====
-- lp_fomo_flow.py: `_Circuit`, the breaker of one publisher. Times are whole microseconds, where the source
-- has a float in seconds; the wall clock's text of the same moment (`open_until_at`) is an argument.
pub mod Streak
mod Tests
use robinhoodpools.Prelude.{
  ℕ, ◌+◌, ◌-◌, ◌/◌, String, Bool, true, false, Option, none, some, List, [], ◌∷◌, ltb, leb,
  if◌then◌else◌,
}

pub record Circuit : Type 0 where
  pub failures : ℕ
  pub open_until : ℕ
  pub open_until_at : Option String
  pub last_error : Option String

abbrev pub failure_threshold : ℕ
failure_threshold = 3

abbrev pub open_time : ℕ
open_time = 60_000_000

abbrev pub closed : Circuit
closed = record { failures = 0; open_until = 0; open_until_at = none; last_error = none }

unfoldable pub record_failure : ℕ → String → String → Circuit → Circuit
record_failure now until_text error c =
    let opens = leb failure_threshold (c.failures + 1) in
    record {
      failures = c.failures + 1;
      open_until = if opens then now + open_time else c.open_until;
      open_until_at = if opens then some until_text else c.open_until_at;
      last_error = some error;
    }

unfoldable pub record_success : Circuit → Circuit
record_success c = closed

unfoldable pub is_open : ℕ → Circuit → Bool
is_open now c = ltb now c.open_until

-- The fields of the answer that are not constants; `int(...)` of the seconds
pub record Description : Type 0 where
  pub consecutive_failures : ℕ
  pub open_until : Option String
  pub retry_after_seconds : ℕ
  pub last_error : Option String

unfoldable pub describe : ℕ → Circuit → Option Description
unfolding is_open
describe now c =
    if is_open now c
    then some (record {
      consecutive_failures = c.failures;
      open_until = c.open_until_at;
      retry_after_seconds = (c.open_until - now) / 1_000_000;
      last_error = c.last_error;
    })
    else none

-- What the publisher's answers do, the latest first.
pub data Event : Type 0 where
  failed : (now : ℕ) (until_text error : String) → Event
  succeeded : Event

abbrev pub run : List Event → Circuit
run [] = closed
run (failed now until_text error ∷ es) = record_failure now until_text error (run es)
run (succeeded ∷ es) = record_success (run es)
