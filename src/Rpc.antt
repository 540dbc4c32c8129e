-- ===== src/Rpc.antt =====
-- lp_rpc.py: `_SourceGate`, which holds the requests to one provider to its concurrency and its pace. Times
-- are whole microseconds, where the source has a float in seconds, and a request's spending is `interval *
-- cost` in them. What a caller does under the lock between two waits is one step.
pub mod Pace
mod Tests
use robinhoodpools.Prelude.{
  ℕ, ◌+◌, ◌-◌, ◌≤◌, ◌<◌, ◌≡◌, Bool, true, false, not, ◌&&◌, ◌||◌, Option, none, some, ltb, leb,
  ◌==◌, max, if◌then◌else◌,
}

pub record SourceGate : Type 0 where
  pub concurrency : ℕ
  pub in_flight : ℕ
  pub next_at : ℕ
  pub priority_next_at : ℕ
  pub priority_waiting : ℕ

-- `_PRIORITY_DEBT_SECONDS` and `_BACKGROUND_MAX_YIELD_SECONDS`
abbrev pub priority_debt : ℕ
priority_debt = 15_000_000

abbrev pub max_yield : ℕ
max_yield = 3_000_000

abbrev pub is_aged : Bool → ℕ → ℕ → Bool
is_aged priority started now = not priority && leb (started + max_yield) now

-- `max(1, self.concurrency - 1)`
abbrev pub background_slots : SourceGate → ℕ
background_slots g = max 1 (g.concurrency - 1)

-- `free`
abbrev pub is_free : Bool → Bool → SourceGate → Bool
is_free priority aged g =
    if priority || aged
    then ltb g.in_flight (if priority then g.concurrency else background_slots g)
    else ltb g.in_flight (background_slots g) && (g.priority_waiting == 0)

-- `delay <= 0`
abbrev pub is_due : Bool → ℕ → SourceGate → Bool
is_due ahead now g =
    if ahead
    then leb g.priority_next_at now && leb g.next_at (now + priority_debt)
    else leb g.next_at now

-- What a caller that may start changes.
abbrev pub started_by : Bool → ℕ → ℕ → SourceGate → SourceGate
started_by ahead now spend g = record g {
  in_flight = g.in_flight + 1;
  priority_next_at = if ahead then now + spend else g.priority_next_at;
  next_at = max g.next_at now + spend;
}

-- One round of the loop in `acquire`: the gate after it where the caller may start, `none` where it waits.
unfoldable pub try_acquire : Bool → ℕ → ℕ → ℕ → SourceGate → Option SourceGate
try_acquire priority started now spend g =
    let aged = is_aged priority started now in
    if is_free priority aged g && is_due (priority || aged) now g
    then some (started_by (priority || aged) now spend g)
    else none

-- The count of waiting priority callers, before the loop and in its `finally`
abbrev pub arrive : Bool → SourceGate → SourceGate
arrive priority g = if priority then record g { priority_waiting = g.priority_waiting + 1 } else g

abbrev pub leave_queue : Bool → SourceGate → SourceGate
leave_queue priority g =
    if priority then record g { priority_waiting = g.priority_waiting - 1 } else g

unfoldable pub release : SourceGate → SourceGate
release g = record g { in_flight = g.in_flight - 1 }

-- Any interleaving of callers, with what the admitted ones spend: a caller comes, gives up, is let in at a
-- time, or is done.
pub data Run : SourceGate → SourceGate → ℕ → Type 0 where
  start : {g : SourceGate} → Run g g 0
  arrives :
      {g h : SourceGate} {spent : ℕ} (priority : Bool)
      → Run g h spent
      → Run g (arrive priority h) spent
  gives_up :
      {g h : SourceGate} {spent : ℕ} (priority : Bool)
      → Run g h spent
      → Run g (leave_queue priority h) spent
  enters :
      {g h k : SourceGate} {spent : ℕ} (priority : Bool) (started now spend : ℕ)
      → Run g h spent
      → try_acquire priority started now spend h ≡ some k
      → Run g (leave_queue priority k) (spent + spend)
  releases :
      {g h : SourceGate} {spent : ℕ} → Run g h spent → 0 < h.in_flight → Run g (release h) spent
