-- ===== src/Rpc/Tests.antt =====
-- A run: a background caller is let in, and a priority caller after it, ahead of the shared clock.
use robinhoodpools.Prelude.{◌+◌, ◌≤◌, ◌<◌, refl, arith, true, false}
use robinhoodpools.Rpc.{SourceGate, priority_debt, arrive, try_acquire, Run, start, arrives, enters}
use robinhoodpools.Rpc.Pace.{source_stays_paced}

abbrev idle : SourceGate
idle = record {
  concurrency = 4;
  in_flight = 0;
  next_at = 100;
  priority_next_at = 0;
  priority_waiting = 0;
}

abbrev one_running : SourceGate
one_running = record {
  concurrency = 4;
  in_flight = 1;
  next_at = 150;
  priority_next_at = 0;
  priority_waiting = 0;
}

abbrev ahead_of_clock : SourceGate
ahead_of_clock = record {
  concurrency = 4;
  in_flight = 2;
  next_at = 160;
  priority_next_at = 130;
  priority_waiting = 1;
}

first_run : Run idle one_running 50
unfolding try_acquire
first_run = enters false 100 100 50 start refl

source_stays_paced_example : (1 < 4) × (100 + 50 ≤ 120 + priority_debt)
unfolding try_acquire
source_stays_paced_example =
    source_stays_paced idle (arrive true one_running) ahead_of_clock 50 110 120 10 true
      (omega arith) (omega arith) (arrives true first_run) refl
