-- ===== src/Gate/Streams.antt =====
-- lp_gate.py: `Gate.stream_slot`. A context manager is two calls, `enter` before the body of the
-- `with` statement and `leave` in its `finally`, which runs however the body ends.
pub mod Laws
mod Tests
use robinhoodpools.Prelude.{
  ℕ, zero, suc, ◌+◌, ◌-◌, ◌≤◌, String, Bool, true, false, Option, none, some, List, leb, ◌==◌,
  if◌then◌else◌, Result, ok, err,
}
use robinhoodpools.Dict.{Dict, get, put, remove}

pub data StreamError : Type 0 where
  stream_limit missing_key : StreamError

abbrev pub or_zero : Option ℕ → ℕ
or_zero none = 0
or_zero (some n) = n

-- The part before `yield`; `per_wallet` is `limits.streams_per_wallet`.
unfoldable pub enter : ℕ → String → Dict ℕ → Result StreamError (Dict ℕ)
enter per_wallet wallet streams =
    let held = or_zero (get wallet streams) in
    if leb per_wallet held then err stream_limit else ok (put wallet (held + 1) streams)

-- The `finally` part. A stored count is never 0, so that `held - 1` is exact.
unfoldable pub leave : String → Dict ℕ → Result StreamError (Dict ℕ)
leave wallet streams = elim (get wallet streams) [
  | none ↦ err missing_key
  | some held ↦ if held == 1 then ok (remove wallet streams) else ok (put wallet (held - 1) streams)
]
