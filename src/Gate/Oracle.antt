-- ===== src/Gate/Oracle.antt =====
-- lp_gate.py: `_Oracle`, the cached view of balances and of the supply. What the node answers is an
-- argument: the balance and the block that `_fetch` reads, and the supply, each `none` where the
-- call raises. `observe` is a caller that finds no other one asking for its wallet; `observe_after`
-- is one that has waited for another.
pub mod Laws
mod Tests
use robinhoodpools.Prelude.{
  ℕ, zero, suc, ◌+◌, ◌-◌, ◌*◌, ◌≤◌, String, Bool, true, false, Option, none, some, List, [], length,
  ltb, leb, if◌then◌else◌,
}
use robinhoodpools.Dict.{Dict, get, put, put_last, drop_first}
use robinhoodpools.Gate.Entitle.{second, oracle_ttl, Holding, is_fresh}

-- A supply with the time it was asked for.
pub record Supply : Type 0 where
  pub supply : Option ℕ
  pub asked_at : ℕ

pub record Oracle : Type 0 where
  pub cache : Dict Holding
  pub supplies : Dict Supply

abbrev pub max_wallets : ℕ
max_wallets = 4096

-- `forget_all`
abbrev pub forget_all : Oracle → Oracle
forget_all o = record { cache = []; supplies = [] }

abbrev pub is_recent : ℕ → Option Supply → Bool
is_recent now none = false
is_recent now (some s) = ltb (now - s.asked_at) oracle_ttl

abbrev pub supply_in : Option Supply → Option ℕ
supply_in none = none
supply_in (some s) = s.supply

-- `_supply`
unfoldable pub supply_at : ℕ → String → Option ℕ → Oracle → Oracle × Option ℕ
supply_at now token answer o =
    if is_recent now (get token o.supplies) then (o, supply_in (get token o.supplies)) else (
      record o { supplies = put token (record { supply = answer; asked_at = now }) o.supplies },
      answer,
    )

-- `_usable`
unfoldable pub usable : ℕ → ℕ → Option Holding → Option Holding
usable now grace_s none = none
usable now grace_s (some h) = if leb (now - h.observed_at) (grace_s * second) then some h else none

-- `None if result is None else replace(result, total_supply_raw=self._supply(...))`
unfoldable pub with_supply :
    ℕ → String → Option ℕ → Oracle → Option Holding → Oracle × Option Holding
unfolding supply_at
with_supply now token answer o none = (o, none)
with_supply now token answer o (some h) =
    let (o', total) = supply_at now token answer o in
    (o', some (record h { total_supply_raw = total }))

-- `_fetch`: the balance and the block.
abbrev pub fetched_holding : ℕ → String → ℕ × ℕ → Holding
fetched_holding now wallet (balance, block) = record {
  wallet = wallet;
  balance_raw = balance;
  block = block;
  observed_at = now;
  total_supply_raw = none;
}

abbrev pub remember : String → Holding → Dict Holding → Dict Holding
remember wallet h cache =
    let moved = put_last wallet h cache in drop_first (length moved - max_wallets) moved

-- The cache and the holding after the test of the cache and the call of the node.
unfoldable pub consult :
    ℕ → String → ℕ → Option (ℕ × ℕ) → Dict Holding → Dict Holding × Option Holding
unfolding usable
consult now wallet grace_s fetched cache = elim (get wallet cache) [
  | none ↦ elim fetched [
    | none ↦ (cache, none)
    | some f ↦
        (remember wallet (fetched_holding now wallet f) cache, some (fetched_holding now wallet f))
  ]
  | some h ↦ if is_fresh (some h) now then (put_last wallet h cache, some h) else elim fetched [
    | none ↦ (cache, usable now grace_s (some h))
    | some f ↦
        (remember wallet (fetched_holding now wallet f) cache, some (fetched_holding now wallet f))
  ]
]

-- `observe`
unfoldable pub observe :
    ℕ → String → String → ℕ → Option (ℕ × ℕ) → Option ℕ → Oracle → Oracle × Option Holding
unfolding consult with_supply
observe now token wallet grace_s fetched answer o =
    let (cache, h) = consult now wallet grace_s fetched o.cache in
    with_supply now token answer (record o { cache = cache }) h

-- `observe` of a caller that waited; `now` is the time before the wait.
unfoldable pub observe_after : ℕ → String → String → ℕ → Option ℕ → Oracle → Oracle × Option Holding
unfolding usable with_supply
observe_after now token wallet grace_s answer o =
    with_supply now token answer o (usable now grace_s (get wallet o.cache))
