-- ===== src/Gate/Window.antt =====
-- lp_gate.py: `_Window`, at most so many admissions for a key in a minute. Clock readings are whole
-- microseconds.
pub mod Recent
pub mod Laws
mod Tests
use robinhoodpools.Prelude.{
  ℕ, zero, suc, ◌+◌, ◌-◌, ◌*◌, ◌≤◌, String, Bool, true, false, Option, none, some, List, [], ◌∷◌,
  ◌++◌, ltb, leb, length, if◌then◌else◌,
}
use robinhoodpools.Dict.{Dict, get, put, put_last, drop_first}
use robinhoodpools.Gate.Entitle.{second}

abbrev pub minute : ℕ
minute = 60 * second

abbrev pub Keys : Type 0
Keys = Dict (List ℕ)

-- `while bucket and bucket[0] <= now - 60: bucket.popleft()`
unfoldable pub expire : ℕ → List ℕ → List ℕ
expire now [] = []
expire now (t ∷ bucket) =
    let rest = expire now bucket in if leb (t + minute) now then rest else t ∷ bucket

-- The bucket of a key in `admit`, and whether it is admitted.
unfoldable pub admit_bucket : ℕ → ℕ → List ℕ → List ℕ × Bool
admit_bucket per_key now bucket =
    let recent = expire now bucket in
    if leb per_key (length recent) then (recent, false) else (recent ++ now ∷ [], true)

abbrev pub or_empty : Option (List ℕ) → List ℕ
or_empty none = []
or_empty (some bucket) = bucket

abbrev pub max_keys : ℕ
max_keys = 4096

-- `admit`. A refused key is moved to the end too; only an admission evicts.
unfoldable pub admit : ℕ → ℕ → String → Keys → Keys × Bool
admit per_key now key keys =
    let (bucket, admitted) = admit_bucket per_key now (or_empty (get key keys)) in
    let moved = put_last key bucket keys in
    if admitted then (drop_first (length moved - max_keys) moved, true) else (moved, false)

-- `allowed`: the bucket in the store is shortened in its place.
unfoldable pub allowed : ℕ → ℕ → String → Keys → Keys × Bool
allowed per_key now key keys = elim (get key keys) [
  | none ↦ (keys, true)
  | some bucket ↦
      let recent = expire now bucket in
      (put key recent keys, if leb per_key (length recent) then false else true)
]
