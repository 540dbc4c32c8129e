-- ===== src/Gate/Window/Laws.antt =====
-- How often a key is admitted in a minute.
use robinhoodpools.Prelude.{
  ℕ, ◌≤◌, ◌≡◌, refl, sym, Bool, List, [], ◌∷◌, ◌++◌, count_if, Bool-cases, inl, inr, if◌then◌else◌,
  String, str_eq, eq_iff, ◌&&◌, Option-cases,
}
use robinhoodpools.Dict.{get, put_last, get-put, get-put_last}
use robinhoodpools.Gate.Window.{Keys, expire, admit_bucket, or_empty, admit, allowed}
use robinhoodpools.Gate.Window.Recent.{
  is_recent, Tracks, later-Tracks, expire-Tracks, admit_bucket-Tracks, Tracks-recent, start-Tracks,
}

-- A call of the window by a request: `admit`, or only `allowed`.
pub record Call : Type 0 where
  pub admits : Bool
  pub key : String
  pub at : ℕ

-- The window, and the times so far at which the key that is watched was admitted, oldest first.
pub record History : Type 0 where
  pub store : Keys
  pub admitted : List ℕ

abbrev pub start : History
start = record { store = []; admitted = [] }

abbrev answer : ℕ → Call → Keys → Keys × Bool
answer per_key c store =
    if c.admits then admit per_key c.at c.key store else allowed per_key c.at c.key store

unfoldable pub call : ℕ → String → Call → History → History
call per_key watched c h =
    let (store, ok) = answer per_key c h.store in
    record {
      store = store;
      admitted =
          if c.admits && (str_eq c.key watched && ok) then h.admitted ++ c.at ∷ [] else h.admitted;
    }

unfoldable pub run : ℕ → String → List Call → History → History
run per_key watched [] h = h
run per_key watched (c ∷ calls) h = run per_key watched calls (call per_key watched c h)

-- Times that do not fall, from `last` on.
abbrev pub Rising : ℕ → List Call → Type 0
Rising last [] = Unit
Rising last (c ∷ calls) = (last ≤ c.at) × Rising c.at calls

-- The store of `admit` before it drops the keys that are too many.
abbrev moved_last : ℕ → ℕ → String → Keys → Keys
moved_last per_key now key store =
    put_last key (admit_bucket per_key now (or_empty (get key store))).0 store

-- The store after a call, but for what the call drops; `allowed` drops nothing.
abbrev undropped : ℕ → Call → Keys → Keys
undropped per_key c store =
    if c.admits then moved_last per_key c.at c.key store else (answer per_key c store).0

-- No call drops the bucket of the watched key.
abbrev pub IsSpared : ℕ → String → List Call → History → Type 0
IsSpared per_key watched [] h = Unit
IsSpared per_key watched (c ∷ calls) h =
    (get watched (answer per_key c h.store).0 ≡ get watched (undropped per_key c h.store))
    × IsSpared per_key watched calls (call per_key watched c h)

admit-answer :
    (per_key now : ℕ) (key : String) (store : Keys)
    → (admit per_key now key store).1 ≡ (admit_bucket per_key now (or_empty (get key store))).1
unfolding admit
admit-answer per_key now key store =
    elim (Bool-cases (admit_bucket per_key now (or_empty (get key store))).1) [
      | inl admitted ↦ rw (admit, admitted) refl
      | inr refused ↦ rw (admit, refused) refl
    ]

admit-Tracks :
    (per_key last : ℕ) (k : String) (c : Call) (store : Keys) (admitted : List ℕ)
    → last ≤ c.at
    → get k (admit per_key c.at c.key store).0 ≡ get k (moved_last per_key c.at c.key store)
    → Tracks per_key last (or_empty (get k store)) admitted
    → Tracks per_key c.at (or_empty (get k (admit per_key c.at c.key store).0)) (
        if str_eq c.key k && (admit per_key c.at c.key store).1
        then admitted ++ c.at ∷ []
        else admitted)
admit-Tracks per_key last k c store admitted le spared tr =
    let bucket = (admit_bucket per_key c.at (or_empty (get c.key store))).0 in
    let stored = get-put_last c.key k bucket store in
    elim (Bool-cases (str_eq c.key k)) [
      | inl same ↦
          let e : k ≡ c.key = sym ((eq_iff c.key k).0 same) in
          rw (spared, stored, same, admit-answer per_key c.at c.key store)
            (admit_bucket-Tracks per_key last c.at (or_empty (get c.key store)) admitted le
              (rw e at tr))
      | inr other ↦
          rw (spared, stored, other)
            (later-Tracks per_key last c.at (or_empty (get k store)) admitted le tr)
    ]

allowed-Tracks :
    (per_key last now : ℕ) (k key : String) (store : Keys) (admitted : List ℕ)
    → last ≤ now
    → Tracks per_key last (or_empty (get k store)) admitted
    → Tracks per_key now (or_empty (get k (allowed per_key now key store).0)) admitted
unfolding allowed
allowed-Tracks per_key last now k key store admitted le tr = elim (Option-cases (get key store)) [
  | inl absent ↦
      rw (allowed, absent) (later-Tracks per_key last now (or_empty (get k store)) admitted le tr)
  | inr (bucket, there) ↦
      let stored = get-put key k (expire now bucket) store in
      elim (Bool-cases (str_eq key k)) [
        | inl same ↦
            let e : k ≡ key = sym ((eq_iff key k).0 same) in
            let tr' : Tracks per_key last bucket admitted = rw (e, there) at tr in
            rw (allowed, there, stored, same)
              (expire-Tracks per_key last now bucket admitted le tr')
        | inr other ↦
            rw (allowed, there, stored, other)
              (later-Tracks per_key last now (or_empty (get k store)) admitted le tr)
      ]
]

call-Tracks :
    (per_key last : ℕ) (k : String) (c : Call) (h : History)
    → last ≤ c.at
    → get k (answer per_key c h.store).0 ≡ get k (undropped per_key c h.store)
    → Tracks per_key last (or_empty (get k h.store)) h.admitted
    → Tracks per_key c.at
        (or_empty (get k (call per_key k c h).store))
        (call per_key k c h).admitted
unfolding call
call-Tracks per_key last k c h le spared tr = elim (Bool-cases c.admits) [
  | inl admits ↦
      rw admits (admit-Tracks per_key last k c h.store h.admitted le (rw admits at spared) tr)
  | inr asks ↦ rw asks (allowed-Tracks per_key last c.at k c.key h.store h.admitted le tr)
]

-- The time of the last call.
abbrev pub last_time : ℕ → List Call → ℕ
last_time last [] = last
last_time last (c ∷ calls) = last_time c.at calls

run-Tracks :
    (per_key last : ℕ) (k : String) (calls : List Call) (h : History)
    → Tracks per_key last (or_empty (get k h.store)) h.admitted
    → Rising last calls
    → IsSpared per_key k calls h
    → Tracks per_key
        (last_time last calls)
        (or_empty (get k (run per_key k calls h).store))
        (run per_key k calls h).admitted
unfolding run
run-Tracks per_key last k [] h tr r spared = tr
run-Tracks per_key last k (c ∷ calls) h tr r spared =
    run-Tracks per_key c.at k calls (call per_key k c h)
      (call-Tracks per_key last k c h r.0 spared.0 tr) r.1 spared.1

-- Over any calls of `admit` and `allowed` for any keys, from an empty window on and with a clock that
-- does not go back: a key whose bucket no call drops, to keep the window at 4096 keys, has at most
-- `per_key` admissions that are less than a minute old at the last call.
pub admitted-le-per_key :
    (per_key : ℕ) (key : String) (calls : List Call)
    → Rising 0 calls
    → IsSpared per_key key calls start
    → count_if (is_recent (last_time 0 calls)) (run per_key key calls start).admitted ≤ per_key
unfolding get
admitted-le-per_key per_key key calls r spared =
    Tracks-recent per_key (last_time 0 calls) _ _
      (run-Tracks per_key 0 key calls start (start-Tracks per_key) r spared)
