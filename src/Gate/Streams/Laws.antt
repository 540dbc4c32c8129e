-- ===== src/Gate/Streams/Laws.antt =====
-- The open streams of a wallet, over requests that interleave.
use robinhoodpools.Prelude.{
  ℕ, ◌+◌, ◌-◌, ◌≤◌, ◌<◌, ◌≡◌, refl, sym, ap, ◌∙◌, String, List, [], ◌∷◌, ◌++◌, arith, count_if, leb,
  leb→gt, ◌==◌, str_eq, eq_iff, eq_refl, Bool-cases, Option-cases, inl, inr, if◌then◌else◌, Result,
  ok, err,
}
use robinhoodpools.Dict.{Dict, get, put, remove, get-put, get-remove}
use robinhoodpools.Gate.Streams.{StreamError, or_zero, enter, leave}

-- How many of the open slots are this wallet's.
abbrev pub slots : String → List String → ℕ
slots wallet open_slots = count_if (λ w. str_eq w wallet) open_slots

-- The requests interleave in any order; the second index lists the slots that are open, each once.
pub data Reach (per_wallet : ℕ) : Dict ℕ → List String → Type 0 where
  start : Reach per_wallet [] []
  entered :
      {d : Dict ℕ} {open_slots : List String} (wallet : String) (d' : Dict ℕ)
      → Reach per_wallet d open_slots
      → enter per_wallet wallet d ≡ ok d'
      → Reach per_wallet d' (wallet ∷ open_slots)
  left :
      {d : Dict ℕ} (before after : List String) (wallet : String) (d' : Dict ℕ)
      → Reach per_wallet d (before ++ wallet ∷ after)
      → leave wallet d ≡ ok d'
      → Reach per_wallet d' (before ++ after)

slots-append : (w : String) (xs ys : List String) → slots w (xs ++ ys) ≡ slots w xs + slots w ys
slots-append w [] ys = omega arith
slots-append w (x ∷ xs) ys = omega (arith, slots-append w xs ys)

-- The dictionary counts the open slots, and the limit holds.
pub record Counts (per_wallet : ℕ) (d : Dict ℕ) (open_slots : List String) : Type 0 where
  pub counted : (w : String) → or_zero (get w d) ≡ slots w open_slots
  pub bounded : (w : String) → slots w open_slots ≤ per_wallet

abbrev dict_of : Dict ℕ → Result StreamError (Dict ℕ) → Dict ℕ
dict_of d (ok d') = d'
dict_of d (err e) = d

enter-ok :
    (per_wallet : ℕ) (wallet : String) (d d' : Dict ℕ)
    → enter per_wallet wallet d ≡ ok d'
    → (d' ≡ put wallet (or_zero (get wallet d) + 1) d) × (or_zero (get wallet d) < per_wallet)
unfolding enter
enter-ok per_wallet wallet d d' h = elim (Bool-cases (leb per_wallet (or_zero (get wallet d)))) [
  | inl full ↦ absurd (cc (rw full at h))
  | inr room ↦ (sym (ap (dict_of []) (rw room at h)), leb→gt _ _ room)
]

-- What `leave` does where the wallet holds a slot.
leave-held :
    (wallet : String) (d : Dict ℕ)
    → 1 ≤ or_zero (get wallet d)
    → (d' : Dict ℕ) × (leave wallet d ≡ ok d')
      × ((w : String)
          → or_zero (get w d')
            ≡ (if str_eq wallet w then or_zero (get wallet d) - 1 else or_zero (get w d)))
unfolding leave
leave-held wallet d h = elim (Option-cases (get wallet d)) [
  | inl z ↦ absurd (ground (arith, h, z))
  | inr (n, z) ↦ elim (Bool-cases (n == 1)) [
    | inl last ↦ (
      remove wallet d,
      rw (z, leave, last) refl,
      λ w. ground (arith, get-remove wallet w d, z, last),
    )
    | inr more ↦ (
      put wallet (n - 1) d,
      rw (z, leave, more) refl,
      λ w. ground (arith, get-put wallet w (n - 1) d, z),
    )
  ]
]

enter-Counts :
    (per_wallet : ℕ) (wallet : String) (d d' : Dict ℕ) (open_slots : List String)
    → Counts per_wallet d open_slots
    → enter per_wallet wallet d ≡ ok d'
    → Counts per_wallet d' (wallet ∷ open_slots)
enter-Counts per_wallet wallet d d' open_slots c h =
    let (e, room) = enter-ok per_wallet wallet d d' h in
    record {
      counted = λ w.
          rw (e, get-put wallet w (or_zero (get wallet d) + 1) d)
            (ground (arith, c.counted w, c.counted wallet, eq_iff wallet w));
      bounded =
          λ w. ground (arith, c.bounded w, c.counted w, c.counted wallet, room, eq_iff wallet w);
    }

slots-middle :
    (w wallet : String) (before after : List String)
    → slots w (before ++ wallet ∷ after)
      ≡ slots w (before ++ after) + (if str_eq wallet w then 1 else 0)
slots-middle w wallet [] after = omega arith
slots-middle w wallet (x ∷ before) after = omega (arith, slots-middle w wallet before after)

slot_held :
    (wallet : String) (before after : List String) → 1 ≤ slots wallet (before ++ wallet ∷ after)
slot_held wallet before after =
    ground (arith, slots-middle wallet wallet before after, eq_refl wallet)

leave-Counts :
    (per_wallet : ℕ) (wallet : String) (d d' : Dict ℕ) (before after : List String)
    → Counts per_wallet d (before ++ wallet ∷ after)
    → leave wallet d ≡ ok d'
    → Counts per_wallet d' (before ++ after)
leave-Counts per_wallet wallet d d' before after c h =
    let held = slot_held wallet before after in
    let (d1, e, values) = leave-held wallet d (omega (arith, held, c.counted wallet)) in
    let same : d' ≡ d1 = ap (dict_of []) (sym h ∙ e) in
    record {
      counted = λ w. rw same (
          ground (
            arith,
            values w,
            c.counted w,
            c.counted wallet,
            slots-middle w wallet before after,
            eq_iff wallet w,
          ));
      bounded = λ w. omega (arith, c.bounded w, slots-middle w wallet before after);
    }

Reach-Counts :
    (per_wallet : ℕ) {d : Dict ℕ} {open_slots : List String}
    → Reach per_wallet d open_slots
    → Counts per_wallet d open_slots
unfolding get
Reach-Counts per_wallet start = record { counted = λ w. refl; bounded = λ w. omega arith }
Reach-Counts per_wallet (entered {d} {open_slots} wallet d' r h) =
    enter-Counts per_wallet wallet d d' open_slots (Reach-Counts per_wallet r) h
Reach-Counts per_wallet (left {d} before after wallet d' r h) =
    leave-Counts per_wallet wallet d d' before after (Reach-Counts per_wallet r) h

-- However the requests interleave, the counter of a wallet is the number of its open slots, and
-- that is at most the limit.
pub slots-le-per_wallet :
    (per_wallet : ℕ) (d : Dict ℕ) (open_slots : List String) (wallet : String)
    → Reach per_wallet d open_slots
    → (or_zero (get wallet d) ≡ slots wallet open_slots) × (slots wallet open_slots ≤ per_wallet)
slots-le-per_wallet per_wallet d open_slots wallet r =
    let c = Reach-Counts per_wallet r in (c.counted wallet, c.bounded wallet)
