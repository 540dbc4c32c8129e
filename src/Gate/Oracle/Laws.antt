-- ===== src/Gate/Oracle/Laws.antt =====
-- Which holdings the oracle gives, and what its cache holds.
use robinhoodpools.Prelude.{
  ℕ, zero, suc, ◌+◌, ◌-◌, ◌*◌, ◌≤◌, ◌<◌, ◌≡◌, refl, sym, ap, ◌∙◌, ◌⊎◌, inl, inr, String, Option,
  none, some, [], ◌∷◌, arith, All, All-append, length, length-append, leb, ltb→lt, leb→le, str_eq,
  eq_iff, Bool-cases, Option-cases,
}
use robinhoodpools.Dict.{Dict, get, put_last, remove, drop_first, length-remove}
use robinhoodpools.Gate.Entitle.{second, oracle_ttl, Holding, is_fresh}
use robinhoodpools.Gate.Oracle.{
  Oracle, max_wallets, supply_at, usable, with_supply, fetched_holding, remember, consult, observe,
  observe_after, is_recent,
}

-- Every entry is of its own wallet.
abbrev pub IsOwn : Dict Holding → Type 0
IsOwn cache = All (λ e. e.1.wallet ≡ e.0) cache

-- What a caller may be given: a holding of its wallet, fresh or within the grace period.
pub record IsCurrent (now grace_s : ℕ) (wallet : String) (h : Holding) : Type 0 where
  pub own : h.wallet ≡ wallet
  pub recent : (now - h.observed_at < oracle_ttl) ⊎ (now - h.observed_at ≤ grace_s * second)

abbrev pub Given : (Holding → Type 0) → Option Holding → Type 0
Given P none = Unit
Given P (some h) = P h

abbrev wallet_of : Option Holding → String
wallet_of none = ""
wallet_of (some h) = h.wallet

get-own :
    (wallet : String) (cache : Dict Holding) (h : Holding)
    → IsOwn cache
    → get wallet cache ≡ some h
    → h.wallet ≡ wallet
unfolding get
get-own wallet [] h own e = absurd (cc e)
get-own wallet ((w, g) ∷ cache) h own e = elim (Bool-cases (str_eq w wallet)) [
  | inl same ↦ sym (ap wallet_of (rw (same, get) at e)) ∙ own.0 ∙ (eq_iff w wallet).0 same
  | inr other ↦ get-own wallet cache h own.1 (rw (other, get) at e)
]

remove-IsOwn : (wallet : String) (cache : Dict Holding) → IsOwn cache → IsOwn (remove wallet cache)
unfolding remove
remove-IsOwn wallet [] own = tt
remove-IsOwn wallet ((w, g) ∷ cache) own = elim (Bool-cases (str_eq w wallet)) [
  | inl same ↦ rw (same, remove) (remove-IsOwn wallet cache own.1)
  | inr other ↦ rw (other, remove) (own.0, remove-IsOwn wallet cache own.1)
]

put_last-IsOwn :
    (wallet : String) (h : Holding) (cache : Dict Holding)
    → h.wallet ≡ wallet
    → IsOwn cache
    → IsOwn (put_last wallet h cache)
unfolding put_last
put_last-IsOwn wallet h cache e own =
    All-append (λ e. e.1.wallet ≡ e.0) (remove wallet cache) ((wallet, h) ∷ [])
      (remove-IsOwn wallet cache own) (e, tt)

drop_first-IsOwn : (n : ℕ) (cache : Dict Holding) → IsOwn cache → IsOwn (drop_first n cache)
unfolding drop_first
drop_first-IsOwn zero cache own = own
drop_first-IsOwn (suc n) [] own = tt
drop_first-IsOwn (suc n) (e ∷ cache) own = drop_first-IsOwn n cache own.1

length-drop_first : (n : ℕ) (cache : Dict Holding) → length (drop_first n cache) ≡ length cache - n
unfolding drop_first
length-drop_first zero cache = omega arith
length-drop_first (suc n) [] = omega arith
length-drop_first (suc n) (e ∷ cache) = omega (arith, length-drop_first n cache)

length-remove_found :
    (wallet : String) (cache : Dict Holding) (h : Holding)
    → get wallet cache ≡ some h
    → length (remove wallet cache) + 1 ≤ length cache
unfolding get remove
length-remove_found wallet [] h e = absurd (cc e)
length-remove_found wallet ((w, g) ∷ cache) h e = elim (Bool-cases (str_eq w wallet)) [
  | inl same ↦ rw (same, remove) (omega (arith, length-remove wallet cache))
  | inr other ↦
      rw (other, remove) (omega (arith, length-remove_found wallet cache h (rw (other, get) at e)))
]

-- The cache is in order: its entries are of their own wallets, and there are not too many.
pub record IsSound (cache : Dict Holding) : Type 0 where
  pub own : IsOwn cache
  pub small : length cache ≤ max_wallets

remember-IsSound :
    (now : ℕ) (wallet : String) (f : ℕ × ℕ) (cache : Dict Holding)
    → IsSound cache
    → IsSound (remember wallet (fetched_holding now wallet f) cache)
remember-IsSound now wallet f cache c =
    let h = fetched_holding now wallet f in
    let moved = put_last wallet h cache in
    record {
      own =
          drop_first-IsOwn (length moved - max_wallets) moved
            (put_last-IsOwn wallet h cache refl c.own);
      small = omega (arith, length-drop_first (length moved - max_wallets) moved);
    }

move-IsSound :
    (wallet : String) (h : Holding) (cache : Dict Holding)
    → get wallet cache ≡ some h
    → IsSound cache
    → IsSound (put_last wallet h cache)
unfolding put_last
move-IsSound wallet h cache found c = record {
  own = put_last-IsOwn wallet h cache (get-own wallet cache h c.own found) c.own;
  small = omega (
    arith,
    length-append {0} (remove wallet cache) ((wallet, h) ∷ []),
    length-remove_found wallet cache h found,
    c.small,
  );
}

Consulted : ℕ → ℕ → String → Dict Holding × Option Holding → Type 0
Consulted now grace_s wallet r = IsSound r.0 × Given (IsCurrent now grace_s wallet) r.1

usable-IsCurrent :
    (now grace_s : ℕ) (wallet : String) (h : Holding)
    → h.wallet ≡ wallet
    → Given (IsCurrent now grace_s wallet) (usable now grace_s (some h))
unfolding usable
usable-IsCurrent now grace_s wallet h e =
    elim (Bool-cases (leb (now - h.observed_at) (grace_s * second))) [
      | inl young ↦ rw young (record { own = e; recent = inr (leb→le _ _ young) })
      | inr old ↦ rw old tt
    ]

answered :
    (now grace_s : ℕ) (wallet : String) (f : ℕ × ℕ) (cache : Dict Holding)
    → IsSound cache
    → Consulted now grace_s wallet
        (remember wallet (fetched_holding now wallet f) cache, some (fetched_holding now wallet f))
unfolding Consulted
answered now grace_s wallet f cache c =
    (remember-IsSound now wallet f cache c, record { own = refl; recent = inl (omega arith) })

consult-Consulted :
    (now : ℕ) (wallet : String) (grace_s : ℕ) (fetched : Option (ℕ × ℕ)) (cache : Dict Holding)
    → IsSound cache
    → Consulted now grace_s wallet (consult now wallet grace_s fetched cache)
unfolding consult Consulted
consult-Consulted now wallet grace_s fetched cache c = elim (Option-cases (get wallet cache)) [
  | inl z ↦
      rw (z, consult)
        (elim (Option-cases fetched) [
          | inl silent ↦ rw silent (c, tt)
          | inr (f, told) ↦ rw told (answered now grace_s wallet f cache c)
        ])
  | inr (h, z) ↦
      rw (z, consult)
        (elim (Bool-cases (is_fresh (some h) now)) [
          | inl fresh ↦ rw fresh (
            move-IsSound wallet h cache z c,
            record { own = get-own wallet cache h c.own z; recent = inl (ltb→lt _ _ fresh) },
          )
          | inr stale ↦ rw stale (elim (Option-cases fetched) [
            | inl silent ↦
                rw silent
                  (c, usable-IsCurrent now grace_s wallet h (get-own wallet cache h c.own z))
            | inr (f, told) ↦ rw told (answered now grace_s wallet f cache c)
          ])
        ])
]

with_supply-keeps :
    (now grace_s : ℕ) (wallet token : String) (answer : Option ℕ) (o : Oracle) (h : Option Holding)
    → IsSound o.cache
    → Given (IsCurrent now grace_s wallet) h
    → IsSound (with_supply now token answer o h).0.cache
      × Given (IsCurrent now grace_s wallet) (with_supply now token answer o h).1
unfolding with_supply supply_at
with_supply-keeps now grace_s wallet token answer o none c g = (c, tt)
with_supply-keeps now grace_s wallet token answer o (some h) c g =
    let kept : IsCurrent now grace_s wallet (record h { total_supply_raw = answer }) = record {
      own = g.own;
      recent = g.recent;
    } in
    elim (Bool-cases (is_recent now (get token o.supplies))) [
      | inl known ↦ rw known (c, record { own = g.own; recent = g.recent })
      | inr asked ↦ rw asked (c, kept)
    ]

-- From a cache in order, whatever the node answers or fails to answer, a caller is given no
-- holding or one of its own wallet that is fresh or not older than the grace period; and the cache
-- stays in order, with at most 4096 entries, each of its own wallet.
pub observe-IsCurrent :
    (now : ℕ) (token wallet : String) (grace_s : ℕ) (fetched : Option (ℕ × ℕ)) (answer : Option ℕ)
    (o : Oracle)
    → IsSound o.cache
    → IsSound (observe now token wallet grace_s fetched answer o).0.cache
      × Given (IsCurrent now grace_s wallet) (observe now token wallet grace_s fetched answer o).1
unfolding observe Consulted
observe-IsCurrent now token wallet grace_s fetched answer o c =
    let r = consult-Consulted now wallet grace_s fetched o.cache c in
    with_supply-keeps now grace_s wallet token answer
      (record o { cache = (consult now wallet grace_s fetched o.cache).0 })
      (consult now wallet grace_s fetched o.cache).1 r.0 r.1

-- From a cache in order, a caller that waited for another is given no holding or one of its own
-- wallet that is fresh or not older than the grace period, and the cache stays in order.
pub observe_after-IsCurrent :
    (now : ℕ) (token wallet : String) (grace_s : ℕ) (answer : Option ℕ) (o : Oracle)
    → IsSound o.cache
    → IsSound (observe_after now token wallet grace_s answer o).0.cache
      × Given (IsCurrent now grace_s wallet) (observe_after now token wallet grace_s answer o).1
unfolding observe_after usable
observe_after-IsCurrent now token wallet grace_s answer o c =
    with_supply-keeps now grace_s wallet token answer o (usable now grace_s (get wallet o.cache)) c
      (elim (Option-cases (get wallet o.cache)) [
        | inl z ↦ rw (z, usable) tt
        | inr (h, z) ↦
            rw z (usable-IsCurrent now grace_s wallet h (get-own wallet o.cache h c.own z))
      ])
