-- ===== src/Market/Concentrated/Flows.antt =====
-- The V3 events that move a position's liquidity: Mint, Burn and Collect name one position in one way.
use robinhoodpools.Prelude.{
  ◌≡◌, refl, ap, Bool, not, ◌||◌, any, String, List, Option, some, Result, ok, err, ◌>>=◌, ◌>>◌,
  raise_if, Result-cases, Option-cases, true, false, inl, inr, length, ◌==◌,
}
use robinhoodpools.Prelude.Int.{ℤ}
use robinhoodpools.Tx.Chain.Path.{take}
use robinhoodpools.Market.{Value, Log, DecodeError, Runtime}
use robinhoodpools.Market.Hex.{hex_body, from_hex}
use robinhoodpools.Market.Words.{
  raw_hex, words_of, word_at, uint, word_address, topic_address, topic_at, want_topics,
}
use robinhoodpools.Market.Rows.{Row, PoolInfo, PositionKey}
use robinhoodpools.Market.Keys.{core_position_key, v3_position_key}
use robinhoodpools.Market.Ensured.{Ensures, returned, Ensures-ok, bind_any, bind_eq}
use robinhoodpools.Market.Concentrated.{PoolEvent, decode_pool}
use robinhoodpools.Market.Positions.{range_of, pool_text}

pub data Move : Type 0 where
  minted burned collected : Move

abbrev pub event_of : Move → PoolEvent
event_of minted = PoolEvent.mint
event_of burned = PoolEvent.burn
event_of collected = PoolEvent.collect

abbrev owner_name : Move → String
owner_name minted = "V3 Mint owner"
owner_name burned = "V3 Burn owner"
owner_name collected = "V3 Collect owner"

-- The position that the topics name, in the pool of the row
abbrev Names : Runtime → String → Option String → List String → Row → Type 0
Names rt name pool topics r =
    (owner : String) × (lower upper : ℤ) × (key : PositionKey) × (range_of name topics
      ≡ ok (owner, lower, upper))
    × (core_position_key "v3" (pool_text pool) (v3_position_key rt owner lower upper) ≡ ok key)
    × (r.position_key ≡ some key)
    × (r.custody ≡ some owner)
    × (r.tick_lower ≡ some lower)
    × (r.tick_upper ≡ some upper)

module _ (rt : Runtime) (pool : PoolInfo) (log : Log) (topics : List String) (row : Row) where
  move-Names :
      (e : Move)
      → Ensures
          (Names rt (owner_name e) row.pool_id topics)
          (decode_pool rt (event_of e) pool log topics row)
  unfolding decode_pool
  move-Names minted = bind_any (want_topics 4 topics "V3 Mint topics") _ λ _.
      bind_any (words_of log.payload "V3 Mint data" 4) _ λ words.
        bind_any (word_address (word_at words 0) "V3 Mint sender") _ λ sender.
          bind_eq (range_of "V3 Mint owner" topics) _ λ range named.
            bind_any (uint (word_at words 1) 128 "V3 Mint liquidity") _ λ liquidity.
              bind_eq
                (core_position_key "v3" (pool_text row.pool_id)
                  (v3_position_key rt range.0 range.1 range.2))
                _
                λ key made.
                  returned (range.0, range.1, range.2, key, named, made, refl, refl, refl, refl)
  move-Names burned = bind_any (want_topics 4 topics "V3 Burn topics") _ λ _.
      bind_any (words_of log.payload "V3 Burn data" 3) _ λ words.
        bind_eq (range_of "V3 Burn owner" topics) _ λ range named.
          bind_any (uint (word_at words 0) 128 "V3 Burn liquidity") _ λ liquidity.
            bind_eq
              (core_position_key "v3" (pool_text row.pool_id)
                (v3_position_key rt range.0 range.1 range.2))
              _
              λ key made.
                returned (range.0, range.1, range.2, key, named, made, refl, refl, refl, refl)
  move-Names collected = bind_any (want_topics 4 topics "V3 Collect topics") _ λ _.
      bind_any (words_of log.payload "V3 Collect data" 3) _ λ words.
        bind_eq (range_of "V3 Collect owner" topics) _ λ range named.
          bind_any (word_address (word_at words 0) "V3 Collect recipient") _ λ recipient.
            bind_any (uint (word_at words 1) 128 "V3 Collect amount0") _ λ amount0.
              bind_any (uint (word_at words 2) 128 "V3 Collect amount1") _ λ amount1.
                bind_eq
                  (core_position_key "v3" (pool_text row.pool_id)
                    (v3_position_key rt range.0 range.1 range.2))
                  _
                  λ key made.
                    returned (range.0, range.1, range.2, key, named, made, refl, refl, refl, refl)

-- Two calls that agree on what they return, where both return.
abbrev Agree : {A : Type 0} → Result DecodeError A → Result DecodeError A → Type 0
Agree (ok a) (ok b) = a ≡ b
Agree (ok a) (err e) = Unit
Agree (err e) _ = Unit

Agree-refl : {A : Type 0} (m : Result DecodeError A) → Agree m m
Agree-refl (ok a) = refl
Agree-refl (err e) = tt

Agree-bind :
    {A B : Type 0} (m m' : Result DecodeError A) (f f' : A → Result DecodeError B)
    → Agree m m'
    → ((a : A) → Agree (f a) (f' a))
    → Agree (m >>= f) (m' >>= f')
Agree-bind (ok a) (ok b) f f' h k = rw (← h) (k a)
Agree-bind (ok a) (err e) f f' h k = elim (Result-cases (f a)) [
  | inl (b, g) ↦ rw g tt
  | inr (x, g) ↦ rw g tt
]
Agree-bind (err e) m' f f' h k = tt

raise-Agree :
    {B : Type 0} (b : Bool) (e e' : DecodeError) (r : Result DecodeError B)
    → Agree (raise_if b e >> r) (raise_if b e' >> r)
raise-Agree true e e' r = tt
raise-Agree false e e' r = Agree-refl r

raw_hex-Agree : (v : Value) (n n' : String) → Agree (raw_hex v n) (raw_hex v n')
unfolding raw_hex
raw_hex-Agree (Value.raw b) n n' = refl
raw_hex-Agree (Value.text s) n n' = elim (Option-cases (hex_body s)) [
  | inl e ↦ rw (e, raw_hex) tt
  | inr (body, e) ↦ elim (Option-cases (from_hex body)) [
    | inl g ↦ rw (e, g, raw_hex) tt
    | inr (b, g) ↦ rw (e, g, raw_hex) refl
  ]
]
raw_hex-Agree (Value.truth b) n n' = tt
raw_hex-Agree (Value.whole b) n n' = tt
raw_hex-Agree Value.missing n n' = tt

address-Agree : (v : Value) (n n' : String) → Agree (topic_address v n) (topic_address v n')
unfolding topic_address
address-Agree v n n' =
    Agree-bind (raw_hex v n) (raw_hex v n') _ _ (raw_hex-Agree v n n')
      (λ b. raise-Agree (not (length b == 32) || any (λ x. not (x == 0)) (take 12 b)) _ _ _)

range-Agree :
    (n n' : String) (ts us : List String)
    → topic_at ts 1 ≡ topic_at us 1
    → topic_at ts 2 ≡ topic_at us 2
    → topic_at ts 3 ≡ topic_at us 3
    → Agree (range_of n ts) (range_of n' us)
unfolding range_of
range-Agree n n' ts us e1 e2 e3 =
    rw (e1, e2, e3)
      (Agree-bind (topic_address (topic_at us 1) n) (topic_address (topic_at us 1) n') _ _
        (address-Agree (topic_at us 1) n n') (λ owner. Agree-refl _))

same_ok : {A : Type 0} (m : Result DecodeError A) {a b : A} → m ≡ ok a → m ≡ ok b → a ≡ b
same_ok (ok x) e e' = cc
same_ok (err x) e e' = absurd (cc)

agreed :
    {A : Type 0} {m m' : Result DecodeError A} {a b : A} → Agree m m' → m ≡ ok a → m' ≡ ok b → a ≡ b
agreed {m = ok x} {m' = ok y} h e e' = cc
agreed {m = ok x} {m' = err y} h e e' = absurd (cc)
agreed {m = err x} {m'} h e e' = absurd (cc)

module _ (rt : Runtime) (pool pool' : PoolInfo) (e e' : Move) (log log' : Log) where
  -- Of two V3 Mint, Burn or Collect events with the same indexed owner and ticks, whose rows lie in the
  -- same pool, the decoded rows name the same position, custody and ticks, whatever the events and their
  -- data are, so the flows of a position meet under one key.
  pub move_position :
      (topics topics' : List String) (row row' r r' : Row)
      → topic_at topics 1 ≡ topic_at topics' 1
      → topic_at topics 2 ≡ topic_at topics' 2
      → topic_at topics 3 ≡ topic_at topics' 3
      → row.pool_id ≡ row'.pool_id
      → decode_pool rt (event_of e) pool log topics row ≡ ok r
      → decode_pool rt (event_of e') pool' log' topics' row' ≡ ok r'
      → (r.position_key ≡ r'.position_key)
        × (r.custody ≡ r'.custody)
        × (r.tick_lower ≡ r'.tick_lower)
        × (r.tick_upper ≡ r'.tick_upper)
  move_position topics topics' row row' r r' e1 e2 e3 same h h' =
      let (owner, lower, upper, key, named, made, k, c, tl, tu) =
        Ensures-ok (move-Names rt pool log topics row e) h in
      let (owner', lower', upper', key', named', made', k', c', tl', tu') =
        Ensures-ok (move-Names rt pool' log' topics' row' e') h' in
      let range : ◌≡◌ {A = String × ℤ × ℤ} (owner, lower, upper) (owner', lower', upper') =
        agreed (range-Agree (owner_name e) (owner_name e') topics topics' e1 e2 e3) named named' in
      let eo : owner ≡ owner' = ap (λ (x : String × ℤ × ℤ). x.0) range in
      let el : lower ≡ lower' = ap (λ (x : String × ℤ × ℤ). x.1) range in
      let eu : upper ≡ upper' = ap (λ (x : String × ℤ × ℤ). x.2) range in
      let ek : key ≡ key' =
        same_ok
          (core_position_key "v3" (pool_text row'.pool_id)
            (v3_position_key rt owner' lower' upper'))
          (rw (← eo, ← el, ← eu) (rw (← same) made)) made' in
      (cc, cc, cc, cc)
