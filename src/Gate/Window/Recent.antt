-- ===== src/Gate/Window/Recent.antt =====
-- One bucket of the window: it holds the admissions of its key in the last minute.
use mathlib.Core.List.{append_assoc}
use robinhoodpools.Prelude.{
  ℕ, ◌+◌, ◌≤◌, ◌≡◌, refl, sym, ap, ◌∙◌, Bool, List, [], ◌∷◌, ◌++◌, arith, ltb, leb, length,
  length-append, count_if, All, All-append, Bool-cases, inl, inr, if◌then◌else◌, leb→le, leb→gt,
  ge→ltb,
}
use robinhoodpools.Gate.Window.{minute, expire, admit_bucket}

-- An admission less than a minute old.
abbrev pub is_recent : ℕ → ℕ → Bool
is_recent now t = ltb now (t + minute)

-- The bucket is a tail of the admissions, and what is before it is a minute old.
pub record Tracks (per_key last : ℕ) (bucket admitted : List ℕ) : Type 0 where
  old : List ℕ
  split : admitted ≡ old ++ bucket
  expired : All (λ t. t + minute ≤ last) old
  bounded : length bucket ≤ per_key

-- `expire` drops a prefix, all of which is a minute old.
record Expired (now : ℕ) (bucket : List ℕ) : Type 0 where
  dropped : List ℕ
  whole : bucket ≡ dropped ++ expire now bucket
  all_old : All (λ t. t + minute ≤ now) dropped

expire-Expired : (now : ℕ) (bucket : List ℕ) → Expired now bucket
unfolding expire
expire-Expired now [] = record { dropped = []; whole = refl; all_old = tt }
expire-Expired now (t ∷ bucket) =
    let ih = expire-Expired now bucket in
    elim (Bool-cases (leb (t + minute) now)) [
      | inl old ↦ record {
        dropped = t ∷ ih.dropped;
        whole = rw (old, expire) (ap (λ (r : List ℕ). t ∷ r) ih.whole);
        all_old = (leb→le _ _ old, ih.all_old);
      }
      | inr fresh ↦ record { dropped = []; whole = rw (fresh, expire); all_old = tt }
    ]

length-expire : (now : ℕ) (bucket : List ℕ) → length (expire now bucket) ≤ length bucket
unfolding expire
length-expire now [] = omega arith
length-expire now (t ∷ bucket) = ground (arith, length-expire now bucket)

-- Older admissions stay old.
All-later :
    (last now : ℕ) (ts : List ℕ)
    → last ≤ now
    → All (λ t. t + minute ≤ last) ts
    → All (λ t. t + minute ≤ now) ts
All-later last now [] le h = tt
All-later last now (t ∷ ts) le h = (omega arith, All-later last now ts le h.1)

-- Time passes, without a call of the key.
pub later-Tracks :
    (per_key last now : ℕ) (bucket admitted : List ℕ)
    → last ≤ now
    → Tracks per_key last bucket admitted
    → Tracks per_key now bucket admitted
later-Tracks per_key last now bucket admitted le tr = record {
  old = tr.old;
  split = tr.split;
  expired = All-later last now tr.old le tr.expired;
  bounded = tr.bounded;
}

pub expire-Tracks :
    (per_key last now : ℕ) (bucket admitted : List ℕ)
    → last ≤ now
    → Tracks per_key last bucket admitted
    → Tracks per_key now (expire now bucket) admitted
expire-Tracks per_key last now bucket admitted le tr =
    let ex = expire-Expired now bucket in
    record {
      old = tr.old ++ ex.dropped;
      split =
          tr.split
          ∙ ap (λ (r : List ℕ). tr.old ++ r) ex.whole
          ∙ sym (append_assoc tr.old ex.dropped (expire now bucket));
      expired =
          All-append (λ t. t + minute ≤ now) tr.old ex.dropped
            (All-later last now tr.old le tr.expired) ex.all_old;
      bounded = omega (arith, length-expire now bucket, tr.bounded);
    }

pub admit_bucket-Tracks :
    (per_key last now : ℕ) (bucket admitted : List ℕ)
    → last ≤ now
    → Tracks per_key last bucket admitted
    → Tracks per_key now
        (admit_bucket per_key now bucket).0
        (if (admit_bucket per_key now bucket).1 then admitted ++ now ∷ [] else admitted)
unfolding admit_bucket
admit_bucket-Tracks per_key last now bucket admitted le tr =
    let recent = expire now bucket in
    let tr' = expire-Tracks per_key last now bucket admitted le tr in
    elim (Bool-cases (leb per_key (length recent))) [
      | inl full ↦ rw full tr'
      | inr room ↦ rw room (record {
        old = tr'.old;
        split =
            ap (λ (r : List ℕ). r ++ now ∷ []) tr'.split ∙ append_assoc tr'.old recent (now ∷ []);
        expired = tr'.expired;
        bounded = omega (arith, length-append {0} recent (now ∷ []), leb→gt _ _ room);
      })
    ]

count-append :
    (p : ℕ → Bool) (xs ys : List ℕ) → count_if p (xs ++ ys) ≡ count_if p xs + count_if p ys
count-append p [] ys = omega arith
count-append p (x ∷ xs) ys = omega (arith, count-append p xs ys)

count-le-length : (p : ℕ → Bool) (xs : List ℕ) → count_if p xs ≤ length xs
count-le-length p [] = omega arith
count-le-length p (x ∷ xs) = ground (arith, count-le-length p xs)

count_old :
    (now : ℕ) (ts : List ℕ) → All (λ t. t + minute ≤ now) ts → count_if (is_recent now) ts ≡ 0
count_old now [] h = refl
count_old now (t ∷ ts) h = rw (ge→ltb now (t + minute) h.0) (omega (arith, count_old now ts h.1))

-- Of all admissions, no more are recent than the bucket may hold.
pub Tracks-recent :
    (per_key now : ℕ) (bucket admitted : List ℕ)
    → Tracks per_key now bucket admitted
    → count_if (is_recent now) admitted ≤ per_key
Tracks-recent per_key now bucket admitted tr = rw tr.split (
    omega (
      arith,
      count-append (is_recent now) tr.old bucket,
      count_old now tr.old tr.expired,
      count-le-length (is_recent now) bucket,
      tr.bounded,
    ))

-- With no calls so far.
pub start-Tracks : (per_key : ℕ) → Tracks per_key 0 [] []
start-Tracks per_key = record { old = []; split = refl; expired = tt; bounded = omega arith }
