-- ===== src/Tx/Chain/Path.antt =====
-- tx_chain.py: `v3_path` and `decode_v3_path`. `bytes.fromhex` after the prefix and `"0x" + b.hex()`
-- are parameters.
mod Tests
use robinhoodpools.Prelude.{
  ℕ, zero, suc, ◌+◌, ◌*◌, ◌/◌, ◌%◌, ◌<◌, ◌≤◌, ◌≡◌, ◌≢◌, refl, sym, ap, ◌∙◌, String, List, [], ◌∷◌,
  ◌++◌, arith, Option, none, some, length, length-append, All, ltb, ltb→lt, if◌then◌else◌,
  Bool-cases, Option-cases, inl, inr,
}
use robinhoodpools.Tx.Chain.{Bytes}

-- `data[:n]` and `data[n:]`
unfoldable pub take : ℕ → Bytes → Bytes
take zero bs = []
take (suc n) [] = []
take (suc n) (b ∷ bs) = b ∷ take n bs

unfoldable pub drop : ℕ → Bytes → Bytes
drop zero bs = bs
drop (suc n) [] = []
drop (suc n) (b ∷ bs) = drop n bs

pub take-append : (n : ℕ) (xs ys : Bytes) → length xs ≡ n → take n (xs ++ ys) ≡ xs
unfolding take
take-append zero [] ys e = refl
take-append zero (x ∷ xs) ys e = absurd (omega (arith, e))
take-append (suc n) [] ys e = absurd (omega (arith, e))
take-append (suc n) (x ∷ xs) ys e =
    ap (λ (r : Bytes). x ∷ r) (take-append n xs ys (omega (arith, e)))

pub drop-append : (n : ℕ) (xs ys : Bytes) → length xs ≡ n → drop n (xs ++ ys) ≡ ys
unfolding drop
drop-append zero [] ys e = refl
drop-append zero (x ∷ xs) ys e = absurd (omega (arith, e))
drop-append (suc n) [] ys e = absurd (omega (arith, e))
drop-append (suc n) (x ∷ xs) ys e = drop-append n xs ys (omega (arith, e))

-- `fee.to_bytes(3, "big")` and `int.from_bytes(...)`
abbrev pub to_bytes3 : ℕ → Bytes
to_bytes3 n = n / 65536 ∷ n / 256 % 256 ∷ n % 256 ∷ []

abbrev pub from_bytes_from : ℕ → Bytes → ℕ
from_bytes_from acc [] = acc
from_bytes_from acc (b ∷ bs) = from_bytes_from (acc * 256 + b) bs

abbrev pub from_bytes : Bytes → ℕ
from_bytes bs = from_bytes_from 0 bs

module _ (fromhex : String → Bytes) (hex : Bytes → String) where
  -- `for fee, token in zip(fees, tokens[1:], strict=True)`; `none` is the error of `zip` or of `to_bytes`.
  unfoldable pub path_hops : List String → List ℕ → Option Bytes
  path_hops [] [] = some []
  path_hops [] (f ∷ fs) = none
  path_hops (t ∷ ts) [] = none
  path_hops (t ∷ ts) (f ∷ fs) = elim (path_hops ts fs) [
    | none ↦ none
    | some rest ↦ if ltb f 16777216 then some (to_bytes3 f ++ (fromhex t ++ rest)) else none
  ]

  -- `v3_path`
  unfoldable pub v3_path : List String → List ℕ → Option Bytes
  unfolding path_hops
  v3_path [] fees = none
  v3_path (t ∷ ts) fees = elim (path_hops ts fees) [
    | none ↦ none
    | some rest ↦ some (fromhex t ++ rest)
  ]

  -- `while rest:`; a round drops 23 bytes, so as much fuel as there are bytes is enough.
  unfoldable pub decode_hops : ℕ → Bytes → Option (List String × List ℕ)
  decode_hops fuel [] = some ([], [])
  decode_hops zero (b ∷ bs) = none
  decode_hops (suc fuel) (b ∷ bs) = elim (decode_hops fuel (drop 23 (b ∷ bs))) [
    | none ↦ none
    | some (tokens, fees) ↦
        some (hex (take 20 (drop 3 (b ∷ bs))) ∷ tokens, from_bytes (take 3 (b ∷ bs)) ∷ fees)
  ]

  -- `decode_v3_path`
  unfoldable pub decode_v3_path : Bytes → Option (List String × List ℕ)
  unfolding decode_hops
  decode_v3_path path = elim (decode_hops (length path) (drop 20 path)) [
    | none ↦ none
    | some (tokens, fees) ↦ some (hex (take 20 path) ∷ tokens, fees)
  ]

  -- A token is an address that `hex` gives back from its twenty bytes.
  abbrev pub IsAddress : String → Type 0
  IsAddress t = (length (fromhex t) ≡ 20) × (hex (fromhex t) ≡ t)

  from_bytes-to_bytes3 : (f : ℕ) → f < 16777216 → from_bytes (to_bytes3 f) ≡ f
  from_bytes-to_bytes3 f h = omega (arith, h)

  abbrev bytes_of : Option Bytes → Bytes
  bytes_of none = []
  bytes_of (some bs) = bs

  drop_three : (n a b c : ℕ) (bs : Bytes) → drop (suc (suc (suc n))) (a ∷ b ∷ c ∷ bs) ≡ drop n bs
  unfolding drop
  drop_three n a b c bs = refl

  drop_zero : (bs : Bytes) → drop 0 bs ≡ bs
  unfolding drop
  drop_zero bs = refl

  -- One round of the decoder undoes one hop.
  decode_hop :
      (t : String) (f : ℕ) (rest : Bytes) (fuel : ℕ) (ts : List String) (fs : List ℕ)
      → IsAddress t
      → f < 16777216
      → decode_hops fuel rest ≡ some (ts, fs)
      → decode_hops (suc fuel) (to_bytes3 f ++ (fromhex t ++ rest)) ≡ some (t ∷ ts, f ∷ fs)
  unfolding decode_hops
  decode_hop t f rest fuel ts fs (long, back) small ih =
      let tail = fromhex t ++ rest in
      rw
        (
          drop_three 20 (f / 65536) (f / 256 % 256) (f % 256) tail,
          drop-append 20 (fromhex t) rest long,
          ih,
          decode_hops,
          drop_three 0 (f / 65536) (f / 256 % 256) (f % 256) tail,
          drop_zero tail,
          take-append 20 (fromhex t) rest long,
          back,
          take-append 3 (to_bytes3 f) tail refl,
          from_bytes-to_bytes3 f small,
        )
        refl

  path_hops-long :
      (t : String) (f : ℕ) (ts : List String) (fs : List ℕ) (rest : Bytes)
      → path_hops (t ∷ ts) (f ∷ fs) ≡ some rest
      → length rest ≢ 0
  unfolding path_hops
  path_hops-long t f ts fs rest h e = ground (arith, h, e)

  decode_hops-path_hops :
      (ts : List String) (fs : List ℕ) (fuel : ℕ) (rest : Bytes)
      → All IsAddress ts
      → path_hops ts fs ≡ some rest
      → length rest ≤ fuel
      → decode_hops fuel rest ≡ some (ts, fs)
  unfolding path_hops decode_hops
  decode_hops-path_hops [] [] zero rest good h le =
      let e : rest ≡ [] = sym (ap bytes_of h) in rw e refl
  decode_hops-path_hops [] [] (suc fuel) rest good h le =
      let e : rest ≡ [] = sym (ap bytes_of h) in rw e refl
  decode_hops-path_hops [] (f ∷ fs) fuel rest good h le = absurd (cc h)
  decode_hops-path_hops (t ∷ ts) [] fuel rest good h le = absurd (cc h)
  decode_hops-path_hops (t ∷ ts) (f ∷ fs) zero rest good h le =
      absurd (path_hops-long t f ts fs rest h (omega (arith, le)))
  decode_hops-path_hops (t ∷ ts) (f ∷ fs) (suc fuel) rest (good, more) h le =
      elim (Option-cases (path_hops ts fs)) [
        | inl z ↦ absurd (cc (rw (z, path_hops) at h))
        | inr (r, z) ↦ elim (Bool-cases (ltb f 16777216)) [
          | inl small ↦
              let e : rest ≡ to_bytes3 f ++ (fromhex t ++ r) =
                sym (ap bytes_of (rw (z, path_hops, small) at h)) in
              rw e (
                decode_hop t f r fuel ts fs good (ltb→lt _ _ small) (
                  decode_hops-path_hops ts fs fuel r more z
                    (omega (arith, le, ap (length {A = ℕ}) e, length-append {0} (fromhex t) r))))
          | inr big ↦ absurd (cc (rw (z, path_hops, big) at h))
        ]
      ]

  decode_first :
      (t : String) (r : Bytes) (ts : List String) (fees : List ℕ)
      → IsAddress t
      → decode_hops (length (fromhex t ++ r)) r ≡ some (ts, fees)
      → decode_v3_path (fromhex t ++ r) ≡ some (t ∷ ts, fees)
  unfolding decode_v3_path
  decode_first t r ts fees (long, back) rest =
      rw
        (
          drop-append 20 (fromhex t) r long,
          rest,
          decode_v3_path,
          take-append 20 (fromhex t) r long,
          back,
        )
        refl

  -- Decoding an encoded path gives its tokens and fees back, for tokens that `bytes.fromhex` and
  -- `hex` keep.
  pub decode_v3_path-v3_path :
      (tokens : List String) (fees : List ℕ) (path : Bytes)
      → All IsAddress tokens
      → v3_path tokens fees ≡ some path
      → decode_v3_path path ≡ some (tokens, fees)
  unfolding v3_path decode_v3_path
  decode_v3_path-v3_path [] fees path good h = absurd (cc h)
  decode_v3_path-v3_path (t ∷ ts) fees path (good, more) h =
      elim (Option-cases (path_hops ts fees)) [
        | inl z ↦ absurd (cc (rw (z, v3_path) at h))
        | inr (r, z) ↦
            let e : path ≡ fromhex t ++ r = sym (ap bytes_of (rw (z, v3_path) at h)) in
            rw e (
              decode_first t r ts fees good (
                decode_hops-path_hops ts fees (length (fromhex t ++ r)) r more z
                  (omega (arith, length-append {0} (fromhex t) r))))
      ]

  drop-length : (n : ℕ) (bs : Bytes) → length (drop n bs) ≤ length bs
  unfolding drop
  drop-length zero bs = omega arith
  drop-length (suc n) [] = omega arith
  drop-length (suc n) (b ∷ bs) = omega (arith, drop-length n bs)

  drop_some-length : (n : ℕ) (b : ℕ) (bs : Bytes) → length (drop (suc n) (b ∷ bs)) ≤ length bs
  unfolding drop
  drop_some-length n b bs = drop-length n bs

  decode_hops-total :
      (fuel : ℕ) (bs : Bytes)
      → length bs ≤ fuel
      → (r : List String × List ℕ) × (decode_hops fuel bs ≡ some r)
  unfolding decode_hops
  decode_hops-total fuel [] h = (([], []), refl)
  decode_hops-total zero (b ∷ bs) h = absurd (omega (arith, h))
  decode_hops-total (suc fuel) (b ∷ bs) h =
      let (r, e) =
        decode_hops-total fuel (drop 23 (b ∷ bs)) (omega (arith, h, drop_some-length 22 b bs)) in
      (
        (hex (take 20 (drop 3 (b ∷ bs))) ∷ r.0, from_bytes (take 3 (b ∷ bs)) ∷ r.1),
        rw (decode_hops, e) refl,
      )

  -- The loop of `decode_v3_path` ends on every input, whether or not it is a path: the fuel is never
  -- used up, and there are tokens and fees in answer.
  pub decode_v3_path-total :
      (path : Bytes) → (r : List String × List ℕ) × (decode_v3_path path ≡ some r)
  unfolding decode_v3_path
  decode_v3_path-total path =
      let (r, e) = decode_hops-total (length path) (drop 20 path) (drop-length 20 path) in
      ((hex (take 20 path) ∷ r.0, r.1), rw (decode_v3_path, e) refl)
