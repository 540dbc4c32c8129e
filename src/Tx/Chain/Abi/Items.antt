-- ===== src/Tx/Chain/Abi/Items.antt =====
-- The lists that are written as one byte and one blob for each item: `bytes(c.cmd for c in ...)` with
-- `[c.encode() for c in ...]`, and `zip(..., strict=True)` when they are read.
use robinhoodpools.Prelude.{
  ℕ, ◌≡◌, refl, sym, ap, Bool, true, arith, List, [], ◌∷◌, map, all, Result, ok, err, ◌>>=◌,
  Result-cases, inl, inr,
}
use robinhoodpools.Tx.Errors.{TxError, value_error}
use robinhoodpools.Tx.Chain.{Bytes}

unfoldable pub blobs_of : Result TxError (List Bytes) → List Bytes
blobs_of (ok bs) = bs
blobs_of (err e) = []

module _ {A : Type 0} where
  unfoldable pub encode_items : (A → Result TxError Bytes) → List A → Result TxError (List Bytes)
  encode_items f [] = ok []
  encode_items f (x ∷ xs) = do b ← f x; bs ← encode_items f xs; ok (b ∷ bs)

  unfoldable pub decode_items :
      (ℕ → Bytes → Result TxError A) → List ℕ → List Bytes → Result TxError (List A)
  decode_items g [] [] = ok []
  decode_items g (c ∷ cs) (b ∷ bs) = do x ← g c b; xs ← decode_items g cs bs; ok (x ∷ xs)
  decode_items g [] (b ∷ bs) = err value_error
  decode_items g (c ∷ cs) [] = err value_error

  -- What reads back each item reads back the list.
  pub decode_items-encode_items :
      (f : A → Result TxError Bytes) (code : A → ℕ) (g : ℕ → Bytes → Result TxError A)
      (p : A → Bool)
      → ((x : A) (b : Bytes) → p x ≡ true → f x ≡ ok b → g (code x) b ≡ ok x)
      → (xs : List A) (bs : List Bytes) → all p xs ≡ true
      → encode_items f xs ≡ ok bs
      → decode_items g (map code xs) bs ≡ ok xs
  unfolding encode_items decode_items blobs_of
  decode_items-encode_items f code g p back [] bs n h =
      let e : bs ≡ [] = sym (ap blobs_of h) in rw e refl
  decode_items-encode_items f code g p back (x ∷ xs) bs n h = elim (Result-cases (f x)) [
    | inl (b, eb) ↦ elim (Result-cases (encode_items f xs)) [
      | inl (rest, er) ↦
          let n0 : p x ≡ true = ground arith in
          let n1 : all p xs ≡ true = ground arith in
          let h' : ok (b ∷ rest) ≡ ok bs = rw (eb, er) at h in
          let e : bs ≡ b ∷ rest = sym (ap blobs_of h') in
          let here = back x b n0 eb in
          let there = decode_items-encode_items f code g p back xs rest n1 er in
          rw (e, here, there) refl
      | inr (e, er) ↦ absurd (cc (rw (eb, er) at h))
    ]
    | inr (e, eb) ↦ absurd (cc (rw (eb) at h))
  ]
