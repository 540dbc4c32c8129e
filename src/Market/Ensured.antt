-- ===== src/Market/Ensured.antt =====
-- What a call of the decoder returns, if it returns, with a rule for each step of a do block. `search`
-- applies the rules down a block.
use robinhoodpools.Prelude.{
  ℕ, ◌-◌, ◌^◌, ◌<◌, ◌≡◌, refl, Bool, true, false, ◌||◌, String, Option, none, some, arith, ltb, leb,
  if◌then◌else◌, Result, ok, err, ◌>>=◌, Bool-cases, inl, inr, not, raise_if, str_eq, eq_iff,
}
use robinhoodpools.Prelude.Int.{ℤ, pos, negsuc}
use mathlib.Core.Path.{subst}
use robinhoodpools.Market.{DecodeError}
use robinhoodpools.Market.Words.{uint, sint}
use robinhoodpools.Market.Created.{found}

pub data Ensures {A : Type 0} (P : A → Type 0) : Result DecodeError A → Type 0 where
  returned : {a : A} → P a → Ensures P (ok a)
  raised : {e : DecodeError} → Ensures P (err e)

abbrev pub Is? : {A : Type 0} → (A → Type 0) → Option A → Type 0
Is? P none = Unit
Is? P (some a) = P a

pub Is?-map :
    {A : Type 0} {P Q : A → Type 0} → ((a : A) → P a → Q a) → (o : Option A) → Is? P o → Is? Q o
Is?-map k none h = tt
Is?-map k (some a) h = k a h

abbrev Ensured : {A : Type 0} → (A → Type 0) → Result DecodeError A → Type 0
Ensured P (ok a) = P a
Ensured P (err e) = Unit

ensured : {A : Type 0} {P : A → Type 0} {r : Result DecodeError A} → Ensures P r → Ensured P r
ensured (returned h) = h
ensured raised = tt

pub Ensures-ok :
    {A : Type 0} {P : A → Type 0} {r : Result DecodeError A} {a : A} → Ensures P r → r ≡ ok a → P a
Ensures-ok {P} h e = ensured (subst (Ensures P) e h)

-- An integer of the bits of which `half` is the half
abbrev pub IsInt : ℕ → ℤ → Type 0
IsInt half (pos n) = n < half
IsInt half (negsuc n) = n < half

pub uint_bound : (w bits : ℕ) (name : String) → Ensures (λ n. n < 2 ^ bits) (uint w bits name)
unfolding uint
uint_bound w bits name = elim (Bool-cases (leb (2 ^ bits) w)) [
  | inl h ↦ rw h raised
  | inr h ↦ rw h (returned (ground arith))
]

pub sint24 : (w : ℕ) (name : String) → Ensures (IsInt (2 ^ 23)) (sint w 24 name)
unfolding sint
sint24 w name = elim (Bool-cases (ltb w (2 ^ 23))) [
  | inl h ↦ rw h (returned (ground arith))
  | inr h ↦ rw h (elim (Bool-cases (ltb w (2 ^ 256 - 2 ^ 23) || leb (2 ^ 256) w)) [
    | inl g ↦ rw g raised
    | inr g ↦ rw g (returned (ground arith))
  ])
]

module _ {A B : Type 0} {P : B → Type 0} where
  pub bind_of :
      {Q : A → Type 0} {m : Result DecodeError A} {f : A → Result DecodeError B}
      → Ensures Q m
      → ((a : A) → Q a → Ensures P (f a))
      → Ensures P (m >>= f)
  bind_of (returned h) k = k _ h
  bind_of raised k = raised

  pub bind_any :
      (m : Result DecodeError A) (f : A → Result DecodeError B)
      → ((a : A) → Ensures P (f a))
      → Ensures P (m >>= f)
  bind_any (ok a) f k = k a
  bind_any (err e) f k = raised

  -- The rest of the block may use what the step returned.
  pub bind_eq :
      (m : Result DecodeError A) (f : A → Result DecodeError B)
      → ((a : A) → m ≡ ok a → Ensures P (f a))
      → Ensures P (m >>= f)
  bind_eq (ok a) f k = k a refl
  bind_eq (err e) f k = raised

module _ {B : Type 0} {P : B → Type 0} where
  -- `if a != b: raise e`
  pub bind_same :
      (a b : String) (e : DecodeError) (f : Unit {0} → Result DecodeError B)
      → (a ≡ b → Ensures P (f tt))
      → Ensures P (raise_if (not (str_eq a b)) e >>= f)
  bind_same a b e f k = elim (Bool-cases (str_eq a b)) [
    | inl h ↦ rw h (k ((eq_iff a b).0 h))
    | inr h ↦ rw h raised
  ]

  pub bind_uint :
      (w bits : ℕ) (name : String) (f : ℕ → Result DecodeError B)
      → ((n : ℕ) → n < 2 ^ bits → Ensures P (f n))
      → Ensures P (uint w bits name >>= f)
  bind_uint w bits name f k = bind_of (uint_bound w bits name) k

  pub bind_tick :
      (w : ℕ) (name : String) (f : ℤ → Result DecodeError B)
      → ((n : ℤ) → IsInt (2 ^ 23) n → Ensures P (f n))
      → Ensures P (sint w 24 name >>= f)
  bind_tick w name f k = bind_of (sint24 w name) k

module _ {A : Type 0} {P : A → Type 0} where
  pub weaken :
      {Q : A → Type 0} {r : Result DecodeError A}
      → Ensures P r
      → ((a : A) → P a → Q a)
      → Ensures Q r
  weaken (returned h) k = returned (k _ h)
  weaken raised k = raised

  pub Ensures-found : {r : Result DecodeError A} → Ensures P r → Ensures (Is? P) (found r)
  Ensures-found (returned h) = returned h
  Ensures-found raised = raised

  -- A test before the step
  pub Ensures-if :
      (b : Bool) {r : Result DecodeError (Option A)}
      → Ensures (Is? P) r
      → Ensures (Is? P) (if b then r else ok none)
  Ensures-if true h = h
  Ensures-if false h = returned tt

module _ {A : Type 0} {P Q : A → Type 0} where
  -- A test that guards the step
  pub Ensures-guard :
      (b : Bool) {r : Result DecodeError A}
      → Ensures P r
      → (b ≡ true → (a : A) → P a → Q a)
      → Ensures (Is? Q) (if b then found r else ok none)
  Ensures-guard true h k = Ensures-found (weaken h (k refl))
  Ensures-guard false h k = returned tt
