-- ===== src/Gate/Policy/Samples.antt =====
-- A concrete policy, and numbers printed in unary, one stroke more than the number; an address is
-- its own checksum form. The tests use them for the parameters of the parser.
use Prim.Native.String.{[], ◌∷◌}
use robinhoodpools.Prelude.{ℕ, zero, suc, String, ◌≡◌, refl, ap, Option, none, some, arith}
use robinhoodpools.Prelude.Int.{ℤ, pos}
use robinhoodpools.Gate.Policy.{Value, text, GatePolicy, default_fee_tiers}
use robinhoodpools.Gate.Policy.Laws.{IsValid}

pub strokes : ℕ → String
strokes zero = []
strokes (suc n) = "1" ∷ strokes n

pub marks : String → ℕ
marks [] = 0
marks (c ∷ s) = suc (marks s)

abbrev pub unary : ℕ → String
unary n = "1" ∷ strokes n

abbrev pub int_of : String → Option ℤ
int_of [] = none
int_of (c ∷ s) = some (pos (marks s))

abbrev pub checksum_of : Value → Option String
checksum_of (text s) = some s
checksum_of _ = none

pub marks-strokes : (n : ℕ) → marks (strokes n) ≡ n
unfolding strokes marks
marks-strokes zero = refl
marks-strokes (suc n) = ap suc (marks-strokes n)

pub int_of-unary : (n : ℕ) → int_of (unary n) ≡ some (pos n)
int_of-unary n = ap (λ (k : ℕ). some (pos k)) (marks-strokes n)

abbrev pub small : GatePolicy
small = record {
  version = 3;
  token = some "0xT";
  decimals = 18;
  trade_threshold = 2;
  lp_threshold = 0;
  api_threshold = 3;
  flags_threshold = 0;
  grace_s = 60;
  issued_at = 1;
  base_fee_bps = 100;
  fee_tiers = default_fee_tiers;
}

pub small-IsValid : IsValid small
small-IsValid = record {
  version_bits = omega arith;
  decimals_bits = omega arith;
  trade_bits = omega arith;
  lp_bits = omega arith;
  api_bits = omega arith;
  flags_bits = omega arith;
  grace_bits = omega arith;
  issued_bits = omega arith;
  base_fee = omega arith;
  few_tiers = omega arith;
  ladder = (
    omega arith,
    omega arith,
    omega arith,
    omega arith,
    (omega arith, omega arith, omega arith, omega arith, tt),
  );
}
