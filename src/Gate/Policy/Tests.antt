-- ===== src/Gate/Policy/Tests.antt =====
-- The parser at a concrete policy.
use robinhoodpools.Prelude.{◌≡◌, refl, ok}
use robinhoodpools.Gate.Policy.{parse, public}
use robinhoodpools.Gate.Policy.Laws.{IsValid, parse-IsValid}
use robinhoodpools.Gate.Policy.RoundTrip.{parse-public}
use robinhoodpools.Gate.Policy.Samples.{
  unary, int_of, checksum_of, int_of-unary, small, small-IsValid,
}

parse-public_example : parse int_of checksum_of (public unary small) ≡ ok small
parse-public_example =
    parse-public int_of checksum_of unary int_of-unary small small-IsValid (refl, refl)

parse-IsValid_example : IsValid small
parse-IsValid_example =
    parse-IsValid int_of checksum_of (public unary small) small
      (parse-public int_of checksum_of unary int_of-unary small small-IsValid (refl, refl))
