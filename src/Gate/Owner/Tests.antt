-- ===== src/Gate/Owner/Tests.antt =====
-- The policy table at concrete calls, with the sample parameters of the parser.
use robinhoodpools.Prelude.{◌≡◌, refl, some, ok, err, [], ◌∷◌, map, Result}
use robinhoodpools.Gate.Policy.{GatePolicy}
use robinhoodpools.Gate.Policy.Samples.{
  unary, int_of, checksum_of, int_of-unary, small, small-IsValid,
}
use robinhoodpools.Gate.Owner.{
  PolicyStore, opened, load, newest, decide, commit, apply_policy, ApplyError, integrity,
}
use robinhoodpools.Gate.Owner.Loading.{Stored, opened-Stored}
use robinhoodpools.Gate.Owner.Outcome.{Outcome}
use robinhoodpools.Gate.Owner.Laws.{apply_policy-Stored}

abbrev fresh : PolicyStore
fresh = opened (some "0xo")

abbrev alone : PolicyStore → PolicyStore
alone s = s

abbrev apply_small :
    (before_write : PolicyStore → PolicyStore)
    → PolicyStore
    → PolicyStore × Result ApplyError GatePolicy
apply_small before_write s =
    apply_policy int_of checksum_of unary (λ a. a) 2_000_000 2_000_000 2_000_000 small (some "0xo")
      "sig" "web" alone before_write s

applied : (apply_small alone fresh).1 ≡ ok small
unfolding apply_policy load newest decide commit
applied = refl

-- A second caller that sends the same policy between the SELECT and the transaction of the first.
abbrev overtaken : PolicyStore → PolicyStore
overtaken s = (apply_small alone s).0

overtaken_is_refused : (apply_small overtaken fresh).1 ≡ err integrity
unfolding apply_policy load newest decide commit
overtaken_is_refused = refl

-- A second caller that sends a later version there: the first one's older version still goes in, and
-- becomes the policy in memory until the table is read again.
abbrev later : GatePolicy
later = record small { version = 9 }

abbrev outrun : PolicyStore → PolicyStore
outrun s =
    (apply_policy int_of checksum_of unary (λ a. a) 2_000_000 2_000_000 2_000_000 later (some "0xo")
      "sig9" "cli" alone alone s).0

older_becomes_current : (apply_small outrun fresh).0.current ≡ small
unfolding apply_policy load newest decide commit
older_becomes_current = refl

table_has_later : map (λ r. r.version) (apply_small outrun fresh).0.rows ≡ small.version ∷ 9 ∷ []
unfolding apply_policy load newest decide commit
table_has_later = refl

apply_policy-Stored_example : Stored int_of checksum_of (apply_small overtaken fresh).0
apply_policy-Stored_example =
    apply_policy-Stored int_of checksum_of unary (λ a. a) int_of-unary 2_000_000 2_000_000 2_000_000
      small (some "0xo") "sig" "web" alone overtaken fresh small-IsValid (refl, refl) (λ t st. st)
      (λ t st.
        apply_policy-Stored int_of checksum_of unary (λ a. a) int_of-unary 2_000_000 2_000_000
          2_000_000 small (some "0xo") "sig" "web" alone alone t small-IsValid (refl, refl)
          (λ u su. su) (λ u su. su) st)
      (opened-Stored int_of checksum_of (some "0xo"))
