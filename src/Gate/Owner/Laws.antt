-- ===== src/Gate/Owner/Laws.antt =====
-- The table after `apply_policy`, with other callers between the sections of the call.
use robinhoodpools.Prelude.{
  ℕ, ◌*◌, ◌≡◌, refl, inl, inr, String, Bool, ◌&&◌, Option, none, some, any, ltb, leb, ◌==◌,
  Bool-cases,
}
use robinhoodpools.Prelude.Int.{ℤ, pos}
use robinhoodpools.Gate.Policy.{Value, GatePolicy}
use robinhoodpools.Gate.Policy.Laws.{IsValid}
use robinhoodpools.Gate.Policy.RoundTrip.{IsChecksummed, parse-public}
use robinhoodpools.Gate.Entitle.{second}
use robinhoodpools.Gate.Owner.{
  PolicyStore, is_owner, is_replay, commit, decide, apply_policy, policy_skew, distance,
}
use robinhoodpools.Gate.Owner.Rows.{untaken-IsFree, refused-rows}
use robinhoodpools.Gate.Owner.Loading.{Stored, load-rows}

module _ (parse_int : String → Option ℤ) (checksum : Value → Option String) (show : ℕ → String)
    (int_of_str : (n : ℕ) → parse_int (show n) ≡ some (pos n)) where
  same_rows-Stored :
      (s s' : PolicyStore)
      → s'.rows ≡ s.rows
      → Stored parse_int checksum s
      → Stored parse_int checksum s'
  same_rows-Stored s s' e st = record { readable = rw e st.readable; distinct = rw e st.distinct }

  commit-Stored :
      (now : ℕ) (p : GatePolicy) (signature signer via : String) (s : PolicyStore)
      → IsValid p
      → IsChecksummed checksum p.token
      → Stored parse_int checksum s
      → Stored parse_int checksum (commit show now p signature signer via s).0
  unfolding commit
  commit-Stored now p signature signer via s v c st =
      elim (Bool-cases (any (λ r. r.version == p.version) s.rows)) [
        | inl taken ↦ rw taken st
        | inr free ↦ rw free (record {
          readable =
              ((p, parse-public parse_int checksum show int_of_str p v c, refl), st.readable);
          distinct = (untaken-IsFree p.version s.rows free, st.distinct);
        })
      ]

  decide-Stored :
      (now late : ℕ) (p : GatePolicy) (signature signer via : String) (current : GatePolicy)
      (found : Bool) (s : PolicyStore)
      → IsValid p
      → IsChecksummed checksum p.token
      → Stored parse_int checksum s
      → Stored parse_int checksum (decide show now late p signature signer via current found s).0
  unfolding decide
  decide-Stored now late p signature signer via current found s v c st =
      elim (Bool-cases (found && (p.version == current.version))) [
        | inl again ↦ rw again st
        | inr fresh ↦ elim (Bool-cases (leb p.version current.version)) [
          | inl old ↦ rw (fresh, old) (same_rows-Stored s _ refl st)
          | inr newer ↦ elim (Bool-cases (ltb policy_skew (distance (p.issued_at * second) now))) [
            | inl skewed ↦ rw (fresh, newer, skewed) (same_rows-Stored s _ refl st)
            | inr timely ↦
                rw (fresh, newer, timely) (commit-Stored now p signature signer via s v c st)
          ]
        ]
      ]

module _ (parse_int : String → Option ℤ) (checksum : Value → Option String) (show : ℕ → String)
    (lower : String → String) (int_of_str : (n : ℕ) → parse_int (show n) ≡ some (pos n)) where
  -- A call with a valid policy, its token in checksum form, keeps the policy table well-formed, that is
  -- every row can be read back as a policy of the row's version, and no two rows have the same
  -- version; whoever signed, and whatever others do between the sections of the call, as long as they keep
  -- the table well-formed too.
  pub apply_policy-Stored :
      (now at late : ℕ) (p : GatePolicy) (recovered : Option String) (signature via : String)
      (before_select before_write : PolicyStore → PolicyStore) (s : PolicyStore)
      → IsValid p
      → IsChecksummed checksum p.token
      → ((t : PolicyStore)
          → Stored parse_int checksum t
          → Stored parse_int checksum (before_select t))
      → ((t : PolicyStore)
          → Stored parse_int checksum t
          → Stored parse_int checksum (before_write t))
      → Stored parse_int checksum s
      → Stored parse_int checksum
          (apply_policy parse_int checksum show lower now at late p recovered signature via
            before_select before_write s).0
  unfolding apply_policy
  apply_policy-Stored now at late p none signature via before_select before_write s v c keep keep'
        st =
      same_rows-Stored parse_int checksum show int_of_str s _ (refused-rows at s) st
  apply_policy-Stored now at late p (some signer) signature via before_select before_write s v c
        keep keep' st =
      elim (Bool-cases (is_owner lower s.owner signer)) [
        | inl mine ↦
            let (loaded, loads, same) = load-rows parse_int checksum at s st in
            let read = before_select loaded in
            let before = same_rows-Stored parse_int checksum show int_of_str s loaded same st in
            rw (mine, loads)
              (decide-Stored parse_int checksum show int_of_str now late p signature signer via
                loaded.current (any (is_replay p.version signature) read.rows) (before_write read) v
                c (keep' read (keep loaded before)))
        | inr other ↦
            rw other
              (same_rows-Stored parse_int checksum show int_of_str s _ (refused-rows at s) st)
      ]
