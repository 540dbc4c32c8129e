-- ===== src/Gate/Owner/Loading.antt =====
-- A well-formed policy table, and that `policy` reads the newest policy of it.
use mathlib.Core.Path.{subst}
use robinhoodpools.Prelude.{
  ℕ, ◌+◌, ◌≡◌, refl, sym, inl, inr, String, true, Option, some, List, [], ◌∷◌, All, Bool-cases,
  if◌then◌else◌, ok,
}
use robinhoodpools.Prelude.Int.{ℤ}
use robinhoodpools.Gate.Policy.{Value, GatePolicy, unset_policy, parse}
use robinhoodpools.Gate.Owner.{
  PolicyRow, PolicyStore, opened, is_stale, newest, load, read_body, same_token,
}
use robinhoodpools.Gate.Owner.Rows.{Distinct, AtMost, newest-AtMost}

module _ (parse_int : String → Option ℤ) (checksum : Value → Option String) where
  -- The body of a row parses to a policy of the row's version.
  abbrev pub Reads : PolicyRow → Type 0
  Reads r = (q : GatePolicy) × (parse parse_int checksum r.body ≡ ok q) × (q.version ≡ r.version)

  -- Every row is readable, and versions differ.
  pub record Stored (s : PolicyStore) : Type 0 where
    pub readable : All Reads s.rows
    pub distinct : Distinct s.rows

  pub opened-Stored : (owner : Option String) → Stored (opened owner)
  opened-Stored owner = record { readable = tt; distinct = tt }

  read_newest :
      (rows : List PolicyRow)
      → All Reads rows
      → (q : GatePolicy) × (read_body parse_int checksum (newest rows) ≡ ok q)
        × AtMost q.version rows
  unfolding newest
  read_newest [] h = (unset_policy, refl, tt)
  read_newest (r ∷ rows) h =
      let (t, e, (q, reads, same), most) = newest-AtMost Reads r rows h in
      (q, rw e reads, subst (λ v. AtMost v (r ∷ rows)) (sym same) most)

  pub load-AtMost :
      (now : ℕ) (s : PolicyStore)
      → Stored s
      → is_stale now s.read_at ≡ true
      → (s' : PolicyStore) × (load parse_int checksum now s ≡ ok s')
        × (s'.rows ≡ s.rows)
        × AtMost s'.current.version s.rows
  unfolding load
  load-AtMost now s st stale =
      let (q, reads, most) = read_newest s.rows st.readable in
      (
        record s {
          current = q;
          read_at = some now;
          forgotten = if same_token q.token s.current.token then s.forgotten else s.forgotten + 1;
        },
        rw (stale, reads) refl,
        refl,
        most,
      )

  -- Loading never fails on a well-formed table, and changes no row.
  pub load-rows :
      (now : ℕ) (s : PolicyStore)
      → Stored s
      → (s' : PolicyStore) × (load parse_int checksum now s ≡ ok s') × (s'.rows ≡ s.rows)
  unfolding load
  load-rows now s st = elim (Bool-cases (is_stale now s.read_at)) [
    | inl stale ↦ let (s', e, same, most) = load-AtMost now s st stale in (s', e, same)
    | inr recent ↦ (s, rw recent refl, refl)
  ]
