-- ===== src/Gate/Owner/Outcome.antt =====
-- How a call of `apply_policy` ends, whatever others do to the store between its sections.
use robinhoodpools.Prelude.{
  ℕ, ◌*◌, ◌<◌, ◌≤◌, ◌≡◌, String, true, ◌&&◌, ◌∷◌, any, false, ◌==◌, Result, ok, err,
}
use robinhoodpools.Gate.Policy.{GatePolicy, public}
use robinhoodpools.Gate.Entitle.{second}
use robinhoodpools.Gate.Owner.{
  PolicyRow, PolicyStore, ApplyError, stale_version, issued_outside, integrity, is_replay,
  policy_skew, distance,
}
use robinhoodpools.Gate.Owner.Rows.{IsFree}

module _ (show : ℕ → String) where
  -- How the call ends that loaded the policy `current`, ran its SELECT on the store `read` and its last
  -- section on the store `last`: with a new row, with the loaded policy again, or with one of three errors.
  pub data Outcome (now : ℕ) (p : GatePolicy) (signature : String) (current : GatePolicy)
      (read last s' : PolicyStore) : Result ApplyError GatePolicy → Type 0 where
    accepted :
        (row : PolicyRow)
        → s'.rows ≡ row ∷ last.rows
        → row.version ≡ p.version
        → row.body ≡ public show p
        → s'.current ≡ p
        → current.version < p.version
        → IsFree p.version last.rows
        → distance (p.issued_at * second) now ≤ policy_skew
        → Outcome now p signature current read last s' (ok p)
    replayed :
        s'.rows ≡ last.rows
        → any (is_replay p.version signature) read.rows ≡ true
        → p.version ≡ current.version
        → Outcome now p signature current read last s' (ok current)
    stale :
        s'.rows ≡ last.rows
        → p.version ≤ current.version
        → any (is_replay p.version signature) read.rows && (p.version == current.version) ≡ false
        → Outcome now p signature current read last s' (err stale_version)
    outside :
        s'.rows ≡ last.rows
        → current.version < p.version
        → policy_skew < distance (p.issued_at * second) now
        → Outcome now p signature current read last s' (err issued_outside)
    taken :
        s'.rows ≡ last.rows
        → current.version < p.version
        → any (λ r. r.version == p.version) last.rows ≡ true
        → Outcome now p signature current read last s' (err integrity)
