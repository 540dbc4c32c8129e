-- ===== src/Gate/Owner/Rows.antt =====
-- The rows of the policy table: their versions differ, and the newest has the highest.
use native.Mathlib.Nat.{le_refl}
use robinhoodpools.Prelude.{
  ℕ, ◌≤◌, ◌≡◌, refl, inl, inr, some, List, [], ◌∷◌, arith, any, All, false, ltb, ltb→lt, ltb→ge,
  ◌==◌, Bool-cases,
}
use robinhoodpools.Gate.Owner.{PolicyRow, PolicyStore, newest, refused, is_due}

-- No row has this version.
abbrev pub IsFree : ℕ → List PolicyRow → Type 0
IsFree v rows = All (λ r. ¬ (r.version ≡ v)) rows

-- The versions differ, as the primary key of the table asks.
abbrev pub Distinct : List PolicyRow → Type 0
Distinct [] = Unit
Distinct (r ∷ rows) = IsFree r.version rows × Distinct rows

abbrev pub AtMost : ℕ → List PolicyRow → Type 0
AtMost v rows = All (λ r. r.version ≤ v) rows

AtMost-weaken : (u v : ℕ) (rows : List PolicyRow) → u ≤ v → AtMost u rows → AtMost v rows
AtMost-weaken u v [] le h = tt
AtMost-weaken u v (r ∷ rows) le h = (omega (arith, h.0), AtMost-weaken u v rows le h.1)

pub untaken-IsFree :
    (v : ℕ) (rows : List PolicyRow) → any (λ r. r.version == v) rows ≡ false → IsFree v rows
untaken-IsFree v [] free = tt
untaken-IsFree v (r ∷ rows) free =
    (λ e. ground (arith, free, e), untaken-IsFree v rows (ground (arith, free)))

-- The newest row has what all rows have, and no row has a higher version.
pub newest-AtMost :
    (P : PolicyRow → Type 0) (r : PolicyRow) (rows : List PolicyRow)
    → All P (r ∷ rows)
    → (t : PolicyRow) × (newest (r ∷ rows) ≡ some t) × P t × AtMost t.version (r ∷ rows)
unfolding newest
newest-AtMost P r [] h = (r, refl, h.0, (le_refl r.version, tt))
newest-AtMost P r (q ∷ rows) h =
    let (u, e, holds, most) = newest-AtMost P q rows h.1 in
    elim (Bool-cases (ltb r.version u.version)) [
      | inl older ↦ (u, rw (e, older) refl, holds, (omega (arith, ltb→lt _ _ older), most))
      | inr newer ↦
          let le = ltb→ge _ _ newer in
          (
            r,
            rw (e, newer) refl,
            h.0,
            (le_refl r.version, AtMost-weaken u.version r.version (q ∷ rows) le most),
          )
    ]

-- A counted refusal leaves the rows alone.
pub refused-rows : (now : ℕ) (s : PolicyStore) → (refused now s).rows ≡ s.rows
unfolding refused
refused-rows now s = elim (Bool-cases (is_due now s.log_at)) [
  | inl due ↦ rw due refl
  | inr early ↦ rw early refl
]
