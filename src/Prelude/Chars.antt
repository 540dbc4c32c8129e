-- ===== src/Prelude/Chars.antt =====
-- Prefixes of text, counted in characters as Python counts them.
use Prim.Native.Nat.{ℕ, zero, suc}
use Prim.Native.String.{String, [], ◌∷◌}
use mathlib.Core.Bool.{Bool, true, false}

-- `s[:n]`
abbrev pub take_chars : ℕ → String → String
take_chars zero s = []
take_chars (suc n) [] = []
take_chars (suc n) (c ∷ s) = c ∷ take_chars n s

abbrev pub is_blank : String → Bool
is_blank [] = true
is_blank (c ∷ s) = false
