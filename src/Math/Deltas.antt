-- ===== src/Math/Deltas.antt =====
-- Products and quotients, rounded down and up.
use robinhoodpools.Prelude.{ℕ, ◌+◌, ◌-◌, ◌*◌, ◌/◌, ◌≤◌, ◌<◌, arith}

pub mul_mono : (k x y : ℕ) → x ≤ y → x * k ≤ y * k
mul_mono k x y h = grind arith

pub floor-le : (n d : ℕ) → n / d * d ≤ n
floor-le n d = grind arith

pub le-ceil : (n d : ℕ) → 0 < d → n ≤ (n + d - 1) / d * d
le-ceil n d h = grind arith
