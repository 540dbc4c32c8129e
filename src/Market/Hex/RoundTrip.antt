-- ===== src/Market/Hex/RoundTrip.antt =====
-- Bytes to hexadecimal text and back.
use mathlib.Core.List.{List}
use robinhoodpools.Prelude.{
  ℕ, zero, suc, ◌+◌, ◌*◌, ◌/◌, ◌%◌, ◌<◌, ◌≡◌, refl, ap, Bool, true, false, ◌&&◌, Option, none, some,
  ◌==◌, arith, All,
}
use robinhoodpools.Market.{Bytes}
use robinhoodpools.Market.Hex.{hex_digit, hex_value, hex, from_hex}

abbrev is_value : Option ℕ → ℕ → Bool
is_value none n = false
is_value (some m) n = m == n

is_value_sound : (o : Option ℕ) (n : ℕ) → is_value o n ≡ true → o ≡ some n
is_value_sound none n h = cc
is_value_sound (some m) n h = ground arith

all_below : ℕ → (ℕ → Bool) → Bool
all_below zero p = true
all_below (suc n) p = p n && all_below n p

all_below_sound : (k : ℕ) (p : ℕ → Bool) (n : ℕ) → all_below k p ≡ true → n < k → p n ≡ true
unfolding all_below
all_below_sound zero p n h lt = absurd (omega arith)
all_below_sound (suc k) p n h lt = ground (arith, all_below_sound k p n)

digits_read : all_below 16 (λ n. is_value (hex_value (hex_digit n)) n) ≡ true
unfolding all_below
digits_read = refl

digit_reads : (n : ℕ) → n < 16 → hex_value (hex_digit n) ≡ some n
digit_reads n h = is_value_sound (hex_value (hex_digit n)) n (all_below_sound 16 _ n digits_read h)

pub from_hex-hex : (bs : Bytes) → All (λ b. b < 256) bs → from_hex (hex bs) ≡ some bs
unfolding from_hex hex
from_hex-hex List.[] h = refl
from_hex-hex (List.◌∷◌ b bs) h =
    let high : b / 16 < 16 = omega (arith, h.0) in
    let same : b / 16 * 16 + b % 16 ≡ b = omega arith in
    rw (digit_reads (b / 16) high, digit_reads (b % 16) (omega arith), from_hex-hex bs h.1)
      (ap (λ (x : ℕ). some (List.◌∷◌ x bs)) same)
