-- ===== src/Market/Hex.antt =====
-- Hexadecimal text: `bytes.fromhex`, `bytes.hex`, the two patterns of lp_market_protocols.py and
-- `str.lower`, as far as the patterns read it.
pub mod RoundTrip
use Prim.Native.Char.{Char, code}
use Prim.Native.String.{String, [], ◌∷◌, count}
use mathlib.Core.List.{List}
use robinhoodpools.Prelude.{
  ℕ, zero, suc, ◌+◌, ◌-◌, ◌*◌, ◌/◌, ◌%◌, Bool, true, false, ◌&&◌, ◌||◌, Option, none, some, leb,
  ◌==◌, if◌then◌else◌,
}
use robinhoodpools.Market.{Bytes}

-- `s[n]`
abbrev pub char_at : ℕ → String → Char
char_at n [] = "0"
char_at zero (c ∷ s) = c
char_at (suc n) (c ∷ s) = char_at n s

abbrev pub hex_digit : ℕ → Char
hex_digit n = char_at n "0123456789abcdef"

abbrev pub hex_value : Char → Option ℕ
hex_value c =
    if leb 48 (code c) && leb (code c) 57
    then some (code c - 48)
    else if leb 97 (code c) && leb (code c) 102
    then some (code c - 87)
    else if leb 65 (code c) && leb (code c) 70
    then some (code c - 55)
    else none

-- `b.hex()`
unfoldable pub hex : Bytes → String
hex List.[] = []
hex (List.◌∷◌ b bs) = hex_digit (b / 16) ∷ hex_digit (b % 16) ∷ hex bs

abbrev pub join_byte : Option ℕ → Option ℕ → Option Bytes → Option Bytes
join_byte (some h) (some l) (some bs) = some (List.◌∷◌ (h * 16 + l) bs)
join_byte _ _ _ = none

-- The test for an even number of digits, the pattern and `bytes.fromhex`; `none` where a test fails.
unfoldable pub from_hex : String → Option Bytes
from_hex [] = some List.[]
from_hex (c ∷ []) = none
from_hex (c ∷ d ∷ s) = join_byte (hex_value c) (hex_value d) (from_hex s)

-- `s.lower()`, where a letter outside ASCII is left as it is
abbrev pub lower_char : Char → Char
lower_char c =
    if leb 65 (code c) && leb (code c) 90
    then char_at (code c - 65) "abcdefghijklmnopqrstuvwxyz"
    else c

unfoldable pub lower : String → String
lower [] = []
lower (c ∷ s) = lower_char c ∷ lower s

-- `[0-9a-f]{n}\Z`
abbrev pub is_lower_digit : Char → Bool
is_lower_digit c = (leb 48 (code c) && leb (code c) 57) || (leb 97 (code c) && leb (code c) 102)

unfoldable pub lower_digits : ℕ → String → Bool
lower_digits zero [] = true
lower_digits zero (c ∷ s) = false
lower_digits (suc n) [] = false
lower_digits (suc n) (c ∷ s) = is_lower_digit c && lower_digits n s

-- `0x[0-9a-f]{n}\Z`, for an address with n = 40 and for a hash with n = 64
unfoldable pub is_hex_text : ℕ → String → Bool
unfolding lower_digits
is_hex_text n [] = false
is_hex_text n (c ∷ []) = false
is_hex_text n (c ∷ d ∷ s) = code c == 48 && code d == 120 && lower_digits n s

-- `"0x" + s`
abbrev pub prefixed : String → String
prefixed s = "0" ∷ "x" ∷ s

-- `value.startswith("0x")` and `value[2:]`
unfoldable pub hex_body : String → Option String
hex_body [] = none
hex_body (c ∷ []) = none
hex_body (c ∷ d ∷ s) = if code c == 48 && code d == 120 then some s else none

-- `value.startswith(("0x", "0X"))`
unfoldable pub is_prefixed : String → Bool
is_prefixed [] = false
is_prefixed (c ∷ []) = false
is_prefixed (c ∷ d ∷ s) = code c == 48 && (code d == 120 || code d == 88)
