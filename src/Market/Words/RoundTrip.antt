-- ===== src/Market/Words/RoundTrip.antt =====
-- The words of a log's data and the signed integers in them, against their ABI encoding.
use native.Mathlib.Nat.{pow-suc, pow-le-pow_right}
use robinhoodpools.Prelude.{
  ℕ, zero, suc, ◌+◌, ◌-◌, ◌*◌, ◌/◌, ◌%◌, ◌^◌, ◌≤◌, ◌<◌, ◌≡◌, refl, ◌↔◌, ◌||◌, String, List, [], ◌∷◌,
  ◌++◌, arith, Result, ok, err, ltb, leb, ==_iff, if◌then◌else◌, length, length-append, All,
  All-append,
}
use robinhoodpools.Prelude.Int.{ℤ, pos, negsuc, sub_ℕ}
use robinhoodpools.Tx.Chain.Path.{take, drop, take-append, drop-append, from_bytes, from_bytes_from}
use robinhoodpools.Market.{Bytes, Value, text, DecodeError}
use robinhoodpools.Market.Hex.{hex, prefixed}
use robinhoodpools.Market.Hex.RoundTrip.{from_hex-hex}
use robinhoodpools.Market.Words.{raw_hex, words_of, read_words, sint, to_bytes, topic_address}
use robinhoodpools.Market.Ensured.{IsInt}

-- The ABI's word for an integer
abbrev pub signed_word : ℤ → ℕ
signed_word (pos n) = n
signed_word (negsuc n) = 2 ^ 256 - (n + 1)

module _ (half : ℕ) (small : 2 * half ≤ 2 ^ 256) (w : ℕ) (is_word : w < 2 ^ 256) where
  -- `_sint`, over the half of its range
  abbrev read_signed : String → ℕ → Result DecodeError ℤ
  read_signed name bits =
      if ltb w half
      then ok (pos w)
      else if ltb w (2 ^ 256 - half) || leb (2 ^ 256) w
      then err (DecodeError.not_int bits name)
      else ok (sub_ℕ w (2 ^ 256))

  signed_only :
      (name : String) (bits : ℕ) (v : ℤ)
      → read_signed name bits ≡ ok v
      → (w ≡ signed_word v) × IsInt half v
  signed_only name bits (pos n) h = ground arith
  signed_only name bits (negsuc n) h = ground arith

  signed_back :
      (name : String) (bits : ℕ) (v : ℤ)
      → w ≡ signed_word v
      → IsInt half v
      → read_signed name bits ≡ ok v
  signed_back name bits (pos n) e h = ground arith
  signed_back name bits (negsuc n) e h = ground arith

half_size : (bits : ℕ) → 1 ≤ bits → bits ≤ 256 → 2 * 2 ^ (bits - 1) ≤ 2 ^ 256
half_size zero one most = absurd (omega arith)
half_size (suc b) one most =
    let grows : 2 ^ suc b ≤ 2 ^ 256 = pow-le-pow_right (omega arith) most in
    let same : suc b - 1 ≡ b = omega arith in rw same (omega (arith, rw (pow-suc 2 b) at grows))

-- Of a 256-bit word and a width from 1 to 256 bits, `_sint` gives an integer exactly when the word is the
-- two's complement of that integer and the integer fits the width.
pub sint_iff :
    (w bits : ℕ) (name : String) (v : ℤ)
    → w < 2 ^ 256
    → 1 ≤ bits
    → bits ≤ 256
    → (sint w bits name ≡ ok v) ↔ ((w ≡ signed_word v) × IsInt (2 ^ (bits - 1)) v)
unfolding sint
sint_iff w bits name v is_word one most = (
  signed_only (2 ^ (bits - 1)) (half_size bits one most) w is_word name bits v,
  λ h. signed_back (2 ^ (bits - 1)) (half_size bits one most) w is_word name bits v h.0 h.1,
)

from_bytes_from-append :
    (acc : ℕ) (xs : Bytes) (b : ℕ)
    → from_bytes_from acc (xs ++ (b ∷ [])) ≡ from_bytes_from acc xs * 256 + b
from_bytes_from-append acc [] b = refl
from_bytes_from-append acc (x ∷ xs) b = from_bytes_from-append (acc * 256 + x) xs b

length-to_bytes : (k n : ℕ) → length (to_bytes k n) ≡ k
unfolding to_bytes
length-to_bytes zero n = refl
length-to_bytes (suc k) n =
    omega (arith, length-append (to_bytes k (n / 256)) (n % 256 ∷ []), length-to_bytes k (n / 256))

to_bytes-All : (k n : ℕ) → All (λ b. b < 256) (to_bytes k n)
unfolding to_bytes
to_bytes-All zero n = tt
to_bytes-All (suc k) n =
    All-append _ (to_bytes k (n / 256)) (n % 256 ∷ []) (to_bytes-All k (n / 256)) (omega arith, tt)

from_bytes-to_bytes : (k n : ℕ) → n < 256 ^ k → from_bytes (to_bytes k n) ≡ n
unfolding to_bytes
from_bytes-to_bytes zero n h = omega (arith, h)
from_bytes-to_bytes (suc k) n h =
    let h' = rw (pow-suc 256 k) at h in
    omega (
      arith,
      from_bytes_from-append 0 (to_bytes k (n / 256)) (n % 256),
      from_bytes-to_bytes k (n / 256) (omega (arith, h')),
    )

-- The data of a log that holds these words
abbrev pub encode_words : List ℕ → Bytes
encode_words [] = []
encode_words (w ∷ ws) = to_bytes 32 w ++ encode_words ws

length-encode_words : (ws : List ℕ) → length (encode_words ws) ≡ length ws * 32
length-encode_words [] = refl
length-encode_words (w ∷ ws) = omega (
  arith,
  length-append (to_bytes 32 w) (encode_words ws),
  length-to_bytes 32 w,
  length-encode_words ws,
)

encode_words-All : (ws : List ℕ) → All (λ b. b < 256) (encode_words ws)
encode_words-All [] = tt
encode_words-All (w ∷ ws) =
    All-append _ (to_bytes 32 w) (encode_words ws) (to_bytes-All 32 w) (encode_words-All ws)

read_words-encode_words :
    (ws : List ℕ) → All (λ w. w < 256 ^ 32) ws → read_words (length ws) (encode_words ws) ≡ ws
unfolding read_words
read_words-encode_words [] h = refl
read_words-encode_words (w ∷ ws) h =
    rw
      (
        take-append 32 (to_bytes 32 w) (encode_words ws) (length-to_bytes 32 w),
        drop-append 32 (to_bytes 32 w) (encode_words ws) (length-to_bytes 32 w),
        from_bytes-to_bytes 32 w h.0,
        read_words-encode_words ws h.1,
      )
      refl

abbrev pub data_text : List ℕ → Value
data_text ws = text (prefixed (hex (encode_words ws)))

pub raw_hex-hex :
    (bs : Bytes) (name : String)
    → All (λ b. b < 256) bs
    → raw_hex (text (prefixed (hex bs))) name ≡ ok bs
unfolding raw_hex
raw_hex-hex bs name h = rw (from_hex-hex bs h, raw_hex) refl

-- An indexed address, as the provider sends its topic
abbrev pub address_topic : Bytes → String
address_topic bs = prefixed (hex (to_bytes 12 0 ++ bs))

pub topic_address-address_topic :
    (bs : Bytes) (name : String)
    → All (λ b. b < 256) bs
    → length bs ≡ 20
    → topic_address (text (address_topic bs)) name ≡ ok (prefixed (hex bs))
unfolding topic_address to_bytes take drop
topic_address-address_topic bs name h size =
    let size' : length (to_bytes 12 0 ++ bs) ≡ 32 = omega (arith, size) in
    rw
      (
        raw_hex-hex (to_bytes 12 0 ++ bs) name (All-append _ (to_bytes 12 0) bs (omega arith) h),
        topic_address,
        (==_iff (length (to_bytes 12 0 ++ bs)) 32).1 size',
      )
      refl

-- The words of a log's data are read back: of 256-bit words, encoded to bytes and written as
-- hexadecimal text, `_words` gives the words, whatever their number.
pub words_of-data_text :
    (ws : List ℕ) (name : String)
    → All (λ w. w < 256 ^ 32) ws
    → words_of (data_text ws) name (length ws) ≡ ok ws
unfolding words_of
words_of-data_text ws name h =
    let size = length-encode_words ws in
    let whole : length (encode_words ws) % 32 ≡ 0 = omega (arith, size) in
    let count : length (encode_words ws) / 32 ≡ length ws = omega (arith, size) in
    rw
      (
        raw_hex-hex (encode_words ws) name (encode_words-All ws),
        whole,
        count,
        (==_iff (length ws) (length ws)).1 refl,
        read_words-encode_words ws h,
      )
      refl
