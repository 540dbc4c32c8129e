-- ===== src/Market/Words.antt =====
-- lp_market_protocols.py: the values of a log, from `_integer` to `_topic0`.
pub mod RoundTrip
use robinhoodpools.Prelude.{
  ℕ, zero, suc, ◌+◌, ◌-◌, ◌/◌, ◌%◌, ◌^◌, Bool, not, ◌||◌, String, List, [], ◌∷◌, ◌++◌, Option, none,
  some, Result, ok, err, ◌>>=◌, ◌>>◌, raise_if, ltb, leb, ◌==◌, if◌then◌else◌, length, any,
}
use robinhoodpools.Prelude.Int.{ℤ, pos, sub_ℕ}
use robinhoodpools.Tx.Chain.Path.{take, drop, from_bytes}
use robinhoodpools.Market.{
  Bytes, Value, missing, truth, whole, text, raw, DecodeError, is_boolean, not_integer, not_address,
  not_hash, not_hex, malformed_hex, malformed, not_whole_words, not_canonical_address,
  not_indexed_word, word_count, not_uint, not_int, Log, Runtime,
}
use robinhoodpools.Market.Hex.{hex, from_hex, lower, is_hex_text, prefixed, hex_body, is_prefixed}

-- `_integer`
unfoldable pub integer : Runtime → Value → String → Result DecodeError ℤ
integer rt (truth b) name = err (is_boolean name)
integer rt (whole n) name = ok n
integer rt (text s) name = elim (rt.int_of (if is_prefixed s then 16 else 10) s) [
  | none ↦ err (not_integer name)
  | some n ↦ ok n
]
integer rt missing name = err (not_integer name)
integer rt (raw b) name = err (not_integer name)

-- The text that `_address` matches: twenty bytes in hexadecimal, or a text in lower case.
unfoldable pub address_text : Value → String
unfolding hex lower
address_text (raw b) = if length b == 20 then prefixed (hex b) else ""
address_text (text s) = lower s
address_text (truth b) = ""
address_text (whole n) = ""
address_text missing = ""

-- `_address`, with `strict=False`
unfoldable pub address? : Value → Option String
unfolding address_text is_hex_text
address? v = if is_hex_text 40 (address_text v) then some (address_text v) else none

-- `_address`
unfoldable pub address_of : Value → String → Result DecodeError String
unfolding address?
address_of v name = elim (address? v) [ none ↦ err (not_address name) | some a ↦ ok a ]

unfoldable pub hash_text : Value → String
unfolding lower
hash_text (text s) = lower s
hash_text (raw b) = ""
hash_text (truth b) = ""
hash_text (whole n) = ""
hash_text missing = ""

-- `_hash`
unfoldable pub hash_of : Value → String → Result DecodeError String
unfolding hash_text is_hex_text
hash_of v name = if is_hex_text 64 (hash_text v) then ok (hash_text v) else err (not_hash name)

-- `_raw_hex`
unfoldable pub raw_hex : Value → String → Result DecodeError Bytes
unfolding hex_body from_hex
raw_hex (raw b) name = ok b
raw_hex (text s) name = elim (hex_body s) [
  | none ↦ err (not_hex name)
  | some body ↦ elim (from_hex body) [ none ↦ err (malformed_hex name) | some b ↦ ok b ]
]
raw_hex (truth b) name = err (not_hex name)
raw_hex (whole n) name = err (not_hex name)
raw_hex missing name = err (not_hex name)

-- `[int.from_bytes(raw[index : index + 32], "big") for index in range(0, len(raw), 32)]`
unfoldable pub read_words : ℕ → Bytes → List ℕ
read_words zero bs = []
read_words (suc n) bs = from_bytes (take 32 bs) ∷ read_words n (drop 32 bs)

-- `_words`, with a count
unfoldable pub words_of : Value → String → ℕ → Result DecodeError (List ℕ)
unfolding raw_hex read_words
words_of v name n = do
  bytes ← raw_hex v name
  raise_if (not (length bytes % 32 == 0)) (not_whole_words name)
  raise_if (not (length bytes / 32 == n)) (word_count name (length bytes / 32) n)
  ok (read_words (length bytes / 32) bytes)

-- `_uint`: a word is not below zero.
unfoldable pub uint : ℕ → ℕ → String → Result DecodeError ℕ
uint w bits name = if leb (2 ^ bits) w then err (not_uint bits name) else ok w

-- `_sint`
unfoldable pub sint : ℕ → ℕ → String → Result DecodeError ℤ
sint w bits name =
    if ltb w (2 ^ (bits - 1))
    then ok (pos w)
    else if ltb w (2 ^ 256 - 2 ^ (bits - 1)) || leb (2 ^ 256) w
    then err (not_int bits name)
    else ok (sub_ℕ w (2 ^ 256))

-- `n.to_bytes(k, "big")`, for n below 256 ^ k
unfoldable pub to_bytes : ℕ → ℕ → Bytes
to_bytes zero n = []
to_bytes (suc k) n = to_bytes k (n / 256) ++ (n % 256 ∷ [])

-- `_word_address`
unfoldable pub word_address : ℕ → String → Result DecodeError String
unfolding uint to_bytes hex
word_address w name = do word ← uint w 160 name; ok (prefixed (hex (to_bytes 20 word)))

-- `_topic_address`
unfoldable pub topic_address : Value → String → Result DecodeError String
unfolding raw_hex hex
topic_address v name = do
  bytes ← raw_hex v name
  raise_if (not (length bytes == 32) || any (λ b. not (b == 0)) (take 12 bytes))
      (not_canonical_address name)
  ok (prefixed (hex (drop 12 bytes)))

-- The bytes of an indexed word, which `_topic_uint` and `_topic_sint` read
unfoldable pub topic_word : Value → String → Result DecodeError ℕ
unfolding raw_hex
topic_word v name = do
  bytes ← raw_hex v name
  raise_if (not (length bytes == 32)) (not_indexed_word name)
  ok (from_bytes bytes)

-- `_topic_uint`
unfoldable pub topic_uint : Value → ℕ → String → Result DecodeError ℕ
unfolding topic_word uint
topic_uint v bits name = do w ← topic_word v name; uint w bits name

-- `_topic_sint`
unfoldable pub topic_sint : Value → ℕ → String → Result DecodeError ℤ
unfolding topic_word sint
topic_sint v bits name = do w ← topic_word v name; sint w bits name

unfoldable pub later_topics : List Value → Result DecodeError (List String)
unfolding raw_hex hex
later_topics [] = ok []
later_topics (v ∷ vs) = do
  bytes ← raw_hex v "topic"
  rest ← later_topics vs
  ok (prefixed (hex bytes) ∷ rest)

-- `_topics`
unfoldable pub topics_of : Log → Result DecodeError (List String)
unfolding hash_of later_topics
topics_of log = elim log.topics [
  | none ↦ ok []
  | some values ↦ elim values [
    | [] ↦ ok []
    | first ∷ others ↦ do t ← hash_of first "topic"; ts ← later_topics others; ok (t ∷ ts)
  ]
]

-- `_topic0`
unfoldable pub topic0_of : Log → Option String
unfolding hash_text is_hex_text
topic0_of log = elim log.topics [
  | none ↦ none
  | some values ↦ elim values [
    | [] ↦ none
    | first ∷ others ↦ if is_hex_text 64 (hash_text first) then some (hash_text first) else none
  ]
]

-- `topics[n]` and `words[n]`, where a test of the length has passed
abbrev pub topic_at : List String → ℕ → Value
topic_at [] n = text ""
topic_at (t ∷ ts) zero = text t
topic_at (t ∷ ts) (suc n) = topic_at ts n

abbrev pub word_at : List ℕ → ℕ → ℕ
word_at [] n = 0
word_at (w ∷ ws) zero = w
word_at (w ∷ ws) (suc n) = word_at ws n

-- `if len(topics) != n: raise`
abbrev pub want_topics : ℕ → List String → String → Result DecodeError (Unit {0})
want_topics n ts name = raise_if (not (length ts == n)) (malformed name)
