-- ===== src/Market/Tests.antt =====
-- A V3 swap of a known pool, and the theorems at it.
use Prim.Native.Char.{code}
use robinhoodpools.Prelude.{
  ℕ, ◌-◌, ◌≡◌, refl, false, String, List, [], ◌∷◌, ◌++◌, Option, none, some, Result, ok, err, arith,
  ◌^◌, ◌<◌, ◌↔◌,
}
use robinhoodpools.Prelude.Int.{pos, negsuc}
use robinhoodpools.Tx.Chain.Path.{take, drop}
use robinhoodpools.Dict.{get}
use robinhoodpools.Market.{Bytes, Value, missing, whole, text, Log, DecodeError, Runtime}
use robinhoodpools.Market.Hex.{hex, prefixed}
use robinhoodpools.Market.Words.{words_of, sint, to_bytes}
use robinhoodpools.Market.Words.RoundTrip.{
  signed_word, sint_iff, data_text, words_of-data_text, address_topic,
}
use robinhoodpools.Market.Rows.{Row, PoolInfo, Pools, Headers, blank}
use robinhoodpools.Market.Keys.{topic}
use robinhoodpools.Market.Concentrated.{pool_swap, decode_pool, swap_details}
use robinhoodpools.Market.Concentrated.Swaps.{
  SwapReport, IsReport, swap_words, swap_topics, pool_swap-swap_words,
}
use robinhoodpools.Market.Concentrated.Flows.{minted, burned, event_of, move_position}
use robinhoodpools.Market.Events.{decode_event}
use robinhoodpools.Market.Events.Bounds.{decode_event-IsBounded}
use robinhoodpools.Market.Events.Bounds.Blocks.{IsBounded}
use robinhoodpools.Market.Events.Emitter.{IsTrusted, decode_event-IsTrusted}

abbrev codes : String → Bytes
codes String.[] = []
codes (String.◌∷◌ c s) = code c ∷ codes s

-- In place of the hash: the first 32 bytes
abbrev sample_runtime : Runtime
sample_runtime = record {
  keccak = λ b. take 32 (b ++ to_bytes 32 0);
  keccak_text = λ s. take 32 (codes s);
  int_of = λ b s. none;
}

abbrev twenty : ℕ → Bytes
twenty n = n ∷ n ∷ n ∷ n ∷ n ∷ n ∷ n ∷ n ∷ n ∷ n ∷ n ∷ n ∷ n ∷ n ∷ n ∷ n ∷ n ∷ n ∷ n ∷ n ∷ []

abbrev sample_report : SwapReport
sample_report = record {
  sender = twenty 17;
  recipient = twenty 34;
  amount0 = pos 1000;
  amount1 = negsuc 499;
  price = 79_228_162_514_264_337_593_543_950_336;
  liquidity = 7_000_000;
  tick = negsuc 6_930;
}

abbrev some_hash : String
some_hash = "0xabababababababababababababababababababababababababababababababab"

abbrev swap_topic : String
swap_topic = topic sample_runtime "Swap(address,address,int256,int256,uint160,uint128,int24)"

abbrev log_with : List String → List ℕ → Log
log_with topics words = record {
  address = text (prefixed (hex (twenty 51)));
  topics = some (texts topics);
  payload = data_text words;
  block_number = whole (pos 90);
  tx_index = whole (pos 2);
  log_index = whole (pos 5);
  block_hash = text some_hash;
  tx_hash = text some_hash;
}
  where
    texts : List String → List Value
    texts [] = []
    texts (t ∷ ts) = text t ∷ texts ts

abbrev sample_pool : PoolInfo
sample_pool = record {
  id = none;
  address = none;
  protocol = some (some "V3");
  pool_kind = none;
  fee_ppm = some (whole (pos 3000));
  fee = missing;
  factory = missing;
}

abbrev sample_pools : Pools
sample_pools = (prefixed (hex (twenty 51)), sample_pool) ∷ []

abbrev sample_headers : Headers
sample_headers key = some (record { hash = text some_hash; timestamp = whole (pos 1_700_000_000) })

abbrev blank_row : Row
blank_row = blank (pos 90) some_hash some_hash (pos 2) (pos 5) (pos 1_700_000_000)

abbrev the_row : Result DecodeError (Option Row) → Row
the_row (ok (some r)) = r
the_row (ok none) = blank_row
the_row (err e) = blank_row

abbrev swap_log : Log
swap_log = log_with (swap_topics swap_topic sample_report) (swap_words sample_report)

decoded : Result DecodeError (Option Row)
unfolding decode_event
decoded = decode_event sample_runtime swap_log sample_headers sample_pools

swap_is_decoded :
    decode_event sample_runtime swap_log sample_headers sample_pools ≡ ok (some (the_row decoded))
unfolding decode_event decoded hex take topic get drop
swap_is_decoded = refl

decode_event-IsBounded_example : IsBounded (the_row decoded)
decode_event-IsBounded_example =
    decode_event-IsBounded sample_runtime swap_log sample_headers sample_pools (the_row decoded)
      swap_is_decoded

decode_event-IsTrusted_example :
    IsTrusted sample_runtime swap_log sample_headers sample_pools (the_row decoded)
decode_event-IsTrusted_example =
    decode_event-IsTrusted sample_runtime swap_log sample_headers sample_pools (the_row decoded)
      swap_is_decoded

-- The row is the swap that was reported.
decoded_amounts :
    ((the_row decoded).amount0 ≡ some (pos 1000)) × ((the_row decoded).amount1 ≡ some (negsuc 499))
unfolding decode_event decoded hex take topic get drop
decoded_amounts = (refl, refl)

sint_iff_example :
    (sint (2 ^ 256 - 6931) 24 "tick" ≡ ok (negsuc 6930))
    ↔ ((2 ^ 256 - 6931 ≡ signed_word (negsuc 6930)) × (6930 < 2 ^ 23))
sint_iff_example =
    sint_iff (2 ^ 256 - 6931) 24 "tick" (negsuc 6930) (omega arith) (omega arith) (omega arith)

words_of-data_text_example :
    words_of (data_text (1000 ∷ 2 ^ 255 ∷ [])) "data" 2 ≡ ok (1000 ∷ 2 ^ 255 ∷ [])
words_of-data_text_example =
    words_of-data_text (1000 ∷ 2 ^ 255 ∷ []) "data" (omega arith, (omega arith, tt))

sample-IsReport : IsReport sample_report
sample-IsReport = record {
  from = (omega arith, refl);
  to = (omega arith, refl);
  size0 = omega arith;
  size1 = omega arith;
  price_size = omega arith;
  liquidity_size = omega arith;
  tick_size = omega arith;
}

pool_swap-swap_words_example :
    pool_swap false swap_log (swap_topics swap_topic sample_report) blank_row
    ≡ ok (record blank_row {
      kind = some "swap";
      amount0 = some (pos 1000);
      amount1 = some (negsuc 499);
      sqrt_price_x96 = some 79_228_162_514_264_337_593_543_950_336;
      liquidity = some 7_000_000;
      tick = some (negsuc 6_930);
      pricing_basis = some "event_state_and_delta";
      details =
          swap_details
            (prefixed (hex (twenty 17)))
            (prefixed (hex (twenty 34)))
            (pos 1000)
            (negsuc 499)
            "unknown_pool_fee";
    })
pool_swap-swap_words_example =
    pool_swap-swap_words swap_log blank_row swap_topic sample_report sample-IsReport refl

-- The same position, to which liquidity is added and from which it is removed
abbrev position_topics : List String
position_topics =
    swap_topic
    ∷ address_topic (twenty 17)
    ∷ prefixed (hex (to_bytes 32 10))
    ∷ prefixed (hex (to_bytes 32 20))
    ∷ []

abbrev mint_log : Log
mint_log = log_with position_topics (17 ∷ 500 ∷ 1000 ∷ 2000 ∷ [])

abbrev burn_log : Log
burn_log = log_with position_topics (500 ∷ 999 ∷ 1999 ∷ [])

abbrev known_row : Row
known_row = record blank_row { pool_id = some (prefixed (hex (twenty 51))) }

abbrev only_row : Result DecodeError Row → Row
only_row (ok r) = r
only_row (err e) = blank_row

minted_row : Row
unfolding decode_pool
minted_row =
    only_row
      (decode_pool sample_runtime (event_of minted) sample_pool mint_log position_topics known_row)

burned_row : Row
unfolding decode_pool
burned_row =
    only_row
      (decode_pool sample_runtime (event_of burned) sample_pool burn_log position_topics known_row)

mint_is_decoded :
    decode_pool sample_runtime (event_of minted) sample_pool mint_log position_topics known_row
    ≡ ok minted_row
unfolding decode_pool minted_row take drop
mint_is_decoded = refl

burn_is_decoded :
    decode_pool sample_runtime (event_of burned) sample_pool burn_log position_topics known_row
    ≡ ok burned_row
unfolding decode_pool burned_row take drop
burn_is_decoded = refl

move_position_example :
    (minted_row.position_key ≡ burned_row.position_key)
    × (minted_row.custody ≡ burned_row.custody)
    × (minted_row.tick_lower ≡ burned_row.tick_lower)
    × (minted_row.tick_upper ≡ burned_row.tick_upper)
move_position_example =
    move_position sample_runtime sample_pool sample_pool minted burned mint_log burn_log
      position_topics position_topics known_row known_row minted_row burned_row refl refl refl refl
      mint_is_decoded burn_is_decoded
