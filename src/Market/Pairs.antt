-- ===== src/Market/Pairs.antt =====
-- lp_market_protocols.py: `_decode_event`, the events of the V2 pairs.
use robinhoodpools.Prelude.{String, List, [], ◌∷◌, Option, none, some, Result, ok, ◌>>=◌, ◌>>◌}
use robinhoodpools.Prelude.Int.{ℤ, pos, ◌-ℤ◌}
use robinhoodpools.Market.{Log, DecodeError, Runtime}
use robinhoodpools.Market.Words.{words_of, uint, topic_address, topic_at, word_at, want_topics}
use robinhoodpools.Market.Rows.{Row, str, num}
use robinhoodpools.Market.Keys.{topic, event_at}

-- The constants of `_V2_CORE_TOPIC_SET`
pub data PairEvent : Type 0 where
  swap mint burn sync : PairEvent

unfoldable pub pair_event : Runtime → String → Option PairEvent
unfolding event_at topic
pair_event rt t = event_at t (
    (topic rt "Swap(address,uint256,uint256,uint256,uint256,address)", swap)
    ∷ (topic rt "Mint(address,uint256,uint256)", mint)
    ∷ (topic rt "Burn(address,uint256,uint256,address)", burn)
    ∷ (topic rt "Sync(uint112,uint112)", sync)
    ∷ [])

-- The basis of the fees, where the pool's fee is known and where it is not
abbrev pub fees_basis : Option ℤ → String → String
fees_basis none unknown = unknown
fees_basis (some fee) unknown = "gross_swap_fee_estimate"

unfoldable pub pair_swap : Log → List String → Row → Result DecodeError Row
unfolding words_of uint topic_address
pair_swap log topics row = do
  want_topics 3 topics "V2 Swap topics"
  words ← words_of log.payload "V2 Swap data" 4
  in0 ← uint (word_at words 0) 256 "V2 Swap word 0"
  in1 ← uint (word_at words 1) 256 "V2 Swap word 1"
  out0 ← uint (word_at words 2) 256 "V2 Swap word 2"
  out1 ← uint (word_at words 3) 256 "V2 Swap word 3"
  sender ← topic_address (topic_at topics 1) "V2 Swap sender"
  recipient ← topic_address (topic_at topics 2) "V2 Swap recipient"
  ok (record row {
    kind = some "swap";
    amount0 = some (pos in0 -ℤ pos out0);
    amount1 = some (pos in1 -ℤ pos out1);
    pricing_basis = some "event_delta";
    details =
        ("sender", str sender)
        ∷ ("recipient", str recipient)
        ∷ ("input0", num (pos in0))
        ∷ ("input1", num (pos in1))
        ∷ ("fees_basis", str (fees_basis row.fee_ppm "unknown_pair_fee"))
        ∷ [];
  })

unfoldable pub pair_mint : Log → List String → Row → Result DecodeError Row
unfolding words_of topic_address
pair_mint log topics row = do
  want_topics 2 topics "V2 Mint topics"
  words ← words_of log.payload "V2 Mint data" 2
  sender ← topic_address (topic_at topics 1) "V2 Mint sender"
  ok (record row {
    kind = some "add";
    amount0 = some (pos (word_at words 0));
    amount1 = some (pos (word_at words 1));
    accounting_basis = some "pool_event_beneficiary_unknown";
    identity_basis = some "unresolved_v2_lp_token";
    details = ("sender", str sender) ∷ [];
  })

unfoldable pub pair_burn : Log → List String → Row → Result DecodeError Row
unfolding words_of topic_address
pair_burn log topics row = do
  want_topics 3 topics "V2 Burn topics"
  words ← words_of log.payload "V2 Burn data" 2
  sender ← topic_address (topic_at topics 1) "V2 Burn sender"
  recipient ← topic_address (topic_at topics 2) "V2 Burn recipient"
  ok (record row {
    kind = some "remove";
    amount0 = some (pos (word_at words 0));
    amount1 = some (pos (word_at words 1));
    accounting_basis = some "pool_event_beneficiary_unknown";
    identity_basis = some "unresolved_v2_lp_token";
    details = ("sender", str sender) ∷ ("recipient", str recipient) ∷ [];
  })

unfoldable pub pair_sync : Log → List String → Row → Result DecodeError Row
unfolding words_of uint
pair_sync log topics row = do
  want_topics 1 topics "V2 Sync topics"
  words ← words_of log.payload "V2 Sync data" 2
  reserve0 ← uint (word_at words 0) 112 "V2 reserve0"
  reserve1 ← uint (word_at words 1) 112 "V2 reserve1"
  ok (record row {
    kind = some "checkpoint";
    pricing_basis = some "event_reserves";
    details = ("reserve0", num (pos reserve0)) ∷ ("reserve1", num (pos reserve1)) ∷ [];
  })

-- The branches of the V2 block, for a row with its pool, protocol and fee
unfoldable pub decode_pair : PairEvent → Log → List String → Row → Result DecodeError Row
unfolding pair_swap pair_mint pair_burn pair_sync
decode_pair swap = pair_swap
decode_pair mint = pair_mint
decode_pair burn = pair_burn
decode_pair sync = pair_sync
