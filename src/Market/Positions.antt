-- ===== src/Market/Positions.antt =====
-- lp_market_protocols.py: `_decode_event`, the V3 events that move a position's liquidity.
use robinhoodpools.Prelude.{
  ◌==◌, String, List, [], ◌∷◌, Option, none, some, Result, ok, ◌>>=◌, ◌>>◌, if◌then◌else◌,
}
use robinhoodpools.Prelude.Int.{ℤ, pos, ◌-ℤ◌}
use robinhoodpools.Market.{Log, DecodeError, Runtime}
use robinhoodpools.Market.Words.{
  words_of, uint, word_address, topic_address, topic_sint, topic_at, word_at, want_topics,
}
use robinhoodpools.Market.Rows.{Row, str}
use robinhoodpools.Market.Keys.{v3_position_key, core_position_key}

-- Owner, ticks and key, which Mint, Burn and Collect read from their topics
unfoldable pub range_of : String → List String → Result DecodeError (String × ℤ × ℤ)
unfolding topic_address topic_sint
range_of name topics = do
  owner ← topic_address (topic_at topics 1) name
  lower ← topic_sint (topic_at topics 2) 24 "V3 tickLower"
  upper ← topic_sint (topic_at topics 3) 24 "V3 tickUpper"
  ok (owner, lower, upper)

abbrev pub pool_text : Option String → String
pool_text none = ""
pool_text (some p) = p

unfoldable pub pool_mint : Runtime → Log → List String → Row → Result DecodeError Row
unfolding words_of word_address range_of uint v3_position_key core_position_key
pool_mint rt log topics row = do
  want_topics 4 topics "V3 Mint topics"
  words ← words_of log.payload "V3 Mint data" 4
  sender ← word_address (word_at words 0) "V3 Mint sender"
  (owner, lower, upper) ← range_of "V3 Mint owner" topics
  liquidity ← uint (word_at words 1) 128 "V3 Mint liquidity"
  let raw_key = v3_position_key rt owner lower upper
  key ← core_position_key "v3" (pool_text row.pool_id) raw_key
  ok (record row {
    kind = some "add";
    custody = some owner;
    position_key = some key;
    tick_lower = some lower;
    tick_upper = some upper;
    liquidity_delta = some (pos liquidity);
    amount0 = some (pos (word_at words 2));
    amount1 = some (pos (word_at words 3));
    cashflow0 = some (pos 0 -ℤ pos (word_at words 2));
    cashflow1 = some (pos 0 -ℤ pos (word_at words 3));
    accounting_basis = some "core_mint_exact_position_flow";
    identity_basis = some "core_position_custody";
    details = ("sender", str sender) ∷ ("core_position_key", str raw_key) ∷ [];
  })

unfoldable pub pool_burn : Runtime → Log → List String → Row → Result DecodeError Row
unfolding words_of range_of uint v3_position_key core_position_key
pool_burn rt log topics row = do
  want_topics 4 topics "V3 Burn topics"
  words ← words_of log.payload "V3 Burn data" 3
  (owner, lower, upper) ← range_of "V3 Burn owner" topics
  liquidity ← uint (word_at words 0) 128 "V3 Burn liquidity"
  let raw_key = v3_position_key rt owner lower upper
  key ← core_position_key "v3" (pool_text row.pool_id) raw_key
  ok (record row {
    kind = some (if liquidity == 0 then "checkpoint" else "remove");
    custody = some owner;
    position_key = some key;
    tick_lower = some lower;
    tick_upper = some upper;
    liquidity_delta = some (pos 0 -ℤ pos liquidity);
    amount0 = some (pos (word_at words 1));
    amount1 = some (pos (word_at words 2));
    accounting_basis = some (
        if liquidity == 0
        then "zero_burn_fee_checkpoint"
        else "principal_moved_to_position_claim_not_wallet_cashflow");
    identity_basis = some "core_position_custody";
    details = ("core_position_key", str raw_key) ∷ [];
  })

unfoldable pub pool_collect : Runtime → Log → List String → Row → Result DecodeError Row
unfolding words_of word_address range_of uint v3_position_key core_position_key
pool_collect rt log topics row = do
  want_topics 4 topics "V3 Collect topics"
  words ← words_of log.payload "V3 Collect data" 3
  (owner, lower, upper) ← range_of "V3 Collect owner" topics
  recipient ← word_address (word_at words 0) "V3 Collect recipient"
  amount0 ← uint (word_at words 1) 128 "V3 Collect amount0"
  amount1 ← uint (word_at words 2) 128 "V3 Collect amount1"
  let raw_key = v3_position_key rt owner lower upper
  key ← core_position_key "v3" (pool_text row.pool_id) raw_key
  ok (record row {
    kind = some "collect";
    custody = some owner;
    position_key = some key;
    tick_lower = some lower;
    tick_upper = some upper;
    amount0 = some (pos amount0);
    amount1 = some (pos amount1);
    cashflow0 = some (pos amount0);
    cashflow1 = some (pos amount1);
    accounting_basis = some "core_collect_exact_position_flow";
    identity_basis = some "core_position_custody";
    details = ("recipient", str recipient) ∷ ("core_position_key", str raw_key) ∷ [];
  })
