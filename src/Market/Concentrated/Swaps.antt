-- ===== src/Market/Concentrated/Swaps.antt =====
-- The V3 swap event, encoded by the ABI and decoded by `_decode_event`'s branch for it.
use robinhoodpools.Prelude.{
  ℕ, ◌-◌, ◌^◌, ◌≤◌, ◌<◌, ◌≡◌, refl, false, String, List, [], ◌∷◌, some, ok, arith, All, length,
  gt→leb,
}
use robinhoodpools.Prelude.Int.{ℤ, pos, negsuc}
use robinhoodpools.Market.{Bytes, Log}
use robinhoodpools.Market.Hex.{hex, prefixed}
use robinhoodpools.Market.Words.{uint, sint}
use robinhoodpools.Market.Words.RoundTrip.{
  signed_word, sint_iff, data_text, words_of-data_text, address_topic, topic_address-address_topic,
}
use robinhoodpools.Market.Ensured.{IsInt}
use robinhoodpools.Market.Rows.{Row}
use robinhoodpools.Market.Pairs.{fees_basis}
use robinhoodpools.Market.Concentrated.{pool_swap, protocol_fees, swap_details}

pub uint_lem : (w bits : ℕ) (name : String) → w < 2 ^ bits → uint w bits name ≡ ok w
unfolding uint
uint_lem w bits name h = rw (gt→leb (2 ^ bits) w h) refl

signed_word-lt : (half : ℕ) (v : ℤ) → IsInt half v → half ≤ 2 ^ 255 → signed_word v < 256 ^ 32
signed_word-lt half (pos n) h most = omega (arith, h)
signed_word-lt half (negsuc n) h most = omega arith

pub sint_lem :
    (bits : ℕ) (name : String) (v : ℤ)
    → 1 ≤ bits
    → bits ≤ 256
    → signed_word v < 2 ^ 256
    → IsInt (2 ^ (bits - 1)) v
    → sint (signed_word v) bits name ≡ ok v
sint_lem bits name v one most size fits =
    (sint_iff (signed_word v) bits name v size one most).1 (refl, fits)

-- What a pool reports of a swap
pub record SwapReport : Type 0 where
  pub sender : Bytes
  pub recipient : Bytes
  pub amount0 : ℤ
  pub amount1 : ℤ
  pub price : ℕ
  pub liquidity : ℕ
  pub tick : ℤ

abbrev pub IsAddressBytes : Bytes → Type 0
IsAddressBytes bs = All (λ b. b < 256) bs × (length bs ≡ 20)

-- The values have the widths that the event declares.
pub record IsReport (s : SwapReport) : Type 0 where
  pub from : IsAddressBytes s.sender
  pub to : IsAddressBytes s.recipient
  pub size0 : IsInt (2 ^ 255) s.amount0
  pub size1 : IsInt (2 ^ 255) s.amount1
  pub price_size : s.price < 2 ^ 160
  pub liquidity_size : s.liquidity < 2 ^ 128
  pub tick_size : IsInt (2 ^ 23) s.tick

abbrev pub swap_words : SwapReport → List ℕ
swap_words s =
    signed_word s.amount0 ∷ signed_word s.amount1 ∷ s.price ∷ s.liquidity ∷ signed_word s.tick ∷ []

abbrev pub swap_topics : String → SwapReport → List String
swap_topics topic0 s = topic0 ∷ address_topic s.sender ∷ address_topic s.recipient ∷ []

swap_words-All : (s : SwapReport) → IsReport s → All (λ w. w < 256 ^ 32) (swap_words s)
swap_words-All s r =
    let tick = signed_word-lt (2 ^ 23) s.tick r.tick_size (omega arith) in
    let price : s.price < 256 ^ 32 = omega (arith, r.price_size) in
    let liquidity : s.liquidity < 256 ^ 32 = omega (arith, r.liquidity_size) in
    (
      signed_word-lt (2 ^ 255) s.amount0 r.size0 (omega arith),
      (signed_word-lt (2 ^ 255) s.amount1 r.size1 (omega arith), (price, (liquidity, (tick, tt)))),
    )

-- Of a log whose topics and data are the ABI encoding of a swap report with the declared widths, the V3 swap
-- branch makes a swap row with exactly the reported amounts, price, liquidity, tick and addresses, the
-- inputs being the amounts, or zero where an amount is negative; it leaves the rest of the row alone.
pub pool_swap-swap_words :
    (log : Log) (row : Row) (topic0 : String) (s : SwapReport)
    → IsReport s
    → log.payload ≡ data_text (swap_words s)
    → pool_swap false log (swap_topics topic0 s) row
      ≡ ok (record row {
        kind = some "swap";
        amount0 = some s.amount0;
        amount1 = some s.amount1;
        sqrt_price_x96 = some s.price;
        liquidity = some s.liquidity;
        tick = some s.tick;
        pricing_basis = some "event_state_and_delta";
        details =
            swap_details
              (prefixed (hex s.sender))
              (prefixed (hex s.recipient))
              s.amount0
              s.amount1
              (fees_basis row.fee_ppm "unknown_pool_fee");
      })
unfolding pool_swap protocol_fees
pool_swap-swap_words log row topic0 s r e =
    let ws = swap_words-All s r in
    rw
      (
        e,
        words_of-data_text (swap_words s) "V3 Swap data" ws,
        sint_lem 256 "V3 amount0" s.amount0 (omega arith) (omega arith) (omega (arith, ws.0))
            r.size0,
        sint_lem 256 "V3 amount1" s.amount1 (omega arith) (omega arith) (omega (arith, ws.1.0))
            r.size1,
        uint_lem s.price 160 "V3 sqrtPriceX96" r.price_size,
        uint_lem s.liquidity 128 "V3 active liquidity" r.liquidity_size,
        sint_lem 24 "V3 tick" s.tick (omega arith) (omega arith) (omega (arith, ws.1.1.1.1.0))
            r.tick_size,
        topic_address-address_topic s.sender "V3 Swap sender" r.from.0 r.from.1,
        topic_address-address_topic s.recipient "V3 Swap recipient" r.to.0 r.to.1,
      )
      refl
