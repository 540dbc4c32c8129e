-- ===== src/Tx/Ledger.antt =====
-- tx_plan.py: `Ledger`, what the logs of a simulated or mined transaction moved. `bytes.hex`-like reads
-- of one log are the parameters of `Logs`: the words of its data and of a topic, and the address in a
-- topic; addresses and topics are in lower case.
pub mod Logs
use robinhoodpools.Prelude.{
  ℕ, zero, suc, ◌+◌, String, Bool, true, false, not, ◌&&◌, ◌||◌, Option, none, some, List, [], ◌∷◌,
  keep, get_elem?, length, sum, map, str_eq, ltb, ◌==◌, if◌then◌else◌, Result, ok, err, ◌>>=◌, ◌>>◌,
  raise_if, or_raise,
}
use robinhoodpools.Prelude.Int.{ℤ, pos, ◌-ℤ◌}
use robinhoodpools.Dict.{Dict, get}
use robinhoodpools.Tx.Errors.{TxError, unmodeled_fee, unobservable}
use robinhoodpools.Tx.Chain.{native}
use robinhoodpools.Tx.Routes.{Venue, v2, v3, v4, is_v4, Pool, Hop}

pub record SwapLog : Type 0 where
  pub pool_key : String
  pub amount0 : ℤ
  pub amount1 : ℤ
  pub venue : Venue

pub record Transfer : Type 0 where
  pub currency : String
  pub from : String
  pub to : String
  pub amount : ℕ

pub record NftMint : Type 0 where
  pub manager : String
  pub owner : String
  pub token_id : ℕ

pub record NfpmEvent : Type 0 where
  pub manager : String
  pub topic : String
  pub token_id : ℕ
  pub liquidity : ℕ
  pub amount0 : ℕ
  pub amount1 : ℕ

pub record LiquidityDelta : Type 0 where
  pub pool_id : String
  pub delta : ℤ

pub record Ledger : Type 0 where
  pub transfers : List Transfer
  pub swaps : List SwapLog
  pub nft_mints : List NftMint
  pub nfpm_events : List NfpmEvent
  pub liquidity_deltas : List LiquidityDelta
  pub native_traced : Bool
  pub native_flows : Dict ℤ

unfoldable pub observable : Ledger → String → Bool
observable l currency = not (str_eq currency native) || l.native_traced

abbrev pub is_received : String → String → Transfer → Bool
is_received currency who t =
    str_eq t.currency currency && (str_eq t.to who && not (str_eq t.from who))

abbrev pub is_sent : String → String → Transfer → Bool
is_sent currency who t = str_eq t.currency currency && (str_eq t.from who && not (str_eq t.to who))

abbrev pub total : List Transfer → ℕ
total ts = sum (map (λ t. t.amount) ts)

unfoldable pub received : Ledger → String → String → ℕ
received l currency who = total (keep (is_received currency who) l.transfers)

unfoldable pub sent : Ledger → String → String → ℕ
sent l currency who = total (keep (is_sent currency who) l.transfers)

unfoldable pub flow : Ledger → String → String → Result TxError ℤ
flow l currency who =
    if str_eq currency native && not l.native_traced
    then or_raise (get who l.native_flows) unobservable
    else ok (pos (received l currency who) -ℤ pos (sent l currency who))

abbrev pub hop_key : Hop → String
hop_key h = if is_v4 h.pool.venue then h.pool.id else h.pool.address

-- What the pool took in and gave out; the V2 and V4 logs have the trader's sign.
abbrev pub swap_io : Hop → SwapLog → ℤ × ℤ
swap_io h s =
    let zero_in = str_eq h.currency_in h.pool.token0 in
    let a_in = if zero_in then s.amount0 else s.amount1 in
    let a_out = if zero_in then s.amount1 else s.amount0 in
    elim s.venue [
      | v3 ↦ (a_in, pos 0 -ℤ a_out)
      | v2 ↦ (pos 0 -ℤ a_in, a_out)
      | v4 ↦ (pos 0 -ℤ a_in, a_out)
    ]

abbrev pub or_zero : Option ℕ → ℕ
or_zero none = 0
or_zero (some n) = n

-- `hop_io`; without an occurrence there has to be one log of the pool.
unfoldable pub hop_io : Ledger → Hop → Option ℕ → Result TxError (ℤ × ℤ)
hop_io l h occurrence =
    let matches = keep (λ s. str_eq s.pool_key (hop_key h)) l.swaps in
    if elim occurrence [ none ↦ not (length matches == 1) | some n ↦ false ]
    then err unmodeled_fee
    else or_raise (get_elem? matches (or_zero occurrence)) unmodeled_fee >>= (λ s. ok (swap_io h s))
