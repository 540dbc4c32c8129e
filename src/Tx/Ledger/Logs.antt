-- ===== src/Tx/Ledger/Logs.antt =====
-- tx_plan.py: the constructor of `Ledger`, which sorts the logs by their first topic. A log is what the
-- node gives, with its address and topics in lower case; reading hexadecimal text is a parameter.
use robinhoodpools.Prelude.{
  ℕ, ◌-◌, ◌^◌, String, Bool, true, false, ◌&&◌, ◌||◌, List, [], ◌∷◌, ◌++◌, str_eq, leb, length,
  get_elem?, if◌then◌else◌, Result, ok, ◌>>=◌, or_raise, ◌==◌,
}
use robinhoodpools.Prelude.Int.{ℤ, pos, sub_ℕ}
use robinhoodpools.Dict.{Dict}
use robinhoodpools.Tx.Errors.{TxError, index_error}
use robinhoodpools.Tx.Chain.{native, pool_manager}
use robinhoodpools.Tx.Routes.{v2, v3, v4}
use robinhoodpools.Tx.Ledger.{Ledger, SwapLog}

abbrev pub native_trace : String
native_trace = "0xeeeeeeeeeeeeeeeeeeeeeeeeeeeeeeeeeeeeeeee"

-- `_signed`
unfoldable pub signed : ℕ → ℕ → ℤ
signed value bits = if leb (2 ^ (bits - 1)) value then sub_ℕ value (2 ^ bits) else pos value

pub record Log : Type 0 where
  pub address : String
  pub topics : List String
  pub words : List ℕ

-- The names of the topics, which `keccak` gives.
pub record Topics : Type 0 where
  pub transfer : String
  pub v4_swap : String
  pub v3_swap : String
  pub pancake_swap : String
  pub v2_swap : String
  pub nfpm_increase : String
  pub nfpm_decrease : String
  pub nfpm_collect : String
  pub v4_modify_liquidity : String

module _ (names : Topics) (topic_address : String → String) (topic_int : String → ℕ) where
  abbrev pub topic : Log → ℕ → Result TxError String
  topic log i = or_raise (get_elem? log.topics i) index_error

  abbrev pub word : Log → ℕ → Result TxError ℕ
  word log i = or_raise (get_elem? log.words i) index_error

  -- `_words(data)[0] if len(data) > 2 else 0`
  abbrev pub first_word : List ℕ → ℕ
  first_word [] = 0
  first_word (w ∷ ws) = w

  abbrev pub add_transfer : Ledger → Log → Result TxError Ledger
  add_transfer l log = do
    from ← topic log 1
    to ← topic log 2
    ok (record l {
      transfers =
          l.transfers
          ++ (record {
            currency = if str_eq log.address native_trace then native else log.address;
            from = topic_address from;
            to = topic_address to;
            amount = first_word log.words;
          }
              ∷ []);
    })

  abbrev pub add_mint : Ledger → Log → Result TxError Ledger
  add_mint l log = do
    owner ← topic log 2
    token_id ← topic log 3
    ok (record l {
      nft_mints =
          l.nft_mints
          ++ (record {
            manager = log.address;
            owner = topic_address owner;
            token_id = topic_int token_id;
          }
              ∷ []);
    })

  abbrev pub add_swap : Ledger → SwapLog → Ledger
  add_swap l s = record l { swaps = l.swaps ++ (s ∷ []) }

  abbrev pub add_v4_swap : Ledger → Log → Result TxError Ledger
  add_v4_swap l log = do
    w0 ← word log 0
    w1 ← word log 1
    id ← topic log 1
    ok (
        add_swap l
          (record { pool_key = id; amount0 = signed w0 256; amount1 = signed w1 256; venue = v4 }))

  abbrev pub add_v3_swap : Ledger → Log → Result TxError Ledger
  add_v3_swap l log = do
    w0 ← word log 0
    w1 ← word log 1
    ok (
        add_swap l (record {
          pool_key = log.address;
          amount0 = signed w0 256;
          amount1 = signed w1 256;
          venue = v3;
        }))

  abbrev pub add_v2_swap : Ledger → Log → Result TxError Ledger
  add_v2_swap l log = do
    w0 ← word log 0
    w1 ← word log 1
    w2 ← word log 2
    w3 ← word log 3
    ok (
        add_swap l (record {
          pool_key = log.address;
          amount0 = sub_ℕ w2 w0;
          amount1 = sub_ℕ w3 w1;
          venue = v2;
        }))

  -- `collecting` is the log whose liquidity is written as zero.
  abbrev pub add_nfpm : Bool → String → Ledger → Log → Result TxError Ledger
  add_nfpm collecting sig l log = do
    id ← topic log 1
    w0 ← word log 0
    w1 ← word log 1
    w2 ← word log 2
    ok (record l {
      nfpm_events =
          l.nfpm_events
          ++ (record {
            manager = log.address;
            topic = sig;
            token_id = topic_int id;
            liquidity = if collecting then 0 else w0;
            amount0 = w1;
            amount1 = w2;
          }
              ∷ []);
    })

  abbrev pub add_delta : Ledger → Log → Result TxError Ledger
  add_delta l log = do
    w2 ← word log 2
    id ← topic log 1
    ok (record l {
      liquidity_deltas =
          l.liquidity_deltas ++ (record { pool_id = id; delta = signed w2 256 } ∷ []);
    })

  -- `_topic_address(topics[1]) == NATIVE`, of a log with four topics
  abbrev pub is_mint : List String → Bool
  is_mint (a ∷ b ∷ rest) = str_eq (topic_address b) native
  is_mint _ = false

  -- One round of the loop.
  unfoldable pub add_log : Ledger → Log → Result TxError Ledger
  add_log l log = elim log.topics [
    | [] ↦ ok l
    | sig ∷ rest ↦
        let count = length log.topics in
        let at_manager = str_eq log.address pool_manager in
        if str_eq sig names.transfer && count == 3
        then add_transfer l log
        else if str_eq sig names.transfer && (count == 4 && is_mint log.topics)
        then add_mint l log
        else if str_eq sig names.v4_swap && at_manager
        then add_v4_swap l log
        else if str_eq sig names.v3_swap || str_eq sig names.pancake_swap
        then add_v3_swap l log
        else if str_eq sig names.v2_swap
        then add_v2_swap l log
        else if str_eq sig names.nfpm_increase || str_eq sig names.nfpm_decrease
        then add_nfpm false sig l log
        else if str_eq sig names.nfpm_collect
        then add_nfpm true sig l log
        else if str_eq sig names.v4_modify_liquidity && at_manager
        then add_delta l log
        else ok l
  ]

  unfoldable pub add_logs : Ledger → List Log → Result TxError Ledger
  add_logs l [] = ok l
  add_logs l (log ∷ logs) = add_log l log >>= (λ next. add_logs next logs)

  abbrev pub empty_ledger : Bool → Dict ℤ → Ledger
  empty_ledger traced flows = record {
    transfers = [];
    swaps = [];
    nft_mints = [];
    nfpm_events = [];
    liquidity_deltas = [];
    native_traced = traced;
    native_flows = flows;
  }

  -- `Ledger(logs, traced=..., native_flows=...)`
  unfoldable pub make_ledger : List Log → Bool → Dict ℤ → Result TxError Ledger
  unfolding add_logs
  make_ledger logs traced flows = add_logs (empty_ledger traced flows) logs
