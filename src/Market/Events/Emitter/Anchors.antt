-- ===== src/Market/Events/Emitter/Anchors.antt =====
-- The identity of a row, and the header that its block has.
use robinhoodpools.Prelude.{◌||◌, ◌≡◌, ap, ◌∙◌, String, ok, raise_if}
use robinhoodpools.Prelude.Int.{pos, ltb_ℤ}
use robinhoodpools.Market.{Log, Header, malformed, Runtime}
use robinhoodpools.Market.Words.{integer, hash_of}
use robinhoodpools.Market.Rows.{Row, Headers, base, header_of}
use robinhoodpools.Market.Ensured.{Ensures, returned, bind_any, bind_eq, bind_same}
use robinhoodpools.Market.Events.Emitter.Blocks.{Same}

module _ (rt : Runtime) (log : Log) (headers : Headers) where
  -- The row has the log's identity, and the header that is kept for its block has its block hash.
  abbrev pub IsAnchored : Row → Type 0
  IsAnchored row =
      (integer rt log.block_number "log blockNumber" ≡ ok row.block_number)
      × (hash_of log.tx_hash "log transactionHash" ≡ ok row.tx_hash)
      × (integer rt log.log_index "log logIndex" ≡ ok row.log_index)
      × (hash_of log.block_hash "log blockHash" ≡ ok row.block_hash)
      × ((h : Header) × (header_of headers row.block_number ≡ ok h)
          × (hash_of h.hash "header hash" ≡ ok row.block_hash)
          × (integer rt h.timestamp "header timestamp" ≡ ok row.timestamp))

  pub base-IsAnchored : Ensures IsAnchored (base rt log headers)
  unfolding base
  base-IsAnchored = bind_eq (integer rt log.block_number "log blockNumber") _ λ block b.
      bind_any (integer rt log.tx_index "log transactionIndex") _ λ tx_index.
        bind_eq (integer rt log.log_index "log logIndex") _ λ log_index l.
          bind_any
            (raise_if (ltb_ℤ block (pos 0) || ltb_ℤ tx_index (pos 0) || ltb_ℤ log_index (pos 0))
              (malformed "negative log identity component"))
            _
            λ _. bind_eq (hash_of log.block_hash "log blockHash") _ λ block_hash bh.
              bind_eq (hash_of log.tx_hash "log transactionHash") _ λ tx_hash th.
                bind_eq (header_of headers block) _ λ header hd.
                  bind_eq (hash_of header.hash "header hash") _ λ header_hash hh.
                    bind_same header_hash block_hash _ _ λ same.
                      bind_eq (integer rt header.timestamp "header timestamp") _ λ timestamp ts.
                        bind_any
                          (raise_if (ltb_ℤ timestamp (pos 0))
                            (malformed "negative block timestamp"))
                          _
                          λ _.
                            returned
                              (b, th, l, bh, (header, hd, hh ∙ ap (λ (s : String). ok s) same, ts))

  pub IsAnchored-Same : (row : Row) → IsAnchored row → (r : Row) → Same row r → IsAnchored r
  IsAnchored-Same row (b, th, l, bh, (h, hd, hh, ts)) r (eb, ebh, eth, el, ets, ep) =
      (rw eb b, rw eth th, rw el l, rw ebh bh, (h, rw eb hd, rw ebh hh, rw ets ts))
