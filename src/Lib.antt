-- ===== src/Lib.antt =====
-- The rhpools server watches concentrated-liquidity pools, plans positions and swaps, and lets
-- holders of a token use its features. This library models the parts that decide by pure rules
-- over explicit state, and states what makes them correct. Paths are from the repository's root.
--
-- Prelude, Dict: what the components share, that is Boolean tests on native numbers, lists with
-- native lengths, integers as `pos n` and `negsuc n`, results, and insertion-ordered dictionaries.
-- A Python exception is an `err`; a shared object that a method changes is an argument and a result.
--
-- Math models src/rhpools/lp_math.py: `sqrt_ratio_at_tick`, `tick_at_sqrt_price_x96`,
-- `amount0_delta`, `amount1_delta`, `principal_raw`, `fee_growth_amount` and `fee_claim`, under
-- the same names. Contract integers are unsigned, as `wire_int` makes sure, and `& _MAX_UINT256`
-- is written out as a remainder. The tick search runs on fuel 22, since the range of ticks is below
-- 2 ^ 21 and each round halves it, and one more round ends it.
-- `wire_int` itself, which sorts Python values, is not modelled.
--
-- Allocation models the pure part of src/rhpools/lp_allocation.py: `_stable_value_raw`,
-- `_liquidity_for_budget`, `_snap_lower`, `_snap_upper`, `_partition`, `_weights` and `_budgets`
-- without the underscores. It calls Math for the principal of a position. The doubling runs on
-- fuel 256 and the bisection on 257: the doubling raises before its high end has 257 bits, and the
-- bisection starts below that. Decimal formatting, the pool queries and the replay of stored
-- events are not modelled.
--
-- Gate models src/rhpools/lp_gate.py. Gate/Policy is `GatePolicy.parse` and `public` over JSON
-- values, where `int(text, 10)`, `str` on numbers and `to_checksum_address` are parameters.
-- Gate/Entitle is `entitle` with `qualified` and `state`, which read such a policy, and
-- Gate/Entitlement is `Gate.entitlement`, which keeps its rows. Gate/Window is
-- the `_Window` of sign-ins and nonces, Gate/Limits the constants of the gate, Gate/Streams
-- `stream_slot`, Gate/Oracle the `_Oracle` that reads balances, Gate/Keys the credentials (`_mint`,
-- `mint_key`, `_lookup`, `revoke` and so on), Gate/SignIn `nonce` and `sign_in`, which reads a
-- Gate/Window and ends with a credential of Gate/Keys, and Gate/Owner `policy` and `apply_policy`, which
-- call the parser of Gate/Policy. The clock gives whole microseconds, where the source has a float
-- in seconds (whole seconds in Gate/Keys, as there). A method that decides and writes under one lock
-- is one step, `sign_in` is cut in two where it takes the nonce, and in Gate/Streams, Gate/Keys and
-- Gate/SignIn a relation of such steps stands for the requests that interleave. `Gate.entitlement` and
-- `apply_policy` take the lock several times, with other code in between: what other calls, and for
-- the policy the command line, do to the tables between these sections are arguments of the two
-- functions. What the node answers, what eth_account recovers and what is drawn at random are
-- arguments too. The grammar of a sign-in message, the request headers and the tables of calls in
-- flight are not modelled, nor is the token bucket of `Gate.admit`, whose answers at the edge depend
-- on the rounding of its floats.
--
-- Tx models the swaps and positions of src/rhpools/tx_chain.py, tx_routes.py and tx_plan.py.
-- Tx/Chain has the contracts' addresses, the UniversalRouter commands (Tx/Chain/Commands), the calls of
-- the two position managers (Tx/Chain/Managers), the other calls (Tx/Chain/Calls) and the V3 path
-- (Tx/Chain/Path), each with what its `encode` writes and its `decode` reads. The ABI library and
-- `keccak` are the record of operations `Abi` in Tx/Chain/Abi, and what the code relies on is
-- `AbiLaws`. Tx/Routes has `Pool`, `Hop` and `Route`, and Tx/Routes/Candidates the choice of routes;
-- the rows of the database and the hooks with a launch policy are arguments. Tx/Plan has the intents, the
-- plans and `Plan.calldata`; Tx/Ledger is `Ledger`, with its constructor in Tx/Ledger/Logs; and
-- Tx/Reconcile is `swap_amounts`, `split_amounts`, `min_out_for` and `impact_bps`. Tx/Swap is
-- `SwapPlanner` (`plan`, with `plan_split` in Tx/Swap/Split and `finalize` in Tx/Swap/Finalize),
-- Tx/Liquidity `liquidity_for_amounts` and `principal_for_liquidity`, which call Math, and Tx/Lp is
-- `LpPlanner` (`plan`, with `finalize` in Tx/Lp/Finalize and `amounts` in Tx/Lp/Amounts). The methods of
-- the planners are functions, since the planners keep no state. Tx/Allocate is `allocate_split` of
-- src/rhpools/tx_core.py, which makes the split that `plan_split` plans. Addresses and topics are
-- in lower case, as the source makes them; reading hexadecimal text is a parameter. The decoder of
-- the V3 path runs on as much fuel as the path has bytes, and each round drops 23 of them. The JSON
-- of the records, the typed data of the permits, the SQL and the simulation over a node are not
-- modelled.
--
-- Rpc models `_SourceGate` of src/rhpools/lp_rpc.py: one round of `acquire` and `release` as steps of a
-- relation, with times in whole microseconds. Circuit models `_Circuit` of src/rhpools/lp_fomo_flow.py.
--
-- Market models the decoder of src/rhpools/lp_market_protocols.py: from a log that a provider
-- sends to the row of the market index. Market/Hex reads and writes hexadecimal text, where
-- `lower` leaves letters outside ASCII alone, which the patterns that follow refuse either way.
-- Market/Words has `_integer`, `_address`, `_hash`, `_raw_hex`, `_words`, `_uint`, `_sint` and the
-- readers of topics, Market/Rows `_base`, the row and what is read of a known pool, Market/Keys
-- the trusted addresses and the keys of pools and positions, Market/Created
-- `_normalize_pool_creation` and `_creation_row`, and Market/Pairs, Market/Concentrated (with
-- Market/Positions) and Market/Managed the V2, V3 and V4 branches of `_decode_event`, which
-- Market/Events composes with `_decode_transfer`. `keccak` and `int(text, base)` are the record of
-- functions `Runtime`. A decimal text of a row is the number that it writes, a position key the
-- parts of its text, a `ProtocolDecodeError` the name of the value, without the index of a topic;
-- a branch by the topic is a branch on an event that the list of the topics gives. Market/Ensured
-- says what a call returns if it does. The recovery of a tick spacing, the correlation with the
-- position managers' events, the traces of V4 positions and the calls at a pinned block are not
-- modelled.
--
-- Not modelled are the components that only talk to a node, a database or a browser: the rest of
-- src/rhpools/lp_rpc.py, lp_market_index.py, lp_market_store.py, lp_market_service.py, lp_server.py
-- and the static files, nor, so far, the rest of the service around the trade planner (tx_core.py)
-- and the market accounting.
pub mod Prelude
pub mod Dict
pub mod Math
pub mod Allocation
pub mod Gate
pub mod Circuit
pub mod Market
pub mod Rpc
pub mod Tx
