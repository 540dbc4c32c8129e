-- ===== src/Tx.antt =====
-- src/rhpools/tx_chain.py, tx_routes.py and tx_plan.py: how a trade or a change of a position is
-- routed, planned, signed and compared with the logs of its simulation.
pub mod Errors
pub mod Chain
pub mod Routes
pub mod Plan
pub mod Ledger
pub mod Reconcile
pub mod Sample
pub mod Swap
pub mod Liquidity
pub mod Lp
pub mod Allocate
