-- ===== src/Gate.antt =====
-- src/rhpools/lp_gate.py: the holder gate. Each child models one of its parts.
pub mod Policy
pub mod Entitle
pub mod Entitlement
pub mod Window
pub mod Limits
pub mod Oracle
pub mod SignIn
pub mod Streams
pub mod Keys
pub mod Owner
