-- ===== src/Gate/Limits.antt =====
-- lp_gate.py: `Limits`, the constants of the gate.
use robinhoodpools.Prelude.{ℕ, ◌*◌}

pub record Limits : Type 0 where
  pub session_ttl_s : ℕ
  pub key_ttl_max_s : ℕ
  pub keys_per_wallet : ℕ
  pub streams_per_wallet : ℕ
  pub key_rps : ℕ
  pub key_burst : ℕ
  pub nonce_ttl_s : ℕ
  pub signin_per_ip_per_min : ℕ
  pub nonce_per_ip_per_min : ℕ
  pub policy_per_ip_per_min : ℕ

abbrev pub default_limits : Limits
default_limits = record {
  session_ttl_s = 7 * 86400;
  key_ttl_max_s = 365 * 86400;
  keys_per_wallet = 8;
  streams_per_wallet = 4;
  key_rps = 10;
  key_burst = 40;
  nonce_ttl_s = 600;
  signin_per_ip_per_min = 5;
  nonce_per_ip_per_min = 20;
  policy_per_ip_per_min = 10;
}
