-- ===== src/Settings/Checks.antt =====
-- What a configuration that was loaded satisfies.
use realtime_chat.Common.{
  length, ◌≤◌, ◌≡◌, ◌↔◌, true, false, arith, codes, ◌==◌, bytes_eq, nat_eq, ◌≤ℤ◌,
}
use realtime_chat.Errors.{ok}
use realtime_chat.Settings.{Config, is_empty_text, is_production, is_exporter, validate}

-- What the server relies on: secrets and names that are set, a strong secret in production, lifetimes
-- and heartbeats in order, a known exporter, and a transport for the cluster.
pub record IsSound (cfg : Config) : Type 0 where
  pub has_secret : is_empty_text cfg.jwt_secret ≡ false
  pub overridden :
      is_production cfg ≡ true
      → (cfg.jwt_secret == codes "dev-insecure-secret-change-me-in-production") ≡ false
  pub strong : is_production cfg ≡ true → 32 ≤ length cfg.jwt_secret
  pub lifetimes : cfg.jwt_access_ttl_seconds ≤ℤ cfg.jwt_refresh_ttl_seconds
  pub named :
      (is_empty_text cfg.db_name ≡ false)
      × ((is_empty_text cfg.db_user ≡ false) × (is_empty_text cfg.db_host ≡ false))
  pub heartbeats : cfg.ws_heartbeat_interval_seconds ≤ℤ cfg.ws_heartbeat_timeout_seconds
  pub exporter : is_exporter cfg.tracing_exporter ≡ true
  pub transport : cfg.cluster_enabled ≡ true → cfg.redis_enabled ≡ true

pub validate-IsSound : (cfg : Config) → validate cfg ≡ ok tt → IsSound cfg
unfolding validate
validate-IsSound cfg e = record {
  has_secret = ground arith;
  overridden = λ p. ground arith;
  strong = λ p. ground arith;
  lifetimes = ground arith;
  named = ground arith;
  heartbeats = ground arith;
  exporter = ground arith;
  transport = λ c. ground arith;
}

IsSound-validate : (cfg : Config) → IsSound cfg → validate cfg ≡ ok tt
unfolding validate
IsSound-validate cfg s = ground (arith, s.overridden, s.strong, s.transport, s.named)

-- A configuration passes exactly when it is sound.
pub validate_iff : (cfg : Config) → (validate cfg ≡ ok tt) ↔ IsSound cfg
validate_iff cfg = (validate-IsSound cfg, IsSound-validate cfg)
