-- ===== src/Config.antt =====
-- include/lb/config.hpp: the endpoints, the policies and the configuration.
pub mod Parser
pub mod Printer
pub mod Loader
pub mod Policies
pub mod Endpoints
pub mod Validity
pub mod Lines
pub mod Entries
pub mod Writable
pub mod RoundTrip
pub mod Faults
use tcp_load_balancer.Base.{ℕ, List}
pub use tcp_load_balancer.Text.{Bytes}

pub record Endpoint : Type 0 where
  pub host : Bytes
  pub port : ℕ

pub data Policy : Type 0 where
  round_robin least_connections power_of_two_choices : Policy

pub record AppConfig : Type 0 where
  pub listen : Endpoint
  pub admin : Endpoint
  pub policy : Policy
  pub backends : List Endpoint
  pub worker_count : ℕ
  pub file_limit : ℕ
  pub connect_timeout_ms : ℕ
  pub idle_timeout_ms : ℕ
  pub health_interval_ms : ℕ
  pub health_timeout_ms : ℕ
  pub passive_failure_threshold : ℕ
