-- ===== src/Runtime.antt =====
-- src/runtime.cpp and include/lb/runtime.hpp: the counters of the process over the scheduler.
-- The runtime owns its scheduler: the constructor of the balancer passes the only reference on.
pub mod Ledger
use tcp_load_balancer.Base.{
  ℕ, zero, suc, ◌+◌, ◌-◌, ◌%◌, Bool, List, [], ◌∷◌, map, ltb, leb, if◌then◌else◌, length, get_or,
  set, done, throw, out_of_range, M, pure, ◌>>=◌, ◌>>◌,
}
use tcp_load_balancer.Config.{Endpoint, AppConfig}
use tcp_load_balancer.Scheduler.{
  Scheduler, BackendState, mark_open, mark_closed, mark_failure, set_state, decrement, u64_mod,
  no_endpoint,
}

pub record RuntimeMetrics : Type 0 where
  pub started_at : ℕ
  pub active_connections : ℕ
  pub total_connections : ℕ
  pub peak_connections : ℕ
  pub bytes_from_clients : ℕ
  pub bytes_from_backends : ℕ
  pub connection_errors : ℕ
  pub connect_timeouts : ℕ
  pub idle_timeouts : ℕ

pub record BackendRuntime : Type 0 where
  pub endpoint : Endpoint
  pub bytes_from_client : ℕ
  pub bytes_from_backend : ℕ
  pub connect_latency_us : ℕ

pub record RuntimeState : Type 0 where
  pub config : AppConfig
  pub scheduler : Scheduler
  pub metrics : RuntimeMetrics
  pub backends : List BackendRuntime

-- `now` is what the steady clock reads when the metrics are made.
unfoldable pub new_metrics : ℕ → RuntimeMetrics
new_metrics now = record {
  started_at = now;
  active_connections = 0;
  total_connections = 0;
  peak_connections = 0;
  bytes_from_clients = 0;
  bytes_from_backends = 0;
  connection_errors = 0;
  connect_timeouts = 0;
  idle_timeouts = 0;
}

abbrev pub new_backend : Endpoint → BackendRuntime
new_backend e = record {
  endpoint = e;
  bytes_from_client = 0;
  bytes_from_backend = 0;
  connect_latency_us = 0;
}

unfoldable pub new_runtime : ℕ → AppConfig → Scheduler → RuntimeState
unfolding new_metrics
new_runtime now config scheduler = record {
  config = config;
  scheduler = scheduler;
  metrics = new_metrics now;
  backends = map new_backend config.backends;
}

-- A call through `scheduler_`. What it changes stays changed if it throws.
abbrev pub on_scheduler : {A : Type 0} → M Scheduler A → M RuntimeState A
on_scheduler m r = elim (m r.scheduler) [
  | done a s ↦ done a (record r { scheduler = s })
  | throw e s ↦ throw e (record r { scheduler = s })
]

-- What an access out of bounds gives in the model. No access in bounds reads it.
abbrev pub no_backend : BackendRuntime
no_backend = new_backend no_endpoint

-- `backend(index)`, and a write to the slot that it returns.
unfoldable pub at_backend : ℕ → (BackendRuntime → BackendRuntime) → M RuntimeState (Unit {0})
at_backend index write r =
    if leb (length r.backends) index
    then throw out_of_range r
    else done tt
        (record r { backends = set r.backends index (write (get_or r.backends index no_backend)) })

-- The writes of `record_bytes_from_client`, `record_bytes_from_backend` and
-- `record_connect_latency` to the slot of a backend.
abbrev pub add_from_client : ℕ → BackendRuntime → BackendRuntime
add_from_client count b = record b { bytes_from_client = (b.bytes_from_client + count) % u64_mod }

abbrev pub add_from_backend : ℕ → BackendRuntime → BackendRuntime
add_from_backend count b = record b {
  bytes_from_backend = (b.bytes_from_backend + count) % u64_mod;
}

abbrev pub store_latency : ℕ → BackendRuntime → BackendRuntime
store_latency latency b = record b { connect_latency_us = latency }

-- `while (value > current && !compare_exchange_weak(current, value))`, as the exchange that ends
-- the loop finds the cell.
abbrev pub update_peak : ℕ → ℕ → ℕ
update_peak peak value = if ltb peak value then value else peak

abbrev pub on_metrics : (RuntimeMetrics → RuntimeMetrics) → M RuntimeState (Unit {0})
on_metrics f r = done tt (record r { metrics = f r.metrics })

-- The lines of `record_connection_open` behind `mark_open`.
unfoldable pub count_open : RuntimeMetrics → RuntimeMetrics
count_open m =
    let active = (m.active_connections + 1) % u64_mod in
    record m {
      active_connections = active;
      total_connections = (m.total_connections + 1) % u64_mod;
      peak_connections = update_peak m.peak_connections active;
    }

unfoldable pub record_connection_open : ℕ → M RuntimeState (Unit {0})
unfolding count_open
record_connection_open index = do on_scheduler (mark_open index); on_metrics count_open

unfoldable pub record_connection_close : ℕ → M RuntimeState (Unit {0})
record_connection_close index = do
  on_scheduler (mark_closed index)
  on_metrics λ m. record m { active_connections = decrement m.active_connections }

unfoldable pub record_bytes_from_client : ℕ → ℕ → M RuntimeState (Unit {0})
unfolding at_backend
record_bytes_from_client index count = do
  on_metrics λ m. record m { bytes_from_clients = (m.bytes_from_clients + count) % u64_mod }
  at_backend index (add_from_client count)

unfoldable pub record_bytes_from_backend : ℕ → ℕ → M RuntimeState (Unit {0})
unfolding at_backend
record_bytes_from_backend index count = do
  on_metrics λ m. record m { bytes_from_backends = (m.bytes_from_backends + count) % u64_mod }
  at_backend index (add_from_backend count)

unfoldable pub record_backend_failure : ℕ → M RuntimeState (Unit {0})
record_backend_failure index = do
  on_metrics λ m. record m { connection_errors = (m.connection_errors + 1) % u64_mod }
  on_scheduler (mark_failure index)

unfoldable pub record_connect_latency : ℕ → ℕ → M RuntimeState (Unit {0})
unfolding at_backend
record_connect_latency index latency = at_backend index (store_latency latency)

unfoldable pub set_backend_state : ℕ → BackendState → M RuntimeState (Unit {0})
set_backend_state index st = on_scheduler (set_state index st)
