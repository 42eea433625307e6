-- ===== src/Report.antt =====
-- src/runtime.cpp: the texts of the statistics, `stats_json` and `prometheus_metrics`, which the
-- admin server sends. How a stream writes a quotient of two counters as a `double` is an argument.
pub mod Statistics
pub mod Values
use tcp_load_balancer.Base.{
  ℕ, zero, suc, ◌+◌, ◌-◌, ◌/◌, Bool, true, false, List, [], ◌∷◌, ◌++◌, ltb, ◌==◌, if◌then◌else◌,
  ◌||◌, M, done, throw, pure, ◌>>=◌, ◌>>◌,
}
use tcp_load_balancer.Config.Parser.{policy_text}
use tcp_load_balancer.Config.Printer.{endpoint_label}
use tcp_load_balancer.Runtime.{RuntimeState, BackendRuntime, on_scheduler}
use tcp_load_balancer.Scheduler.{
  BackendState, up, down, draining, is_up, state, active_connections, total_connections,
  error_count,
}
use tcp_load_balancer.Text.{Bytes, text, to_string, backslash}

unfoldable pub json_escape : Bytes → Bytes
json_escape [] = []
json_escape (c ∷ value) =
    let rest = json_escape value in
    if c == b'"' || c == backslash then backslash ∷ c ∷ rest else c ∷ rest

-- `to_string(BackendState)`.
abbrev pub state_text : BackendState → Bytes
state_text up = text "UP"
state_text down = text "DOWN"
state_text draining = text "DRAINING"

abbrev pub ns_per_second : ℕ
ns_per_second = 1_000_000_000

-- The pieces that go to the stream one after the other.
abbrev pub joined : List Bytes → Bytes
joined [] = []
joined (piece ∷ pieces) = piece ++ joined pieces

-- The object of a backend: what it is told, and what the scheduler answers about it.
unfoldable pub backend_pieces : ℕ → BackendRuntime → Bytes → ℕ → ℕ → ℕ → List Bytes
unfolding json_escape endpoint_label
backend_pieces index b st active total errors =
    text "{\"id\":"
    ∷ to_string index
    ∷ text ",\"address\":\""
    ∷ json_escape (endpoint_label b.endpoint)
    ∷ text "\",\"state\":\""
    ∷ st
    ∷ text "\",\"active_connections\":"
    ∷ to_string active
    ∷ text ",\"total_connections\":"
    ∷ to_string total
    ∷ text ",\"bytes_in\":"
    ∷ to_string b.bytes_from_client
    ∷ text ",\"bytes_out\":"
    ∷ to_string b.bytes_from_backend
    ∷ text ",\"errors\":"
    ∷ to_string errors
    ∷ text ",\"connect_latency_us\":"
    ∷ to_string b.connect_latency_us
    ∷ text "}"
    ∷ []

abbrev pub backend_json : ℕ → BackendRuntime → Bytes → ℕ → ℕ → ℕ → Bytes
backend_json index b st active total errors = joined (backend_pieces index b st active total errors)

unfoldable pub backend_stats : ℕ → BackendRuntime → M RuntimeState Bytes
unfolding backend_pieces
backend_stats index b = do
  st ← on_scheduler (state index)
  active ← on_scheduler (active_connections index)
  total ← on_scheduler (total_connections index)
  errors ← on_scheduler (error_count index)
  pure (backend_json index b (state_text st) active total errors)

-- The loop over `backends_`, from `index` on.
unfoldable pub backends_stats : ℕ → List BackendRuntime → M RuntimeState Bytes
unfolding backend_stats
backends_stats index [] = pure []
backends_stats index (b ∷ bs) =
    let later = backends_stats (index + 1) bs in
    do
      row ← backend_stats index b
      rows ← later
      pure ((if index == 0 then [] else text ",") ++ row ++ rows)

-- What goes to the stream before the backends.
unfoldable pub process_pieces : (ℕ → ℕ → Bytes) → ℕ → RuntimeState → List Bytes
unfolding json_escape endpoint_label
process_pieces quotient uptime r =
    text "{\"uptime_seconds\":"
    ∷ to_string uptime
    ∷ text ",\"listener\":\""
    ∷ json_escape (endpoint_label r.config.listen)
    ∷ text "\",\"policy\":\""
    ∷ policy_text r.config.policy
    ∷ text "\",\"worker_count\":"
    ∷ to_string r.config.worker_count
    ∷ text ",\"active_connections\":"
    ∷ to_string r.metrics.active_connections
    ∷ text ",\"peak_connections\":"
    ∷ to_string r.metrics.peak_connections
    ∷ text ",\"total_connections\":"
    ∷ to_string r.metrics.total_connections
    ∷ text ",\"connections_per_sec\":"
    ∷ (if ltb 0 uptime then quotient r.metrics.total_connections uptime else text "0")
    ∷ text ",\"bytes_in\":"
    ∷ to_string r.metrics.bytes_from_clients
    ∷ text ",\"bytes_out\":"
    ∷ to_string r.metrics.bytes_from_backends
    ∷ text ",\"errors\":"
    ∷ to_string r.metrics.connection_errors
    ∷ text ",\"connect_timeouts\":"
    ∷ to_string r.metrics.connect_timeouts
    ∷ text ",\"idle_timeouts\":"
    ∷ to_string r.metrics.idle_timeouts
    ∷ text ",\"latency\":{\"p50\":0,\"p99\":0,\"p999\":0},\"backends\":["
    ∷ []

-- `now` is what the steady clock reads, in nanoseconds.
unfoldable pub stats_json : (ℕ → ℕ → Bytes) → ℕ → M RuntimeState Bytes
unfolding backends_stats process_pieces
stats_json quotient now r =
    let uptime = (now - r.metrics.started_at) / ns_per_second in
    (do
      rows ← backends_stats 0 r.backends
      pure (joined (process_pieces quotient uptime r) ++ (rows ++ text "]}")))
      r

unfoldable pub backend_exposition : ℕ → BackendRuntime → M RuntimeState Bytes
unfolding endpoint_label
backend_exposition index b = do
  active ← on_scheduler (active_connections index)
  st ← on_scheduler (state index)
  pure (
      joined (
        text "lb_backend_active_connections{backend=\""
        ∷ endpoint_label b.endpoint
        ∷ text "\"} "
        ∷ to_string active
        ∷ text "\nlb_backend_up{backend=\""
        ∷ endpoint_label b.endpoint
        ∷ text "\"} "
        ∷ (if is_up st then text "1" else text "0")
        ∷ text "\n"
        ∷ []))

unfoldable pub backends_exposition : ℕ → List BackendRuntime → M RuntimeState Bytes
unfolding backend_exposition
backends_exposition index [] = pure []
backends_exposition index (b ∷ bs) =
    let later = backends_exposition (index + 1) bs in
    do rows ← backend_exposition index b; more ← later; pure (rows ++ more)

unfoldable pub process_exposition : RuntimeState → Bytes
process_exposition r = joined (
    text "# TYPE lb_active_connections gauge\nlb_active_connections "
    ∷ to_string r.metrics.active_connections
    ∷ text "\n# TYPE lb_total_connections counter\nlb_total_connections "
    ∷ to_string r.metrics.total_connections
    ∷ text "\n# TYPE lb_bytes_from_clients counter\nlb_bytes_from_clients "
    ∷ to_string r.metrics.bytes_from_clients
    ∷ text "\n# TYPE lb_bytes_from_backends counter\nlb_bytes_from_backends "
    ∷ to_string r.metrics.bytes_from_backends
    ∷ text "\n# TYPE lb_connection_errors counter\nlb_connection_errors "
    ∷ to_string r.metrics.connection_errors
    ∷ text "\n"
    ∷ [])

unfoldable pub prometheus_metrics : M RuntimeState Bytes
unfolding backends_exposition process_exposition
prometheus_metrics r =
    (do rows ← backends_exposition 0 r.backends; pure (process_exposition r ++ rows)) r
