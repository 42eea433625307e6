-- ===== src/Examples/Process.antt =====
-- The theorems on the process-wide counters and on the health checks at concrete inputs.
use tcp_load_balancer.Base.{
  ℕ, ◌<◌, ◌≡◌, ◌≢◌, refl, List, [], ◌∷◌, Option, none, some, arith, done, after, if◌then◌else◌,
  ◌==◌,
}
use tcp_load_balancer.Config.{Endpoint, AppConfig, round_robin}
use tcp_load_balancer.Health.Ejection.{Same, vitals, reaction}
use tcp_load_balancer.Health.Rounds.{IsReady}
use tcp_load_balancer.Health.Verdicts.{
  health_round_lem, after_rounds, rounds-eject, round-recover, report_failure, drain-lost,
}
use tcp_load_balancer.Health.{health_round}
use tcp_load_balancer.Runtime.Ledger.{
  IsBalanced, Report, opened, closed, failed, from_client, from_backend, latency, state_set,
  record_all, record_all-IsBalanced, new_runtime-IsBalanced, AllFit, record_report,
}
use tcp_load_balancer.Runtime.{
  RuntimeState, BackendRuntime, new_runtime, record_connection_open, record_connection_close,
  record_bytes_from_client, record_bytes_from_backend, record_backend_failure,
  record_connect_latency, set_backend_state,
}
use tcp_load_balancer.Scheduler.{
  BackendState, up, down, draining, new_scheduler, mark_open, mark_closed, mark_failure, set_state,
}

abbrev pub local : ℕ → Endpoint
local port = record { host = b'h' ∷ []; port = port }

abbrev pub settings : AppConfig
settings = record {
  listen = local 9000;
  admin = local 9100;
  policy = round_robin;
  backends = local 9101 ∷ local 9102 ∷ [];
  worker_count = 2;
  file_limit = 25000;
  connect_timeout_ms = 3000;
  idle_timeout_ms = 60000;
  health_interval_ms = 2000;
  health_timeout_ms = 500;
  passive_failure_threshold = 3;
}

abbrev slot_of : ℕ → ℕ → ℕ → BackendRuntime
slot_of port received sent = record {
  endpoint = local port;
  bytes_from_client = received;
  bytes_from_backend = sent;
  connect_latency_us = 90;
}

-- Two backends in use; the second one has failed twice in a row, and its state is the argument.
abbrev pub busy : BackendState → RuntimeState
busy st = record {
  config = settings;
  scheduler = record {
    backends = settings.backends;
    policy = round_robin;
    next = 4;
    active = 1 ∷ 2 ∷ [];
    total = 3 ∷ 4 ∷ [];
    errors = 0 ∷ 2 ∷ [];
    consecutive_failures = 0 ∷ 2 ∷ [];
    states = up ∷ st ∷ [];
  };
  metrics = record {
    started_at = 100;
    active_connections = 3;
    total_connections = 7;
    peak_connections = 5;
    bytes_from_clients = 30;
    bytes_from_backends = 50;
    connection_errors = 2;
    connect_timeouts = 1;
    idle_timeouts = 0;
  };
  backends = slot_of 9101 10 20 ∷ slot_of 9102 20 30 ∷ [];
}

busy-IsBalanced : (st : BackendState) → IsBalanced (busy st)
busy-IsBalanced st = omega arith

pub busy-IsReady : (st : BackendState) → IsReady (busy st)
busy-IsReady st = omega arith

-- The second backend does not answer; both answer.
abbrev second_dead : ℕ → Endpoint → Option ℕ
second_dead i e = if i == 1 then none else some 80

abbrev all_dead : ℕ → Endpoint → Option ℕ
all_dead i e = none

abbrev all_alive : ℕ → Endpoint → Option ℕ
all_alive i e = some 80

abbrev morning : List Report
morning =
    opened 0
    ∷ from_client 0 12
    ∷ from_backend 0 7
    ∷ closed 0
    ∷ failed 1
    ∷ latency 1 70
    ∷ state_set 1 down
    ∷ []

morning-AllFit : AllFit (busy up) morning
unfolding record_report record_connection_open record_connection_close record_bytes_from_client
    record_bytes_from_backend record_backend_failure record_connect_latency set_backend_state
    mark_open mark_closed mark_failure set_state
morning-AllFit = omega arith

record_all-IsBalanced_example : IsBalanced (record_all morning (busy up))
record_all-IsBalanced_example =
    record_all-IsBalanced morning (busy up) (busy-IsBalanced up) morning-AllFit

new_runtime-IsBalanced_example :
    IsBalanced (new_runtime 100 settings (new_scheduler settings.backends settings.policy))
new_runtime-IsBalanced_example = new_runtime-IsBalanced 100 settings

health_round_lem_example :
    (health_round all_alive (busy down) ≡ done tt (after (health_round all_alive (busy down))))
    × Same (busy down) (after (health_round all_alive (busy down)))
    × ((i : ℕ)
        → i < 2
        → vitals i (after (health_round all_alive (busy down))) ≡ reaction all_alive i (busy down))
health_round_lem_example = health_round_lem all_alive (busy down) (busy-IsReady down)

rounds-eject_example :
    ((vitals 1 (after_rounds (second_dead ∷ all_dead ∷ []) (busy up))).failures ≡ 4)
    × ((vitals 1 (after_rounds (second_dead ∷ all_dead ∷ []) (busy up))).state ≡ down)
rounds-eject_example =
    rounds-eject (second_dead ∷ all_dead ∷ []) 1 (busy up) (busy-IsReady up) (omega arith)
      (refl, (refl, tt)) (λ e. cc) (omega arith)

round-recover_example :
    ((down ≢ draining)
      → ◌≡◌ {A = Option ℕ} (some 80) (some 80)
      → ((vitals 1 (after (health_round all_alive (busy down)))).state ≡ up)
        × ((vitals 1 (after (health_round all_alive (busy down)))).failures ≡ 0))
    × (down ≡ draining
        → vitals 1 (after (health_round all_alive (busy down))) ≡ vitals 1 (busy down))
round-recover_example = round-recover all_alive 1 80 (busy down) (busy-IsReady down) (omega arith)

drain-lost_example :
    ((vitals 1 (after (report_failure 1 (busy draining)))).state ≡ down)
    × ((vitals 1 (after (health_round all_alive (after (report_failure 1 (busy draining)))))).state
        ≡ up)
drain-lost_example =
    drain-lost all_alive 1 80 (busy draining) (busy-IsReady draining) (omega arith) refl
      (omega arith) (omega arith) refl
