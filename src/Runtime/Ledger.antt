-- ===== src/Runtime/Ledger.antt =====
-- About the process-wide counters and those of the backends, over a history of reports.
use tcp_load_balancer.Base.{
  ℕ, ◌+◌, ◌<◌, ◌≤◌, ◌≡◌, refl, arith, length, get_or, set, length-set, sum, sum_of, sum-set,
  sum_of-set, get_or-le-sum, get_or-le-sum_of, after, M, List, [], ◌∷◌, map, length-map,
  sum-replicate,
}
use tcp_load_balancer.Config.{Endpoint, AppConfig}
use tcp_load_balancer.Runtime.{
  new_runtime, new_backend, RuntimeState, BackendRuntime, record_connection_open,
  record_connection_close, record_bytes_from_client, record_bytes_from_backend,
  record_backend_failure, record_connect_latency, set_backend_state, no_backend, add_from_client,
  add_from_backend, store_latency,
}
use tcp_load_balancer.Scheduler.{
  BackendState, u64_mod, new_scheduler, mark_open, mark_closed, mark_failure, set_state,
}
use tcp_load_balancer.Scheduler.Shape.{IsWellFormed, new_scheduler-IsWellFormed}

pub record IsBalanced (r : RuntimeState) : Type 0 where
  pub shape : IsWellFormed r.scheduler
  pub slots : length r.backends ≡ length r.scheduler.backends
  pub active_sum : sum r.scheduler.active ≡ r.metrics.active_connections
  pub total_sum : sum r.scheduler.total ≡ r.metrics.total_connections
  pub error_sum : sum r.scheduler.errors ≡ r.metrics.connection_errors
  pub in_sum : sum_of (λ b. b.bytes_from_client) r.backends ≡ r.metrics.bytes_from_clients
  pub out_sum : sum_of (λ b. b.bytes_from_backend) r.backends ≡ r.metrics.bytes_from_backends
  pub active-le-peak : r.metrics.active_connections ≤ r.metrics.peak_connections
  pub peak-le-total : r.metrics.peak_connections ≤ r.metrics.total_connections

module _ (r : RuntimeState) (i : ℕ) (v : IsBalanced r) (h : i < length r.backends) where
  pub open-IsBalanced :
      r.metrics.total_connections + 1 < u64_mod → IsBalanced (after (record_connection_open i r))
  unfolding record_connection_open mark_open
  open-IsBalanced b = grind (arith, length-set, sum-set, get_or-le-sum)

  close-IsBalanced :
      0 < get_or r.scheduler.active i 0 → IsBalanced (after (record_connection_close i r))
  unfolding record_connection_close mark_closed
  close-IsBalanced b = grind (arith, length-set, sum-set, get_or-le-sum)

  -- What a write to the slot of the backend does to the sums.
  abbrev Written : BackendRuntime → Type 0
  Written w =
      (sum_of (λ b. b.bytes_from_client) (set r.backends i w)
          + (get_or r.backends i no_backend).bytes_from_client
        ≡ sum_of (λ b. b.bytes_from_client) r.backends + w.bytes_from_client)
      × (sum_of (λ b. b.bytes_from_backend) (set r.backends i w)
            + (get_or r.backends i no_backend).bytes_from_backend
          ≡ sum_of (λ b. b.bytes_from_backend) r.backends + w.bytes_from_backend)
      × (length (set r.backends i w) ≡ length r.backends)
      × ((get_or r.backends i no_backend).bytes_from_client ≤ r.metrics.bytes_from_clients)
      × ((get_or r.backends i no_backend).bytes_from_backend ≤ r.metrics.bytes_from_backends)

  written : (w : BackendRuntime) → Written w
  written w = (
    sum_of-set (λ b. b.bytes_from_client) no_backend r.backends i w h,
    sum_of-set (λ b. b.bytes_from_backend) no_backend r.backends i w h,
    length-set r.backends i w,
    omega (arith, v.in_sum, get_or-le-sum_of (λ b. b.bytes_from_client) no_backend r.backends i h),
    omega
        (arith, v.out_sum, get_or-le-sum_of (λ b. b.bytes_from_backend) no_backend r.backends i h),
  )

  from_client-IsBalanced :
      (n : ℕ)
      → r.metrics.bytes_from_clients + n < u64_mod
      → IsBalanced (after (record_bytes_from_client i n r))
  unfolding record_bytes_from_client
  from_client-IsBalanced n b =
      ground (arith, written (add_from_client n (get_or r.backends i no_backend)))

  from_backend-IsBalanced :
      (n : ℕ)
      → r.metrics.bytes_from_backends + n < u64_mod
      → IsBalanced (after (record_bytes_from_backend i n r))
  unfolding record_bytes_from_backend
  from_backend-IsBalanced n b =
      ground (arith, written (add_from_backend n (get_or r.backends i no_backend)))

  failure-IsBalanced :
      r.metrics.connection_errors + 1 < u64_mod → IsBalanced (after (record_backend_failure i r))
  unfolding record_backend_failure mark_failure
  failure-IsBalanced b = grind (arith, length-set, sum-set, get_or-le-sum)

  latency-IsBalanced : (us : ℕ) → IsBalanced (after (record_connect_latency i us r))
  unfolding record_connect_latency
  latency-IsBalanced us =
      ground (arith, written (store_latency us (get_or r.backends i no_backend)))

  state-IsBalanced : (st : BackendState) → IsBalanced (after (set_backend_state i st r))
  unfolding set_backend_state set_state
  state-IsBalanced st = grind (arith, length-set)

-- The reports of the workers and of the health checks.
pub data Report : Type 0 where
  opened closed failed : ℕ → Report
  from_client from_backend latency : ℕ → ℕ → Report
  state_set : ℕ → BackendState → Report

unfoldable pub record_report : Report → M RuntimeState (Unit {0})
record_report (opened i) = record_connection_open i
record_report (closed i) = record_connection_close i
record_report (failed i) = record_backend_failure i
record_report (from_client i n) = record_bytes_from_client i n
record_report (from_backend i n) = record_bytes_from_backend i n
record_report (latency i us) = record_connect_latency i us
record_report (state_set i st) = set_backend_state i st

-- The report names a backend that exists, closes a connection that is open, and no counter of the
-- process wraps around.
abbrev pub Fits : RuntimeState → Report → Type 0
Fits r (opened i) = (i < length r.backends) × (r.metrics.total_connections + 1 < u64_mod)
Fits r (closed i) = (i < length r.backends) × (0 < get_or r.scheduler.active i 0)
Fits r (failed i) = (i < length r.backends) × (r.metrics.connection_errors + 1 < u64_mod)
Fits r (from_client i n) = (i < length r.backends) × (r.metrics.bytes_from_clients + n < u64_mod)
Fits r (from_backend i n) = (i < length r.backends) × (r.metrics.bytes_from_backends + n < u64_mod)
Fits r (latency i us) = i < length r.backends
Fits r (state_set i st) = i < length r.backends

abbrev pub record_all : List Report → RuntimeState → RuntimeState
record_all [] r = r
record_all (x ∷ xs) r = record_all xs (after (record_report x r))

abbrev pub AllFit : RuntimeState → List Report → Type 0
AllFit r [] = Unit {0}
AllFit r (x ∷ xs) = Fits r x × AllFit (after (record_report x r)) xs

report-IsBalanced :
    (x : Report) (r : RuntimeState)
    → IsBalanced r
    → Fits r x
    → IsBalanced (after (record_report x r))
unfolding record_report
report-IsBalanced (opened i) r v f = open-IsBalanced r i v f.0 f.1
report-IsBalanced (closed i) r v f = close-IsBalanced r i v f.0 f.1
report-IsBalanced (failed i) r v f = failure-IsBalanced r i v f.0 f.1
report-IsBalanced (from_client i n) r v f = from_client-IsBalanced r i v f.0 n f.1
report-IsBalanced (from_backend i n) r v f = from_backend-IsBalanced r i v f.0 n f.1
report-IsBalanced (latency i us) r v f = latency-IsBalanced r i v f us
report-IsBalanced (state_set i st) r v f = state-IsBalanced r i v f st

-- From a runtime whose process-wide counters of active and total connections, of errors and of
-- bytes in either direction are the sums over the backends, with active ≤ peak ≤ total: the same
-- holds after any history of reports, each of which names a backend that exists, closes only a
-- connection that is open at that backend, and makes no counter of the process wrap around.
pub record_all-IsBalanced :
    (xs : List Report) (r : RuntimeState)
    → IsBalanced r
    → AllFit r xs
    → IsBalanced (record_all xs r)
record_all-IsBalanced [] r v f = v
record_all-IsBalanced (x ∷ xs) r v f =
    record_all-IsBalanced xs (after (record_report x r)) (report-IsBalanced x r v f.0) f.1

-- The balance holds at the start.
pub new_runtime-IsBalanced :
    (now : ℕ) (config : AppConfig)
    → IsBalanced (new_runtime now config (new_scheduler config.backends config.policy))
unfolding new_runtime new_scheduler
new_runtime-IsBalanced now config = record {
  shape = new_scheduler-IsWellFormed config.backends config.policy;
  slots = length-map new_backend config.backends;
  active_sum = sum-replicate (length config.backends);
  total_sum = sum-replicate (length config.backends);
  error_sum = sum-replicate (length config.backends);
  in_sum = sum_of_new (λ b. b.bytes_from_client) (λ e. refl) config.backends;
  out_sum = sum_of_new (λ b. b.bytes_from_backend) (λ e. refl) config.backends;
  active-le-peak = omega arith;
  peak-le-total = omega arith;
}
  where
    sum_of_new :
        (f : BackendRuntime → ℕ)
        → ((e : Endpoint) → f (new_backend e) ≡ 0)
        → (es : List Endpoint) → sum_of f (map new_backend es) ≡ 0
    sum_of_new f z [] = refl
    sum_of_new f z (e ∷ es) = omega (arith, z e, sum_of_new f z es)
