-- ===== src/Report/Values.antt =====
-- The statistics as a JSON value, for `stats_json` of src/runtime.cpp.
use tcp_load_balancer.Base.{
  ℕ, ◌+◌, ◌≡◌, refl, Bool, true, false, List, [], ◌∷◌, ltb, if◌then◌else◌, get_or,
}
use tcp_load_balancer.Config.{
  Endpoint, Policy, round_robin, least_connections, power_of_two_choices,
}
use tcp_load_balancer.Config.Parser.{policy_text}
use tcp_load_balancer.Config.Printer.{endpoint_label}
use tcp_load_balancer.Json.{Json, num, str, arr, obj, Items, nil, cons, end, field}
use tcp_load_balancer.Json.Grammar.{
  all_printable, is_number, all_printable-append, to_string-all_printable, to_string-is_number,
}
use tcp_load_balancer.Json.Shapes.{IsReadable, AreReadable}
use tcp_load_balancer.Report.{state_text}
use tcp_load_balancer.Runtime.{RuntimeState, BackendRuntime}
use tcp_load_balancer.Scheduler.{Scheduler, BackendState, up, down, draining}
use tcp_load_balancer.Text.{Bytes, text, to_string}

abbrev pub amount : ℕ → Json
amount n = num (to_string n)

-- What a backend's object says.
abbrev pub backend_value : ℕ → BackendRuntime → Scheduler → Json
backend_value i b s = obj (
    field (text "id") (amount i) (
      field (text "address") (str (endpoint_label b.endpoint)) (
        field (text "state") (str (state_text (get_or s.states i up))) (
          field (text "active_connections") (amount (get_or s.active i 0)) (
            field (text "total_connections") (amount (get_or s.total i 0)) (
              field (text "bytes_in") (amount b.bytes_from_client) (
                field (text "bytes_out") (amount b.bytes_from_backend) (
                  field (text "errors") (amount (get_or s.errors i 0))
                    (field (text "connect_latency_us") (amount b.connect_latency_us) end)))))))))

abbrev pub backend_values : ℕ → List BackendRuntime → Scheduler → Items
backend_values i [] s = nil
backend_values i (b ∷ bs) s = cons (backend_value i b s) (backend_values (i + 1) bs s)

-- What the statistics say of the process and of its backends.
unfoldable pub stats_value : (ℕ → ℕ → Bytes) → ℕ → RuntimeState → Json
stats_value quotient uptime r = obj (
    field (text "uptime_seconds") (amount uptime) (
      field (text "listener") (str (endpoint_label r.config.listen)) (
        field (text "policy") (str (policy_text r.config.policy)) (
          field (text "worker_count") (amount r.config.worker_count) (
            field (text "active_connections") (amount r.metrics.active_connections) (
              field (text "peak_connections") (amount r.metrics.peak_connections) (
                field (text "total_connections") (amount r.metrics.total_connections) (
                  field (text "connections_per_sec")
                    (num (
                      if ltb 0 uptime
                      then quotient r.metrics.total_connections uptime
                      else text "0"))
                    (field (text "bytes_in") (amount r.metrics.bytes_from_clients) (
                      field (text "bytes_out") (amount r.metrics.bytes_from_backends) (
                        field (text "errors") (amount r.metrics.connection_errors) (
                          field (text "connect_timeouts") (amount r.metrics.connect_timeouts) (
                            field (text "idle_timeouts") (amount r.metrics.idle_timeouts) (
                              field (text "latency")
                                (obj (
                                  field (text "p50") (amount 0) (
                                    field (text "p99") (amount 0)
                                      (field (text "p999") (amount 0) end))))
                                (field (text "backends")
                                  (arr (backend_values 0 r.backends r.scheduler)) end)))))))))))))))

-- The names of the hosts are printable ASCII.
abbrev pub ArePrintable : List BackendRuntime → Type 0
ArePrintable [] = Unit {0}
ArePrintable (b ∷ bs) = (all_printable b.endpoint.host ≡ true) × ArePrintable bs

endpoint_label-all_printable :
    (e : Endpoint) → all_printable e.host ≡ true → all_printable (endpoint_label e) ≡ true
unfolding endpoint_label
endpoint_label-all_printable e h =
    all_printable-append e.host (b':' ∷ to_string e.port) h (to_string-all_printable e.port)

state_text-all_printable : (s : BackendState) → all_printable (state_text s) ≡ true
state_text-all_printable up = refl
state_text-all_printable down = refl
state_text-all_printable draining = refl

policy_text-all_printable : (p : Policy) → all_printable (policy_text p) ≡ true
policy_text-all_printable round_robin = refl
policy_text-all_printable least_connections = refl
policy_text-all_printable power_of_two_choices = refl

backend_value-IsReadable :
    (i : ℕ) (b : BackendRuntime) (s : Scheduler)
    → all_printable b.endpoint.host ≡ true
    → IsReadable (backend_value i b s)
backend_value-IsReadable i b s h =
    let number = to_string-is_number in
    let label = endpoint_label-all_printable b.endpoint h in
    let st = state_text-all_printable (get_or s.states i up) in
    (
      refl,
      number i,
      (
        refl,
        label,
        (
          refl,
          st,
          (
            refl,
            number (get_or s.active i 0),
            (
              refl,
              number (get_or s.total i 0),
              (
                refl,
                number b.bytes_from_client,
                (
                  refl,
                  number b.bytes_from_backend,
                  (refl, number (get_or s.errors i 0), (refl, number b.connect_latency_us, tt)),
                ),
              ),
            ),
          ),
        ),
      ),
    )

backend_values-AreReadable :
    (i : ℕ) (bs : List BackendRuntime) (s : Scheduler)
    → ArePrintable bs
    → AreReadable (backend_values i bs s)
backend_values-AreReadable i [] s h = tt
backend_values-AreReadable i (b ∷ bs) s (h, hs) =
    (backend_value-IsReadable i b s h, backend_values-AreReadable (i + 1) bs s hs)

rate-is_number :
    (b : Bool) (rate : Bytes)
    → is_number rate ≡ true
    → is_number (if b then rate else text "0") ≡ true
unfolding is_number
rate-is_number true rate h = h
rate-is_number false rate h = refl

pub stats_value-IsReadable :
    (quotient : ℕ → ℕ → Bytes) (uptime : ℕ) (r : RuntimeState)
    → ((m n : ℕ) → is_number (quotient m n) ≡ true)
    → all_printable r.config.listen.host ≡ true
    → ArePrintable r.backends
    → IsReadable (stats_value quotient uptime r)
unfolding stats_value
stats_value-IsReadable quotient uptime r q h hs =
    let m = r.metrics in
    let number = to_string-is_number in
    let rate = rate-is_number (ltb 0 uptime) (quotient m.total_connections uptime) (q _ _) in
    let listener = endpoint_label-all_printable r.config.listen h in
    let policy = policy_text-all_printable r.config.policy in
    let rows = backend_values-AreReadable 0 r.backends r.scheduler hs in
    (
      refl,
      number uptime,
      (
        refl,
        listener,
        (
          refl,
          policy,
          (
            refl,
            number r.config.worker_count,
            (
              refl,
              number m.active_connections,
              (
                refl,
                number m.peak_connections,
                (
                  refl,
                  number m.total_connections,
                  (
                    refl,
                    rate,
                    (
                      refl,
                      number m.bytes_from_clients,
                      (
                        refl,
                        number m.bytes_from_backends,
                        (
                          refl,
                          number m.connection_errors,
                          (
                            refl,
                            number m.connect_timeouts,
                            (
                              refl,
                              number m.idle_timeouts,
                              (
                                refl,
                                (refl, number 0, (refl, number 0, (refl, number 0, tt))),
                                (refl, rows, tt),
                              ),
                            ),
                          ),
                        ),
                      ),
                    ),
                  ),
                ),
              ),
            ),
          ),
        ),
      ),
    )
