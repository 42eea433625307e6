-- ===== src/Report/Statistics.antt =====
-- About `stats_json` of src/runtime.cpp.
use tcp_load_balancer.Base.{
  ℕ, suc, ◌+◌, ◌-◌, ◌/◌, ◌<◌, ◌≤◌, ◌≡◌, refl, sym, ap, ◌∙◌, true, List, [], ◌∷◌, ◌++◌, some, arith,
  length, get_or, done, append_assoc,
}
use tcp_load_balancer.Config.Parser.{policy_text}
use tcp_load_balancer.Config.{Policy, round_robin, least_connections, power_of_two_choices}
use tcp_load_balancer.Health.Rounds.{IsReady}
use tcp_load_balancer.Json.{arr, put_chars, put_value, put_items, read_value}
use tcp_load_balancer.Json.Reading.{read_value-put_value}
use tcp_load_balancer.Json.Grammar.{all_printable, is_number}
use tcp_load_balancer.Json.Shapes.{size}
use tcp_load_balancer.Report.{
  json_escape, joined, backend_json, backend_stats, backends_stats, process_pieces, backend_pieces,
  stats_json, state_text, ns_per_second,
}
use tcp_load_balancer.Report.Values.{
  ArePrintable, backend_value, backend_values, stats_value, stats_value-IsReadable,
}
use tcp_load_balancer.Runtime.{RuntimeState, BackendRuntime}
use tcp_load_balancer.Scheduler.{
  Scheduler, BackendState, up, down, draining, state, active_connections, total_connections,
  error_count,
}
use tcp_load_balancer.Scheduler.Shape.{IsWellFormed}
use tcp_load_balancer.Text.{Bytes, text, to_string}

-- The pieces in front of `k`.
abbrev onto : List Bytes → Bytes → Bytes
onto [] k = k
onto (piece ∷ pieces) k = piece ++ onto pieces k

joined-append : (ps : List Bytes) (k : Bytes) → joined ps ++ k ≡ onto ps k
joined-append [] k = refl
joined-append (p ∷ ps) k = append_assoc p (joined ps) k ∙ ap (◌++◌ p) (joined-append ps k)

escape-put_chars : (s k : Bytes) → json_escape s ++ (b'"' ∷ k) ≡ put_chars s k
unfolding json_escape put_chars
escape-put_chars [] k = refl
escape-put_chars (c ∷ s) k = ground (arith, escape-put_chars s k)

state-put_chars :
    (st : BackendState) (k : Bytes) → state_text st ++ (b'"' ∷ k) ≡ put_chars (state_text st) k
unfolding put_chars
state-put_chars up k = refl
state-put_chars down k = refl
state-put_chars draining k = refl

policy-put_chars :
    (p : Policy) (k : Bytes) → policy_text p ++ (b'"' ∷ k) ≡ put_chars (policy_text p) k
unfolding put_chars
policy-put_chars round_robin k = refl
policy-put_chars least_connections k = refl
policy-put_chars power_of_two_choices k = refl

backend_json-put_value :
    (i : ℕ) (b : BackendRuntime) (s : Scheduler) (k : Bytes)
    → backend_json i b
          (state_text (get_or s.states i up))
          (get_or s.active i 0)
          (get_or s.total i 0)
          (get_or s.errors i 0)
        ++ k
      ≡ put_value (backend_value i b s) k
unfolding backend_pieces put_value put_chars
backend_json-put_value i b s k =
    let st = state_text (get_or s.states i up) in
    joined-append
      (backend_pieces i b st (get_or s.active i 0) (get_or s.total i 0) (get_or s.errors i 0)) k
    ∙ rw (escape-put_chars, state-put_chars) refl

-- The backend's slots can be read, and what its row then says.
backend_stats_lem :
    (i : ℕ) (b : BackendRuntime) (r : RuntimeState)
    → IsWellFormed r.scheduler
    → i < length r.scheduler.backends
    → let s = r.scheduler in
      backend_stats i b r
      ≡ done
          (backend_json i b
            (state_text (get_or s.states i up))
            (get_or s.active i 0)
            (get_or s.total i 0)
            (get_or s.errors i 0))
          r
unfolding backend_stats state active_connections total_connections error_count
backend_stats_lem i b r v h = ground (arith, v)

-- The rows behind the first one, and the end of the array.
backends_stats-suc :
    (i : ℕ) (bs : List BackendRuntime) (r : RuntimeState)
    → IsWellFormed r.scheduler
    → suc i + length bs ≤ length r.scheduler.backends
    → (rows : Bytes) × (backends_stats (suc i) bs r ≡ done rows r)
      × ((k : Bytes) → rows ++ (b']' ∷ k) ≡ put_items (backend_values (suc i) bs r.scheduler) k)
unfolding backends_stats put_value
backends_stats-suc i [] r v h = ([], refl, λ k. refl)
backends_stats-suc i (b ∷ bs) r v h =
    let s = r.scheduler in
    let row =
      backend_json (suc i) b (state_text (get_or s.states (suc i) up)) (get_or s.active (suc i) 0)
        (get_or s.total (suc i) 0) (get_or s.errors (suc i) 0) in
    let (rows, e, p) = backends_stats-suc (suc i) bs r v (omega (arith, h)) in
    let next : suc i + 1 ≡ suc (suc i) = omega arith in
    let told = backend_stats_lem (suc i) b r v (omega (arith, h)) in
    (
      b',' ∷ (row ++ rows),
      rw next (ground (arith, told, e)),
      λ k. ap (◌∷◌ b',') (
          append_assoc row rows (b']' ∷ k)
          ∙ ap (◌++◌ row) (p k)
          ∙ backend_json-put_value (suc i) b s (put_items (backend_values (suc (suc i)) bs s) k)
          ∙ ap (λ n. put_value (backend_value (suc i) b s) (put_items (backend_values n bs s) k))
              (sym next)),
    )

backends_stats-zero :
    (bs : List BackendRuntime) (r : RuntimeState)
    → IsWellFormed r.scheduler
    → length bs ≤ length r.scheduler.backends
    → (rows : Bytes) × (backends_stats 0 bs r ≡ done rows r)
      × ((k : Bytes)
          → b'[' ∷ (rows ++ (b']' ∷ k)) ≡ put_value (arr (backend_values 0 bs r.scheduler)) k)
unfolding backends_stats put_value
backends_stats-zero [] r v h = ([], refl, λ k. refl)
backends_stats-zero (b ∷ bs) r v h =
    let s = r.scheduler in
    let row =
      backend_json 0 b (state_text (get_or s.states 0 up)) (get_or s.active 0 0)
        (get_or s.total 0 0) (get_or s.errors 0 0) in
    let (rows, e, p) = backends_stats-suc 0 bs r v (omega (arith, h)) in
    let told = backend_stats_lem 0 b r v (omega (arith, h)) in
    (
      row ++ rows,
      ground (arith, told, e),
      λ k. ap (◌∷◌ b'[') (
          append_assoc row rows (b']' ∷ k)
          ∙ ap (◌++◌ row) (p k)
          ∙ backend_json-put_value 0 b s (put_items (backend_values 1 bs s) k)),
    )

process-put_value :
    (quotient : ℕ → ℕ → Bytes) (uptime : ℕ) (r : RuntimeState) (rows : Bytes)
    → b'[' ∷ (rows ++ (b']' ∷ (b'}' ∷ [])))
      ≡ put_value (arr (backend_values 0 r.backends r.scheduler)) (b'}' ∷ [])
    → joined (process_pieces quotient uptime r) ++ (rows ++ text "]}")
      ≡ put_value (stats_value quotient uptime r) []
unfolding process_pieces stats_value put_value put_chars to_string
process-put_value quotient uptime r rows h =
    joined-append (process_pieces quotient uptime r) (rows ++ text "]}")
    ∙ rw (escape-put_chars, policy-put_chars, h) refl

pub stats_json-Returns :
    (quotient : ℕ → ℕ → Bytes) (now : ℕ) (r : RuntimeState)
    → IsReady r
    → (s : Bytes) × (stats_json quotient now r ≡ done s r)
unfolding stats_json
stats_json-Returns quotient now r v =
    let uptime = (now - r.metrics.started_at) / ns_per_second in
    let (rows, e, p) = backends_stats-zero r.backends r v.shape (omega (arith, v.slots)) in
    (joined (process_pieces quotient uptime r) ++ (rows ++ text "]}"), ground (arith, e))

-- Where the runtime has the scheduler's backends, the text of a quotient is a number of JSON, and
-- the names of the hosts of the listener and of the backends are printable ASCII, quotes and
-- backslashes included, `stats_json` returns a text, changes nothing, and a reader of JSON reads
-- from that text, with nothing left behind it, the uptime in whole seconds, the listener, the
-- policy, the counters and one object for each backend with its own counters and what the
-- scheduler holds in its slots.
pub stats_json-read :
    (quotient : ℕ → ℕ → Bytes) (now : ℕ) (r : RuntimeState)
    → IsReady r
    → ((m n : ℕ) → is_number (quotient m n) ≡ true)
    → all_printable r.config.listen.host ≡ true
    → ArePrintable r.backends
    → let told = stats_value quotient ((now - r.metrics.started_at) / ns_per_second) r in
      (s : Bytes) × (stats_json quotient now r ≡ done s r)
      × (read_value (size told) s ≡ some (told, []))
unfolding stats_json
stats_json-read quotient now r v q h hs =
    let uptime = (now - r.metrics.started_at) / ns_per_second in
    let (rows, e, p) = backends_stats-zero r.backends r v.shape (omega (arith, v.slots)) in
    let told = process-put_value quotient uptime r rows (p (b'}' ∷ [])) in
    (
      joined (process_pieces quotient uptime r) ++ (rows ++ text "]}"),
      ground (arith, e),
      ap (read_value (size (stats_value quotient uptime r))) told
          ∙ read_value-put_value (stats_value quotient uptime r)
              (stats_value-IsReadable quotient uptime r q h hs),
    )
