-- ===== src/Health/Rounds.antt =====
-- Lemmas on a round of health checks, and the specification of a check of one backend.
use tcp_load_balancer.Base.{
  ℕ, ◌+◌, ◌%◌, ◌<◌, ◌≡◌, ap, List, [], ◌∷◌, Option, none, some, arith, length, length-set, get_or,
  leb, ◌==◌, if◌then◌else◌, done, after,
}
use tcp_load_balancer.Config.{Endpoint}
use tcp_load_balancer.Health.{is_draining, judge, check_backend}
use tcp_load_balancer.Runtime.{
  RuntimeState, record_backend_failure, record_connect_latency, set_backend_state, no_backend,
  store_latency,
}
use tcp_load_balancer.Scheduler.{
  Scheduler, up, down, consecutive_failures, state, endpoint, no_endpoint, u32_mod, u64_mod,
}
use tcp_load_balancer.Scheduler.Calls.{
  Call, fails, heals, sets, perform, perform_in_range, perform-Keeps, run,
}
use tcp_load_balancer.Scheduler.Shape.{IsWellFormed}
use tcp_load_balancer.Scheduler.Tally.{Tally, tally, recover, observe_all, tally-perform}

-- One slot for each backend, in the runtime as in the scheduler.
pub record IsReady (r : RuntimeState) : Type 0 where
  pub shape : IsWellFormed r.scheduler
  pub slots : length r.backends ≡ length r.scheduler.backends

-- The calls that `judge` makes on the scheduler, where the backend has failed `f` times in a row.
abbrev pub calls_of : ℕ → ℕ → Option ℕ → ℕ → List Call
calls_of limit j (some latency) f = heals j ∷ []
calls_of limit j none f = fails j ∷ (if leb limit ((f + 1) % u32_mod) then sets j down ∷ [] else [])

abbrev pub failures_of : RuntimeState → ℕ → ℕ
failures_of r j = get_or r.scheduler.consecutive_failures j 0

-- The runtime `t` has the scheduler `s`, and the slots and the configuration of `r`.
abbrev pub Reaches : RuntimeState → Scheduler → RuntimeState → Type 0
Reaches r s t = (t.scheduler ≡ s) × (t.config ≡ r.config) × (length t.backends ≡ length r.backends)

-- What a failed probe finds in the scheduler that it has changed.
failed_facts :
    (j : ℕ) (s : Scheduler)
    → IsWellFormed s
    → j < length s.backends
    → let u = after (perform (fails j) s) in
      (perform (fails j) s ≡ done tt u)
      × (consecutive_failures j u ≡ done ((get_or s.consecutive_failures j 0 + 1) % u32_mod) u)
      × (perform (sets j down) u ≡ done tt (after (perform (sets j down) u)))
unfolding consecutive_failures
failed_facts j s w h =
    let k = perform-Keeps (fails j) s w in
    let u = after (perform (fails j) s) in
    let h' : j < length u.backends = rw k.backends_kept h in
    let e = ap (λ (t : Tally). t.failures) (tally-perform j s w h (fails j)) in
    (
      perform_in_range (fails j) s w h,
      ground (arith, e, k.shape),
      perform_in_range (sets j down) u k.shape h',
    )

pub judge_lem :
    (j : ℕ) (o : Option ℕ) (r : RuntimeState)
    → IsReady r
    → j < length r.backends
    → (judge j o r ≡ done tt (after (judge j o r)))
      × Reaches r
          (run (calls_of r.config.passive_failure_threshold j o (failures_of r j)) r.scheduler)
          (after (judge j o r))
unfolding judge record_backend_failure record_connect_latency set_backend_state perform run
judge_lem j (some latency) r v h =
    let healed = perform_in_range (heals j) r.scheduler v.shape (rw (← v.slots) h) in
    let kept = length-set r.backends j (store_latency latency (get_or r.backends j no_backend)) in
    ground (arith, healed, kept)
judge_lem j none r v h = ground (arith, failed_facts j r.scheduler v.shape (rw (← v.slots) h))

-- The calls of one check.
abbrev pub check_calls : (ℕ → Endpoint → Option ℕ) → ℕ → RuntimeState → List Call
check_calls probe j r =
    if is_draining (get_or r.scheduler.states j up)
    then []
    else calls_of r.config.passive_failure_threshold j
        (probe j (get_or r.scheduler.backends j no_endpoint)) (failures_of r j)

pub check_backend_lem :
    (probe : ℕ → Endpoint → Option ℕ) (j : ℕ) (r : RuntimeState)
    → IsReady r
    → j < length r.backends
    → (check_backend probe j r ≡ done tt (after (check_backend probe j r)))
      × Reaches r (run (check_calls probe j r) r.scheduler) (after (check_backend probe j r))
unfolding check_backend state endpoint run
check_backend_lem probe j r v h =
    ground (arith, judge_lem j (probe j (get_or r.scheduler.backends j no_endpoint)) r v h)

-- The specification of one check: what it makes of the backend's tally.
abbrev pub health_react : ℕ → Option ℕ → Tally → Tally
health_react limit (some latency) t =
    if is_draining t.state then t else record t { failures = 0; state = recover t.state }
health_react limit none t =
    if is_draining t.state
    then t
    else let failures = (t.failures + 1) % u32_mod in
      record t {
        errors = (t.errors + 1) % u64_mod;
        failures = failures;
        state = if leb limit failures then down else t.state;
      }

pub check-tally :
    (probe : ℕ → Endpoint → Option ℕ) (i j : ℕ) (r : RuntimeState)
    → observe_all i (check_calls probe j r) (tally i r.scheduler) ≡ (
        if j == i
        then health_react r.config.passive_failure_threshold
            (probe i (get_or r.scheduler.backends i no_endpoint))
            (tally i r.scheduler)
        else tally i r.scheduler)
check-tally probe i j r = ground arith
