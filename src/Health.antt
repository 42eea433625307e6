-- ===== src/Health.antt =====
-- src/server.cpp: the active health checks (`start_health_checks`) and the passive ejection
-- (`maybe_eject`). What `tcp_probe` finds is a parameter: the latency, or nothing on a failure.
pub mod Rounds
pub mod Ejection
pub mod Verdicts
use tcp_load_balancer.Base.{
  ℕ, zero, suc, ◌+◌, Bool, true, false, Option, none, some, leb, if◌then◌else◌, M, done, throw,
  pure, ◌>>=◌, ◌>>◌,
}
use tcp_load_balancer.Config.{Endpoint}
use tcp_load_balancer.Runtime.{
  RuntimeState, on_scheduler, record_backend_failure, record_connect_latency, set_backend_state,
}
use tcp_load_balancer.Scheduler.{
  BackendState, up, down, draining, state, endpoint, consecutive_failures, mark_healthy,
  backend_count,
}

-- `if (failures >= passive_failure_threshold) set_backend_state(Down)`. The health checks have
-- the same lines written out.
unfoldable pub eject_at : ℕ → ℕ → M RuntimeState (Unit {0})
eject_at index failures r =
    if leb r.config.passive_failure_threshold failures
    then set_backend_state index down r
    else done tt r

unfoldable pub maybe_eject : ℕ → M RuntimeState (Unit {0})
unfolding eject_at
maybe_eject index = do failures ← on_scheduler (consecutive_failures index); eject_at index failures

abbrev pub is_draining : BackendState → Bool
is_draining up = false
is_draining down = false
is_draining draining = true

-- What the health check makes of a probe's result.
unfoldable pub judge : ℕ → Option ℕ → M RuntimeState (Unit {0})
unfolding maybe_eject
judge index (some latency) = do
  record_connect_latency index latency
  on_scheduler (mark_healthy index)
judge index none = do record_backend_failure index; maybe_eject index

-- The body of the loop over the backends.
unfoldable pub check_backend : (ℕ → Endpoint → Option ℕ) → ℕ → M RuntimeState (Unit {0})
unfolding judge
check_backend probe index = do
  st ← on_scheduler (state index)
  if is_draining st
      then pure tt
      else do target ← on_scheduler (endpoint index); judge index (probe index target)

-- The loop over the backends, with `rounds` rounds left.
unfoldable pub checks_from : ℕ → (ℕ → Endpoint → Option ℕ) → ℕ → M RuntimeState (Unit {0})
checks_from zero probe index = pure tt
checks_from (suc rounds) probe index =
    let rest = checks_from rounds probe (index + 1) in do check_backend probe index; rest

-- One turn of the thread's outer loop.
unfoldable pub health_round : (ℕ → Endpoint → Option ℕ) → M RuntimeState (Unit {0})
unfolding backend_count
health_round probe = do count ← on_scheduler backend_count; checks_from count probe 0
