-- ===== src/Admin/Reports.antt =====
-- The methods of the runtime that `handle_client` of src/admin.cpp calls end in a way that the
-- program has.
use tcp_load_balancer.Admin.Settling.{IsMeant, AreMeant, >>=-AreMeant}
use tcp_load_balancer.Base.{ℕ, ◌+◌, List, [], ◌∷◌, arith, M, Outcome, Exception, done, throw}
use tcp_load_balancer.Report.{
  stats_json, prometheus_metrics, backend_stats, backends_stats, backend_exposition,
  backends_exposition,
}
use tcp_load_balancer.Runtime.{BackendRuntime, set_backend_state, on_scheduler}
use tcp_load_balancer.Scheduler.{
  Scheduler, BackendState, state, active_connections, total_connections, error_count, set_state,
}
use tcp_load_balancer.Text.{Bytes}

-- Slots in range or not, a read of a slot is meant.
state-AreMeant : (i : ℕ) → AreMeant (state i)
unfolding state
state-AreMeant i s = ground arith

active-AreMeant : (i : ℕ) → AreMeant (active_connections i)
unfolding active_connections
active-AreMeant i s = ground arith

total-AreMeant : (i : ℕ) → AreMeant (total_connections i)
unfolding total_connections
total-AreMeant i s = ground arith

errors-AreMeant : (i : ℕ) → AreMeant (error_count i)
unfolding error_count
errors-AreMeant i s = ground arith

set_state-AreMeant : (i : ℕ) (st : BackendState) → AreMeant (set_state i st)
unfolding set_state
set_state-AreMeant i st s = ground arith

on_scheduler-AreMeant : {A : Type 0} (m : M Scheduler A) → AreMeant m → AreMeant (on_scheduler m)
on_scheduler-AreMeant m h r = of_outcome (m r.scheduler) (h r.scheduler)
  where
    of_outcome :
        {A : Type 0} (o : Outcome Scheduler A)
        → IsMeant o
        → IsMeant (elim o [
          | done a s ↦ done a (record r { scheduler = s })
          | throw e s ↦ throw e (record r { scheduler = s })
        ])
    of_outcome (done a s) k = tt
    of_outcome (throw Exception.out_of_range s) k = tt
    of_outcome (throw Exception.invalid_argument s) k = tt
    of_outcome (throw Exception.runtime_error s) k = tt
    of_outcome (throw Exception.out_of_fuel s) k = k
    of_outcome (throw Exception.blocked s) k = k

backend_stats-AreMeant : (i : ℕ) (b : BackendRuntime) → AreMeant (backend_stats i b)
unfolding backend_stats
backend_stats-AreMeant i b = >>=-AreMeant _ _ (on_scheduler-AreMeant _ (state-AreMeant i)) λ st.
    >>=-AreMeant _ _ (on_scheduler-AreMeant _ (active-AreMeant i)) λ active.
      >>=-AreMeant _ _ (on_scheduler-AreMeant _ (total-AreMeant i))
        λ total. >>=-AreMeant _ _ (on_scheduler-AreMeant _ (errors-AreMeant i)) λ errors r. tt

backends_stats-AreMeant : (i : ℕ) (bs : List BackendRuntime) → AreMeant (backends_stats i bs)
unfolding backends_stats
backends_stats-AreMeant i [] = λ r. tt
backends_stats-AreMeant i (b ∷ bs) =
    >>=-AreMeant _ _ (backend_stats-AreMeant i b)
      λ row. >>=-AreMeant _ _ (backends_stats-AreMeant (i + 1) bs) λ rows r. tt

pub stats_json-AreMeant : (quotient : ℕ → ℕ → Bytes) (now : ℕ) → AreMeant (stats_json quotient now)
unfolding stats_json
stats_json-AreMeant quotient now r =
    >>=-AreMeant _ _ (backends_stats-AreMeant 0 r.backends) (λ rows r. tt) r

backend_exposition-AreMeant : (i : ℕ) (b : BackendRuntime) → AreMeant (backend_exposition i b)
unfolding backend_exposition
backend_exposition-AreMeant i b =
    >>=-AreMeant _ _ (on_scheduler-AreMeant _ (active-AreMeant i))
      λ active. >>=-AreMeant _ _ (on_scheduler-AreMeant _ (state-AreMeant i)) λ st r. tt

backends_exposition-AreMeant :
    (i : ℕ) (bs : List BackendRuntime) → AreMeant (backends_exposition i bs)
unfolding backends_exposition
backends_exposition-AreMeant i [] = λ r. tt
backends_exposition-AreMeant i (b ∷ bs) =
    >>=-AreMeant _ _ (backend_exposition-AreMeant i b)
      λ rows. >>=-AreMeant _ _ (backends_exposition-AreMeant (i + 1) bs) λ more r. tt

pub prometheus_metrics-AreMeant : AreMeant prometheus_metrics
unfolding prometheus_metrics
prometheus_metrics-AreMeant r =
    >>=-AreMeant _ _ (backends_exposition-AreMeant 0 r.backends) (λ rows r. tt) r

pub set_backend_state-AreMeant : (i : ℕ) (st : BackendState) → AreMeant (set_backend_state i st)
unfolding set_backend_state
set_backend_state-AreMeant i st = on_scheduler-AreMeant _ (set_state-AreMeant i st)
