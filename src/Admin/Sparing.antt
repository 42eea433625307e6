-- ===== src/Admin/Sparing.antt =====
-- Methods that leave alone what is seen of their object; the texts of the runtime's statistics in
-- src/runtime.cpp, which `handle_client` of src/admin.cpp sends, are such.
use tcp_load_balancer.Base.Sparing.{Spares, >>=-Spares}
use tcp_load_balancer.Base.{
  ℕ, ◌+◌, ◌≡◌, refl, ap, ◌∙◌, List, [], ◌∷◌, arith, M, Outcome, done, throw, pure, after,
}
use tcp_load_balancer.Report.{
  stats_json, prometheus_metrics, backend_stats, backends_stats, backend_exposition,
  backends_exposition,
}
use tcp_load_balancer.Runtime.{RuntimeState, BackendRuntime, on_scheduler}
use tcp_load_balancer.Scheduler.{
  Scheduler, state, active_connections, total_connections, error_count,
}
use tcp_load_balancer.Text.{Bytes}

-- The method leaves the object as it is.
abbrev pub IsPure : {S A : Type 0} → M S A → Type 0
IsPure m = Spares (λ s. s) m

pure-IsPure : {S A : Type 0} (a : A) → IsPure (pure {S = S} a)
pure-IsPure a = record { spared = λ s. refl }

state-IsPure : (i : ℕ) → IsPure (state i)
unfolding state
state-IsPure i = record { spared = λ s. ground arith }

active-IsPure : (i : ℕ) → IsPure (active_connections i)
unfolding active_connections
active-IsPure i = record { spared = λ s. ground arith }

total-IsPure : (i : ℕ) → IsPure (total_connections i)
unfolding total_connections
total-IsPure i = record { spared = λ s. ground arith }

errors-IsPure : (i : ℕ) → IsPure (error_count i)
unfolding error_count
errors-IsPure i = record { spared = λ s. ground arith }

on_scheduler-after :
    {A : Type 0} (m : M Scheduler A) (r : RuntimeState)
    → after (on_scheduler m r) ≡ record r { scheduler = after (m r.scheduler) }
on_scheduler-after m r = of_outcome (m r.scheduler)
  where
    of_outcome :
        {A : Type 0} (o : Outcome Scheduler A)
        → after (elim o as (λ _. Outcome RuntimeState A) [
          | done a s ↦ done a (record r { scheduler = s })
          | throw e s ↦ throw e (record r { scheduler = s })
        ])
          ≡ record r { scheduler = after o }
    of_outcome (done a s) = refl
    of_outcome (throw e s) = refl

on_scheduler-IsPure : {A : Type 0} (m : M Scheduler A) → IsPure m → IsPure (on_scheduler m)
on_scheduler-IsPure m h = record {
  spared =
      λ r. on_scheduler-after m r ∙ ap (λ s. record r { scheduler = s }) (h.spared r.scheduler);
}

backend_stats-IsPure : (i : ℕ) (b : BackendRuntime) → IsPure (backend_stats i b)
unfolding backend_stats
backend_stats-IsPure i b = >>=-Spares _ _ _ (on_scheduler-IsPure _ (state-IsPure i)) λ st.
    >>=-Spares _ _ _ (on_scheduler-IsPure _ (active-IsPure i)) λ active.
      >>=-Spares _ _ _ (on_scheduler-IsPure _ (total-IsPure i))
        λ total. >>=-Spares _ _ _ (on_scheduler-IsPure _ (errors-IsPure i)) λ errors. pure-IsPure _

backends_stats-IsPure : (i : ℕ) (bs : List BackendRuntime) → IsPure (backends_stats i bs)
unfolding backends_stats
backends_stats-IsPure i [] = pure-IsPure []
backends_stats-IsPure i (b ∷ bs) =
    >>=-Spares _ _ _ (backend_stats-IsPure i b)
      λ row. >>=-Spares _ _ _ (backends_stats-IsPure (i + 1) bs) λ rows. pure-IsPure _

pub stats_json-IsPure : (quotient : ℕ → ℕ → Bytes) (now : ℕ) → IsPure (stats_json quotient now)
unfolding stats_json
stats_json-IsPure quotient now = record {
  spared = λ r.
      (>>=-Spares (λ t. t) (backends_stats 0 r.backends) _ (backends_stats-IsPure 0 r.backends)
          λ rows. pure-IsPure _).spared
        r;
}

backend_exposition-IsPure : (i : ℕ) (b : BackendRuntime) → IsPure (backend_exposition i b)
unfolding backend_exposition
backend_exposition-IsPure i b =
    >>=-Spares _ _ _ (on_scheduler-IsPure _ (active-IsPure i))
      λ active. >>=-Spares _ _ _ (on_scheduler-IsPure _ (state-IsPure i)) λ st. pure-IsPure _

backends_exposition-IsPure : (i : ℕ) (bs : List BackendRuntime) → IsPure (backends_exposition i bs)
unfolding backends_exposition
backends_exposition-IsPure i [] = pure-IsPure []
backends_exposition-IsPure i (b ∷ bs) =
    >>=-Spares _ _ _ (backend_exposition-IsPure i b)
      λ rows. >>=-Spares _ _ _ (backends_exposition-IsPure (i + 1) bs) λ more. pure-IsPure _

pub prometheus_metrics-IsPure : IsPure prometheus_metrics
unfolding prometheus_metrics
prometheus_metrics-IsPure = record {
  spared = λ r.
      (>>=-Spares (λ t. t) (backends_exposition 0 r.backends) _
          (backends_exposition-IsPure 0 r.backends) λ rows. pure-IsPure _).spared
        r;
}
