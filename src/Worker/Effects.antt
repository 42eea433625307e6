-- ===== src/Worker/Effects.antt =====
-- What the reports of a worker do to the runtime.
use tcp_load_balancer.Base.{
  inl, inr, Bool-cases, leb, ℕ, ◌+◌, ◌-◌, ◌%◌, ◌<◌, ◌≡◌, refl, ap, ◌∙◌, List, [], ◌∷◌, Option, none,
  some, arith, ◌==◌, if◌then◌else◌, length, length-set, get_or, done, after,
}
use tcp_load_balancer.Health.Rounds.{IsReady, judge_lem, calls_of, failures_of}
use tcp_load_balancer.Health.{judge}
use tcp_load_balancer.Runtime.{
  BackendRuntime, add_from_client, add_from_backend, on_metrics, record_bytes_from_client,
  record_bytes_from_backend, RuntimeState, on_scheduler, record_connection_open,
  record_connection_close, at_backend, no_backend,
}
use tcp_load_balancer.Scheduler.Calls.{
  Call, opens, closes, heals, perform, perform_in_range, run, run-Keeps,
}
use tcp_load_balancer.Scheduler.Tally.{Tally, tally, observe_all, tally-run}
use tcp_load_balancer.Scheduler.{mark_healthy, u64_mod}

-- The active count of a backend.
abbrev pub active_of : ℕ → RuntimeState → ℕ
active_of i r = get_or r.scheduler.active i 0

-- A report that returns keeps the slots, and makes of the active counts what `f` says.
pub record Acts (f : ℕ → ℕ → ℕ) (r t : RuntimeState) : Type 0 where
  pub ready : IsReady t
  pub slots_kept : length t.backends ≡ length r.backends
  pub active_is : (i : ℕ) → i < length r.backends → active_of i t ≡ f i (active_of i r)

abbrev pub quiet : ℕ → ℕ → ℕ
quiet i a = a

abbrev pub closing : ℕ → ℕ → ℕ → ℕ
closing j i a = if j == i then a - 1 else a

abbrev pub opening : ℕ → ℕ → ℕ → ℕ
opening j i a = if j == i then (a + 1) % u64_mod else a

-- A runtime with the scheduler after a list of calls.
calls-Acts :
    (cs : List Call) (f : ℕ → ℕ → ℕ) (r t : RuntimeState)
    → IsReady r
    → ((i : ℕ) → (observe_all i cs (tally i r.scheduler)).active ≡ f i (active_of i r))
    → t.scheduler ≡ run cs r.scheduler
    → length t.backends ≡ length r.backends
    → Acts f r t
calls-Acts cs f r t v act e l =
    let k = run-Keeps cs r.scheduler v.shape in
    record {
      ready = record { shape = rw e k.shape; slots = rw (e, l, k.backends_kept) v.slots };
      slots_kept = l;
      active_is = λ i h.
          ap (λ s. get_or s.active i 0) e
          ∙ ap (λ (u : Tally). u.active) (tally-run cs i r.scheduler v.shape (rw (← v.slots) h))
          ∙ act i;
    }

module _ (j : ℕ) (r : RuntimeState) (v : IsReady r) (h : j < length r.backends) where
  pub judge-Acts :
      (o : Option ℕ)
      → (judge j o r ≡ done tt (after (judge j o r))) × Acts quiet r (after (judge j o r))
  judge-Acts o =
      let (returned, (e, c, l)) = judge_lem j o r v h in
      let calls = calls_of r.config.passive_failure_threshold j o (failures_of r j) in
      (returned, calls-Acts calls quiet r _ v (λ i. calls_active i o) e l)
    where
      calls_active :
          (i : ℕ) (o : Option ℕ)
          → (observe_all i
              (calls_of r.config.passive_failure_threshold j o (failures_of r j))
              (tally i r.scheduler)).active
            ≡ active_of i r
      calls_active i none = ground arith
      calls_active i (some us) = ground arith

  pub close-Acts :
      (record_connection_close j r ≡ done tt (after (record_connection_close j r)))
      × Acts (closing j) r (after (record_connection_close j r))
  unfolding record_connection_close perform run
  close-Acts =
      let e = perform_in_range (closes j) r.scheduler v.shape (rw (← v.slots) h) in
      (
        ground (arith, e),
        calls-Acts (closes j ∷ []) (closing j) r _ v (λ i. ground arith) (ground (arith, e))
            (ground (arith, e)),
      )

  pub open-Acts :
      (record_connection_open j r ≡ done tt (after (record_connection_open j r)))
      × Acts (opening j) r (after (record_connection_open j r))
  unfolding record_connection_open perform run
  open-Acts =
      let e = perform_in_range (opens j) r.scheduler v.shape (rw (← v.slots) h) in
      (
        ground (arith, e),
        calls-Acts (opens j ∷ []) (opening j) r _ v (λ i. ground arith) (ground (arith, e))
            (ground (arith, e)),
      )

  pub heal-Acts :
      (on_scheduler (mark_healthy j) r ≡ done tt (after (on_scheduler (mark_healthy j) r)))
      × Acts quiet r (after (on_scheduler (mark_healthy j) r))
  unfolding perform run
  heal-Acts =
      let e = perform_in_range (heals j) r.scheduler v.shape (rw (← v.slots) h) in
      (
        ground (arith, e),
        calls-Acts (heals j ∷ []) quiet r _ v (λ i. ground arith) (ground (arith, e))
            (ground (arith, e)),
      )

  pub at_backend-Acts :
      (f : BackendRuntime → BackendRuntime)
      → (at_backend j f r ≡ done tt (after (at_backend j f r)))
        × Acts quiet r (after (at_backend j f r))
  unfolding at_backend
  at_backend-Acts f =
      let l = length-set r.backends j (f (get_or r.backends j no_backend)) in
      (
        ground arith,
        record {
          ready = ground (arith, l);
          slots_kept = ground (arith, l);
          active_is = λ i _. ground arith;
        },
      )

-- Two reports in a row.
pub Acts-trans :
    (f g : ℕ → ℕ → ℕ) (r t u : RuntimeState)
    → Acts f r t
    → Acts g t u
    → Acts (λ i a. g i (f i a)) r u
Acts-trans f g r t u a b = record {
  ready = b.ready;
  slots_kept = b.slots_kept ∙ a.slots_kept;
  active_is = λ i h. b.active_is i (rw a.slots_kept h) ∙ ap (g i) (a.active_is i h);
}

pub quiet-Acts : (r : RuntimeState) → IsReady r → Acts quiet r r
quiet-Acts r v = record { ready = v; slots_kept = refl; active_is = λ i h. refl }

-- A write to a backend's slot is quiet, also where there is no such slot.
pub write-Acts :
    (i : ℕ) (f : BackendRuntime → BackendRuntime) (r : RuntimeState)
    → IsReady r
    → Acts quiet r (after (at_backend i f r))
unfolding at_backend
write-Acts i f r v = elim (Bool-cases (leb (length r.backends) i)) [
  | inl e ↦ rw e (quiet-Acts r v)
  | inr e ↦ (at_backend-Acts i r v (ground arith) f).1
]

pub client_bytes-Acts :
    (i n : ℕ) (r : RuntimeState) → IsReady r → Acts quiet r (after (record_bytes_from_client i n r))
unfolding record_bytes_from_client
client_bytes-Acts i n r v =
    let r₁ = after (
      on_metrics (λ m. record m { bytes_from_clients = (m.bytes_from_clients + n) % u64_mod }) r) in
    let a = write-Acts i (add_from_client n) r₁ (record { shape = v.shape; slots = v.slots }) in
    record { ready = a.ready; slots_kept = a.slots_kept; active_is = a.active_is }

pub backend_bytes-Acts :
    (i n : ℕ) (r : RuntimeState)
    → IsReady r
    → Acts quiet r (after (record_bytes_from_backend i n r))
unfolding record_bytes_from_backend
backend_bytes-Acts i n r v =
    let r₁ = after (
      on_metrics (λ m. record m { bytes_from_backends = (m.bytes_from_backends + n) % u64_mod })
        r) in
    let a = write-Acts i (add_from_backend n) r₁ (record { shape = v.shape; slots = v.slots }) in
    record { ready = a.ready; slots_kept = a.slots_kept; active_is = a.active_is }
