-- ===== src/Health/Ejection.antt =====
-- Rounds of health checks: each backend meets its specification, is ejected at the threshold and
-- comes back with one good probe.
use tcp_load_balancer.Base.{
  ℕ, zero, suc, ◌+◌, ◌<◌, ◌≤◌, ◌≡◌, refl, sym, ap, ◌∙◌, Option, arith, length, get_or, ltb, leb,
  ◌==◌, ◌&&◌, if◌then◌else◌, done, after, >>-step, subst,
}
use tcp_load_balancer.Config.{Endpoint}
use tcp_load_balancer.Health.{check_backend, checks_from}
use tcp_load_balancer.Health.Rounds.{
  IsReady, check_calls, check_backend_lem, check-tally, health_react,
}
use tcp_load_balancer.Runtime.{RuntimeState}
use tcp_load_balancer.Scheduler.{no_endpoint}
use tcp_load_balancer.Scheduler.Calls.{run-Keeps}
use tcp_load_balancer.Scheduler.Tally.{Tally, tally, tally-run}

-- What the checks leave alone.
pub record Same (r t : RuntimeState) : Type 0 where
  pub ready : IsReady t
  pub config_same : t.config ≡ r.config
  pub slots_same : length t.backends ≡ length r.backends
  pub backends_same : t.scheduler.backends ≡ r.scheduler.backends

-- The probe's result for backend `i`.
abbrev pub probed : (ℕ → Endpoint → Option ℕ) → ℕ → RuntimeState → Option ℕ
probed probe i r = probe i (get_or r.scheduler.backends i no_endpoint)

abbrev pub vitals : ℕ → RuntimeState → Tally
vitals i r = tally i r.scheduler

abbrev pub reaction : (ℕ → Endpoint → Option ℕ) → ℕ → RuntimeState → Tally
reaction probe i r = health_react r.config.passive_failure_threshold (probed probe i r) (vitals i r)

check-Same :
    (probe : ℕ → Endpoint → Option ℕ) (j : ℕ) (r : RuntimeState)
    → IsReady r
    → j < length r.backends
    → Same r (after (check_backend probe j r))
check-Same probe j r v h =
    let (_, (e, c, l)) = check_backend_lem probe j r v h in
    let k = run-Keeps (check_calls probe j r) r.scheduler v.shape in
    record {
      ready = record { shape = rw e k.shape; slots = rw (e, l, k.backends_kept) v.slots };
      config_same = c;
      slots_same = l;
      backends_same = rw e k.backends_kept;
    }

check-vitals :
    (probe : ℕ → Endpoint → Option ℕ) (i j : ℕ) (r : RuntimeState)
    → IsReady r
    → j < length r.backends
    → i < length r.backends
    → vitals i (after (check_backend probe j r))
      ≡ (if j == i then reaction probe i r else vitals i r)
check-vitals probe i j r v h k =
    let (_, (e, _, _)) = check_backend_lem probe j r v h in
    ap (tally i) e
    ∙ tally-run (check_calls probe j r) i r.scheduler v.shape (rw (← v.slots) k)
    ∙ check-tally probe i j r

Same-trans : (r t u : RuntimeState) → Same r t → Same t u → Same r u
Same-trans r t u a b = record {
  ready = b.ready;
  config_same = b.config_same ∙ a.config_same;
  slots_same = b.slots_same ∙ a.slots_same;
  backends_same = b.backends_same ∙ a.backends_same;
}

reaction-eq :
    (probe : ℕ → Endpoint → Option ℕ) (i : ℕ) (r t : RuntimeState)
    → t.config ≡ r.config
    → t.scheduler.backends ≡ r.scheduler.backends
    → vitals i t ≡ vitals i r
    → reaction probe i t ≡ reaction probe i r
reaction-eq probe i r t c b e = rw (c, b, e)

-- The checks of the backends from `j` up to `last` react once to each of these.
pub checks_from_lem :
    (rounds : ℕ) (probe : ℕ → Endpoint → Option ℕ) (j last : ℕ) (r : RuntimeState)
    → IsReady r
    → j + rounds ≡ last
    → last ≤ length r.backends
    → (checks_from rounds probe j r ≡ done tt (after (checks_from rounds probe j r)))
      × Same r (after (checks_from rounds probe j r))
      × ((i : ℕ)
          → i < length r.backends
          → vitals i (after (checks_from rounds probe j r))
            ≡ (if leb j i && ltb i last then reaction probe i r else vitals i r))
unfolding checks_from
checks_from_lem zero probe j last r v e h = (
  refl,
  record { ready = v; config_same = refl; slots_same = refl; backends_same = refl },
  λ i k. ground arith,
)
checks_from_lem (suc rounds) probe j last r v e h =
    let (returned, _) = check_backend_lem probe j r v (omega arith) in
    let same = check-Same probe j r v (omega arith) in
    let t = after (check_backend probe j r) in
    let (rest, kept, each) =
      checks_from_lem rounds probe (j + 1) last t same.ready (omega arith) (rw same.slots_same h) in
    let step = >>-step (check_backend probe j) (checks_from rounds probe (j + 1)) r t returned in
    (
      step ∙ rest ∙ ap (λ o. done tt (after o)) (sym step),
      subst (λ o. Same r (after o)) (sym step) (Same-trans r t _ same kept),
      λ i k.
          ap (λ o. vitals i (after o)) step
          ∙ each i (rw same.slots_same k)
          ∙ ground (
            arith,
            check-vitals probe i j r v (omega arith) k,
            reaction-eq probe i r t same.config_same same.backends_same,
          ),
    )
