-- ===== src/Health/Verdicts.antt =====
-- About rounds of health checks, reported failures and drains.
use tcp_load_balancer.Base.{
  ℕ, zero, suc, ◌+◌, ◌<◌, ◌≤◌, ◌≡◌, ◌≢◌, refl, ap, ◌∙◌, Option, none, some, arith, length, ltb, leb,
  ◌&&◌, if◌then◌else◌, done, List, [], ◌∷◌, after, M, ◌>>◌,
}
use tcp_load_balancer.Config.{Endpoint}
use tcp_load_balancer.Health.Ejection.{Same, vitals, probed, reaction, checks_from_lem}
use tcp_load_balancer.Health.Rounds.{IsReady, judge_lem, health_react, calls_of, failures_of}
use tcp_load_balancer.Health.{health_round, maybe_eject, judge}
use tcp_load_balancer.Runtime.{RuntimeState, record_backend_failure}
use tcp_load_balancer.Scheduler.{up, down, draining, u32_mod}
use tcp_load_balancer.Scheduler.Calls.{run-Keeps}
use tcp_load_balancer.Scheduler.Tally.{Tally, tally, tally-run}

-- On a runtime with one slot for each backend, a round of health checks returns, keeps the
-- configuration, the backends and the slots, and each backend's counters and state become what
-- the specification of one check makes of them and of the probe's result for this backend.
pub health_round_lem :
    (probe : ℕ → Endpoint → Option ℕ) (r : RuntimeState)
    → IsReady r
    → (health_round probe r ≡ done tt (after (health_round probe r)))
      × Same r (after (health_round probe r))
      × ((i : ℕ)
          → i < length r.backends
          → vitals i (after (health_round probe r)) ≡ reaction probe i r)
unfolding health_round
health_round_lem probe r v =
    let n = length r.scheduler.backends in
    let (returned, same, each) =
      checks_from_lem n probe 0 n r v (omega arith) (omega (arith, v.slots)) in
    (returned, same, λ i h. each i h ∙ ground (arith, v.slots))

-- What the probes of a round find.
abbrev pub Probe : Type 0
Probe = ℕ → Endpoint → Option ℕ

-- Rounds of health checks, each with what its own probes find.
abbrev pub after_rounds : List Probe → RuntimeState → RuntimeState
after_rounds [] r = r
after_rounds (probe ∷ probes) r = after_rounds probes (after (health_round probe r))

-- In each of the rounds the probe of this backend fails.
abbrev pub AllFail : List Probe → ℕ → RuntimeState → Type 0
AllFail [] i r = Unit {0}
AllFail (probe ∷ probes) i r = (probed probe i r ≡ none) × AllFail probes i r

abbrev iterate : ℕ → (Tally → Tally) → Tally → Tally
iterate zero f t = t
iterate (suc k) f t = iterate k f (f t)

AllFail-Same :
    (probes : List Probe) (i : ℕ) (r t : RuntimeState)
    → Same r t
    → AllFail probes i r
    → AllFail probes i t
AllFail-Same [] i r t same bad = tt
AllFail-Same (probe ∷ probes) i r t same (bad, rest) =
    (rw same.backends_same bad, AllFail-Same probes i r t same rest)

rounds-vitals :
    (probes : List Probe) (i : ℕ) (r : RuntimeState)
    → IsReady r
    → i < length r.backends
    → AllFail probes i r
    → vitals i (after_rounds probes r)
      ≡ iterate (length probes) (health_react r.config.passive_failure_threshold none) (vitals i r)
rounds-vitals [] i r v h bad = refl
rounds-vitals (probe ∷ probes) i r v h (bad, rest) =
    let t = after (health_round probe r) in
    let (returned, same, each) = health_round_lem probe r v in
    let now : vitals i t ≡ health_react r.config.passive_failure_threshold none (vitals i r) =
      each i h ∙ ap (λ o. health_react r.config.passive_failure_threshold o (vitals i r)) bad in
    let ih =
      rounds-vitals probes i t same.ready (rw same.slots_same h)
        (AllFail-Same probes i r t same rest) in
    rw (same.config_same, now) at ih

-- k failed checks of a backend that is not draining.
iterate_failing :
    (k limit : ℕ) (t : Tally)
    → t.state ≢ draining
    → t.failures + k < u32_mod
    → ((iterate k (health_react limit none) t).failures ≡ t.failures + k)
      × ((iterate k (health_react limit none) t).state
          ≡ (if ltb 0 k && leb limit (t.failures + k) then down else t.state))
iterate_failing zero limit t n b = (omega arith, ground arith)
iterate_failing (suc k) limit t n b =
    ground (arith, iterate_failing k limit (health_react limit none t))

-- On a runtime with one slot for each backend: after k rounds of health checks in each of which
-- the probe of a backend that was not draining fails, whatever each round's probes find of the
-- other backends, and with fewer than 2^32 failures in a row, its failures in a row have grown by
-- k, and it is DOWN if k > 0 and they have reached the threshold, and in its former state
-- otherwise.
pub rounds-eject :
    (probes : List Probe) (i : ℕ) (r : RuntimeState)
    → IsReady r
    → i < length r.backends
    → AllFail probes i r
    → (vitals i r).state ≢ draining
    → (vitals i r).failures + length probes < u32_mod
    → ((vitals i (after_rounds probes r)).failures ≡ (vitals i r).failures + length probes)
      × ((vitals i (after_rounds probes r)).state ≡ (
          if ltb 0 (length probes)
            && leb r.config.passive_failure_threshold ((vitals i r).failures + length probes)
          then down
          else (vitals i r).state))
rounds-eject probes i r v h bad n b =
    let limit = r.config.passive_failure_threshold in
    let e = rounds-vitals probes i r v h bad in
    ground (arith, e, iterate_failing (length probes) limit (vitals i r) n b)

draining-react :
    (limit : ℕ) (o : Option ℕ) (t : Tally) → t.state ≡ draining → health_react limit o t ≡ t
draining-react limit none t d = ground arith
draining-react limit (some us) t d = ground arith

-- On a runtime with one slot for each backend, one round of health checks with a good probe of a
-- backend that is not draining leaves it UP with no failure in a row, whatever its state and
-- failures were; a round leaves the counters and the state of a draining backend as they are,
-- whatever its probe would find.
pub round-recover :
    (probe : ℕ → Endpoint → Option ℕ) (i latency : ℕ) (r : RuntimeState)
    → IsReady r
    → i < length r.backends
    → ((vitals i r).state ≢ draining
        → probed probe i r ≡ some latency
        → ((vitals i (after (health_round probe r))).state ≡ up)
          × ((vitals i (after (health_round probe r))).failures ≡ 0))
      × ((vitals i r).state ≡ draining → vitals i (after (health_round probe r)) ≡ vitals i r)
round-recover probe i latency r v h =
    let (_, _, each) = health_round_lem probe r v in
    (
      λ n good. (ground (arith, each i h, good), ground (arith, each i h, good)),
      λ d.
          each i h
          ∙ draining-react r.config.passive_failure_threshold (probed probe i r) (vitals i r) d,
    )

-- The two calls by which the workers report a failed connection.
abbrev pub report_failure : ℕ → M RuntimeState (Unit {0})
report_failure i = record_backend_failure i >> maybe_eject i

-- A drain does not hold: on a runtime with one slot for each backend, a reported failure of a
-- draining backend that brings its failures in a row to the threshold makes it DOWN, and one
-- round of health checks with a good probe then makes it UP.
pub drain-lost :
    (probe : ℕ → Endpoint → Option ℕ) (i latency : ℕ) (r : RuntimeState)
    → IsReady r
    → i < length r.backends
    → (vitals i r).state ≡ draining
    → (vitals i r).failures + 1 < u32_mod
    → r.config.passive_failure_threshold ≤ (vitals i r).failures + 1
    → probed probe i r ≡ some latency
    → ((vitals i (after (report_failure i r))).state ≡ down)
      × ((vitals i (after (health_round probe (after (report_failure i r))))).state ≡ up)
unfolding judge
drain-lost probe i latency r v h d b limit good =
    let (returned, (e, c, l)) = judge_lem i none r v h in
    let t = after (report_failure i r) in
    let calls = calls_of r.config.passive_failure_threshold i none (failures_of r i) in
    let k = run-Keeps calls r.scheduler v.shape in
    let h' : i < length r.scheduler.backends = rw (← v.slots) h in
    let seen = ap (tally i) e ∙ tally-run calls i r.scheduler v.shape h' in
    let ready : IsReady t = record {
      shape = rw e k.shape;
      slots = rw (e, l, k.backends_kept) v.slots;
    } in
    let is_down : (vitals i t).state ≡ down = ground (arith, seen) in
    let good' : probed probe i t ≡ some latency = rw (e, k.backends_kept) good in
    let back = (round-recover probe i latency t ready (rw l h)).0 (λ x. cc) good' in
    (is_down, back.0)
