-- ===== src/Worker/Counting.antt =====
-- About the counters of the timeouts in `reap_timeouts` of src/server.cpp.
use tcp_load_balancer.Base.{
  ℕ, ◌+◌, ◌%◌, ◌≡◌, refl, ◌∙◌, Bool, true, false, ◌&&◌, not, List, [], ◌∷◌, Option, none, some,
  arith, leb, if◌then◌else◌, find, erase, total_of, M, Outcome, done, throw, after,
}
use tcp_load_balancer.Base.Sparing.{Spares, >>=-Spares, if-Spares}
use tcp_load_balancer.Health.{maybe_eject, eject_at}
use tcp_load_balancer.Runtime.{
  RuntimeState, on_metrics, on_scheduler, record_backend_failure, record_connection_close,
  set_backend_state,
}
use tcp_load_balancer.Scheduler.{
  Scheduler, u64_mod, mark_closed, mark_failure, consecutive_failures, set_state, down,
}
use tcp_load_balancer.System.{System}
use tcp_load_balancer.Worker.Loop.{is_connecting, expiry, noted, expired, count_timeout}
use tcp_load_balancer.Worker.Overdue.{is_late}
use tcp_load_balancer.Worker.{
  Worker, Peer, Peers, on_runtime, close_one, fail_backend, close_found, close_pair,
}

-- The two counters.
abbrev pub timeouts : RuntimeState → ℕ × ℕ
timeouts r = (r.metrics.connect_timeouts, r.metrics.idle_timeouts)

-- The method leaves them alone.
abbrev Quiet : {A : Type 0} → M RuntimeState A → Type 0
Quiet m = Spares timeouts m

on_scheduler-Quiet : {A : Type 0} (m : M Scheduler A) → Quiet (on_scheduler m)
on_scheduler-Quiet m = record { spared = λ r. of_outcome (m r.scheduler) r }
  where
    of_outcome :
        {A : Type 0} (o : Outcome Scheduler A) (r : RuntimeState)
        → timeouts (
            after (elim o as (λ _. Outcome RuntimeState A) [
              | done a s ↦ done a (record r { scheduler = s })
              | throw e s ↦ throw e (record r { scheduler = s })
            ]))
          ≡ timeouts r
    of_outcome (done a s) r = refl
    of_outcome (throw e s) r = refl

record_close-Quiet : (i : ℕ) → Quiet (record_connection_close i)
unfolding record_connection_close
record_close-Quiet i =
    >>=-Spares _ _ _ (on_scheduler-Quiet (mark_closed i)) λ _. record { spared = λ r. refl }

record_failure-Quiet : (i : ℕ) → Quiet (record_backend_failure i)
unfolding record_backend_failure
record_failure-Quiet i =
    let count : M RuntimeState (Unit {0}) =
      on_metrics λ m. record m { connection_errors = (m.connection_errors + 1) % u64_mod } in
    let quiet : Quiet count = record { spared = λ r. refl } in
    >>=-Spares timeouts count _ quiet λ _. on_scheduler-Quiet (mark_failure i)

eject-Quiet : (i failures : ℕ) → Quiet (eject_at i failures)
unfolding eject_at set_backend_state
eject-Quiet i failures = record {
  spared = λ r. of_test (leb r.config.passive_failure_threshold failures) r;
}
  where
    of_test :
        (b : Bool) (r : RuntimeState)
        → timeouts (after (if b then on_scheduler (set_state i down) r else done tt r)) ≡ timeouts r
    of_test true r = (on_scheduler-Quiet (set_state i down)).spared r
    of_test false r = refl

maybe_eject-Quiet : (i : ℕ) → Quiet (maybe_eject i)
unfolding maybe_eject
maybe_eject-Quiet i =
    >>=-Spares _ _ _ (on_scheduler-Quiet (consecutive_failures i))
      λ failures. eject-Quiet i failures

module _ {sys : System} where
  -- The counters of a worker's runtime.
  abbrev pub seen : Worker sys → ℕ × ℕ
  seen w = timeouts w.runtime

  on_runtime-Quiet : {A : Type 0} (m : M RuntimeState A) → Quiet m → Spares seen (on_runtime m)
  on_runtime-Quiet m h = record { spared = λ w. of_outcome (m w.runtime) w ∙ h.spared w.runtime }
    where
      of_outcome :
          {A : Type 0} (o : Outcome RuntimeState A) (w : Worker sys)
          → seen (
              after (elim o as (λ _. Outcome (Worker sys) A) [
                | done a r ↦ done a (record w { runtime = r })
                | throw e r ↦ throw e (record w { runtime = r })
              ]))
            ≡ timeouts (after o)
      of_outcome (done a r) w = refl
      of_outcome (throw e r) w = refl

  close_one-Quiet : (fd : ℕ) → Spares seen (close_one {sys = sys} fd)
  unfolding close_one
  close_one-Quiet fd = record { spared = λ w. of_found (find fd w.peers) w }
    where
      of_found :
          (o : Option Peer) (w : Worker sys)
          → seen (
              after (elim o as (λ _. Outcome (Worker sys) (Unit {0})) [
                | none ↦ done tt w
                | some peer ↦ done tt (record w {
                  world = sys.close fd (sys.epoll_delete fd w.world);
                  peers = erase fd w.peers;
                })
              ]))
            ≡ seen w
      of_found none w = refl
      of_found (some p) w = refl

  fail_backend-Quiet : (i : ℕ) → Spares seen (fail_backend {sys = sys} i)
  unfolding fail_backend
  fail_backend-Quiet i =
      >>=-Spares _ _ _ (on_runtime-Quiet _ (record_failure-Quiet i))
        λ _. on_runtime-Quiet _ (maybe_eject-Quiet i)

  close_found-Quiet :
      (fd : ℕ) (failure : Bool) (p : Peer) → Spares seen (close_found {sys = sys} fd failure p)
  unfolding close_found
  close_found-Quiet fd failure p = >>=-Spares _ _ _ (close_one-Quiet fd) λ _.
      >>=-Spares _ _ _ (close_one-Quiet p.paired_fd) λ _.
        >>=-Spares _ _ _ (on_runtime-Quiet _ (record_close-Quiet p.backend_index)) λ _.
          if-Spares _ failure _ _ (fail_backend-Quiet p.backend_index)
            (record { spared = λ w. refl })

  pub close_pair-Quiet : (fd : ℕ) (failure : Bool) → Spares seen (close_pair {sys = sys} fd failure)
  unfolding close_pair
  close_pair-Quiet fd failure = record { spared = λ w. of_found (find fd w.peers) w }
    where
      of_found :
          (o : Option Peer) (w : Worker sys)
          → seen (
              after (elim o as (λ _. Outcome (Worker sys) (Unit {0})) [
                | none ↦ done tt w
                | some first ↦ close_found fd failure first w
              ]))
            ≡ seen w
      of_found none w = refl
      of_found (some p) w = (close_found-Quiet fd failure p).spared w

-- How many of the closings are for a connection that was not made, and how many for idleness.
abbrev pub connect_count : List (ℕ × Bool) → ℕ
connect_count [] = 0
connect_count ((fd, failure) ∷ es) = (if failure then 1 else 0) + connect_count es

abbrev pub idle_count : List (ℕ × Bool) → ℕ
idle_count [] = 0
idle_count ((fd, failure) ∷ es) = (if failure then 0 else 1) + idle_count es

-- The peer is a client whose pair is overdue, while its connection is still being made, or not.
abbrev pub late_connecting : ℕ → ℕ → Peers → Peer → ℕ
late_connecting now idle ps p =
    let mate = find p.paired_fd ps in
    if not p.backend_side && (is_late now idle (some p) mate && is_connecting mate) then 1 else 0

abbrev pub late_idle : ℕ → ℕ → Peers → Peer → ℕ
late_idle now idle ps p =
    let mate = find p.paired_fd ps in
    if not p.backend_side && (is_late now idle (some p) mate && not (is_connecting mate))
    then 1
    else 0

noted-counts :
    (now idle fd : ℕ) (p : Peer) (mate : Option Peer) (es : List (ℕ × Bool))
    → (connect_count (noted fd (expiry now idle p mate) es)
        ≡ (if is_late now idle (some p) mate && is_connecting mate then 1 else 0)
          + connect_count es)
      × (idle_count (noted fd (expiry now idle p mate) es)
          ≡ (if is_late now idle (some p) mate && not (is_connecting mate) then 1 else 0)
            + idle_count es)
unfolding expiry
noted-counts now idle fd p none es = (ground arith, ground arith)
noted-counts now idle fd p (some q) es = (ground arith, ground arith)

-- The first loop lists each pair that is overdue once.
pub expired-counts :
    (now idle : ℕ) (ps rest : Peers)
    → (connect_count (expired now idle ps rest) ≡ total_of (late_connecting now idle ps) rest)
      × (idle_count (expired now idle ps rest) ≡ total_of (late_idle now idle ps) rest)
unfolding expired
expired-counts now idle ps [] = (refl, refl)
expired-counts now idle ps ((fd, p) ∷ rest) =
    let (c, i) = expired-counts now idle ps rest in
    let (d, j) = noted-counts now idle fd p (find p.paired_fd ps) (expired now idle ps rest) in
    (ground (arith, c, d), ground (arith, i, j))

-- The counters `b` are `a` and so many more, of 64 bits.
abbrev pub Grows : ℕ → ℕ → ℕ × ℕ → ℕ × ℕ → Type 0
Grows connects idles a b =
    (b.0 % u64_mod ≡ (a.0 + connects) % u64_mod) × (b.1 % u64_mod ≡ (a.1 + idles) % u64_mod)

pub Grows-cons :
    (fd : ℕ) (failure : Bool) (es : List (ℕ × Bool)) (r : RuntimeState) (b : ℕ × ℕ)
    → Grows
        (connect_count es)
        (idle_count es)
        (timeouts (after (on_metrics (count_timeout failure) r)))
        b
    → Grows (connect_count ((fd, failure) ∷ es)) (idle_count ((fd, failure) ∷ es)) (timeouts r) b
Grows-cons fd true es r b (c, i) = (omega (arith, c), omega (arith, i))
Grows-cons fd false es r b (c, i) = (omega (arith, c), omega (arith, i))
