-- ===== src/Examples/Pool.antt =====
-- tests/scheduler_tests.cpp as tests of the model, and the scheduler's theorems at concrete inputs.
use tcp_load_balancer.Base.{
  ℕ, zero, suc, ◌+◌, ◌%◌, ◌<◌, ◌≤◌, ◌≡◌, ◌≢◌, refl, ◌⊎◌, List, [], ◌∷◌, Option, none, some, arith,
  get_or, done, throw, out_of_range, after, take,
}
use tcp_load_balancer.Config.{
  Endpoint, Policy, round_robin, least_connections, power_of_two_choices,
}
use tcp_load_balancer.Scheduler.{
  Scheduler, SelectedBackend, up, draining, new_scheduler, rotate_from, least_from, found,
  select_least, attempt, choices_from, select, mark_closed, mark_failure, u64_mod,
}
use tcp_load_balancer.Scheduler.Accounting.{active-run, total-run, opened, closed, IsCovered}
use tcp_load_balancer.Scheduler.Calls.{
  Call, opens, closes, fails, heals, perform, run, perform_guarded, Keeps,
}
use tcp_load_balancer.Scheduler.Choices.{IsAnswer, select-power_of_two_choices}
use tcp_load_balancer.Scheduler.Cycle.{answered, after_selects, select-cycle, AllRoutable}
use tcp_load_balancer.Scheduler.Draining.{state-run, draining-unselected}
use tcp_load_balancer.Scheduler.Least.{IsLeast, answer, select-least_connections}
use tcp_load_balancer.Scheduler.Rotation.{IsFirst, advanced, select-round_robin}
use tcp_load_balancer.Scheduler.Selection.{Selects, select-IsSound}
use tcp_load_balancer.Scheduler.Shape.{IsWellFormed, handle}
use tcp_load_balancer.Scheduler.Tally.{tally, observe_all, tally-run}

abbrev local : ℕ → Endpoint
local port = record { host = b'h' ∷ []; port = port }

abbrev three : List Endpoint
three = local 9101 ∷ local 9102 ∷ local 9103 ∷ []

-- Three backends that are all routable.
abbrev fresh : Policy → Scheduler
fresh p = record {
  backends = three;
  policy = p;
  next = 4;
  active = 2 ∷ 1 ∷ 1 ∷ [];
  total = 5 ∷ 5 ∷ 4 ∷ [];
  errors = 0 ∷ 3 ∷ 0 ∷ [];
  consecutive_failures = 0 ∷ 2 ∷ 0 ∷ [];
  states = up ∷ up ∷ up ∷ [];
}

-- The same with the second backend draining.
abbrev drained : Policy → Scheduler
drained p = record (fresh p) { states = up ∷ draining ∷ up ∷ [] }

fresh-IsWellFormed : (p : Policy) → IsWellFormed (fresh p)
fresh-IsWellFormed p = omega arith

drained-IsWellFormed : (p : Policy) → IsWellFormed (drained p)
drained-IsWellFormed p = omega arith

abbrev index_chosen : Option SelectedBackend → Option ℕ
index_chosen none = none
index_chosen (some b) = some b.index

abbrev chosen_by : Policy → ℕ → Option ℕ
chosen_by p k =
    index_chosen (answered (select (λ i. i % 2) (after_selects k (λ i. i % 2) (drained p))))

rotation_test :
    (chosen_by round_robin 0 ≡ some 2)
    × (chosen_by round_robin 1 ≡ some 2)
    × (chosen_by round_robin 2 ≡ some 0)
    × (chosen_by round_robin 3 ≡ some 2)
unfolding select rotate_from
rotation_test = (refl, refl, refl, refl)

least_test : chosen_by least_connections 0 ≡ some 2
unfolding select select_least least_from found
least_test = refl

choices_test : chosen_by power_of_two_choices 0 ≡ some 0
unfolding select choices_from attempt
choices_test = refl

empty_test :
    select (λ i. 0) (new_scheduler [] round_robin) ≡ done none (new_scheduler [] round_robin)
unfolding select new_scheduler
empty_test = refl

underflow_test :
    get_or (after (mark_closed 0 (new_scheduler three least_connections))).active 0 9 ≡ 0
unfolding mark_closed new_scheduler
underflow_test = refl

fresh-AllRoutable : AllRoutable (fresh round_robin)
fresh-AllRoutable zero a b = refl
fresh-AllRoutable (suc zero) a b = refl
fresh-AllRoutable (suc (suc zero)) a b = refl
fresh-AllRoutable (suc (suc (suc i))) a b = absurd (omega arith)

in_draws : (k : ℕ) → k % 2 < 3
in_draws k = omega arith

-- Connections come and go, with a failure between; the last call is out of range.
abbrev day : List Call
day = opens 1 ∷ closes 1 ∷ fails 1 ∷ opens 1 ∷ heals 1 ∷ opens 7 ∷ []

day-IsCovered : IsCovered 1 1 day
day-IsCovered zero = omega arith
day-IsCovered (suc zero) = omega arith
day-IsCovered (suc (suc zero)) = omega arith
day-IsCovered (suc (suc (suc zero))) = omega arith
day-IsCovered (suc (suc (suc (suc zero)))) = omega arith
day-IsCovered (suc (suc (suc (suc (suc k))))) = covered_end k
  where
    covered_end :
        (k : ℕ)
        → closed 1 (take (suc (suc (suc (suc (suc k))))) day)
          ≤ 1 + opened 1 (take (suc (suc (suc (suc (suc k))))) day)
    covered_end zero = omega arith
    covered_end (suc zero) = omega arith
    covered_end (suc (suc k)) = omega arith

select-IsSound_example : Selects (λ k. k % 2) (drained power_of_two_choices)
select-IsSound_example =
    select-IsSound (λ k. k % 2) (drained power_of_two_choices)
      (drained-IsWellFormed power_of_two_choices) (λ k h. in_draws k) (omega arith)

select-round_robin_example :
    (r : Option SelectedBackend) × (select (λ k. 0) (drained round_robin)
      ≡ done r (advanced (drained round_robin)))
    × IsFirst (drained round_robin) 4 0 3 r
select-round_robin_example =
    select-round_robin (λ k. 0) (drained round_robin) (drained-IsWellFormed round_robin) refl
      (omega arith)

select-cycle_example :
    (k : ℕ) × (k < 3)
    × (answered (select (λ i. 0) (after_selects k (λ i. 0) (fresh round_robin)))
        ≡ some (handle (fresh round_robin) 2))
    × ((j : ℕ)
        → j < 3
        → answered (select (λ i. 0) (after_selects j (λ i. 0) (fresh round_robin)))
          ≡ some (handle (fresh round_robin) 2)
        → j ≡ k)
select-cycle_example =
    select-cycle (λ i. 0) (fresh round_robin) 2 (fresh-IsWellFormed round_robin) refl
      fresh-AllRoutable (omega arith) (omega arith)

select-least_connections_example :
    (r : Option ℕ) × (select (λ k. 0) (drained least_connections)
      ≡ done (answer (drained least_connections) r) (drained least_connections))
    × IsLeast (drained least_connections) 3 r
select-least_connections_example =
    select-least_connections (λ k. 0) (drained least_connections)
      (drained-IsWellFormed least_connections) refl

select-power_of_two_choices_example :
    (r : Option ℕ) × (select (λ k. k % 2) (drained power_of_two_choices)
      ≡ done (answer (drained power_of_two_choices) r) (drained power_of_two_choices))
    × IsAnswer (λ k. k % 2) (drained power_of_two_choices) 0 6 r
select-power_of_two_choices_example =
    select-power_of_two_choices (λ k. k % 2) (drained power_of_two_choices)
      (drained-IsWellFormed power_of_two_choices) refl (omega arith) in_draws

perform_guarded_example :
    ((3 ≤ 1) × (perform (heals 1) (drained round_robin) ≡ throw out_of_range (drained round_robin)))
    ⊎ ((1 < 3)
        × ((t : Scheduler) × (perform (heals 1) (drained round_robin) ≡ done tt t)
            × Keeps (drained round_robin) t))
perform_guarded_example =
    perform_guarded (heals 1) (drained round_robin) (drained-IsWellFormed round_robin)

tally-run_example :
    tally 1 (run day (fresh round_robin)) ≡ observe_all 1 day (tally 1 (fresh round_robin))
tally-run_example =
    tally-run day 1 (fresh round_robin) (fresh-IsWellFormed round_robin) (omega arith)

active-run_example : get_or (run day (fresh round_robin)).active 1 0 + 1 ≡ 1 + 2
active-run_example =
    active-run day 1 (fresh round_robin) (fresh-IsWellFormed round_robin) (omega arith)
      day-IsCovered (omega arith)

total-run_example : get_or (run day (fresh round_robin)).total 1 0 ≡ (5 + 2) % u64_mod
total-run_example =
    total-run day 1 (fresh round_robin) (fresh-IsWellFormed round_robin) (omega arith) (omega arith)

state-run_example : get_or (run day (drained round_robin)).states 1 up ≡ draining
state-run_example =
    state-run day 1 (drained round_robin) (drained-IsWellFormed round_robin) (omega arith) refl

draining-unselected_example : (handle (drained round_robin) 2).index ≢ 1
unfolding select rotate_from run perform mark_failure
draining-unselected_example =
    draining-unselected (fails 1 ∷ []) (λ k. 0) 1 (drained round_robin)
      (advanced (run (fails 1 ∷ []) (drained round_robin))) (handle (drained round_robin) 2)
      (drained-IsWellFormed round_robin) (omega arith) refl refl (λ k. omega arith) (omega arith)
      refl
