-- ===== src/Scheduler/Shape.antt =====
-- The shape of a scheduler: one slot of each kind for each backend, and counters in range.
use tcp_load_balancer.Base.{
  ℕ, ◌<◌, ◌≡◌, refl, true, false, List, some, arith, length, get_or, length-replicate, done,
}
use tcp_load_balancer.Config.{Endpoint, Policy}
use tcp_load_balancer.Scheduler.{
  Scheduler, up, SelectedBackend, new_scheduler, is_up, routable, selected_at, no_endpoint,
}

pub record IsWellFormed (s : Scheduler) : Type 0 where
  pub active_slots : length s.active ≡ length s.backends
  pub total_slots : length s.total ≡ length s.backends
  pub error_slots : length s.errors ≡ length s.backends
  pub failure_slots : length s.consecutive_failures ≡ length s.backends
  pub state_slots : length s.states ≡ length s.backends

pub new_scheduler-IsWellFormed :
    (backends : List Endpoint) (policy : Policy) → IsWellFormed (new_scheduler backends policy)
unfolding new_scheduler
new_scheduler-IsWellFormed backends policy = record {
  active_slots = length-replicate (length backends) 0;
  total_slots = length-replicate (length backends) 0;
  error_slots = length-replicate (length backends) 0;
  failure_slots = length-replicate (length backends) 0;
  state_slots = length-replicate (length backends) up;
}

-- Backend `i` may be chosen.
abbrev pub Routable : Scheduler → ℕ → Type 0
Routable s i = is_up (get_or s.states i up) ≡ true

abbrev pub Unroutable : Scheduler → ℕ → Type 0
Unroutable s i = is_up (get_or s.states i up) ≡ false

pub routable_lem :
    (i : ℕ) (s : Scheduler)
    → IsWellFormed s
    → i < length s.backends
    → routable i s ≡ done (is_up (get_or s.states i up)) s
unfolding routable
routable_lem i s w h = ground arith

-- The handle that `select` returns for backend `i`.
abbrev pub handle : Scheduler → ℕ → SelectedBackend
handle s i = record { index = i; endpoint = get_or s.backends i no_endpoint }

pub selected_at_lem : (i : ℕ) (s : Scheduler) → selected_at i s ≡ done (some (handle s i)) s
unfolding selected_at
selected_at_lem i s = refl
