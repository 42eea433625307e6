-- ===== src/Scheduler.antt =====
-- src/scheduler.cpp and include/lb/scheduler.hpp: the backend pool and the choice of a backend.
-- The parallel vectors of atomics are parallel lists. A method runs without interruption: how the
-- steps of two threads in these methods interleave is not modelled. What the random generator of
-- `select` draws is the argument `draws`.
pub mod Shape
pub mod Rotation
pub mod Least
pub mod Choices
pub mod Cycle
pub mod Selection
pub mod Calls
pub mod Tally
pub mod Accounting
pub mod Draining
use tcp_load_balancer.Base.{
  ℕ, zero, suc, ◌+◌, ◌-◌, ◌*◌, ◌%◌, ◌^◌, Bool, true, false, not, ◌&&◌, List, [], Option, none, some,
  ltb, leb, ◌==◌, if◌then◌else◌, length, get_or, set, replicate, done, throw, out_of_range, M, pure,
  ◌>>=◌,
}
use tcp_load_balancer.Config.{
  Endpoint, Policy, round_robin, least_connections, power_of_two_choices,
}

pub record SelectedBackend : Type 0 where
  pub index : ℕ
  pub endpoint : Endpoint

pub data BackendState : Type 0 where
  up down draining : BackendState

pub record Scheduler : Type 0 where
  pub backends : List Endpoint
  pub policy : Policy
  pub next : ℕ
  pub active : List ℕ
  pub total : List ℕ
  pub errors : List ℕ
  pub consecutive_failures : List ℕ
  pub states : List BackendState

-- One past the greatest value of `std::uint64_t`, and of `std::size_t`.
abbrev pub u64_mod : ℕ
u64_mod = 2 ^ 64

abbrev pub u32_mod : ℕ
u32_mod = 2 ^ 32

-- `Endpoint{}`: what an access out of bounds gives in the model. No access in bounds reads it.
abbrev pub no_endpoint : Endpoint
no_endpoint = record { host = []; port = 0 }

-- `cells[index].fetch_add(count)` on unsigned cells below `modulus`.
abbrev pub fetch_add : ℕ → List ℕ → ℕ → ℕ → List ℕ
fetch_add modulus cells index count = set cells index ((get_or cells index 0 + count) % modulus)

unfoldable pub new_scheduler : List Endpoint → Policy → Scheduler
new_scheduler backends policy = record {
  backends = backends;
  policy = policy;
  next = 0;
  active = replicate (length backends) 0;
  total = replicate (length backends) 0;
  errors = replicate (length backends) 0;
  consecutive_failures = replicate (length backends) 0;
  states = replicate (length backends) up;
}

-- The test that opens each accessor: past the end of `cells`, the method throws.
abbrev pub at_index {ℓ} :
    {A : Type ℓ} {B : Type 0} → (Scheduler → List A) → ℕ → M Scheduler B → M Scheduler B
at_index cells index body s = if leb (length (cells s)) index then throw out_of_range s else body s

unfoldable pub state : ℕ → M Scheduler BackendState
state index = at_index (λ s. s.states) index λ s. done (get_or s.states index up) s

abbrev pub is_up : BackendState → Bool
is_up up = true
is_up down = false
is_up draining = false

abbrev pub is_down : BackendState → Bool
is_down up = false
is_down down = true
is_down draining = false

unfoldable pub routable : ℕ → M Scheduler Bool
unfolding state
routable index = do st ← state index; pure (is_up st)

-- `SelectedBackend{index, backends_[index]}`.
unfoldable pub selected_at : ℕ → M Scheduler (Option SelectedBackend)
selected_at index s =
    done (some (record { index = index; endpoint = get_or s.backends index no_endpoint })) s

-- The loop over `offset`, with `rounds` rounds left.
unfoldable pub rotate_from : ℕ → ℕ → ℕ → M Scheduler (Option SelectedBackend)
unfolding routable selected_at
rotate_from zero start offset s = done none s
rotate_from (suc rounds) start offset s =
    let index = (start + offset) % u64_mod % length s.backends in
    let rest = rotate_from rounds start (offset + 1) in
    (do hit ← routable index; if hit then selected_at index else rest) s

-- `!selected.has_value() || active_[i] < active_[*selected]`.
unfoldable pub improves : List ℕ → ℕ → Option ℕ → Bool
improves active i none = true
improves active i (some j) = ltb (get_or active i 0) (get_or active j 0)

-- The loop over `i`, with `rounds` rounds left.
unfoldable pub least_from : ℕ → ℕ → Option ℕ → M Scheduler (Option ℕ)
unfolding routable improves
least_from zero i selected s = done selected s
least_from (suc rounds) i selected s =
    let rest = least_from rounds (i + 1) in
    (do hit ← routable i; rest (if hit && improves s.active i selected then some i else selected)) s

unfoldable pub found : Option ℕ → M Scheduler (Option SelectedBackend)
unfolding selected_at
found none = pure none
found (some index) = selected_at index

-- The code of `select` behind the two policy tests.
unfoldable pub select_least : M Scheduler (Option SelectedBackend)
select_least s = (do selected ← least_from (length s.active) 0 none; found selected) s

-- The tests on two drawn indexes, in the order of the source; `rest` is what `continue` goes on
-- with.
unfoldable pub pick :
    Bool
    → Bool
    → ℕ
    → ℕ
    → M Scheduler (Option SelectedBackend)
    → M Scheduler (Option SelectedBackend)
unfolding selected_at
pick a b first second rest s =
    if not a && not b
    then rest s
    else if a && not b
    then selected_at first s
    else if not a && b
    then selected_at second s
    else selected_at
        (if leb (get_or s.active first 0) (get_or s.active second 0) then first else second) s

-- One attempt.
unfoldable pub attempt :
    ℕ → ℕ → M Scheduler (Option SelectedBackend) → M Scheduler (Option SelectedBackend)
unfolding routable pick
attempt first second rest = do a ← routable first; b ← routable second; pick a b first second rest

-- The loop over `attempts`, with `rounds` rounds left; after it `select` goes on to its last part.
unfoldable pub choices_from : ℕ → ℕ → (ℕ → ℕ) → M Scheduler (Option SelectedBackend)
choices_from zero attempts draws = select_least
choices_from (suc rounds) attempts draws =
    let rest = choices_from rounds (attempts + 1) draws in
    attempt (draws (2 * attempts)) (draws (2 * attempts + 1)) rest

-- `select` on a pool that is not empty.
unfoldable pub select_by : Policy → (ℕ → ℕ) → M Scheduler (Option SelectedBackend)
select_by round_robin draws s =
    rotate_from (length s.backends) s.next 0 (record s { next = (s.next + 1) % u64_mod })
select_by least_connections draws s = select_least s
select_by power_of_two_choices draws s =
    if ltb 1 (length s.backends)
    then choices_from (length s.backends * 2) 0 draws s
    else select_least s

unfoldable pub select : (ℕ → ℕ) → M Scheduler (Option SelectedBackend)
unfolding select_by
select draws s = if length s.backends == 0 then done none s else select_by s.policy draws s

unfoldable pub mark_open : ℕ → M Scheduler (Unit {0})
mark_open index =
    at_index (λ s. s.active) index
      λ s. done tt (record s {
        active = fetch_add u64_mod s.active index 1;
        total = fetch_add u64_mod s.total index 1;
      })

-- `while (current > 0 && !compare_exchange_weak(current, current - 1))`: the exchange that ends
-- the loop finds the cell as it was loaded last.
abbrev pub decrement : ℕ → ℕ
decrement current = if ltb 0 current then current - 1 else current

unfoldable pub mark_closed : ℕ → M Scheduler (Unit {0})
mark_closed index =
    at_index (λ s. s.active) index
      λ s. done tt (record s { active = set s.active index (decrement (get_or s.active index 0)) })

unfoldable pub mark_failure : ℕ → M Scheduler (Unit {0})
mark_failure index =
    at_index (λ s. s.errors) index
      λ s. done tt (record s {
        errors = fetch_add u64_mod s.errors index 1;
        consecutive_failures = fetch_add u32_mod s.consecutive_failures index 1;
      })

unfoldable pub set_state : ℕ → BackendState → M Scheduler (Unit {0})
set_state index st =
    at_index (λ s. s.states) index λ s. done tt (record s { states = set s.states index st })

unfoldable pub reset_failures : ℕ → M Scheduler (Unit {0})
reset_failures index s =
    done tt (record s { consecutive_failures = set s.consecutive_failures index 0 })

unfoldable pub mark_healthy : ℕ → M Scheduler (Unit {0})
unfolding state set_state reset_failures
mark_healthy index =
    at_index (λ s. s.states) index
      do
        _ ← reset_failures index
        st ← state index
        if is_down st then set_state index up else pure tt

unfoldable pub backend_count : M Scheduler ℕ
backend_count s = done (length s.backends) s

unfoldable pub active_connections : ℕ → M Scheduler ℕ
active_connections index = at_index (λ s. s.active) index λ s. done (get_or s.active index 0) s

unfoldable pub total_connections : ℕ → M Scheduler ℕ
total_connections index = at_index (λ s. s.total) index λ s. done (get_or s.total index 0) s

unfoldable pub error_count : ℕ → M Scheduler ℕ
error_count index = at_index (λ s. s.errors) index λ s. done (get_or s.errors index 0) s

unfoldable pub consecutive_failures : ℕ → M Scheduler ℕ
consecutive_failures index =
    at_index (λ s. s.consecutive_failures) index λ s. done (get_or s.consecutive_failures index 0) s

unfoldable pub endpoint : ℕ → M Scheduler Endpoint
endpoint index = at_index (λ s. s.backends) index λ s. done (get_or s.backends index no_endpoint) s

unfoldable pub policy : M Scheduler Policy
policy s = done s.policy s
