-- ===== src/Scheduler/Draining.antt =====
-- About the state of a backend over a history of calls on the scheduler.
use tcp_load_balancer.Base.{
  ℕ, ◌<◌, ◌≡◌, refl, ap, ◌∙◌, Bool, true, false, ◌||◌, ◌&&◌, List, [], ◌∷◌, arith, length, get_or,
  ◌==◌, if◌then◌else◌, some, done, ◌+◌, ◌≤◌, ◌≢◌,
}
use tcp_load_balancer.Scheduler.{
  Scheduler, SelectedBackend, BackendState, up, down, draining, select, u64_mod,
}
use tcp_load_balancer.Scheduler.Calls.{
  Call, opens, closes, fails, heals, sets, index_of, run, run-Keeps,
}
use tcp_load_balancer.Scheduler.Selection.{select-IsSound, select-Routable}
use tcp_load_balancer.Scheduler.Shape.{IsWellFormed}
use tcp_load_balancer.Scheduler.Tally.{Tally, tally, recover, observe, observe_all, tally-run}

abbrev is_heal : Call → Bool
is_heal (opens i) = false
is_heal (closes i) = false
is_heal (fails i) = false
is_heal (heals i) = true
is_heal (sets i st) = false

abbrev is_set : Call → Bool
is_set (opens i) = false
is_set (closes i) = false
is_set (fails i) = false
is_set (heals i) = false
is_set (sets i st) = true

-- Some call of the history marks backend `i` healthy.
abbrev pub healed : ℕ → List Call → Bool
healed i [] = false
healed i (c ∷ cs) = (index_of c == i && is_heal c) || healed i cs

-- Some call of the history sets the state of backend `i`.
abbrev pub assigned : ℕ → List Call → Bool
assigned i [] = false
assigned i (c ∷ cs) = (index_of c == i && is_set c) || assigned i cs

recover_idem : (st : BackendState) → recover (recover st) ≡ recover st
recover_idem up = refl
recover_idem down = refl
recover_idem draining = refl

observe-state :
    (i : ℕ) (c : Call) (t : Tally)
    → (index_of c == i && is_set c) ≡ false
    → (observe i c t).state ≡ (if index_of c == i && is_heal c then recover t.state else t.state)
observe-state i (opens j) t h = ground arith
observe-state i (closes j) t h = ground arith
observe-state i (fails j) t h = ground arith
observe-state i (heals j) t h = ground arith
observe-state i (sets j st) t h = ground arith

observe_all-state :
    (i : ℕ) (cs : List Call) (t : Tally)
    → assigned i cs ≡ false
    → (observe_all i cs t).state ≡ (if healed i cs then recover t.state else t.state)
observe_all-state i [] t h = refl
observe_all-state i (c ∷ cs) t h =
    ground
      (arith, observe-state i c t, observe_all-state i cs (observe i c t), recover_idem t.state)

-- On a well-formed scheduler, a history with no `set_state` on a backend in range changes this
-- backend's state only if it marks the backend healthy, and then only from DOWN to UP.
pub state-run :
    (cs : List Call) (i : ℕ) (s : Scheduler)
    → IsWellFormed s
    → i < length s.backends
    → assigned i cs ≡ false
    → get_or (run cs s).states i up
      ≡ (if healed i cs then recover (get_or s.states i up) else get_or s.states i up)
state-run cs i s w h quiet =
    ap (λ (t : Tally). t.state) (tally-run cs i s w h) ∙ observe_all-state i cs (tally i s) quiet

-- A backend in range that is draining stays out of the rotation through any history that does not
-- set its state: `select`, with the random draws in range and a counter that does not wrap around
-- within the next n calls, never answers it.
pub draining-unselected :
    (cs : List Call) (draws : ℕ → ℕ) (i : ℕ) (s t : Scheduler) (b : SelectedBackend)
    → IsWellFormed s
    → i < length s.backends
    → get_or s.states i up ≡ draining
    → assigned i cs ≡ false
    → ((k : ℕ) → draws k < length s.backends)
    → s.next + length s.backends ≤ u64_mod
    → select draws (run cs s) ≡ done (some b) t
    → b.index ≢ i
draining-unselected cs draws i s t b w h st quiet d bound e same =
    let k = run-Keeps cs s w in
    let sound =
      select-IsSound draws (run cs s) k.shape (λ j _. rw k.backends_kept (d j))
        (rw (k.backends_kept, k.next_kept) bound) in
    let routable = (select-Routable draws (run cs s) t b sound e).1 in
    let still = state-run cs i s w h quiet in ground (arith, rw same at routable)
