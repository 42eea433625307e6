-- ===== src/Scheduler/Tally.antt =====
-- One backend's view of a scheduler: a tally of the calls that name it.
use tcp_load_balancer.Base.{
  ℕ, ◌+◌, ◌-◌, ◌%◌, ◌<◌, ◌≡◌, refl, ap, ◌∙◌, List, [], ◌∷◌, arith, length, get_or, get_or-set, ◌==◌,
  if◌then◌else◌, after,
}
use tcp_load_balancer.Scheduler.{
  Scheduler, BackendState, up, down, draining, is_down, mark_open, mark_closed, mark_failure,
  mark_healthy, set_state, u64_mod, u32_mod,
}
use tcp_load_balancer.Scheduler.Calls.{
  Call, opens, closes, fails, heals, sets, index_of, perform, run, perform-Keeps,
}
use tcp_load_balancer.Scheduler.Shape.{IsWellFormed}

-- The specification of one backend.
pub record Tally : Type 0 where
  pub active : ℕ
  pub total : ℕ
  pub errors : ℕ
  pub failures : ℕ
  pub state : BackendState

abbrev pub tally : ℕ → Scheduler → Tally
tally i s = record {
  active = get_or s.active i 0;
  total = get_or s.total i 0;
  errors = get_or s.errors i 0;
  failures = get_or s.consecutive_failures i 0;
  state = get_or s.states i up;
}

abbrev pub recover : BackendState → BackendState
recover up = up
recover down = up
recover draining = draining

-- A call that names the backend.
abbrev pub react : Call → Tally → Tally
react (opens i) t = record t { active = (t.active + 1) % u64_mod; total = (t.total + 1) % u64_mod }
react (closes i) t = record t { active = t.active - 1 }
react (fails i) t = record t {
  errors = (t.errors + 1) % u64_mod;
  failures = (t.failures + 1) % u32_mod;
}
react (heals i) t = record t { failures = 0; state = recover t.state }
react (sets i st) t = record t { state = st }

-- A call as backend `i` sees it.
abbrev pub observe : ℕ → Call → Tally → Tally
observe i c t = if index_of c == i then react c t else t

abbrev pub observe_all : ℕ → List Call → Tally → Tally
observe_all i [] t = t
observe_all i (c ∷ cs) t = observe_all i cs (observe i c t)

is_down-recover : (st : BackendState) → (if is_down st then up else st) ≡ recover st
is_down-recover up = refl
is_down-recover down = refl
is_down-recover draining = refl

module _ (i : ℕ) (s : Scheduler) (w : IsWellFormed s) (h : i < length s.backends) where
  pub tally-perform : (c : Call) → tally i (after (perform c s)) ≡ observe i c (tally i s)
  unfolding perform mark_open mark_closed mark_failure mark_healthy set_state
  tally-perform (opens j) = grind (arith, get_or-set)
  tally-perform (closes j) = grind (arith, get_or-set)
  tally-perform (fails j) = grind (arith, get_or-set)
  tally-perform (heals j) = grind (arith, get_or-set)
  tally-perform (sets j st) = grind (arith, get_or-set)

-- On a well-formed scheduler, after any history of calls, the slots of each backend are those of a
-- tally that has seen the calls naming this backend, one after the other, and no other call.
pub tally-run :
    (cs : List Call) (i : ℕ) (s : Scheduler)
    → IsWellFormed s
    → i < length s.backends
    → tally i (run cs s) ≡ observe_all i cs (tally i s)
unfolding run
tally-run [] i s w h = refl
tally-run (c ∷ cs) i s w h =
    let k = perform-Keeps c s w in
    tally-run cs i (after (perform c s)) k.shape (rw k.backends_kept h)
    ∙ ap (observe_all i cs) (tally-perform i s w h c)
