-- ===== src/Scheduler/Calls.antt =====
-- Histories of calls on a scheduler, with indexes in range or not.
use tcp_load_balancer.Base.{
  ℕ, ◌<◌, ◌≤◌, ◌≡◌, refl, ◌⊎◌, inl, inr, List, [], ◌∷◌, arith, length, length-set, done, throw,
  out_of_range, Outcome, after, le-or-lt, ◌∙◌,
}
use tcp_load_balancer.Scheduler.{
  Scheduler, BackendState, mark_open, mark_closed, mark_failure, mark_healthy, set_state,
}
use tcp_load_balancer.Scheduler.Shape.{IsWellFormed}

-- The calls that change slots of a scheduler.
pub data Call : Type 0 where
  opens closes fails heals : ℕ → Call
  sets : ℕ → BackendState → Call

unfoldable pub perform : Call → Scheduler → Outcome Scheduler (Unit {0})
perform (opens i) s = mark_open i s
perform (closes i) s = mark_closed i s
perform (fails i) s = mark_failure i s
perform (heals i) s = mark_healthy i s
perform (sets i st) s = set_state i st s

abbrev pub index_of : Call → ℕ
index_of (opens i) = i
index_of (closes i) = i
index_of (fails i) = i
index_of (heals i) = i
index_of (sets i st) = i

-- A caller that catches what a call throws goes on with the object as it is.
unfoldable pub run : List Call → Scheduler → Scheduler
run [] s = s
run (c ∷ cs) s = run cs (after (perform c s))

-- What a call leaves alone: the shape, the backends, the policy and the round-robin counter.
pub record Keeps (s t : Scheduler) : Type 0 where
  pub shape : IsWellFormed t
  pub backends_kept : t.backends ≡ s.backends
  pub policy_kept : t.policy ≡ s.policy
  pub next_kept : t.next ≡ s.next

-- Writing one slot keeps the number of slots.
pub perform-Keeps : (c : Call) (s : Scheduler) → IsWellFormed s → Keeps s (after (perform c s))
unfolding perform mark_open mark_closed mark_failure mark_healthy set_state
perform-Keeps (opens i) s w = grind (arith, length-set)
perform-Keeps (closes i) s w = grind (arith, length-set)
perform-Keeps (fails i) s w = grind (arith, length-set)
perform-Keeps (heals i) s w = grind (arith, length-set)
perform-Keeps (sets i st) s w = grind (arith, length-set)

pub perform_past_end :
    (c : Call) (s : Scheduler)
    → IsWellFormed s
    → length s.backends ≤ index_of c
    → perform c s ≡ throw out_of_range s
unfolding perform mark_open mark_closed mark_failure mark_healthy set_state
perform_past_end (opens i) s w h = ground arith
perform_past_end _ s w h = ground arith

pub perform_in_range :
    (c : Call) (s : Scheduler)
    → IsWellFormed s
    → index_of c < length s.backends
    → perform c s ≡ done tt (after (perform c s))
unfolding perform mark_open mark_closed mark_failure mark_healthy set_state
perform_in_range (opens i) s w h = ground arith
perform_in_range _ s w h = ground arith

-- A call with an index past the last backend throws `std::out_of_range` and changes nothing; any
-- other call on a well-formed scheduler returns, and leaves a well-formed scheduler over the same
-- backends.
pub perform_guarded :
    (c : Call) (s : Scheduler)
    → IsWellFormed s
    → ((length s.backends ≤ index_of c) × (perform c s ≡ throw out_of_range s))
      ⊎ ((index_of c < length s.backends)
          × ((t : Scheduler) × (perform c s ≡ done tt t) × Keeps s t))
perform_guarded c s w = elim (le-or-lt (length s.backends) (index_of c)) [
  | inl h ↦ inl (h, perform_past_end c s w h)
  | inr h ↦ inr (h, (after (perform c s), perform_in_range c s w h, perform-Keeps c s w))
]

-- So no history of calls can break the shape.
pub run-Keeps : (cs : List Call) (s : Scheduler) → IsWellFormed s → Keeps s (run cs s)
unfolding run
run-Keeps [] s w = record { shape = w; backends_kept = refl; policy_kept = refl; next_kept = refl }
run-Keeps (c ∷ cs) s w =
    let k = perform-Keeps c s w in
    let r = run-Keeps cs (after (perform c s)) k.shape in
    record {
      shape = r.shape;
      backends_kept = r.backends_kept ∙ k.backends_kept;
      policy_kept = r.policy_kept ∙ k.policy_kept;
      next_kept = r.next_kept ∙ k.next_kept;
    }
