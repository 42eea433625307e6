-- ===== src/Scheduler/Selection.antt =====
-- About `select` of src/scheduler.cpp: what the three policies have in common.
use native.Mathlib.Nat.{mod-lt, mod-eq_of_lt}
use tcp_load_balancer.Base.{
  ℕ, ◌+◌, ◌*◌, ◌%◌, ◌<◌, ◌≤◌, ◌≡◌, refl, Option, none, some, inl, inr, ◌⊎◌, arith, length,
  length-cases, done, Outcome, Between, ◌∙◌, ap, subst, turn_of, turn_of_lem, le-or-lt,
}
use tcp_load_balancer.Config.{Policy, round_robin, least_connections, power_of_two_choices}
use tcp_load_balancer.Scheduler.{Scheduler, SelectedBackend, select, u64_mod}
use tcp_load_balancer.Scheduler.Choices.{Beats, IsAnswer, select-power_of_two_choices}
use tcp_load_balancer.Scheduler.Least.{
  IsLeast, answer, select_least-IsLeast, select-least_connections,
}
use tcp_load_balancer.Scheduler.Rotation.{slot, IsFirst, advanced, select-round_robin}
use tcp_load_balancer.Scheduler.Shape.{IsWellFormed, Routable, Unroutable, handle}

-- The answer is a routable backend in range with its endpoint, or nothing where none is routable.
abbrev pub IsSound : Scheduler → Option SelectedBackend → Type 0
IsSound s none = Between (Unroutable s) 0 (length s.backends)
IsSound s (some b) = (i : ℕ) × (i < length s.backends) × Routable s i × (b ≡ handle s i)

IsFirst-IsSound :
    (s : Scheduler) (r : Option SelectedBackend)
    → s.next + length s.backends ≤ u64_mod
    → 0 < length s.backends
    → IsFirst s s.next 0 (length s.backends) r
    → IsSound s r
IsFirst-IsSound s none b n f = λ i p q.
    let m = length s.backends in
    let (small, meets) = turn_of_lem s.next m i q in
    let e : slot s s.next (turn_of s.next m i) ≡ i =
      ap (λ x. x % m) (mod-eq_of_lt (omega arith)) ∙ meets in
    subst (Unroutable s) e (f (turn_of s.next m i) (omega arith) small)
IsFirst-IsSound s (some b) bound n (k, p, q, u, e, before) = (slot s s.next k, mod-lt _ n, u, e)

IsLeast-IsSound :
    (s : Scheduler) (r : Option ℕ) → IsLeast s (length s.backends) r → IsSound s (answer s r)
IsLeast-IsSound s none l = l
IsLeast-IsSound s (some m) l = (m, l.in_range, l.is_routable, refl)

IsAnswer-IsSound :
    (draws : ℕ → ℕ) (s : Scheduler) (last : ℕ) (r : Option ℕ)
    → ((k : ℕ) → draws k < length s.backends)
    → IsAnswer draws s 0 last r
    → IsSound s (answer s r)
IsAnswer-IsSound draws s last r d (inl (b, e, c)) =
    rw e (b, chosen_bound c.wins, chosen_routable c.wins, refl)
  where
    chosen_bound :
        ((b ≡ draws (2 * c.round)) × Beats s b (draws (2 * c.round + 1)))
          ⊎ ((b ≡ draws (2 * c.round + 1)) × Beats s b (draws (2 * c.round)))
        → b < length s.backends
    chosen_bound (inl (q, _)) = rw q (d (2 * c.round))
    chosen_bound (inr (q, _)) = rw q (d (2 * c.round + 1))

    chosen_routable :
        ((b ≡ draws (2 * c.round)) × Beats s b (draws (2 * c.round + 1)))
          ⊎ ((b ≡ draws (2 * c.round + 1)) × Beats s b (draws (2 * c.round)))
        → Routable s b
    chosen_routable (inl (_, w)) = w.0
    chosen_routable (inr (_, w)) = w.0
IsAnswer-IsSound draws s last r d (inr (m, l)) = IsLeast-IsSound s r l

-- `select` moves the round-robin counter, or nothing.
abbrev pub Moves : Scheduler → Scheduler → Type 0
Moves s t = (t ≡ s) ⊎ (t ≡ advanced s)

-- The result of a call that throws nothing.
abbrev pub Selects : (ℕ → ℕ) → Scheduler → Type 0
Selects draws s =
    (r : Option SelectedBackend) × (t : Scheduler) × (select draws s ≡ done r t)
    × Moves s t
    × IsSound s r

select_one :
    (draws : ℕ → ℕ) (s : Scheduler)
    → IsWellFormed s
    → s.policy ≡ power_of_two_choices
    → length s.backends ≤ 1
    → Selects draws s
unfolding select
select_one draws s w p h = elim (length-cases s.backends) [
  | inl e ↦ (none, s, ground arith, inl refl, λ j a b. absurd (omega (arith, b, e)))
  | inr e ↦
      let (r, run, least) = select_least-IsLeast s w in
      (answer s r, s, ground arith, inl refl, IsLeast-IsSound s r least)
]

select_nonempty :
    (draws : ℕ → ℕ) (s : Scheduler) (p : Policy)
    → IsWellFormed s
    → s.policy ≡ p
    → ((k : ℕ) → draws k < length s.backends)
    → s.next + length s.backends ≤ u64_mod
    → 0 < length s.backends
    → Selects draws s
select_nonempty draws s round_robin w p d b n =
    let (r, run, first) = select-round_robin draws s w p n in
    (r, advanced s, run, inr refl, IsFirst-IsSound s r b n first)
select_nonempty draws s least_connections w p d b n =
    let (r, run, least) = select-least_connections draws s w p in
    (answer s r, s, run, inl refl, IsLeast-IsSound s r least)
select_nonempty draws s power_of_two_choices w p d b n = elim (le-or-lt (length s.backends) 1) [
  | inl h ↦ select_one draws s w p h
  | inr h ↦
      let (r, run, ans) = select-power_of_two_choices draws s w p h d in
      (answer s r, s, run, inl refl, IsAnswer-IsSound draws s (length s.backends * 2) r d ans)
]

-- On a well-formed pool, under each policy, with the random draws in range and a round-robin
-- counter that does not wrap around within the next n calls: `select` throws nothing, changes
-- nothing but that counter, and answers a routable backend in range with its endpoint, or nothing
-- if no backend of the pool is routable.
pub select-IsSound :
    (draws : ℕ → ℕ) (s : Scheduler)
    → IsWellFormed s
    → ((k : ℕ) → 0 < length s.backends → draws k < length s.backends)
    → s.next + length s.backends ≤ u64_mod
    → Selects draws s
unfolding select
select-IsSound draws s w d b = elim (length-cases s.backends) [
  | inl e ↦ (none, s, ground arith, inl refl, λ j p q. absurd (omega (arith, q, e)))
  | inr n ↦ select_nonempty draws s s.policy w refl (λ k. d k n) b n
]

sound-Routable :
    (s t u : Scheduler) (b : SelectedBackend) (r : Option SelectedBackend)
    (o : Outcome Scheduler (Option SelectedBackend))
    → o ≡ done r u
    → o ≡ done (some b) t
    → IsSound s r
    → (b.index < length s.backends) × Routable s b.index
sound-Routable s t u b none o e f sound = cc
sound-Routable s t u b (some c) o e f (i, h, k, handled) =
    let at : b.index ≡ i = ground arith in rw at (h, k)

-- The same, read off an answer.
pub select-Routable :
    (draws : ℕ → ℕ) (s t : Scheduler) (b : SelectedBackend)
    → Selects draws s
    → select draws s ≡ done (some b) t
    → (b.index < length s.backends) × Routable s b.index
select-Routable draws s t b (r, u, run, moved, sound) e =
    sound-Routable s t u b r (select draws s) run e sound
