-- ===== src/Scheduler/Cycle.antt =====
-- About the round-robin policy over several calls of `select` in src/scheduler.cpp.
use native.Mathlib.Nat.{mod-lt, mod-eq_of_lt}
use tcp_load_balancer.Base.{
  ℕ, zero, suc, ◌+◌, ◌%◌, ◌<◌, ◌≤◌, ◌≡◌, Option, none, some, arith, length, done, throw, after,
  Between, ◌∙◌, sym, ap, Outcome, turn_of, turn_of_lem, turn-injective,
}
use tcp_load_balancer.Scheduler.{Scheduler, SelectedBackend, round_robin, select, u64_mod}
use tcp_load_balancer.Scheduler.Rotation.{
  slot, IsFirst, advanced, select-round_robin, advanced-IsWellFormed,
}
use tcp_load_balancer.Scheduler.Shape.{IsWellFormed, Routable, handle}

-- The answer of a call.
abbrev pub answered : Outcome Scheduler (Option SelectedBackend) → Option SelectedBackend
answered (done r s) = r
answered (throw e s) = none

-- The scheduler after `count` calls of `select`.
abbrev pub after_selects : ℕ → (ℕ → ℕ) → Scheduler → Scheduler
after_selects zero draws s = s
after_selects (suc count) draws s = after_selects count draws (after (select draws s))

abbrev pub AllRoutable : Scheduler → Type 0
AllRoutable s = Between (Routable s) 0 (length s.backends)

-- The loop stops at its first round.
first-slot :
    (s : Scheduler) (start : ℕ) (r : Option SelectedBackend)
    → Routable s (slot s start 0)
    → 0 < length s.backends
    → IsFirst s start 0 (length s.backends) r
    → r ≡ some (handle s (slot s start 0))
first-slot s start none h n f = cc (f 0 (omega arith) n)
first-slot s start (some b) h n (zero, a, c, u, e, f) = ap some e
first-slot s start (some b) h n (suc k, a, c, u, e, f) = cc (f 0 (omega arith) (omega arith))

-- What the k-th call from now answers.
nth-answer :
    (k : ℕ) (draws : ℕ → ℕ) (s : Scheduler)
    → IsWellFormed s
    → s.policy ≡ round_robin
    → 0 < length s.backends
    → AllRoutable s
    → s.next + k < u64_mod
    → answered (select draws (after_selects k draws s))
      ≡ some (handle s ((s.next + k) % length s.backends))
nth-answer zero draws s w p n all b =
    let (r, run, first) = select-round_robin draws s w p n in
    let e : slot s s.next 0 ≡ (s.next + 0) % length s.backends =
      ap (λ x. x % length s.backends) (mod-eq_of_lt b) in
    rw run (
      first-slot s s.next r (all _ (omega arith) (mod-lt _ n)) n first
      ∙ ap (λ i. some (handle s i)) e)
nth-answer (suc k) draws s w p n all b =
    let (r, run, first) = select-round_robin draws s w p n in
    let e : (s.next + 1) % u64_mod ≡ s.next + 1 = mod-eq_of_lt (omega arith) in
    let ih = nth-answer k draws (advanced s) (advanced-IsWellFormed s w) p n all (omega arith) in
    ap (λ t. answered (select draws (after_selects k draws (after t)))) run
    ∙ ih
    ∙ ap (λ m. some (handle s (m % length s.backends))) (omega (arith, e))

-- On a well-formed pool of n routable backends under the round-robin policy, whose counter does
-- not wrap around within the next n calls, these n calls of `select` answer each backend exactly
-- once: for each i below n there is a call k below n that answers backend i, and no other does.
pub select-cycle :
    (draws : ℕ → ℕ) (s : Scheduler) (i : ℕ)
    → IsWellFormed s
    → s.policy ≡ round_robin
    → AllRoutable s
    → s.next + length s.backends ≤ u64_mod
    → i < length s.backends
    → (k : ℕ) × (k < length s.backends)
      × (answered (select draws (after_selects k draws s)) ≡ some (handle s i))
      × ((j : ℕ)
          → j < length s.backends
          → answered (select draws (after_selects j draws s)) ≡ some (handle s i)
          → j ≡ k)
select-cycle draws s i w p all b h =
    let n = length s.backends in
    let k = turn_of s.next n i in
    let (small, meets) = turn_of_lem s.next n i h in
    let nth = λ (j : ℕ) (q : j < n). nth-answer j draws s w p (omega arith) all (omega arith) in
    (
      k,
      small,
      nth k small ∙ ap (λ m. some (handle s m)) meets,
      λ j q e.
          turn-injective s.next n j k q small
            (index-injective (sym (nth j q) ∙ e ∙ sym (ap (λ m. some (handle s m)) meets))),
    )
  where
    index-injective :
        {a c : ℕ} → ◌≡◌ {A = Option SelectedBackend} (some (handle s a)) (some (handle s c)) → a ≡ c
    index-injective e = ground arith
