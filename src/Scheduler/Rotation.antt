-- ===== src/Scheduler/Rotation.antt =====
-- About the round-robin policy of `select` in src/scheduler.cpp.
use native.Mathlib.Nat.{mod-lt}
use tcp_load_balancer.Base.{
  ℕ, zero, suc, ◌+◌, ◌%◌, ◌<◌, ◌≤◌, ◌≡◌, refl, Option, none, some, inl, inr, arith, length, get_or,
  Bool-cases, done, Between, Between-cons,
}
use tcp_load_balancer.Scheduler.{
  Scheduler, SelectedBackend, round_robin, up, is_up, rotate_from, select, u64_mod,
}
use tcp_load_balancer.Scheduler.Shape.{IsWellFormed, Routable, Unroutable, handle}

-- The backend that the loop of `select` tries in round `offset`.
abbrev pub slot : Scheduler → ℕ → ℕ → ℕ
slot s start offset = (start + offset) % u64_mod % length s.backends

-- `r` is the first routable slot of the rounds from `offset` up to `last`, if there is one.
abbrev pub IsFirst : Scheduler → ℕ → ℕ → ℕ → Option SelectedBackend → Type 0
IsFirst s start offset last none = Between (λ k. Unroutable s (slot s start k)) offset last
IsFirst s start offset last (some b) =
    (k : ℕ) × (offset ≤ k)
    × (k < last)
    × Routable s (slot s start k)
    × (b ≡ handle s (slot s start k))
    × Between (λ j. Unroutable s (slot s start j)) offset k

IsFirst-skip :
    (s : Scheduler) (start offset last : ℕ) (r : Option SelectedBackend)
    → Unroutable s (slot s start offset)
    → IsFirst s start (offset + 1) last r
    → IsFirst s start offset last r
IsFirst-skip s start offset last none h f =
    Between-cons (λ k. Unroutable s (slot s start k)) offset last h f
IsFirst-skip s start offset last (some b) h (k, a, c, u, e, f) =
    (k, omega arith, c, u, e, Between-cons (λ j. Unroutable s (slot s start j)) offset k h f)

-- The loop ends and throws nothing.
rotate_from-IsFirst :
    (rounds : ℕ) (s : Scheduler) (start offset last : ℕ)
    → IsWellFormed s
    → 0 < length s.backends
    → offset + rounds ≡ last
    → (r : Option SelectedBackend) × (rotate_from rounds start offset s ≡ done r s)
      × IsFirst s start offset last r
unfolding rotate_from
rotate_from-IsFirst zero s start offset last w n e = (none, refl, λ k a b. absurd (omega arith))
rotate_from-IsFirst (suc rounds) s start offset last w n e =
    let i = slot s start offset in
    let inside : i < length s.backends = mod-lt _ n in
    elim (Bool-cases (is_up (get_or s.states i up))) [
      | inl h ↦ (
        some (handle s i),
        ground arith,
        (offset, omega arith, omega arith, h, refl, λ j a b. absurd (omega arith)),
      )
      | inr h ↦
          let (r, run, first) =
            rotate_from-IsFirst rounds s start (offset + 1) last w n (omega arith) in
          (r, ground arith, IsFirst-skip s start offset last r h first)
    ]

-- The scheduler after a round-robin choice.
abbrev pub advanced : Scheduler → Scheduler
advanced s = record s { next = (s.next + 1) % u64_mod }

pub advanced-IsWellFormed : (s : Scheduler) → IsWellFormed s → IsWellFormed (advanced s)
advanced-IsWellFormed s w = ground arith

IsFirst-advanced :
    (s : Scheduler) (start offset last : ℕ) (r : Option SelectedBackend)
    → IsFirst (advanced s) start offset last r
    → IsFirst s start offset last r
IsFirst-advanced s start offset last none f = f
IsFirst-advanced s start offset last (some b) f = f

-- On a well-formed pool under the round-robin policy that has a backend, `select` throws nothing,
-- moves `next` on by one (modulo 2^64) and changes nothing else, and its result is the first
-- routable one of the slots `(next + k) mod 2^64 mod n` for k from 0 below the number n of
-- backends: the backend of that slot, or nothing exactly when no slot is routable.
pub select-round_robin :
    (draws : ℕ → ℕ) (s : Scheduler)
    → IsWellFormed s
    → s.policy ≡ round_robin
    → 0 < length s.backends
    → (r : Option SelectedBackend) × (select draws s ≡ done r (advanced s))
      × IsFirst s s.next 0 (length s.backends) r
unfolding select
select-round_robin draws s w p n =
    let m = length s.backends in
    let (r, run, first) =
      rotate_from-IsFirst m (advanced s) s.next 0 m (advanced-IsWellFormed s w) n (omega arith) in
    (r, ground arith, IsFirst-advanced s s.next 0 m r first)
