-- ===== src/Scheduler/Accounting.antt =====
-- The counters of a backend after a history of calls.
use tcp_load_balancer.Base.{
  ℕ, suc, ◌+◌, ◌%◌, ◌<◌, ◌≤◌, ◌≡◌, refl, ap, ◌∙◌, List, [], ◌∷◌, arith, length, get_or, take, ◌==◌,
  if◌then◌else◌,
}
use tcp_load_balancer.Scheduler.{Scheduler, u64_mod}
use tcp_load_balancer.Scheduler.Calls.{Call, opens, closes, fails, heals, sets, index_of, run}
use tcp_load_balancer.Scheduler.Shape.{IsWellFormed}
use tcp_load_balancer.Scheduler.Tally.{Tally, tally, observe, observe_all, tally-run}

abbrev is_open : Call → ℕ
is_open (opens i) = 1
is_open (closes i) = 0
is_open (fails i) = 0
is_open (heals i) = 0
is_open (sets i st) = 0

abbrev is_close : Call → ℕ
is_close (opens i) = 0
is_close (closes i) = 1
is_close (fails i) = 0
is_close (heals i) = 0
is_close (sets i st) = 0

-- How many calls of a history open, and how many close, a connection of backend `i`.
abbrev pub opened : ℕ → List Call → ℕ
opened i [] = 0
opened i (c ∷ cs) = (if index_of c == i then is_open c else 0) + opened i cs

abbrev pub closed : ℕ → List Call → ℕ
closed i [] = 0
closed i (c ∷ cs) = (if index_of c == i then is_close c else 0) + closed i cs

-- With `a` connections open before, no prefix of the history closes more than were opened.
abbrev pub IsCovered : ℕ → ℕ → List Call → Type 0
IsCovered i a cs = (k : ℕ) → closed i (take k cs) ≤ a + opened i (take k cs)

observe-active :
    (i : ℕ) (c : Call) (t : Tally)
    → (if index_of c == i then is_close c else 0)
      ≤ t.active + (if index_of c == i then is_open c else 0)
    → t.active + (if index_of c == i then is_open c else 0) < u64_mod
    → (observe i c t).active + (if index_of c == i then is_close c else 0)
      ≡ t.active + (if index_of c == i then is_open c else 0)
observe-active i (opens j) t h b = ground arith
observe-active i (closes j) t h b = ground arith
observe-active i (fails j) t h b = ground arith
observe-active i (heals j) t h b = ground arith
observe-active i (sets j st) t h b = ground arith

observe_all-active :
    (i : ℕ) (cs : List Call) (t : Tally)
    → IsCovered i t.active cs
    → t.active + opened i cs < u64_mod
    → (observe_all i cs t).active + closed i cs ≡ t.active + opened i cs
observe_all-active i [] t h b = refl
observe_all-active i (c ∷ cs) t h b =
    let e = observe-active i c t (omega (arith, h 1)) (omega arith) in
    omega (
      arith,
      e,
      observe_all-active i cs (observe i c t) (λ k. omega (arith, e, h (suc k)))
          (omega (arith, e, h 1)),
    )

-- On a well-formed scheduler: if no prefix of a history closes more connections of a backend than
-- were open and opened, and fewer than 2^64 are ever opened, then afterwards the backend's active
-- count plus the connections closed is the count before plus the connections opened.
pub active-run :
    (cs : List Call) (i : ℕ) (s : Scheduler)
    → IsWellFormed s
    → i < length s.backends
    → IsCovered i (get_or s.active i 0) cs
    → get_or s.active i 0 + opened i cs < u64_mod
    → get_or (run cs s).active i 0 + closed i cs ≡ get_or s.active i 0 + opened i cs
active-run cs i s w h covered bound = omega (
  arith,
  ap (λ (t : Tally). t.active) (tally-run cs i s w h),
  observe_all-active i cs (tally i s) covered bound,
)

observe-total :
    (i : ℕ) (c : Call) (t : Tally)
    → t.total < u64_mod
    → (observe i c t).total ≡ (t.total + (if index_of c == i then is_open c else 0)) % u64_mod
observe-total i (opens j) t h = ground arith
observe-total i (closes j) t h = ground arith
observe-total i (fails j) t h = ground arith
observe-total i (heals j) t h = ground arith
observe-total i (sets j st) t h = ground arith

observe_all-total :
    (i : ℕ) (cs : List Call) (t : Tally)
    → t.total < u64_mod
    → (observe_all i cs t).total ≡ (t.total + opened i cs) % u64_mod
observe_all-total i [] t h = omega arith
observe_all-total i (c ∷ cs) t h = omega (
  arith,
  observe-total i c t h,
  observe_all-total i cs (observe i c t) (omega (arith, observe-total i c t h)),
)

-- On a well-formed scheduler, whatever else a history of calls does, a backend's total count in
-- range grows by the connections opened, modulo 2^64.
pub total-run :
    (cs : List Call) (i : ℕ) (s : Scheduler)
    → IsWellFormed s
    → i < length s.backends
    → get_or s.total i 0 < u64_mod
    → get_or (run cs s).total i 0 ≡ (get_or s.total i 0 + opened i cs) % u64_mod
total-run cs i s w h bound =
    ap (λ (t : Tally). t.total) (tally-run cs i s w h) ∙ observe_all-total i cs (tally i s) bound
