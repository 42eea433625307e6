-- ===== src/Scheduler/Least.antt =====
-- About the least-connections policy of `select` in src/scheduler.cpp.
use tcp_load_balancer.Base.{
  ℕ, zero, suc, ◌+◌, ◌<◌, ◌≤◌, ◌≡◌, refl, true, false, Option, none, some, inl, inr, arith, length,
  length-cases, get_or, Bool-cases, done, Between, Between-concat, Between-nil, ◌&&◌, if◌then◌else◌,
}
use tcp_load_balancer.Scheduler.{
  Scheduler, SelectedBackend, least_connections, up, is_up, improves, least_from, found,
  select_least, select,
}
use tcp_load_balancer.Scheduler.Shape.{IsWellFormed, Routable, Unroutable, handle}

abbrev pub load : Scheduler → ℕ → ℕ
load s i = get_or s.active i 0

-- Backend `m` is routable, no routable backend below `n` has fewer active connections, and each
-- routable backend before it has more.
pub record IsFewest (s : Scheduler) (n m : ℕ) : Type 0 where
  pub in_range : m < n
  pub is_routable : Routable s m
  pub fewest : Between (λ j. Routable s j → load s m ≤ load s j) 0 n
  pub leftmost : Between (λ j. Routable s j → load s m < load s j) 0 m

-- What the loop of `select` has chosen among the backends below `n`.
abbrev pub IsLeast : Scheduler → ℕ → Option ℕ → Type 0
IsLeast s n none = Between (Unroutable s) 0 n
IsLeast s n (some m) = IsFewest s n m

skip-IsLeast :
    (s : Scheduler) (i : ℕ) (selected : Option ℕ)
    → Unroutable s i
    → IsLeast s i selected
    → IsLeast s (i + 1) selected
skip-IsLeast s i none h l = Between-concat (Unroutable s) 0 i l h
skip-IsLeast s i (some m) h l = record {
  in_range = omega (arith, l.in_range);
  is_routable = l.is_routable;
  fewest = Between-concat (λ j. Routable s j → load s m ≤ load s j) 0 i l.fewest (λ r. cc);
  leftmost = l.leftmost;
}

Unroutable-lt :
    (s : Scheduler) (i : ℕ)
    → Between (Unroutable s) 0 i
    → Between (λ j. Routable s j → load s i < load s j) 0 i
Unroutable-lt s i l j a b r = cc (l j a b)

take-IsLeast :
    (s : Scheduler) (i : ℕ) (selected : Option ℕ)
    → Routable s i
    → improves s.active i selected ≡ true
    → IsLeast s i selected
    → IsFewest s (i + 1) i
unfolding improves
take-IsLeast s i none r h l = record {
  in_range = omega arith;
  is_routable = r;
  fewest =
      Between-concat (λ j. Routable s j → load s i ≤ load s j) 0 i (λ j a b q. cc (l j a b))
        (λ _. omega arith);
  leftmost = λ j a b q. cc (l j a b);
}
take-IsLeast s i (some m) r h l = record {
  in_range = omega arith;
  is_routable = r;
  fewest =
      Between-concat (λ j. Routable s j → load s i ≤ load s j) 0 i
        (λ j a b q. ground (arith, l.fewest j a b q)) (λ _. omega arith);
  leftmost = λ j a b q. ground (arith, l.fewest j a b q);
}

keep-IsLeast :
    (s : Scheduler) (i : ℕ) (selected : Option ℕ)
    → improves s.active i selected ≡ false
    → IsLeast s i selected
    → IsLeast s (i + 1) selected
unfolding improves
keep-IsLeast s i none h l = cc
keep-IsLeast s i (some m) h l = record {
  in_range = omega (arith, l.in_range);
  is_routable = l.is_routable;
  fewest =
      Between-concat (λ j. Routable s j → load s m ≤ load s j) 0 i l.fewest (λ _. ground arith);
  leftmost = l.leftmost;
}

-- What one round makes of the choice.
abbrev update : Scheduler → ℕ → Option ℕ → Option ℕ
update s i selected =
    if is_up (get_or s.states i up) && improves s.active i selected then some i else selected

update-IsLeast :
    (s : Scheduler) (i : ℕ) (selected : Option ℕ)
    → IsLeast s i selected
    → IsLeast s (i + 1) (update s i selected)
update-IsLeast s i selected l = elim (Bool-cases (is_up (get_or s.states i up))) [
  | inr h ↦ rw h (skip-IsLeast s i selected h l)
  | inl h ↦ elim (Bool-cases (improves s.active i selected)) [
    | inl b ↦ rw (h, b) (take-IsLeast s i selected h b l)
    | inr b ↦ rw (h, b) (keep-IsLeast s i selected b l)
  ]
]

least_from-IsLeast :
    (rounds : ℕ) (s : Scheduler) (i n : ℕ) (selected : Option ℕ)
    → length s.states ≡ n
    → i + rounds ≡ n
    → IsLeast s i selected
    → (r : Option ℕ) × (least_from rounds i selected s ≡ done r s) × IsLeast s n r
unfolding least_from
least_from-IsLeast zero s i n selected w e l =
    let e' : i ≡ n = omega arith in (selected, refl, rw (← e') l)
least_from-IsLeast (suc rounds) s i n selected w e l =
    let (r, run, least) =
      least_from-IsLeast rounds s (i + 1) n (update s i selected) w (omega arith)
        (update-IsLeast s i selected l) in
    (r, ground arith, least)

-- What `select` answers for the choice of the loop.
abbrev pub answer : Scheduler → Option ℕ → Option SelectedBackend
answer s none = none
answer s (some m) = some (handle s m)

found_lem : (s : Scheduler) (r : Option ℕ) → found r s ≡ done (answer s r) s
unfolding found
found_lem s none = refl
found_lem s (some m) = refl

pub select_least-IsLeast :
    (s : Scheduler)
    → IsWellFormed s
    → (r : Option ℕ) × (select_least s ≡ done (answer s r) s) × IsLeast s (length s.backends) r
unfolding select_least
select_least-IsLeast s w =
    let n = length s.backends in
    let (r, run, least) =
      least_from-IsLeast (length s.active) s 0 n none w.state_slots (omega (arith, w.active_slots))
        (Between-nil (Unroutable s) 0 0 (omega arith)) in
    (r, ground (arith, run, found_lem s r), least)

-- On a well-formed pool under the least-connections policy, `select` throws nothing and changes
-- nothing. It answers nothing when no backend is routable, and otherwise a routable backend in
-- range with its endpoint, such that no routable backend has fewer active connections and every
-- routable backend before it has more.
pub select-least_connections :
    (draws : ℕ → ℕ) (s : Scheduler)
    → IsWellFormed s
    → s.policy ≡ least_connections
    → (r : Option ℕ) × (select draws s ≡ done (answer s r) s) × IsLeast s (length s.backends) r
unfolding select
select-least_connections draws s w p = elim (length-cases s.backends) [
  | inl e ↦ (none, ground arith, λ j a b. absurd (omega (arith, b, e)))
  | inr e ↦ let (r, run, least) = select_least-IsLeast s w in (r, ground arith, least)
]
