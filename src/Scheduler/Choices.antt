-- ===== src/Scheduler/Choices.antt =====
-- About the power-of-two-choices policy of `select` in src/scheduler.cpp.
use tcp_load_balancer.Base.{
  ℕ, zero, suc, ◌+◌, ◌*◌, ◌<◌, ◌≤◌, ◌≡◌, refl, Option, some, ◌⊎◌, inl, inr, arith, length, M, done,
  ◌∙◌, Between, Between-cons, Between-nil,
}
use tcp_load_balancer.Scheduler.{
  Scheduler, SelectedBackend, power_of_two_choices, attempt, choices_from, select,
}
use tcp_load_balancer.Scheduler.Least.{load, IsLeast, answer, select_least-IsLeast}
use tcp_load_balancer.Scheduler.Shape.{IsWellFormed, Routable, Unroutable, handle}

-- Backend `b` is routable, and `other` is not, or has at least as many active connections.
abbrev pub Beats : Scheduler → ℕ → ℕ → Type 0
Beats s b other = Routable s b × (Routable s other → load s b ≤ load s other)

-- Neither backend drawn in attempt `k` is routable.
abbrev pub Misses : (ℕ → ℕ) → Scheduler → ℕ → Type 0
Misses draws s k = Unroutable s (draws (2 * k)) × Unroutable s (draws (2 * k + 1))

-- The attempt `k` is the first one, from `first` on and below `last`, that draws a routable
-- backend, and `b` wins it.
pub record IsChoice (draws : ℕ → ℕ) (s : Scheduler) (first last b : ℕ) : Type 0 where
  pub round : ℕ
  pub not_before : first ≤ round
  pub not_after : round < last
  pub missed : Between (Misses draws s) first round
  pub wins :
      ((b ≡ draws (2 * round)) × Beats s b (draws (2 * round + 1)))
      ⊎ ((b ≡ draws (2 * round + 1)) × Beats s b (draws (2 * round)))

-- The answers that the loop over the attempts from `first` up to `last` may end with.
abbrev pub IsAnswer : (ℕ → ℕ) → Scheduler → ℕ → ℕ → Option ℕ → Type 0
IsAnswer draws s first last r =
    ((b : ℕ) × (r ≡ some b) × IsChoice draws s first last b)
    ⊎ (Between (Misses draws s) first last × IsLeast s (length s.backends) r)

IsAnswer-skip :
    (draws : ℕ → ℕ) (s : Scheduler) (first last : ℕ) (r : Option ℕ)
    → Misses draws s first
    → IsAnswer draws s (first + 1) last r
    → IsAnswer draws s first last r
IsAnswer-skip draws s first last r m (inl (b, e, c)) = inl (
  b,
  e,
  record {
    round = c.round;
    not_before = omega (arith, c.not_before);
    not_after = c.not_after;
    missed = Between-cons (Misses draws s) first c.round m c.missed;
    wins = c.wins;
  },
)
IsAnswer-skip draws s first last r m (inr (c, l)) =
    inr (Between-cons (Misses draws s) first last m c, l)

-- What one attempt does: it misses and goes on, or ends with a backend that beats the other one.
attempt-cases :
    (first second : ℕ) (s : Scheduler) (rest : M Scheduler (Option SelectedBackend))
    → IsWellFormed s
    → first < length s.backends
    → second < length s.backends
    → ((Unroutable s first × Unroutable s second) × (attempt first second rest s ≡ rest s))
      ⊎ (Beats s first second × (attempt first second rest s ≡ done (some (handle s first)) s))
      ⊎ (Beats s second first × (attempt first second rest s ≡ done (some (handle s second)) s))
unfolding attempt
attempt-cases first second s rest w h k = ground arith

choices_from-IsAnswer :
    (rounds : ℕ) (draws : ℕ → ℕ) (s : Scheduler) (first last : ℕ)
    → IsWellFormed s
    → ((k : ℕ) → draws k < length s.backends)
    → first + rounds ≡ last
    → (r : Option ℕ) × (choices_from rounds first draws s ≡ done (answer s r) s)
      × IsAnswer draws s first last r
unfolding choices_from
choices_from-IsAnswer zero draws s first last w d e =
    let (r, run, least) = select_least-IsLeast s w in
    (r, run, inr (Between-nil (Misses draws s) first last (omega arith), least))
choices_from-IsAnswer (suc rounds) draws s first last w d e =
    let (r, run, ans) = choices_from-IsAnswer rounds draws s (first + 1) last w d (omega arith) in
    elim (attempt-cases (draws (2 * first)) (draws (2 * first + 1)) s
      (choices_from rounds (first + 1) draws) w (d (2 * first)) (d (2 * first + 1))) [
        | inl (m, step) ↦ (r, step ∙ run, IsAnswer-skip draws s first last r m ans)
        | inr (inl (b, step)) ↦
            (some (draws (2 * first)), step, inl (_, refl, chosen _ (inl (refl, b))))
        | inr (inr (b, step)) ↦
            (some (draws (2 * first + 1)), step, inl (_, refl, chosen _ (inr (refl, b))))
      ]
  where
    chosen :
        (b : ℕ)
        → ((b ≡ draws (2 * first)) × Beats s b (draws (2 * first + 1)))
          ⊎ ((b ≡ draws (2 * first + 1)) × Beats s b (draws (2 * first)))
        → IsChoice draws s first last b
    chosen b wins = record {
      round = first;
      not_before = omega arith;
      not_after = omega arith;
      missed = Between-nil (Misses draws s) first first (omega arith);
      wins = wins;
    }

-- On a well-formed pool of more than one backend under the power-of-two-choices policy, with
-- every draw in range, `select` throws nothing and changes nothing. Its answer is one of the two
-- backends of the first attempt, of 2n at most, that draws a routable one: this backend is
-- routable, and the other drawn one is not or has at least as many active connections. If no
-- attempt draws a routable backend, it is the answer of the least-connections policy.
pub select-power_of_two_choices :
    (draws : ℕ → ℕ) (s : Scheduler)
    → IsWellFormed s
    → s.policy ≡ power_of_two_choices
    → 1 < length s.backends
    → ((k : ℕ) → draws k < length s.backends)
    → (r : Option ℕ) × (select draws s ≡ done (answer s r) s)
      × IsAnswer draws s 0 (length s.backends * 2) r
unfolding select
select-power_of_two_choices draws s w p n d =
    let (r, run, ans) =
      choices_from-IsAnswer (length s.backends * 2) draws s 0 (length s.backends * 2) w d
        (omega arith) in
    (r, ground arith, ans)
