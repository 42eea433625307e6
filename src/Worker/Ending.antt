-- ===== src/Worker/Ending.antt =====
-- About `shutdown` of the worker of src/server.cpp.
use tcp_load_balancer.Base.{
  ℕ, ◌<◌, ◌≡◌, refl, ◌∙◌, false, [], ◌∷◌, none, inl, inr, Option-cases, arith, length, find,
  Returns, >>-Returns, Returns-mono,
}
use tcp_load_balancer.System.{System}
use tcp_load_balancer.Worker.Closing.{Inv, Does, close_pair-Does, without-Inv}
use tcp_load_balancer.Worker.Effects.{active_of, closing}
use tcp_load_balancer.Worker.Loop.{close_all, close_own, shutdown}
use tcp_load_balancer.Worker.Pairs.{without, find-without}
use tcp_load_balancer.Worker.{Worker, Peer, Peers, close_pair}

-- Every peer of `ps` has its key in `qs`.
abbrev Covers : Peers → Peers → Type 0
Covers qs ps = (fd : ℕ) → find fd qs ≡ none → find fd ps ≡ none

Covers-none : (ps : Peers) → Covers [] ps → ps ≡ []
Covers-none [] c = refl
Covers-none ((fd, p) ∷ ps) c = ground (arith, c fd refl)

module _ {sys : System} (others : ℕ → ℕ) where
  -- What `close_all` keeps while it goes through the keys `qs`.
  abbrev Left : Peers → ℕ → Worker sys → Type 0
  Left qs n w = Inv others w × Covers qs w.peers × (length w.runtime.backends ≡ n)

  step-Left :
      (fd : ℕ) (p : Peer) (qs : Peers) (n : ℕ) (w : Worker sys)
      → Left ((fd, p) ∷ qs) n w
      → Returns (close_pair fd false w) (Left qs n)
  unfolding close_pair
  step-Left fd p qs n w (v, c, l) = elim (Option-cases (find fd w.peers)) [
    | inl e ↦ (w, ground arith, (v, (λ k h. ground (arith, c k)), l))
    | inr (q, e) ↦
        Returns-mono (Does (without fd q w.peers) (closing q.backend_index) w) (Left qs n) _
          (λ t d. (
            without-Inv others fd q w t v e d,
            (λ k h. ground (
              arith,
              d.0,
              c k,
              find-without (length w.runtime.backends) w.peers v.paired fd q e k,
            )),
            d.1.slots_kept ∙ l,
          ))
          (close_pair-Does others fd false q w v e)
  ]

  close_all-Left :
      (qs : Peers) (n : ℕ) (w : Worker sys) → Left qs n w → Returns (close_all qs w) (Left [] n)
  unfolding close_all
  close_all-Left [] n w l = (w, refl, l)
  close_all-Left ((fd, p) ∷ qs) n w l =
      >>-Returns (Left qs n) (Left [] n) (close_pair fd false) (close_all qs) w
        (step-Left fd p qs n w l) (λ t u. close_all-Left qs n t u)

  -- From a worker that satisfies the invariant, `shutdown` returns, leaves no peer, and leaves in
  -- the active count of each backend what the other workers have open there.
  pub shutdown_lem :
      (w : Worker sys)
      → Inv others w
      → Returns (shutdown w) λ t.
        (t.peers ≡ [])
        × ((i : ℕ) → i < length w.runtime.backends → active_of i t.runtime ≡ others i)
  unfolding shutdown
  shutdown_lem w v =
      let n = length w.runtime.backends in
      let At : Worker sys → Type 0 =
        λ t. (t.peers ≡ []) × ((i : ℕ) → i < n → active_of i t.runtime ≡ others i) in
      >>-Returns (Left [] n) At (close_all w.peers) close_own w
        (close_all-Left w.peers n w (v, (λ k h. h), refl))
        (λ t (u, c, l).
          let e = Covers-none t.peers c in
          (
            record t { world = sys.close t.timer_fd (sys.close t.listener_fd t.world) },
            refl,
            (e, λ i b. ground (arith, u.counted i (rw l b), e)),
          ))
