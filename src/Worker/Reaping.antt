-- ===== src/Worker/Reaping.antt =====
-- About the pairs that `reap_timeouts` of src/server.cpp closes.
use tcp_load_balancer.Base.{
  ℕ, ◌*◌, ◌≡◌, refl, ap, ◌∙◌, sym, Bool, List, [], ◌∷◌, none, inl, inr, Option-cases, arith,
  if◌then◌else◌, length, find, total_of, M, after, ◌>>◌, Preserves, Returns, Returns-mono,
  >>-Returns, subst,
}
use tcp_load_balancer.Runtime.{on_metrics}
use tcp_load_balancer.System.{System}
use tcp_load_balancer.Worker.Closing.{close_pair-Does}
use tcp_load_balancer.Worker.Connect.{ns_per_ms}
use tcp_load_balancer.Worker.Keeping.{Sound, LeavesSound, close-Preserves, world-Sound}
use tcp_load_balancer.Worker.Loop.{expired, count_timeout, close_expired, reap_timeouts}
use tcp_load_balancer.Worker.Pairs.{find-without}
use tcp_load_balancer.Worker.Reading.{on_runtime-Preserves}
use tcp_load_balancer.Worker.Sockets.{Sockets}
use tcp_load_balancer.Worker.{Worker, Peers, on_runtime, close_pair}
use tcp_load_balancer.Worker.Counting.{
  seen, close_pair-Quiet, connect_count, idle_count, late_connecting, late_idle, expired-counts,
  Grows, Grows-cons,
}
use tcp_load_balancer.Worker.Overdue.{has_late_pair, is_cut, is_cut-expired, Leaves, Leaves-cons}

module _ {sys : System} (so : Sockets sys) (others : ℕ → ℕ) where
  tick-Preserves :
      (failure : Bool)
      → Preserves (Sound so others) (on_runtime {sys = sys} (on_metrics (count_timeout failure)))
  tick-Preserves failure w v =
      on_runtime-Preserves so others (on_metrics (count_timeout failure)) w
        (λ u. record {
          ready = record { shape = u.shape; slots = u.slots };
          slots_kept = refl;
          active_is = λ i h. refl;
        })
        v

  -- The worker is sound, and of the peers `ps` those are left that `cut` does not name.
  abbrev Reaped : Peers → (ℕ → Bool) → Worker sys → Type 0
  Reaped ps cut w = Sound so others w × Leaves ps cut w.peers

  close_pair-Leaves :
      (fd : ℕ) (failure : Bool) (w : Worker sys)
      → Sound so others w
      → Returns
          (close_pair fd failure w)
          (λ t. Leaves w.peers (λ j. is_cut ((fd, failure) ∷ []) j (find j w.peers)) t.peers)
  unfolding close_pair
  close_pair-Leaves fd failure w (v, b) = elim (Option-cases (find fd w.peers)) [
    | inl e ↦ (
      w,
      ground arith,
      λ j. elim (Option-cases (find j w.peers)) [
        | inl x ↦ ground (arith, x)
        | inr (q, x) ↦ let u = v.paired j q x in ground (arith, e, x, u.mate_found)
      ],
    )
    | inr (p, e) ↦
        Returns-mono _ _ _
          (λ t d. λ j. elim (Option-cases (find j w.peers)) [
            | inl x ↦
                ground (
                  arith,
                  x,
                  d.0,
                  find-without (length w.runtime.backends) w.peers v.paired fd p e j,
                )
            | inr (q, x) ↦
                let u = v.paired j q x in
                let s = v.paired fd p e in
                ground (
                  arith,
                  e,
                  x,
                  d.0,
                  u.mate_found,
                  u.mated.back,
                  s.mate_found,
                  s.mated.back,
                  find-without (length w.runtime.backends) w.peers v.paired fd p e j,
                )
          ])
          (close_pair-Does others fd failure p w v e)
  ]

  close-Reaps :
      (fd : ℕ) (failure : Bool) (w : Worker sys)
      → Sound so others w
      → Returns (close_pair fd failure w) (λ t.
        Reaped w.peers (λ j. is_cut ((fd, failure) ∷ []) j (find j w.peers)) t × (seen t ≡ seen w))
  close-Reaps fd failure w v =
      let (t, e, l) = close_pair-Leaves fd failure w v in
      (
        t,
        e,
        (
          (subst (LeavesSound so others) e (close-Preserves so others fd failure w v), l),
          subst (λ o. seen (after o) ≡ seen w) e ((close_pair-Quiet fd failure).spared w),
        ),
      )

  -- What the closings of `es` do to a worker.
  abbrev Closes : List (ℕ × Bool) → Worker sys → Worker sys → Type 0
  Closes es w t =
      Reaped w.peers (λ j. is_cut es j (find j w.peers)) t
      × Grows (connect_count es) (idle_count es) (seen w) (seen t)

  close_expired-Closes :
      (es : List (ℕ × Bool)) (w : Worker sys)
      → Sound so others w
      → Returns (close_expired es w) (Closes es w)
  unfolding close_expired
  close_expired-Closes [] w v = (
    w,
    refl,
    (
      (
        v,
        λ j. elim (Option-cases (find j w.peers)) [
          | inl e ↦ ground (arith, e)
          | inr (p, e) ↦ ground (arith, e)
        ],
      ),
      (omega arith, omega arith),
    ),
  )
  close_expired-Closes ((fd, failure) ∷ es) w v =
      let later : M (Worker sys) (Unit {0}) = close_expired es in
      let count : M (Worker sys) (Unit {0}) = on_runtime (on_metrics (count_timeout failure)) in
      let w₁ : Worker sys = after (count w) in
      let Goal : Worker sys → Type 0 = Closes ((fd, failure) ∷ es) w in
      let closed =
        >>-Returns _ Goal (close_pair fd failure) later w₁
          (close-Reaps fd failure w₁ (tick-Preserves failure w v))
          (λ u ((z, l), same).
            Returns-mono (Closes es u) Goal (later u)
              (λ x ((y, m), grows). (
                (y, Leaves-cons fd failure es w.peers u.peers x.peers l m),
                Grows-cons fd failure es w.runtime (seen x)
                    (subst (λ a. Grows (connect_count es) (idle_count es) a (seen x)) same grows),
              ))
              (close_expired-Closes es u z)) in
      >>-Returns (λ t. t ≡ w₁) Goal count (close_pair fd failure >> later) w (w₁, refl, refl)
        (λ t same. subst (λ x. Returns ((close_pair fd failure >> later) x) Goal) (sym same) closed)

  -- Where the system's calls treat the bytes of the sockets as documented, `reap_timeouts` returns,
  -- and keeps the worker's invariant and the balance of the bytes of each pair that is left. It
  -- closes the pairs that are overdue and no others: a descriptor has its peer afterwards,
  -- unchanged, unless the pair of this peer is overdue at the time that the clock then reads. A
  -- pair whose connection is still being made is overdue from the deadline on, and another one when
  -- its client's side has been idle for the timeout of the configuration. The counter of the
  -- connect timeouts grows by the number of the former, that of the idle timeouts by the number of
  -- the latter, modulo 2^64.
  pub reap_timeouts-Returns :
      (w : Worker sys)
      → Sound so others w
      → let now = (sys.now w.world).0 in
        let idle = w.runtime.config.idle_timeout_ms * ns_per_ms in
        Returns (reap_timeouts w) (λ t.
          Sound so others t
          × ((j : ℕ)
              → find j t.peers ≡ (
                  if has_late_pair now idle w.peers (find j w.peers) then none else find j w.peers))
          × Grows
              (total_of (late_connecting now idle w.peers) w.peers)
              (total_of (late_idle now idle w.peers) w.peers)
              (seen w)
              (seen t))
  unfolding reap_timeouts
  reap_timeouts-Returns w v =
      let (now, world) = sys.now w.world in
      let idle = w.runtime.config.idle_timeout_ms * ns_per_ms in
      let n = length w.runtime.backends in
      let w₁ : Worker sys = record w { world = world } in
      let (connects, idles) = expired-counts now idle w.peers w.peers in
      Returns-mono _ _ _
        (λ t ((y, m), grows). (
          y,
          λ j.
              m j
              ∙ ap (λ b. if b then none else find j w.peers)
                  (is_cut-expired n now idle j w.peers v.0.is_map v.0.paired),
          rw (connects, idles) at grows,
        ))
        (close_expired-Closes (expired now idle w.peers w.peers) w₁
          (world-Sound so others w world (so.now_keeps w.world) v))
