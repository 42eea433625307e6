-- ===== src/Worker/Closing.antt =====
-- The worker's invariant, and lemmas on `close_pair` of src/server.cpp.
use tcp_load_balancer.Base.{
  ℕ, ◌+◌, ◌<◌, ◌≡◌, refl, ap, ◌∙◌, Bool, true, false, none, some, inl, inr, Option-cases, arith,
  if◌then◌else◌, length, find, erase, IsMap, erase-IsMap, find-erase, after, pure, Returns,
  Returns-mono, >>-Returns,
}
use tcp_load_balancer.Health.Rounds.{IsReady}
use tcp_load_balancer.Health.{judge}
use tcp_load_balancer.Runtime.{record_connection_close}
use tcp_load_balancer.System.{System}
use tcp_load_balancer.Worker.Effects.{
  Acts, Acts-trans, quiet, closing, active_of, quiet-Acts, judge-Acts, close-Acts,
}
use tcp_load_balancer.Worker.Pairs.{IsPaired, pairs_on, without, without-IsPaired, pairs_on-without}
use tcp_load_balancer.Worker.{
  Worker, Peer, Peers, on_runtime, close_one, fail_backend, close_found, close_pair,
}

-- The runtime has its slots, the peers come in pairs over its backends, and each backend's active
-- count is the number of the worker's pairs on it, over what the other workers have open there.
pub record Inv {sys : System} (others : ℕ → ℕ) (w : Worker sys) : Type 0 where
  pub ready : IsReady w.runtime
  pub is_map : IsMap w.peers
  pub paired : IsPaired (length w.runtime.backends) w.peers
  pub counted :
      (i : ℕ)
      → i < length w.runtime.backends
      → active_of i w.runtime ≡ others i + pairs_on i w.peers

module _ {sys : System} where
  -- The peers become `ps`, and the active counts what `f` says.
  abbrev pub Does : Peers → (ℕ → ℕ → ℕ) → Worker sys → Worker sys → Type 0
  Does ps f w t = (t.peers ≡ ps) × Acts f w.runtime t.runtime

  close_one-Does :
      (fd : ℕ) (p : Peer) (w : Worker sys)
      → find fd w.peers ≡ some p
      → IsReady w.runtime
      → Returns (close_one fd w) (Does (erase fd w.peers) quiet w)
  unfolding close_one
  close_one-Does fd p w h v = (
    record w { peers = erase fd w.peers; world = sys.close fd (sys.epoll_delete fd w.world) },
    ground arith,
    (refl, quiet-Acts w.runtime v),
  )

  pub fail_backend-Does :
      (i : ℕ) (w : Worker sys)
      → IsReady w.runtime
      → i < length w.runtime.backends
      → Returns (fail_backend i w) (Does w.peers quiet w)
  unfolding fail_backend judge
  fail_backend-Does i w v h =
      let (returned, acts) = judge-Acts i w.runtime v h none in
      (
        record w { runtime = after (judge i none w.runtime) },
        ground (arith, returned),
        (refl, acts),
      )

  record_close-Does :
      (i : ℕ) (w : Worker sys)
      → IsReady w.runtime
      → i < length w.runtime.backends
      → Returns (on_runtime (record_connection_close i) w) (Does w.peers (closing i) w)
  record_close-Does i w v h =
      let (returned, acts) = close-Acts i w.runtime v h in
      (
        record w { runtime = after (record_connection_close i w.runtime) },
        ground (arith, returned),
        (refl, acts),
      )

  -- The end of `close_pair`.
  ending-Does :
      (failure : Bool) (i : ℕ) (w : Worker sys)
      → IsReady w.runtime
      → i < length w.runtime.backends
      → Returns ((if failure then fail_backend i else pure tt) w) (Does w.peers quiet w)
  ending-Does true i w v h = fail_backend-Does i w v h
  ending-Does false i w v h = (w, refl, (refl, quiet-Acts w.runtime v))

  close_found-Does :
      (fd : ℕ) (failure : Bool) (p mate : Peer) (w : Worker sys)
      → find fd w.peers ≡ some p
      → find p.paired_fd (erase fd w.peers) ≡ some mate
      → IsReady w.runtime
      → p.backend_index < length w.runtime.backends
      → Returns
          (close_found fd failure p w)
          (Does (without fd p w.peers) (closing p.backend_index) w)
  unfolding close_found
  close_found-Does fd failure p mate w h k v b =
      let i = p.backend_index in
      >>-Returns _ _ (close_one fd) _ w (close_one-Does fd p w h v) λ w₁ (m₁, a₁).
        >>-Returns _ _ (close_one p.paired_fd) _ w₁
          (close_one-Does p.paired_fd mate w₁ (rw m₁ k) a₁.ready)
          λ w₂ (m₂, a₂).
            >>-Returns _ _ (on_runtime (record_connection_close i)) _ w₂
              (record_close-Does i w₂ a₂.ready (rw (a₂.slots_kept, a₁.slots_kept) b))
              λ w₃ (m₃, a₃).
                Returns-mono _ _ _
                  (λ t (m₄, a₄). (
                    m₄ ∙ m₃ ∙ m₂ ∙ ap (erase p.paired_fd) m₁,
                    Acts-trans quiet (closing i) _ _ _ a₁ (
                        Acts-trans quiet (closing i) _ _ _ a₂
                          (Acts-trans (closing i) quiet _ _ _ a₃ a₄)),
                  ))
                  (ending-Does failure i w₃ a₃.ready
                    (rw (a₃.slots_kept, a₂.slots_kept, a₁.slots_kept) b))

  -- What a pair that goes leaves behind.
  pub without-Inv :
      (others : ℕ → ℕ) (fd : ℕ) (p : Peer) (w t : Worker sys)
      → Inv others w
      → find fd w.peers ≡ some p
      → Does (without fd p w.peers) (closing p.backend_index) w t
      → Inv others t
  without-Inv others fd p w t v h (m, a) = record {
    ready = a.ready;
    is_map = rw m (erase-IsMap p.paired_fd _ (erase-IsMap fd w.peers v.is_map));
    paired =
        rw (m, a.slots_kept) (without-IsPaired (length w.runtime.backends) w.peers v.paired fd p h);
    counted = λ i b.
        let b' : i < length w.runtime.backends = rw (← a.slots_kept) b in
        rw m (
          ground (
            arith,
            a.active_is i b',
            v.counted i b',
            pairs_on-without (length w.runtime.backends) w.peers v.paired fd p h i v.is_map,
          ));
  }

  pub close_pair-Does :
      (others : ℕ → ℕ) (fd : ℕ) (failure : Bool) (p : Peer) (w : Worker sys)
      → Inv others w
      → find fd w.peers ≡ some p
      → Returns (close_pair fd failure w) (Does (without fd p w.peers) (closing p.backend_index) w)
  unfolding close_pair
  close_pair-Does others fd failure p w v h =
      let u = v.paired fd p h in
      rw (h, close_pair)
        (close_found-Does fd failure p u.mate w h
          (ground (arith, find-erase fd p.paired_fd w.peers, u.mate_found, u.apart)) v.ready
          u.backend_bound)

  -- In a worker whose peers come in pairs and whose pairs are what the backends' active counts
  -- count, above what others have open, `close_pair` returns on every descriptor and leaves such a
  -- worker, whether it reports a backend failure or not.
  pub close_pair-Inv :
      (others : ℕ → ℕ) (fd : ℕ) (failure : Bool) (w : Worker sys)
      → Inv others w
      → Returns (close_pair fd failure w) (Inv others)
  unfolding close_pair
  close_pair-Inv others fd failure w v = elim (Option-cases (find fd w.peers)) [
    | inl e ↦ (w, ground arith, v)
    | inr (p, e) ↦
        Returns-mono _ _ _ (λ t d. without-Inv others fd p w t v e d)
          (close_pair-Does others fd failure p w v e)
  ]
