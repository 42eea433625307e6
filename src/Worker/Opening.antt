-- ===== src/Worker/Opening.antt =====
-- About the new pair that `attach_backend` of src/server.cpp makes.
use tcp_load_balancer.Base.{
  ℕ, ◌+◌, ◌*◌, ◌<◌, ◌≡◌, ◌≢◌, refl, sym, ◌∙◌, subst, >>-step, if_elim, runtime_error, ◌∷◌, Option,
  none, some, inl, inr, Bool-cases, ==_iff, arith, ◌==◌, if◌then◌else◌, length, find, emplace,
  IsMap, M, done, throw, after, ◌>>◌, Returns, Preserves, >>-Preserves,
}
use tcp_load_balancer.Runtime.{record_connection_open}
use tcp_load_balancer.Scheduler.{SelectedBackend, u64_mod}
use tcp_load_balancer.System.{System, Interest}
use tcp_load_balancer.Worker.Closing.{Inv, fail_backend-Does}
use tcp_load_balancer.Worker.Connect.{
  client_peer, backend_peer, pair_up, attach_result, drop_client, ns_per_ms, reading, writing,
}
use tcp_load_balancer.Worker.Effects.{Acts, quiet, active_of, open-Acts}
use tcp_load_balancer.Worker.Pairs.{IsPaired, IsPeer, pairs_on}
use tcp_load_balancer.Worker.Storing.{world-Inv}
use tcp_load_balancer.Worker.{Worker, Peer, Peers, add_fd, fail_backend}

-- The descriptors of a new pair are no keys yet, and differ.
pub record IsFresh (ps : Peers) (client_fd backend_fd : ℕ) : Type 0 where
  pub client_absent : find client_fd ps ≡ none
  pub backend_absent : find backend_fd ps ≡ none
  pub distinct : client_fd ≢ backend_fd

-- The peers after the two calls of `emplace`.
abbrev pub joined : ℕ → ℕ → ℕ → ℕ → ℕ → Peers → Peers
joined client_fd backend_fd index t deadline ps =
    emplace backend_fd (backend_peer client_fd backend_fd index t deadline)
      (emplace client_fd (client_peer client_fd backend_fd index t deadline) ps)

module _ (n : ℕ) (ps : Peers) (c b index t deadline : ℕ) (fresh : IsFresh ps c b) where
  joined_lem :
      joined c b index t deadline ps
      ≡ (b, backend_peer c b index t deadline) ∷ (c, client_peer c b index t deadline) ∷ ps
  joined_lem = ground (arith, fresh)

  joined-IsMap : IsMap ps → IsMap (joined c b index t deadline ps)
  joined-IsMap m = rw joined_lem (ground (arith, fresh), (ground (arith, fresh), m))

  find-joined :
      (k : ℕ)
      → find k (joined c b index t deadline ps) ≡ (
          if b == k
          then some (backend_peer c b index t deadline)
          else if c == k
          then some (client_peer c b index t deadline)
          else find k ps)
  find-joined k = ground (arith, joined_lem)

  pairs_on-joined :
      (i : ℕ)
      → pairs_on i (joined c b index t deadline ps) ≡ pairs_on i ps + (if index == i then 1 else 0)
  pairs_on-joined i = ground (arith, joined_lem)

  module _ (paired : IsPaired n ps) (bound : index < n) where
    old-IsPeer :
        (k : ℕ) (p : Peer) → find k ps ≡ some p → IsPeer n (joined c b index t deadline ps) k p
    old-IsPeer k p h =
        let u = paired k p h in
        record {
          own_fd = u.own_fd;
          apart = u.apart;
          backend_bound = u.backend_bound;
          sent_bound = u.sent_bound;
          mate = u.mate;
          mate_found = ground (arith, find-joined p.paired_fd, u.mate_found, fresh);
          mated = u.mated;
        }

    client-IsPeer : IsPeer n (joined c b index t deadline ps) c (client_peer c b index t deadline)
    client-IsPeer = record {
      own_fd = refl;
      apart = ground (arith, fresh);
      backend_bound = bound;
      sent_bound = omega arith;
      mate = backend_peer c b index t deadline;
      mate_found = ground (arith, find-joined b);
      mated = record { back = refl; same_backend = refl; other_side = refl };
    }

    backend-IsPeer : IsPeer n (joined c b index t deadline ps) b (backend_peer c b index t deadline)
    backend-IsPeer = record {
      own_fd = refl;
      apart = ground (arith, fresh);
      backend_bound = bound;
      sent_bound = omega arith;
      mate = client_peer c b index t deadline;
      mate_found = ground (arith, find-joined c, fresh);
      mated = record { back = refl; same_backend = refl; other_side = refl };
    }

    joined-IsPaired : IsPaired n (joined c b index t deadline ps)
    joined-IsPaired k p h = elim (Bool-cases (b == k)) [
      | inl e ↦
          let at : b ≡ k = (==_iff b k).0 e in
          let is : backend_peer c b index t deadline ≡ p = ground (arith, h, find-joined k) in
          rw (← at, ← is) backend-IsPeer
      | inr d ↦ elim (Bool-cases (c == k)) [
        | inl e ↦
            let at : c ≡ k = (==_iff c k).0 e in
            let is : client_peer c b index t deadline ≡ p = ground (arith, h, find-joined k, d) in
            rw (← at, ← is) client-IsPeer
        | inr e ↦ old-IsPeer k p (ground (arith, h, find-joined k, d, e))
      ]
    ]

module _ {sys : System} (others : ℕ → ℕ) where
  -- The recording of a connection and the two calls of `emplace`.
  pub pair_up-Inv :
      (c b index : ℕ) (w : Worker sys)
      → Inv others w
      → IsFresh w.peers c b
      → index < length w.runtime.backends
      → active_of index w.runtime + 1 < u64_mod
      → Returns (pair_up c b index w) (Inv others)
  unfolding pair_up
  pair_up-Inv c b index w v fresh bound room =
      let (t, world) = sys.now w.world in
      let deadline = t + w.runtime.config.connect_timeout_ms * ns_per_ms in
      let (returned, acts) = open-Acts index w.runtime v.ready bound in
      let ps = joined c b index t deadline w.peers in
      let r = after (record_connection_open index w.runtime) in
      (
        record w { runtime = r; world = world; peers = ps },
        ground (arith, returned),
        record {
          ready = acts.ready;
          is_map = joined-IsMap (length r.backends) w.peers c b index t deadline fresh v.is_map;
          paired = rw acts.slots_kept (
              joined-IsPaired (length w.runtime.backends) w.peers c b index t deadline fresh
                v.paired bound);
          counted = λ i h.
              let h' : i < length w.runtime.backends = rw (← acts.slots_kept) h in
              ground (
                arith,
                acts.active_is i h',
                v.counted i h',
                room,
                pairs_on-joined (length r.backends) w.peers c b index t deadline fresh i,
              );
        },
      )

  quiet-Inv :
      (w t : Worker sys)
      → Inv others w
      → (t.peers ≡ w.peers) × Acts quiet w.runtime t.runtime
      → Inv others t
  quiet-Inv w t v (m, a) = record {
    ready = a.ready;
    is_map = rw m v.is_map;
    paired = rw (m, a.slots_kept) v.paired;
    counted = λ i b.
        let b' : i < length w.runtime.backends = rw (← a.slots_kept) b in
        rw m (a.active_is i b' ∙ v.counted i b');
  }

  add_fd-Preserves : (fd : ℕ) (i : Interest) → Preserves (Inv others) (add_fd {sys = sys} fd i)
  unfolding add_fd
  add_fd-Preserves fd i w v =
      let (added, world) = sys.epoll_add fd i w.world in
      let w₁ : Worker sys = record w { world = world } in
      if_elim (λ o. Inv others (after o)) added (done tt w₁) (throw runtime_error w₁)
        (λ _. world-Inv others w world v) (λ _. world-Inv others w world v)

  -- Once a backend is chosen that the pool has, where the socket that connects to it and the
  -- client's are new and the backend's active count has room: whether the connect starts or fails
  -- at once, and however the calls of `epoll` end, `attach_backend` leaves a worker that satisfies
  -- the invariant if it was satisfied before.
  pub attach_result-Inv :
      (c : ℕ) (selected : SelectedBackend) (connection : Option ℕ) (w : Worker sys)
      → Inv others w
      → ((b : ℕ) → connection ≡ some b → IsFresh w.peers c b)
      → selected.index < length w.runtime.backends
      → active_of selected.index w.runtime + 1 < u64_mod
      → Inv others (after (attach_result c selected connection w))
  unfolding attach_result drop_client
  attach_result-Inv c selected none w v fresh bound room =
      let (t, e, d) = fail_backend-Does selected.index w v.ready bound in
      let closed : Worker sys = record t { world = sys.close c t.world } in
      subst (λ o. Inv others (after o))
        (sym (>>-step (fail_backend selected.index) (drop_client c) w t e))
        (world-Inv others t (sys.close c t.world) (quiet-Inv w t v d))
  attach_result-Inv c selected (some b) w v fresh bound room =
      let (t, e, u) = pair_up-Inv c b selected.index w v (fresh b refl) bound room in
      let adds : M (Worker sys) (Unit {0}) = add_fd c reading >> add_fd b writing in
      subst (λ o. Inv others (after o)) (sym (>>-step (pair_up c b selected.index) adds w t e))
        (>>-Preserves (Inv others) (add_fd c reading) (add_fd b writing)
          (add_fd-Preserves c reading) (add_fd-Preserves b writing) t u)
