-- ===== src/Worker/Storing.antt =====
-- Lemmas on the writing back of a peer with the same descriptors, backend and side.
use tcp_load_balancer.Base.{
  ℕ, ◌+◌, ◌≤◌, ◌≡◌, ◌≢◌, sym, ap, ◌∙◌, some, inl, inr, Bool-cases, ==_iff, arith, ◌==◌, length,
  find, put, find-put, put-IsMap, IsMap, total_of-put,
}
use tcp_load_balancer.System.{System}
use tcp_load_balancer.Worker.Closing.{Inv}
use tcp_load_balancer.Worker.Pairs.{IsPaired, IsPeer, pairs_on, client_on}
use tcp_load_balancer.Worker.{Worker, Peer, Peers}

-- What a step of the transfer leaves alone in a peer, and the bound that it keeps.
pub record Alike (p q : Peer) : Type 0 where
  pub same_fd : q.fd ≡ p.fd
  pub same_pair : q.paired_fd ≡ p.paired_fd
  pub same_index : q.backend_index ≡ p.backend_index
  pub same_side : q.backend_side ≡ p.backend_side
  pub sent_fits : q.sent ≤ length q.outbound

module _ (n : ℕ) (ps : Peers) (paired : IsPaired n ps) (fd : ℕ) (p q : Peer)
    (h : find fd ps ≡ some p) (a : Alike p q) where
  put_self : IsPeer n (put fd q ps) fd q
  put_self =
      let u = paired fd p h in
      record {
        own_fd = a.same_fd ∙ u.own_fd;
        apart = rw a.same_pair u.apart;
        backend_bound = rw a.same_index u.backend_bound;
        sent_bound = a.sent_fits;
        mate = u.mate;
        mate_found = ground (arith, find-put fd q.paired_fd q p ps h, a, u.apart, u.mate_found);
        mated = ground (arith, a, u.mated);
      }

  put_other : (k : ℕ) (x : Peer) → fd ≢ k → find k ps ≡ some x → IsPeer n (put fd q ps) k x
  put_other k x d e =
      let u = paired k x e in
      let found = find-put fd x.paired_fd q p ps h in
      elim (Bool-cases (fd == x.paired_fd)) [
        | inl same ↦ record {
          own_fd = u.own_fd;
          apart = u.apart;
          backend_bound = u.backend_bound;
          sent_bound = u.sent_bound;
          mate = q;
          mate_found = ground (arith, found);
          mated = ground (arith, a, u.mated, u.mate_found, h);
        }
        | inr differ ↦ record {
          own_fd = u.own_fd;
          apart = u.apart;
          backend_bound = u.backend_bound;
          sent_bound = u.sent_bound;
          mate = u.mate;
          mate_found = ground (arith, found, u.mate_found);
          mated = u.mated;
        }
      ]

  pub put-IsPaired : IsPaired n (put fd q ps)
  put-IsPaired k x e = elim (Bool-cases (fd == k)) [
    | inl same ↦
        let at : fd ≡ k = (==_iff fd k).0 same in
        let is : x ≡ q = ground (arith, find-put fd k q p ps h) in rw (← at, is) put_self
    | inr differ ↦ put_other k x (ground arith) (ground (arith, find-put fd k q p ps h))
  ]

  pub pairs_on-put : (i : ℕ) → IsMap ps → pairs_on i (put fd q ps) ≡ pairs_on i ps
  pairs_on-put i m = total_of-put (client_on i) fd q ps m (ground (arith, a))

module _ {sys : System} where
  pub put-Inv :
      (others : ℕ → ℕ) (fd : ℕ) (p q : Peer) (w : Worker sys) (x : sys.World)
      → Inv others w
      → find fd w.peers ≡ some p
      → Alike p q
      → Inv others (record w { peers = put fd q w.peers; world = x })
  put-Inv others fd p q w x v h a = record {
    ready = v.ready;
    is_map = put-IsMap fd q w.peers v.is_map;
    paired = put-IsPaired (length w.runtime.backends) w.peers v.paired fd p q h a;
    counted = λ i b.
        v.counted i b
        ∙ ap (◌+◌ (others i))
            (sym (pairs_on-put (length w.runtime.backends) w.peers v.paired fd p q h a i v.is_map));
  }

  pub world-Inv :
      (others : ℕ → ℕ) (w : Worker sys) (x : sys.World)
      → Inv others w
      → Inv others (record w { world = x })
  world-Inv others w x v = record {
    ready = v.ready;
    is_map = v.is_map;
    paired = v.paired;
    counted = v.counted;
  }
