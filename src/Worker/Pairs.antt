-- ===== src/Worker/Pairs.antt =====
-- What it means that the peers of a worker come in pairs, and the number of pairs on a backend.
use tcp_load_balancer.Base.{
  ℕ, ◌+◌, ◌<◌, ◌≤◌, ◌≡◌, ◌≢◌, not, ◌&&◌, none, some, arith, ◌==◌, if◌then◌else◌, length, find,
  erase, IsMap, total_of, find-erase, erase-IsMap, total_of-erase,
}
use tcp_load_balancer.Worker.{Peer, Peers}

-- `q` is the other end of the peer `p` that stands under `fd`.
pub record Mate (fd : ℕ) (p q : Peer) : Type 0 where
  pub back : q.paired_fd ≡ fd
  pub same_backend : q.backend_index ≡ p.backend_index
  pub other_side : q.backend_side ≡ not p.backend_side

-- The peer that stands under `fd` is well formed among `ps`, over `n` backends.
pub record IsPeer (n : ℕ) (ps : Peers) (fd : ℕ) (p : Peer) : Type 0 where
  pub own_fd : p.fd ≡ fd
  pub apart : p.paired_fd ≢ fd
  pub backend_bound : p.backend_index < n
  pub sent_bound : p.sent ≤ length p.outbound
  pub mate : Peer
  pub mate_found : find p.paired_fd ps ≡ some mate
  pub mated : Mate fd p mate

abbrev pub IsPaired : ℕ → Peers → Type 0
IsPaired n ps = (fd : ℕ) (p : Peer) → find fd ps ≡ some p → IsPeer n ps fd p

-- The number of pairs on backend `i`: each has one client side.
abbrev pub client_on : ℕ → Peer → ℕ
client_on i p = if not p.backend_side && p.backend_index == i then 1 else 0

abbrev pub pairs_on : ℕ → Peers → ℕ
pairs_on i ps = total_of (client_on i) ps

-- The map without a pair.
abbrev pub without : ℕ → Peer → Peers → Peers
without fd p ps = erase p.paired_fd (erase fd ps)

module _ (n : ℕ) (ps : Peers) (paired : IsPaired n ps) (fd : ℕ) (p : Peer)
    (h : find fd ps ≡ some p) where
  pub find-without :
      (k : ℕ)
      → find k (without fd p ps)
        ≡ (if p.paired_fd == k then none else if fd == k then none else find k ps)
  find-without k = ground (arith, find-erase p.paired_fd k (erase fd ps), find-erase fd k ps)

  pub without-IsPaired : IsPaired n (without fd p ps)
  without-IsPaired k q e =
      let v = paired fd p h in
      let kept : (find k ps ≡ some q) × (p.paired_fd ≢ k) × (fd ≢ k) = (
        ground (arith, find-without k),
        ground (arith, find-without k),
        ground (arith, find-without k),
      ) in
      let u = paired k q kept.0 in
      record {
        own_fd = u.own_fd;
        apart = u.apart;
        backend_bound = u.backend_bound;
        sent_bound = u.sent_bound;
        mate = u.mate;
        mate_found = ground (
          arith,
          kept,
          find-without q.paired_fd,
          u.mate_found,
          u.mated.back,
          v.mate_found,
          v.mated.back,
        );
        mated = u.mated;
      }

  -- The pair counts once, on its backend.
  pub pairs_on-without :
      (i : ℕ)
      → IsMap ps
      → pairs_on i (without fd p ps) + (if p.backend_index == i then 1 else 0) ≡ pairs_on i ps
  pairs_on-without i m =
      let v = paired fd p h in
      ground (
        arith,
        v.mated.same_backend,
        v.mated.other_side,
        v.mate_found,
        v.apart,
        total_of-erase (client_on i) fd ps m,
        total_of-erase (client_on i) p.paired_fd (erase fd ps) (erase-IsMap fd ps m),
        find-erase fd p.paired_fd ps,
      )
