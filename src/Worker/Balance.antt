-- ===== src/Worker/Balance.antt =====
-- How the peers of a worker stand to the bytes that their sockets have taken and given.
use tcp_load_balancer.Base.{
  ℕ, ◌+◌, ◌≡◌, ◌≢◌, refl, sym, ap, ◌∙◌, Bool, true, false, [], ◌++◌, some, inl, inr, Bool-cases,
  ==_iff, arith, ◌==◌, if◌then◌else◌, take, drop, find, put, erase, find-put, find-erase, M,
  Outcome, done, throw, after, pure, ◌>>◌, Preserves, >>-Preserves, option_elim, append_nil,
  append_assoc, take-drop-drop,
}
use tcp_load_balancer.Config.{Bytes}
use tcp_load_balancer.Runtime.{RuntimeState, record_connection_close, record_backend_failure}
use tcp_load_balancer.Health.{maybe_eject}
use tcp_load_balancer.System.{count_of, System}
use tcp_load_balancer.Worker.{
  Worker, Peer, on_runtime, close_one, fail_backend, close_found, close_pair,
}
use tcp_load_balancer.Worker.Sockets.{Sockets, Untouched, bytes_of, pending}

module _ {sys : System} (so : Sockets sys) where
  -- What socket `k` has taken, and then `f k p`, is what its paired socket has given.
  abbrev pub Balance : (ℕ → Peer → Bytes) → Worker sys → Type 0
  Balance f w =
      (k : ℕ) (p : Peer)
      → find k w.peers ≡ some p
      → so.taken k w.world ++ f k p ≡ so.given p.paired_fd w.world

  abbrev pub IsRelayed : Worker sys → Type 0
  IsRelayed = Balance (λ k p. pending p)

  pub world-Balance :
      (f : ℕ → Peer → Bytes) (w : Worker sys) (x : sys.World)
      → Untouched so.taken so.given w.world x
      → Balance f w
      → Balance f (record w { world = x })
  world-Balance f w x u b k p h = ap (λ ys. ys ++ f k p) (u k).0 ∙ b k p h ∙ sym (u p.paired_fd).1

  pub put-Balance :
      (f g : ℕ → Peer → Bytes) (fd : ℕ) (p q : Peer) (w : Worker sys) (x : sys.World)
      → find fd w.peers ≡ some p
      → Untouched so.taken so.given w.world x
      → q.paired_fd ≡ p.paired_fd
      → g fd q ≡ f fd p
      → ((k : ℕ) (r : Peer) → fd ≢ k → find k w.peers ≡ some r → g k r ≡ f k r)
      → Balance f w
      → Balance g (record w { peers = put fd q w.peers; world = x })
  put-Balance f g fd p q w x h u d e others b k r l = elim (Bool-cases (fd == k)) [
    | inl same ↦
        let at : fd ≡ k = (==_iff fd k).0 same in
        let is : q ≡ r = ground (arith, find-put fd k q p w.peers h) in
        rw (← at, ← is)
          (ap (◌++◌ (so.taken fd x)) e
            ∙ world-Balance f w x u b fd p h
            ∙ ap (λ j. so.given j x) (sym d))
    | inr differ ↦
        let m : find k w.peers ≡ some r = ground (arith, find-put fd k q p w.peers h) in
        rw (others k r (ground arith) m) (world-Balance f w x u b k r m)
  ]

  -- The calls that close a pair.
  pub on_runtime-Balance :
      (f : ℕ → Peer → Bytes) {A : Type 0} (m : M RuntimeState A)
      → Preserves (Balance f) (on_runtime {sys = sys} m)
  on_runtime-Balance f m w b = of_outcome (m w.runtime)
    where
      of_outcome :
          {A : Type 0} (o : Outcome RuntimeState A)
          → Balance f (
              after (elim o [
                | done a r ↦ done a (record w { runtime = r })
                | throw e r ↦ throw e (record w { runtime = r })
              ]))
      of_outcome (done a r) = b
      of_outcome (throw e r) = b

  erase-Balance :
      (f : ℕ → Peer → Bytes) (fd : ℕ) (w : Worker sys) (x : sys.World)
      → Untouched so.taken so.given w.world x
      → Balance f w
      → Balance f (record w { peers = erase fd w.peers; world = x })
  erase-Balance f fd w x u b k r l =
      world-Balance f w x u b k r (ground (arith, find-erase fd k w.peers))

  close_one-Balance :
      (f : ℕ → Peer → Bytes) (fd : ℕ) → Preserves (Balance f) (close_one {sys = sys} fd)
  unfolding close_one
  close_one-Balance f fd w b =
      let x = sys.epoll_delete fd w.world in
      let y = sys.close fd x in
      option_elim (λ o. Balance f (after o)) (find fd w.peers) (done tt w)
        (λ p. done tt (record w { peers = erase fd w.peers; world = y })) (λ _. b)
        (λ p _.
          erase-Balance f fd w y
            (λ k.
              let c = so.close_keeps fd x k in
              let d = so.delete_keeps fd w.world k in (c.0 ∙ d.0, c.1 ∙ d.1))
            b)

  fail-Balance : (f : ℕ → Peer → Bytes) (i : ℕ) → Preserves (Balance f) (fail_backend {sys = sys} i)
  unfolding fail_backend
  fail-Balance f i =
      >>-Preserves (Balance f) (on_runtime (record_backend_failure i)) (on_runtime (maybe_eject i))
        (on_runtime-Balance f (record_backend_failure i)) (on_runtime-Balance f (maybe_eject i))

  pub close_pair-Balance :
      (f : ℕ → Peer → Bytes) (fd : ℕ) (failure : Bool)
      → Preserves (Balance f) (close_pair {sys = sys} fd failure)
  unfolding close_pair close_found
  close_pair-Balance f fd failure w b =
      option_elim (λ o. Balance f (after o)) (find fd w.peers) (done tt w)
        (λ p. close_found fd failure p w) (λ _. b) (λ p _. found p w b)
    where
      ending :
          (i : ℕ) (failure : Bool)
          → Preserves (Balance f) (if failure then fail_backend {sys = sys} i else pure tt)
      ending i true w b = fail-Balance f i w b
      ending i false w b = b

      found : (p : Peer) → Preserves (Balance f) (close_found fd failure p)
      found p =
          let i = p.backend_index in
          let ends : M (Worker sys) (Unit {0}) = if failure then fail_backend i else pure tt in
          let records : M (Worker sys) (Unit {0}) =
            on_runtime (record_connection_close i) >> ends in
          let closes : M (Worker sys) (Unit {0}) = close_one p.paired_fd >> records in
          >>-Preserves (Balance f) (close_one fd) closes (close_one-Balance f fd) (
            >>-Preserves (Balance f) (close_one p.paired_fd) records
              (close_one-Balance f p.paired_fd)
              (>>-Preserves (Balance f) (on_runtime (record_connection_close i)) ends
                (on_runtime-Balance f (record_connection_close i)) (ending i failure)))

  -- What is owed while a call on a socket is under way: to socket `fd` the `n` bytes after those
  -- sent are already gone, or from socket `fd` some bytes have come that no buffer holds yet.
  abbrev pub gone : ℕ → ℕ → ℕ → Peer → Bytes
  gone fd n k p = if k == fd then drop (p.sent + n) p.outbound else pending p

  abbrev pub owed : ℕ → Bytes → ℕ → Peer → Bytes
  owed fd bytes k p = pending p ++ (if p.paired_fd == fd then bytes else [])

  -- After a write to the peer that stands under `fd`.
  pub write-Balance :
      (fd : ℕ) (peer : Peer) (w : Worker sys)
      → find fd w.peers ≡ some peer
      → IsRelayed w
      → Balance
          (gone fd (count_of (sys.write fd (pending peer) w.world).0))
          (record w { world = (sys.write fd (pending peer) w.world).1 })
  write-Balance fd peer w h b k r l =
      let n = count_of (sys.write fd (pending peer) w.world).0 in
      let u = so.write_takes fd (pending peer) k w.world in
      let v = so.write_takes fd (pending peer) r.paired_fd w.world in
      let kept : so.taken k w.world ++ pending r
          ≡ so.given r.paired_fd (sys.write fd (pending peer) w.world).1 =
        b k r l ∙ sym v.0 in
      elim (Bool-cases (k == fd)) [
        | inl same ↦
            let at : k ≡ fd = (==_iff k fd).0 same in
            let is : r ≡ peer = ground (arith, at, h, l) in
            let all = take-drop-drop r.sent n r.outbound in
            let assoc =
              append_assoc (so.taken k w.world) (take n (pending r))
                (drop (r.sent + n) r.outbound) in
            ground (arith, u.1, kept, same, is, all, assoc)
        | inr differ ↦ ground (arith, u.1, kept, differ, append_nil (so.taken k w.world))
      ]

  -- After a read from socket `fd`.
  pub read-Balance :
      (fd n : ℕ) (w : Worker sys)
      → IsRelayed w
      → Balance
          (owed fd (bytes_of (sys.read fd n w.world).0))
          (record w { world = (sys.read fd n w.world).1 })
  read-Balance fd n w b k r l =
      let u = so.read_gives fd n k w.world in
      let v = so.read_gives fd n r.paired_fd w.world in
      rw
        (
          u.0,
          v.1,
          ← append_assoc (so.taken k w.world) (pending r)
              (if r.paired_fd == fd then bytes_of (sys.read fd n w.world).0 else []),
          b k r l,
        )
        refl
