-- ===== src/Worker/Patience.antt =====
-- About the fuel of `flush` of src/server.cpp.
use tcp_load_balancer.Base.{
  ℕ, zero, suc, ◌+◌, ◌-◌, ◌<◌, ◌≤◌, ◌≡◌, refl, Bool, ◌||◌, some, arith, ltb, leb, ◌==◌,
  if◌then◌else◌, length, drop, find, put, find-put, M, done, Returns, Outcome, if_elim, option_elim,
  length-drop,
}
use tcp_load_balancer.Config.{Bytes}
use tcp_load_balancer.System.{count_of, System, WriteResult, wrote}
use tcp_load_balancer.Worker.Closing.{Inv, close_pair-Inv}
use tcp_load_balancer.Worker.Keeping.{alike}
use tcp_load_balancer.Worker.Sockets.{Sockets}
use tcp_load_balancer.Worker.Storing.{put-Inv, world-Inv}
use tcp_load_balancer.Worker.Transfer.{cleared, written, flush_result, flush_turn, flush}
use tcp_load_balancer.Worker.{Worker, Peer, modify_fd, refresh, contains, wanted, close_pair}

-- The signals still to come, each of which can interrupt a `write`.
pub record Signals (sys : System) : Type 0 where
  pub left : sys.World → ℕ
  pub now_left : (x : sys.World) → left (sys.now x).1 ≤ left x
  pub write_left : (fd : ℕ) (bytes : Bytes) (x : sys.World) → left (sys.write fd bytes x).1 ≤ left x
  pub interrupted_left :
      (fd : ℕ) (bytes : Bytes) (x : sys.World)
      → (sys.write fd bytes x).0 ≡ WriteResult.interrupted
      → left (sys.write fd bytes x).1 < left x

module _ {sys : System} (so : Sockets sys) (si : Signals sys) (others : ℕ → ℕ) where
  Ends : Outcome (Worker sys) (Unit {0}) → Type 0
  Ends o = Returns o (Inv others)

  modify-Returns : (fd : ℕ) (w : Worker sys) → Inv others w → Ends (modify_fd fd w)
  unfolding modify_fd Ends
  modify-Returns fd w v =
      option_elim Ends (find fd w.peers) (done tt w)
        (λ p.
          done tt (record w {
            world = sys.epoll_modify fd (wanted p (find p.paired_fd w.peers)) w.world;
          }))
        (λ _. (w, refl, v))
        (λ p _.
          let x = sys.epoll_modify fd (wanted p (find p.paired_fd w.peers)) w.world in
          (record w { world = x }, refl, world-Inv others w x v))

  refresh-Returns : (fd : ℕ) (w : Worker sys) → Inv others w → Ends (refresh fd w)
  unfolding refresh Ends
  refresh-Returns fd w v =
      if_elim Ends (contains fd w.peers) (modify_fd fd w) (done tt w) (λ _. modify-Returns fd w v)
        (λ _. (w, refl, v))

  -- The turns that are left: one for each byte that waits and each signal, and the last one.
  abbrev pub turns : Peer → Worker sys → ℕ
  turns p w = length p.outbound - p.sent + si.left w.world + 1

  -- The loop with `fuel` turns left.
  abbrev Enough : ℕ → ℕ → M (Worker sys) (Unit {0}) → Type 0
  Enough fuel fd again =
      (p : Peer) (w : Worker sys)
      → Inv others w
      → find fd w.peers ≡ some p
      → turns p w ≤ fuel
      → Ends (again w)

  module _ (fuel fd : ℕ) (again : M (Worker sys) (Unit {0})) (enough : Enough fuel fd again)
      (peer : Peer) where
    written-Returns :
        (n : ℕ) (w : Worker sys)
        → Inv others w
        → find fd w.peers ≡ some peer
        → 0 < n
        → peer.sent + n ≤ length peer.outbound
        → turns peer w ≤ suc fuel
        → Ends (written again fd peer n w)
    unfolding written
    written-Returns n w v h pos b le =
        let (t, world) = sys.now w.world in
        let p : Peer = record peer { sent = peer.sent + n; last_activity = t } in
        let w₁ : Worker sys = record w { world = world; peers = put fd (cleared p) w.peers } in
        let w₂ : Worker sys = record w { world = world; peers = put fd p w.peers } in
        if_elim Ends (p.sent == length p.outbound) (refresh p.paired_fd w₁) (again w₂)
          (λ _. refresh-Returns p.paired_fd w₁ (
            put-Inv others fd peer (cleared p) w world v h
              (alike refl refl refl refl (omega arith))))
          (λ _.
            enough p w₂ (put-Inv others fd peer p w world v h (alike refl refl refl refl b))
              (ground (arith, find-put fd fd p peer w.peers h))
              (omega (arith, si.now_left w.world, pos, b, le)))

    flush_result-Returns :
        (result : WriteResult) (w : Worker sys)
        → Inv others w
        → find fd w.peers ≡ some peer
        → peer.sent + count_of result ≤ length peer.outbound
        → turns peer w ≤ suc fuel
        → (result ≡ WriteResult.interrupted → turns peer w ≤ fuel)
        → Ends (flush_result again fd peer result w)
    unfolding flush_result Ends
    flush_result-Returns (wrote n) w v h b le i =
        if_elim Ends (ltb 0 n) (written again fd peer n w) (close_pair fd peer.backend_side w)
          (λ e. written-Returns n w v h (ground arith) b le)
          (λ _. close_pair-Inv others fd peer.backend_side w v)
    flush_result-Returns WriteResult.would_block w v h b le i = (w, refl, v)
    flush_result-Returns WriteResult.interrupted w v h b le i = enough peer w v h (i refl)
    flush_result-Returns WriteResult.failed w v h b le i =
        close_pair-Inv others fd peer.backend_side w v

    flush_turn-Returns :
        (w : Worker sys)
        → Inv others w
        → find fd w.peers ≡ some peer
        → turns peer w ≤ suc fuel
        → Ends (flush_turn again fd peer w)
    unfolding flush_turn Ends
    flush_turn-Returns w v h le =
        let u = v.paired fd peer h in
        let bytes = drop peer.sent peer.outbound in
        let (result, world) = sys.write fd bytes w.world in
        let w₁ : Worker sys = record w { peers = put fd (cleared peer) w.peers } in
        let w₂ : Worker sys = record w { world = world } in
        let drained : Bool = leb (length peer.outbound) peer.sent in
        let w₃ : Worker sys = if drained then w₁ else w in
        if_elim Ends (peer.connecting || drained) (done tt w₃)
          (flush_result again fd peer result w₂)
          (λ _. (
            w₃,
            refl,
            if_elim (Inv others) drained w₁ w
                (λ _.
                  put-Inv others fd peer (cleared peer) w w.world v h
                    (alike refl refl refl refl (omega arith)))
                (λ _. v),
          ))
          (λ _.
            flush_result-Returns result w₂ (world-Inv others w world v) h
              (omega (
                arith,
                u.sent_bound,
                so.write_fits fd bytes w.world,
                length-drop peer.sent peer.outbound,
              ))
              (omega (arith, le, si.write_left fd bytes w.world))
              (λ (e : result ≡ WriteResult.interrupted).
                omega (arith, le, si.interrupted_left fd bytes w.world e)))

  -- With a turn for each byte that waits in the peer's buffer, one for each signal still to come
  -- and one more, `flush` returns, and leaves a worker that satisfies the invariant.
  pub flush-Returns :
      (fuel fd : ℕ) (p : Peer) (w : Worker sys)
      → Inv others w
      → find fd w.peers ≡ some p
      → turns p w ≤ fuel
      → Returns (flush fuel fd w) (Inv others)
  unfolding flush Ends
  flush-Returns zero fd p w v h le = ground (arith, le)
  flush-Returns (suc fuel) fd p w v h le =
      rw (h, flush) (flush_turn-Returns fuel fd (flush fuel fd) (flush-Returns fuel fd) p w v h le)
