-- ===== src/Worker/Keeping.antt =====
-- About `flush` of src/server.cpp: the worker's invariant and the bytes of the sockets, one step of
-- the loop at a time.
use tcp_load_balancer.Base.{
  ℕ, zero, suc, ◌+◌, ◌<◌, ◌≤◌, ◌≡◌, ◌≢◌, refl, ◌∙◌, Bool, ◌||◌, some, arith, ltb, leb, ◌==◌,
  if◌then◌else◌, length, drop, drop_past, find, put, M, done, after, Preserves, Outcome, if_elim,
  option_elim, length-drop,
}
use tcp_load_balancer.Config.{Bytes}
use tcp_load_balancer.Runtime.{RuntimeState}
use tcp_load_balancer.System.{count_of, System, WriteResult, wrote}
use tcp_load_balancer.Worker.Closing.{Inv, close_pair-Inv}
use tcp_load_balancer.Worker.Effects.{Acts, quiet}
use tcp_load_balancer.Worker.Sockets.{Sockets, Untouched, pending}
use tcp_load_balancer.Worker.Balance.{
  Balance, IsRelayed, gone, put-Balance, world-Balance, close_pair-Balance, write-Balance,
}
use tcp_load_balancer.Worker.Storing.{Alike, put-Inv, world-Inv}
use tcp_load_balancer.Worker.Transfer.{cleared, written, flush_result, flush_turn, flush}
use tcp_load_balancer.Worker.{Worker, Peer, modify_fd, refresh, contains, wanted, close_pair}

pub alike :
    {p q : Peer}
    → q.fd ≡ p.fd
    → q.paired_fd ≡ p.paired_fd
    → q.backend_index ≡ p.backend_index
    → q.backend_side ≡ p.backend_side
    → q.sent ≤ length q.outbound
    → Alike p q
alike a b c d e = record {
  same_fd = a;
  same_pair = b;
  same_index = c;
  same_side = d;
  sent_fits = e;
}

module _ {sys : System} (so : Sockets sys) (others : ℕ → ℕ) where
  -- The worker's invariant, while the sockets have taken and given what `f` says.
  abbrev pub SoundWith : (ℕ → Peer → Bytes) → Worker sys → Type 0
  SoundWith f w = Inv others w × Balance so f w

  abbrev pub Sound : Worker sys → Type 0
  Sound w = Inv others w × IsRelayed so w

  -- The outcome leaves a sound worker.
  abbrev pub LeavesSound : Outcome (Worker sys) (Unit {0}) → Type 0
  LeavesSound o = Sound (after o)

  close-Inv : (fd : ℕ) (failure : Bool) → Preserves (Inv others) (close_pair {sys = sys} fd failure)
  close-Inv fd failure w v = let (t, e, u) = close_pair-Inv others fd failure w v in rw e u

  pub close-Preserves : (fd : ℕ) (failure : Bool) → Preserves Sound (close_pair fd failure)
  close-Preserves fd failure w (v, b) =
      (close-Inv fd failure w v, close_pair-Balance so (λ k p. pending p) fd failure w b)

  pub world-Sound :
      (w : Worker sys) (x : sys.World)
      → Untouched so.taken so.given w.world x
      → Sound w
      → Sound (record w { world = x })
  world-Sound w x u (v, b) = (world-Inv others w x v, world-Balance so (λ k p. pending p) w x u b)

  modify-Preserves : (fd : ℕ) → Preserves Sound (modify_fd fd)
  unfolding modify_fd
  modify-Preserves fd w v =
      option_elim LeavesSound (find fd w.peers) (done tt w)
        (λ p.
          done tt (record w {
            world = sys.epoll_modify fd (wanted p (find p.paired_fd w.peers)) w.world;
          }))
        (λ _. v)
        (λ p _.
          world-Sound w (sys.epoll_modify fd (wanted p (find p.paired_fd w.peers)) w.world)
            (so.modify_keeps fd (wanted p (find p.paired_fd w.peers)) w.world) v)

  pub refresh-Preserves : (fd : ℕ) → Preserves Sound (refresh fd)
  unfolding refresh
  refresh-Preserves fd w v =
      if_elim LeavesSound (contains fd w.peers) (modify_fd fd w) (done tt w)
        (λ _. modify-Preserves fd w v) (λ _. v)

  pub runtime-Inv :
      (w : Worker sys) (r : RuntimeState)
      → Inv others w
      → Acts quiet w.runtime r
      → Inv others (record w { runtime = r })
  runtime-Inv w r v a = record {
    ready = a.ready;
    is_map = v.is_map;
    paired = rw a.slots_kept v.paired;
    counted = λ i b.
        let b' : i < length w.runtime.backends = rw (← a.slots_kept) b in
        a.active_is i b' ∙ v.counted i b';
  }

  -- A peer that is written back settles what was owed.
  pub put-Sound :
      (f : ℕ → Peer → Bytes) (fd : ℕ) (p q : Peer) (w : Worker sys) (x : sys.World)
      → find fd w.peers ≡ some p
      → Alike p q
      → Untouched so.taken so.given w.world x
      → pending q ≡ f fd p
      → ((k : ℕ) (r : Peer) → fd ≢ k → find k w.peers ≡ some r → pending r ≡ f k r)
      → SoundWith f w
      → Sound (record w { peers = put fd q w.peers; world = x })
  put-Sound f fd p q w x h a u e elsewhere (v, b) = (
    put-Inv others fd p q w x v h a,
    put-Balance so f (λ k r. pending r) fd p q w x h u a.same_pair e elsewhere b,
  )

  written-Preserves :
      (again : M (Worker sys) (Unit {0})) (fd n : ℕ) (peer : Peer) (w : Worker sys)
      → Preserves Sound again
      → find fd w.peers ≡ some peer
      → peer.sent + n ≤ length peer.outbound
      → SoundWith (gone so fd n) w
      → LeavesSound (written again fd peer n w)
  unfolding written
  written-Preserves again fd n peer w k h b v =
      let (t, world) = sys.now w.world in
      let p : Peer = record peer { sent = peer.sent + n; last_activity = t } in
      let w₁ : Worker sys = record w { world = world; peers = put fd (cleared p) w.peers } in
      let w₂ : Worker sys = record w { world = world; peers = put fd p w.peers } in
      let elsewhere : (j : ℕ) (r : Peer)
          → fd ≢ j
          → find j w.peers ≡ some r
          → pending r ≡ gone so fd n j r =
        λ j r d m. ground (arith, d) in
      if_elim LeavesSound (p.sent == length p.outbound) (refresh p.paired_fd w₁) (again w₂)
        (λ full. refresh-Preserves p.paired_fd w₁ (
          put-Sound (gone so fd n) fd peer (cleared p) w world h
            (alike refl refl refl refl (omega arith)) (so.now_keeps w.world)
            (ground (arith, full, drop_past (peer.sent + n) peer.outbound)) elsewhere v))
        (λ _. k w₂ (
          put-Sound (gone so fd n) fd peer p w world h (alike refl refl refl refl b)
            (so.now_keeps w.world) (ground arith) elsewhere v))

  -- Nothing is gone after a write that takes nothing.
  none_gone : (fd : ℕ) (w : Worker sys) → SoundWith (gone so fd 0) w → Sound w
  none_gone fd w (v, b) = (v, λ k p h. (ground arith) ∙ b k p h)

  flush_result-Preserves :
      (again : M (Worker sys) (Unit {0})) (fd : ℕ) (peer : Peer) (result : WriteResult)
      (w : Worker sys)
      → Preserves Sound again
      → find fd w.peers ≡ some peer
      → peer.sent + count_of result ≤ length peer.outbound
      → SoundWith (gone so fd (count_of result)) w
      → LeavesSound (flush_result again fd peer result w)
  unfolding flush_result
  flush_result-Preserves again fd peer (wrote n) w k h b v =
      if_elim LeavesSound (ltb 0 n) (written again fd peer n w) (close_pair fd peer.backend_side w)
        (λ _. written-Preserves again fd n peer w k h b v)
        (λ e.
          let nothing : n ≡ 0 = ground arith in
          close-Preserves fd peer.backend_side w (none_gone fd w (rw (← nothing) v)))
  flush_result-Preserves again fd peer WriteResult.would_block w k h b v = none_gone fd w v
  flush_result-Preserves again fd peer WriteResult.interrupted w k h b v = k w (none_gone fd w v)
  flush_result-Preserves again fd peer WriteResult.failed w k h b v =
      close-Preserves fd peer.backend_side w (none_gone fd w v)

  flush_turn-Preserves :
      (again : M (Worker sys) (Unit {0})) (fd : ℕ) (peer : Peer) (w : Worker sys)
      → Preserves Sound again
      → find fd w.peers ≡ some peer
      → Sound w
      → LeavesSound (flush_turn again fd peer w)
  unfolding flush_turn
  flush_turn-Preserves again fd peer w k h (v, b) =
      let u = v.paired fd peer h in
      let (result, world) = sys.write fd (drop peer.sent peer.outbound) w.world in
      let w₁ : Worker sys = record w { peers = put fd (cleared peer) w.peers } in
      let w₂ : Worker sys = record w { world = world } in
      let drained : Bool = leb (length peer.outbound) peer.sent in
      if_elim LeavesSound (peer.connecting || drained) (done tt (if drained then w₁ else w))
        (flush_result again fd peer result w₂)
        (λ _.
          if_elim Sound drained w₁ w
            (λ e.
              put-Sound (λ j r. pending r) fd peer (cleared peer) w w.world h
                (alike refl refl refl refl (omega arith)) (λ j. (refl, refl))
                (ground (arith, e, drop_past peer.sent peer.outbound)) (λ j r d m. refl) (v, b))
            (λ _. (v, b)))
        (λ _.
          flush_result-Preserves again fd peer result w₂ k h
            (omega (
              arith,
              u.sent_bound,
              so.write_fits fd (drop peer.sent peer.outbound) w.world,
              length-drop peer.sent peer.outbound,
            ))
            (world-Inv others w world v, write-Balance so fd peer w h b))

  pub flush-Preserves : (fuel fd : ℕ) → Preserves Sound (flush fuel fd)
  unfolding flush
  flush-Preserves zero fd w v = v
  flush-Preserves (suc fuel) fd w v =
      let ih = flush-Preserves fuel fd in
      option_elim LeavesSound (find fd w.peers) (done tt w)
        (λ peer. flush_turn (flush fuel fd) fd peer w) (λ _. v)
        (λ peer e. flush_turn-Preserves (flush fuel fd) fd peer w ih e v)
