-- ===== src/Worker/Events.antt =====
-- About the events that `run` of src/server.cpp handles on a peer's socket.
use tcp_load_balancer.Base.{
  ℕ, ◌-◌, ◌/◌, ◌%◌, ◌≡◌, refl, sym, Bool, true, false, ◌&&◌, not, some, inl, inr, Bool-cases, arith,
  ltb, if◌then◌else◌, length, find, put, M, done, throw, after, ◌>>◌, Preserves, >>-Preserves,
  if_elim, option_elim, Outcome, out_of_range, subst,
}
use tcp_load_balancer.Health.Rounds.{IsReady}
use tcp_load_balancer.Runtime.{RuntimeState, on_scheduler, record_connect_latency, store_latency}
use tcp_load_balancer.Scheduler.Calls.{heals, perform, perform_past_end}
use tcp_load_balancer.Scheduler.{Scheduler, mark_healthy, u64_mod}
use tcp_load_balancer.System.{System}
use tcp_load_balancer.Worker.Connect.{connected, finish_connect, ns_per_us}
use tcp_load_balancer.Worker.Effects.{write-Acts, Acts, quiet, quiet-Acts, heal-Acts}
use tcp_load_balancer.Worker.Keeping.{
  Sound, LeavesSound, alike, close-Preserves, refresh-Preserves, flush-Preserves, world-Sound,
  put-Sound,
}
use tcp_load_balancer.Worker.Sockets.{Sockets, pending}
use tcp_load_balancer.Worker.Loop.{
  Event, is_connecting, on_connect, on_readable, on_writable, on_peer, side_of,
}
use tcp_load_balancer.Worker.Reading.{on_runtime-Preserves, read_available-Preserves}
use tcp_load_balancer.Worker.Transfer.{flush, read_available}
use tcp_load_balancer.Worker.{Worker, Peer, on_runtime, refresh, contains, close_pair}

latency-Acts :
    (i us : ℕ) (r : RuntimeState) → IsReady r → Acts quiet r (after (record_connect_latency i us r))
unfolding record_connect_latency
latency-Acts i us r v = write-Acts i (store_latency us) r v

on_scheduler-throw :
    {A : Type 0} (m : M Scheduler A) (r : RuntimeState)
    → m r.scheduler ≡ throw out_of_range r.scheduler
    → on_scheduler m r ≡ throw out_of_range r
on_scheduler-throw m r e = ground (arith, e)

healthy-Acts :
    (i : ℕ) (r : RuntimeState) → IsReady r → Acts quiet r (after (on_scheduler (mark_healthy i) r))
unfolding perform
healthy-Acts i r v = elim (Bool-cases (ltb i (length r.backends))) [
  | inl e ↦ (heal-Acts i r v (ground arith)).1
  | inr e ↦
      let past : mark_healthy i r.scheduler ≡ throw out_of_range r.scheduler =
        perform_past_end (heals i) r.scheduler v.shape (ground (arith, v.slots)) in
      subst (λ o. Acts quiet r (after o)) (sym (on_scheduler-throw (mark_healthy i) r past))
        (quiet-Acts r v)
]

module _ {sys : System} (so : Sockets sys) (others : ℕ → ℕ) where
  latency-Preserves :
      (i us : ℕ)
      → Preserves (Sound so others) (on_runtime {sys = sys} (record_connect_latency i us))
  latency-Preserves i us w v =
      on_runtime-Preserves so others (record_connect_latency i us) w
        (λ u. latency-Acts i us w.runtime u) v

  healthy-Preserves :
      (i : ℕ) → Preserves (Sound so others) (on_runtime {sys = sys} (on_scheduler (mark_healthy i)))
  healthy-Preserves i w v =
      on_runtime-Preserves so others (on_scheduler (mark_healthy i)) w
        (λ u. healthy-Acts i w.runtime u) v

  module _ (fuel : ℕ) where
    connected-Preserves :
        (fd : ℕ) (peer : Peer) (w : Worker sys)
        → find fd w.peers ≡ some peer
        → Sound so others w
        → LeavesSound so others (connected fuel fd peer w)
    unfolding connected
    connected-Preserves fd peer w h v =
        let u = v.0.paired fd peer h in
        let i = peer.backend_index in
        let (t, world) = sys.now w.world in
        let us = (t - peer.connected_started_at) / ns_per_us % u64_mod in
        let p : Peer = record peer { connecting = false; last_activity = t } in
        let P = Sound so others in
        let asks : M (Worker sys) (Unit {0}) = flush fuel fd >> refresh fd in
        let heals : M (Worker sys) (Unit {0}) =
          on_runtime (on_scheduler (mark_healthy i)) >> asks in
        >>-Preserves P (on_runtime (record_connect_latency i us)) heals (latency-Preserves i us)
          (>>-Preserves P (on_runtime (on_scheduler (mark_healthy i))) asks (healthy-Preserves i) (
            >>-Preserves P (flush fuel fd) (refresh fd) (flush-Preserves so others fuel fd)
              (refresh-Preserves so others fd)))
          (record w { world = world; peers = put fd p w.peers })
          (put-Sound so others (λ k q. pending q) fd peer p w world h
            (alike refl refl refl refl u.sent_bound) (so.now_keeps w.world) refl (λ k r d m. refl)
            v)

    finish_connect-Preserves :
        (fd : ℕ) → Preserves (Sound so others) (finish_connect {sys = sys} fuel fd)
    unfolding finish_connect
    finish_connect-Preserves fd w v =
        let (bad, world) = sys.socket_error fd w.world in
        let w₁ : Worker sys = record w { world = world } in
        let u : Sound so others w₁ = world-Sound so others w world (so.error_keeps fd w.world) v in
        option_elim (LeavesSound so others) (find fd w.peers) (done tt w)
          (λ peer. if bad then close_pair fd true w₁ else connected fuel fd peer w₁) (λ _. v)
          (λ peer e.
            if_elim (LeavesSound so others) bad (close_pair fd true w₁) (connected fuel fd peer w₁)
              (λ _. close-Preserves so others fd true w₁ u)
              (λ _. connected-Preserves fd peer w₁ e u))

    -- A step behind a test keeps the invariant if the step does.
    when-Preserves :
        (test : Worker sys → Bool) (m : M (Worker sys) (Unit {0}))
        → Preserves (Sound so others) m
        → Preserves (Sound so others) (λ w. if test w then m w else done tt w)
    when-Preserves test m h w v =
        if_elim (LeavesSound so others) (test w) (m w) (done tt w) (λ _. h w v) (λ _. v)

    flags-Preserves :
        (e : Event)
        → Preserves
            (Sound so others)
            (on_connect {sys = sys} fuel e >> (on_readable fuel e >> on_writable fuel e))
    unfolding on_connect on_readable on_writable
    flags-Preserves e =
        let P = Sound so others in
        let reads : M (Worker sys) (Unit {0}) = on_readable fuel e >> on_writable fuel e in
        >>-Preserves P (on_connect fuel e) reads
          (when-Preserves (λ w. is_connecting (find e.fd w.peers) && e.writable)
            (finish_connect fuel e.fd) (finish_connect-Preserves e.fd))
          (>>-Preserves P (on_readable fuel e) (on_writable fuel e)
            (when-Preserves (λ w. contains e.fd w.peers && e.readable) (read_available fuel e.fd)
              (read_available-Preserves so others fuel e.fd))
            (when-Preserves (λ w. contains e.fd w.peers && e.writable) (flush fuel e.fd)
              (flush-Preserves so others fuel e.fd)))

    -- Where the system's calls treat the bytes of the sockets as documented, the handling of any
    -- event on a socket, however it ends, takes a worker to one with these two promises, if it
    -- finds them kept. The peers are pairs over the backends, whose active counts are those of
    -- the worker's pairs on top of the other connections. And for each peer, the bytes that its
    -- socket has taken, followed by those that wait in its buffer, are the bytes that were read
    -- from its paired socket, in order.
    pub on_peer-Preserves : (e : Event) → Preserves (Sound so others) (on_peer {sys = sys} fuel e)
    unfolding on_peer
    on_peer-Preserves e w v =
        let steps : M (Worker sys) (Unit {0}) =
          on_connect fuel e >> (on_readable fuel e >> on_writable fuel e) in
        let closes : Outcome (Worker sys) (Unit {0}) =
          close_pair e.fd (side_of (find e.fd w.peers)) w in
        let acts : Outcome (Worker sys) (Unit {0}) = if e.hangup then closes else steps w in
        if_elim (LeavesSound so others) (not (contains e.fd w.peers)) (done tt w) acts (λ _. v)
          (λ _.
            if_elim (LeavesSound so others) e.hangup closes (steps w)
              (λ _. close-Preserves so others e.fd (side_of (find e.fd w.peers)) w v)
              (λ _. flags-Preserves e w v))
