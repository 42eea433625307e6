-- ===== src/Examples/Duty.antt =====
-- The theorems on the worker at concrete inputs.
use tcp_load_balancer.Base.{
  put, after, total_of, ℕ, ◌<◌, ◌≡◌, ◌≢◌, refl, Bool, true, false, [], ◌∷◌, some, arith, Returns,
  ◌==◌, ==_iff, ◌*◌, none, if◌then◌else◌, not, Bool-cases, inl, inr, find,
}
use tcp_load_balancer.Examples.Process.{local, busy, busy-IsReady}
use tcp_load_balancer.Runtime.{record_bytes_from_client}
use tcp_load_balancer.Scheduler.{SelectedBackend, up}
use tcp_load_balancer.Worker.Closing.{Inv, close_pair-Inv}
use tcp_load_balancer.Worker.Ending.{shutdown_lem}
use tcp_load_balancer.Worker.Effects.{active_of}
use tcp_load_balancer.Worker.Loop.{
  shutdown, Event, on_peer, on_connect, on_readable, on_writable, reap_timeouts,
}
use tcp_load_balancer.Worker.Transfer.{
  read_available, read_turn, read_result, received, fill, pass_on, record_bytes, flush, flush_turn,
  flush_result, written,
}
use tcp_load_balancer.Worker.Events.{on_peer-Preserves}
use tcp_load_balancer.Worker.Reaping.{reap_timeouts-Returns}
use tcp_load_balancer.Worker.Counting.{Grows, late_connecting, late_idle, seen}
use tcp_load_balancer.Worker.Overdue.{has_late_pair}
use tcp_load_balancer.Worker.Opening.{IsFresh, attach_result-Inv}
use tcp_load_balancer.Worker.Connect.{attach_result, ns_per_ms}
use tcp_load_balancer.Worker.Patience.{flush-Returns}
use tcp_load_balancer.Worker.Storing.{put-Inv}
use tcp_load_balancer.Worker.Keeping.{alike, Sound}
use tcp_load_balancer.Worker.Sockets.{pending}
use tcp_load_balancer.Worker.Pairs.{IsPaired, IsPeer}
use tcp_load_balancer.Worker.{refresh, modify_fd, Worker, Peer, Peers, close_pair}
use tcp_load_balancer.Examples.Wire.{wire, idle_wire, wire_sockets, wire_signals}

-- The two ends of a pair on backend 1.
abbrev end_of : ℕ → ℕ → Bool → Peer
end_of fd paired_fd backend_side = record {
  fd = fd;
  paired_fd = paired_fd;
  backend_index = 1;
  backend_side = backend_side;
  connecting = false;
  connected_started_at = 100;
  connect_deadline = 400;
  last_activity = 100;
  outbound = [];
  sent = 0;
}

abbrev one_pair : Peers
one_pair = (7, end_of 7 8 false) ∷ (8, end_of 8 7 true) ∷ []

abbrev at_work : Worker wire
at_work = record {
  runtime = busy up;
  listener_fd = 3;
  timer_fd = 4;
  peers = one_pair;
  world = idle_wire;
}

-- Each backend has one connection of another worker.
abbrev elsewhere : ℕ → ℕ
elsewhere i = 1

end-IsPeer :
    (fd paired_fd : ℕ) (side : Bool)
    → fd ≢ paired_fd
    → find paired_fd one_pair ≡ some (end_of paired_fd fd (not side))
    → IsPeer 2 one_pair fd (end_of fd paired_fd side)
end-IsPeer fd paired_fd side d h = record {
  own_fd = refl;
  apart = ground (arith, d);
  backend_bound = omega arith;
  sent_bound = omega arith;
  mate = end_of paired_fd fd (not side);
  mate_found = h;
  mated = record { back = refl; same_backend = refl; other_side = refl };
}

one_pair-IsPaired : IsPaired 2 one_pair
one_pair-IsPaired fd p h = elim (Bool-cases (7 == fd)) [
  | inl e ↦
      let at : 7 ≡ fd = (==_iff 7 fd).0 e in
      let is : end_of 7 8 false ≡ p = ground (arith, at) in
      rw (← at, ← is) (end-IsPeer 7 8 false (ground arith) refl)
  | inr e ↦
      let at : 8 ≡ fd = ground arith in
      let is : end_of 8 7 true ≡ p = ground (arith, at) in
      rw (← at, ← is) (end-IsPeer 8 7 true (ground arith) refl)
]

at_work-Inv : Inv elsewhere at_work
at_work-Inv = record {
  ready = busy-IsReady up;
  is_map = (refl, (refl, tt));
  paired = one_pair-IsPaired;
  counted = λ i h. ground arith;
}

close_pair-Inv_example : Returns (close_pair 8 true at_work) (Inv elsewhere)
close_pair-Inv_example = close_pair-Inv elsewhere 8 true at_work at_work-Inv

shutdown_lem_example :
    Returns (shutdown at_work) λ t. (t.peers ≡ []) × ((i : ℕ) → i < 2 → active_of i t.runtime ≡ 1)
shutdown_lem_example = shutdown_lem elsewhere at_work at_work-Inv

one_pair-pending : (fd : ℕ) (p : Peer) → find fd one_pair ≡ some p → pending p ≡ []
one_pair-pending fd p h = elim (Bool-cases (7 == fd)) [
  | inl e ↦
      let at : 7 ≡ fd = (==_iff 7 fd).0 e in
      let is : end_of 7 8 false ≡ p = ground (arith, at) in rw (← is) refl
  | inr e ↦
      let at : 8 ≡ fd = ground arith in
      let is : end_of 8 7 true ≡ p = ground (arith, at) in rw (← is) refl
]

at_work-Sound : Sound wire_sockets elsewhere at_work
unfolding wire_sockets
at_work-Sound = (at_work-Inv, λ k p h. one_pair-pending k p h)

-- Four bytes wait at the client's socket.
abbrev ready : Event
ready = record { fd = 7; hangup = false; readable = true; writable = true }

on_peer-Preserves_example : Sound wire_sockets elsewhere (after (on_peer 20 ready at_work))
on_peer-Preserves_example = on_peer-Preserves wire_sockets elsewhere 20 ready at_work at_work-Sound

-- The backend's socket takes the four bytes.
relayed : (after (on_peer 20 ready at_work)).world.taken 8 ≡ b'a' ∷ b'b' ∷ b'c' ∷ b'd' ∷ []
unfolding on_peer on_connect on_readable on_writable read_available read_turn read_result received
    fill pass_on record_bytes flush flush_turn flush_result written refresh record_bytes_from_client
    modify_fd
relayed = refl

-- The pair has been idle for longer than a minute.
reap_timeouts-Returns_example :
    let now = (wire.now at_work.world).0 in
    let idle = at_work.runtime.config.idle_timeout_ms * ns_per_ms in
    Returns (reap_timeouts at_work) (λ t.
      Sound wire_sockets elsewhere t
      × ((j : ℕ)
          → find j t.peers ≡ (
              if has_late_pair now idle at_work.peers (find j at_work.peers)
              then none
              else find j at_work.peers))
      × Grows
          (total_of (late_connecting now idle at_work.peers) at_work.peers)
          (total_of (late_idle now idle at_work.peers) at_work.peers)
          (seen at_work)
          (seen t))
reap_timeouts-Returns_example = reap_timeouts-Returns wire_sockets elsewhere at_work at_work-Sound

-- Five bytes wait at the backend's end, and the first one is written.
abbrev backlogged : Worker wire
backlogged = record at_work {
  peers =
      put 8
        (record (end_of 8 7 true) { outbound = b'a' ∷ b'b' ∷ b'c' ∷ b'd' ∷ b'e' ∷ []; sent = 1 })
        one_pair;
}

backlogged-Inv : Inv elsewhere backlogged
backlogged-Inv =
    put-Inv elsewhere 8 (end_of 8 7 true) _ at_work idle_wire at_work-Inv refl
      (alike refl refl refl refl (omega arith))

flush-Returns_example : Returns (flush 5 8 backlogged) (Inv elsewhere)
unfolding wire_signals
flush-Returns_example =
    flush-Returns wire_sockets wire_signals elsewhere 5 8 _ backlogged backlogged-Inv refl
      (omega arith)

-- A second client arrives at the first backend.
arrival-IsFresh : (b : ℕ) → some 9 ≡ some b → IsFresh one_pair 10 b
arrival-IsFresh b e = record {
  client_absent = refl;
  backend_absent = ground (arith, e);
  distinct = ground (arith, e);
}

abbrev first_backend : SelectedBackend
first_backend = record { index = 0; endpoint = local 9101 }

attach_result-Inv_example : Inv elsewhere (after (attach_result 10 first_backend (some 9) at_work))
attach_result-Inv_example =
    attach_result-Inv elsewhere 10 first_backend (some 9) at_work at_work-Inv arrival-IsFresh
      (omega arith) (omega arith)
