-- ===== src/Worker/Loop.antt =====
-- `reap_timeouts`, the handling of one event in `run`, and `shutdown` of the worker.
use tcp_load_balancer.Base.{
  ℕ, ◌+◌, ◌*◌, ◌%◌, Bool, true, false, not, ◌&&◌, List, [], ◌∷◌, Option, none, some, leb, ◌==◌,
  if◌then◌else◌, find, M, done, pure, ◌>>◌,
}
use tcp_load_balancer.Runtime.{RuntimeMetrics, on_metrics}
use tcp_load_balancer.Scheduler.{u64_mod}
use tcp_load_balancer.System.{System}
use tcp_load_balancer.Worker.Connect.{accept_clients, finish_connect, ns_per_ms}
use tcp_load_balancer.Worker.Transfer.{flush, read_available}
use tcp_load_balancer.Worker.{Worker, Peer, Peers, contains, on_runtime, close_pair}

abbrev pub is_connecting : Option Peer → Bool
is_connecting none = false
is_connecting (some p) = p.connecting

abbrev pub is_overdue : Option Peer → ℕ → Bool
is_overdue none now = false
is_overdue (some p) now = leb p.connect_deadline now

-- The test on one client peer: `some true` for a connect timeout, `some false` for an idle one.
unfoldable pub expiry : ℕ → ℕ → Peer → Option Peer → Option Bool
expiry now idle_timeout peer paired =
    if is_connecting paired && is_overdue paired now
    then some true
    else if not (is_connecting paired) && leb (peer.last_activity + idle_timeout) now
    then some false
    else none

-- `expired.emplace_back(fd, …)`, where the test asks for it.
abbrev pub noted : ℕ → Option Bool → List (ℕ × Bool) → List (ℕ × Bool)
noted fd none rest = rest
noted fd (some failure) rest = (fd, failure) ∷ rest

-- The first loop, over the entries; `ps` is the whole map.
unfoldable pub expired : ℕ → ℕ → Peers → Peers → List (ℕ × Bool)
unfolding expiry
expired now idle_timeout ps [] = []
expired now idle_timeout ps ((fd, peer) ∷ rest) =
    let tail = expired now idle_timeout ps rest in
    if peer.backend_side
    then tail
    else noted fd (expiry now idle_timeout peer (find peer.paired_fd ps)) tail

abbrev pub count_timeout : Bool → RuntimeMetrics → RuntimeMetrics
count_timeout true m = record m { connect_timeouts = (m.connect_timeouts + 1) % u64_mod }
count_timeout false m = record m { idle_timeouts = (m.idle_timeouts + 1) % u64_mod }

-- One event that `epoll_wait` reports: its descriptor, and its flags. `hangup` stands for any of
-- `EPOLLERR`, `EPOLLHUP` and `EPOLLRDHUP`.
pub record Event : Type 0 where
  pub fd : ℕ
  pub hangup : Bool
  pub readable : Bool
  pub writable : Bool

-- The side of a peer that is there.
abbrev pub side_of : Option Peer → Bool
side_of none = false
side_of (some p) = p.backend_side

module _ {sys : System} where
  open sys use {now, close}

  -- The second loop.
  unfoldable pub close_expired : List (ℕ × Bool) → M (Worker sys) (Unit {0})
  close_expired [] = pure tt
  close_expired ((fd, failure) ∷ rest) =
      let later = close_expired rest in
      do on_runtime (on_metrics (count_timeout failure)); close_pair fd failure; later

  unfoldable pub reap_timeouts : M (Worker sys) (Unit {0})
  reap_timeouts w =
      let (t, world) = now w.world in
      let idle_timeout = w.runtime.config.idle_timeout_ms * ns_per_ms in
      close_expired (expired t idle_timeout w.peers w.peers) (record w { world = world })

  unfoldable pub on_connect : ℕ → Event → M (Worker sys) (Unit {0})
  on_connect fuel e w =
      if is_connecting (find e.fd w.peers) && e.writable
      then finish_connect fuel e.fd w
      else done tt w

  unfoldable pub on_readable : ℕ → Event → M (Worker sys) (Unit {0})
  on_readable fuel e w =
      if contains e.fd w.peers && e.readable then read_available fuel e.fd w else done tt w

  unfoldable pub on_writable : ℕ → Event → M (Worker sys) (Unit {0})
  on_writable fuel e w =
      if contains e.fd w.peers && e.writable then flush fuel e.fd w else done tt w

  -- An event on a peer's socket.
  unfoldable pub on_peer : ℕ → Event → M (Worker sys) (Unit {0})
  on_peer fuel e w =
      if not (contains e.fd w.peers)
      then done tt w
      else if e.hangup
      then close_pair e.fd (side_of (find e.fd w.peers)) w
      else (do on_connect fuel e; on_readable fuel e; on_writable fuel e) w

  -- The body of the loop over the events. `consume_timer` only reads from the timer.
  unfoldable pub handle_event : ℕ → Event → M (Worker sys) (Unit {0})
  handle_event fuel e w =
      if e.fd == w.listener_fd
      then accept_clients fuel w
      else if e.fd == w.timer_fd
      then reap_timeouts w
      else on_peer fuel e w

  unfoldable pub handle_events : ℕ → List Event → M (Worker sys) (Unit {0})
  handle_events fuel [] = pure tt
  handle_events fuel (e ∷ es) = let later = handle_events fuel es in do handle_event fuel e; later

  unfoldable pub close_all : Peers → M (Worker sys) (Unit {0})
  close_all [] = pure tt
  close_all ((fd, peer) ∷ rest) = let later = close_all rest in do close_pair fd false; later

  -- `close_fd` of the listener and of the timer.
  abbrev pub close_own : M (Worker sys) (Unit {0})
  close_own w = done tt (record w { world = close w.timer_fd (close w.listener_fd w.world) })

  -- The pairs are closed over a copy of the keys. The descriptor of `epoll` is not part of a worker.
  unfoldable pub shutdown : M (Worker sys) (Unit {0})
  shutdown w = (do close_all w.peers; close_own) w
