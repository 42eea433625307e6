-- ===== src/Worker.antt =====
-- src/server.cpp: `Worker`, the event loop of one thread. A worker holds its peers and runs on the
-- shared runtime. The calls of the system are those of the parameter `sys`, and the peers are an
-- association list; its order stands for the unspecified order of the source's map.
pub mod Transfer
pub mod Connect
pub mod Loop
pub mod Pairs
pub mod Effects
pub mod Closing
pub mod Storing
pub mod Sockets
pub mod Balance
pub mod Keeping
pub mod Patience
pub mod Opening
pub mod Reading
pub mod Overdue
pub mod Counting
pub mod Reaping
pub mod Events
pub mod Ending
use tcp_load_balancer.Base.{
  ℕ, zero, suc, ◌+◌, ◌-◌, ◌*◌, ◌%◌, Bool, true, false, not, ◌&&◌, ◌||◌, List, [], ◌∷◌, ◌++◌, Option,
  none, some, ltb, leb, ◌==◌, if◌then◌else◌, length, drop, find, erase, put, emplace, M, done,
  throw, out_of_fuel, runtime_error, pure, ◌>>=◌, ◌>>◌,
}
use tcp_load_balancer.Config.{Bytes, Endpoint}
use tcp_load_balancer.Health.{maybe_eject}
use tcp_load_balancer.Runtime.{
  RuntimeState, on_scheduler, record_connection_open, record_connection_close,
  record_bytes_from_client, record_bytes_from_backend, record_backend_failure,
  record_connect_latency,
}
use tcp_load_balancer.Scheduler.{SelectedBackend, select, mark_healthy, u64_mod}
use tcp_load_balancer.System.{
  System, Interest, ReadResult, WriteResult, AcceptResult, got, wrote, accepted,
}

-- One past the number of bytes that stops the reading of the paired socket, and the size of the
-- buffer of a read.
abbrev pub high_watermark : ℕ
high_watermark = 1024 * 1024

abbrev pub buffer_size : ℕ
buffer_size = 64 * 1024

pub record Peer : Type 0 where
  pub fd : ℕ
  pub paired_fd : ℕ
  pub backend_index : ℕ
  pub backend_side : Bool
  pub connecting : Bool
  pub connected_started_at : ℕ
  pub connect_deadline : ℕ
  pub last_activity : ℕ
  pub outbound : Bytes
  pub sent : ℕ

abbrev pub Peers : Type 0
Peers = List (ℕ × Peer)

-- `peers.contains(fd)`.
abbrev pub contains : ℕ → Peers → Bool
contains fd ps = elim (find fd ps) [ none ↦ false | some p ↦ true ]

module _ (sys : System) where
  pub record Worker : Type 0 where
    pub runtime : RuntimeState
    pub listener_fd : ℕ
    pub timer_fd : ℕ
    pub peers : Peers
    pub world : sys.World

-- A call on the runtime. What it changes stays changed if it throws.
abbrev pub on_runtime : {sys : System} {A : Type 0} → M RuntimeState A → M (Worker sys) A
on_runtime m w = elim (m w.runtime) [
  | done a r ↦ done a (record w { runtime = r })
  | throw e r ↦ throw e (record w { runtime = r })
]

-- `pair_can_buffer`.
abbrev pub can_buffer : Option Peer → Bool
can_buffer none = false
can_buffer (some p) = ltb (length p.outbound) high_watermark

-- What `modify_fd` asks for: to write while a connection is being made or bytes wait, and to read
-- while the paired peer can buffer.
unfoldable pub wanted : Peer → Option Peer → Interest
wanted peer paired = record {
  readable = not peer.connecting && can_buffer paired;
  writable = peer.connecting || ltb peer.sent (length peer.outbound);
}

module _ {sys : System} where
  open sys use {epoll_add, epoll_modify, epoll_delete, close}

  unfoldable pub add_fd : ℕ → Interest → M (Worker sys) (Unit {0})
  add_fd fd interest w =
      let (added, world) = epoll_add fd interest w.world in
      if added
      then done tt (record w { world = world })
      else throw runtime_error (record w { world = world })

  unfoldable pub modify_fd : ℕ → M (Worker sys) (Unit {0})
  unfolding wanted
  modify_fd fd w = elim (find fd w.peers) [
    | none ↦ done tt w
    | some peer ↦
        done tt
          (record w { world = epoll_modify fd (wanted peer (find peer.paired_fd w.peers)) w.world })
  ]

  -- `if (peers.contains(fd)) modify_fd(fd)`.
  unfoldable pub refresh : ℕ → M (Worker sys) (Unit {0})
  refresh fd w = if contains fd w.peers then modify_fd fd w else done tt w

  unfoldable pub close_one : ℕ → M (Worker sys) (Unit {0})
  close_one fd w = elim (find fd w.peers) [
    | none ↦ done tt w
    | some peer ↦
        done tt (record w { world = close fd (epoll_delete fd w.world); peers = erase fd w.peers })
  ]

  -- `record_backend_failure` and `maybe_eject`.
  unfoldable pub fail_backend : ℕ → M (Worker sys) (Unit {0})
  fail_backend index = do on_runtime (record_backend_failure index); on_runtime (maybe_eject index)

  -- `close_pair` behind its test, on the peer that it has found.
  unfoldable pub close_found : ℕ → Bool → Peer → M (Worker sys) (Unit {0})
  close_found fd backend_failure first = do
    close_one fd
    close_one first.paired_fd
    on_runtime (record_connection_close first.backend_index)
    if backend_failure then fail_backend first.backend_index else pure tt

  unfoldable pub close_pair : ℕ → Bool → M (Worker sys) (Unit {0})
  close_pair fd backend_failure w = elim (find fd w.peers) [
    | none ↦ done tt w
    | some first ↦ close_found fd backend_failure first w
  ]
