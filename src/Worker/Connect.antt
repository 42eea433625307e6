-- ===== src/Worker/Connect.antt =====
-- `accept_clients`, `attach_backend` and `finish_connect` of the worker.
use tcp_load_balancer.Base.{
  ℕ, zero, suc, ◌+◌, ◌-◌, ◌*◌, ◌/◌, ◌%◌, true, false, Option, none, some, if◌then◌else◌, length,
  find, put, emplace, [], M, done, throw, out_of_fuel, pure, ◌>>=◌, ◌>>◌,
}
use tcp_load_balancer.Runtime.{on_scheduler, record_connection_open, record_connect_latency}
use tcp_load_balancer.Scheduler.{SelectedBackend, select, mark_healthy, u64_mod}
use tcp_load_balancer.System.{System, Interest, AcceptResult, accepted}
use tcp_load_balancer.Worker.Transfer.{flush}
use tcp_load_balancer.Worker.{Worker, Peer, on_runtime, add_fd, refresh, close_pair, fail_backend}

-- The peers of a new pair: the client's, and the backend's, which is still connecting.
abbrev pub client_peer : ℕ → ℕ → ℕ → ℕ → ℕ → Peer
client_peer client_fd backend_fd index t deadline = record {
  fd = client_fd;
  paired_fd = backend_fd;
  backend_index = index;
  backend_side = false;
  connecting = false;
  connected_started_at = t;
  connect_deadline = deadline;
  last_activity = t;
  outbound = [];
  sent = 0;
}

abbrev pub backend_peer : ℕ → ℕ → ℕ → ℕ → ℕ → Peer
backend_peer client_fd backend_fd index t deadline = record {
  fd = backend_fd;
  paired_fd = client_fd;
  backend_index = index;
  backend_side = true;
  connecting = true;
  connected_started_at = t;
  connect_deadline = deadline;
  last_activity = t;
  outbound = [];
  sent = 0;
}

-- Nanoseconds in a millisecond and in a microsecond.
abbrev pub ns_per_ms : ℕ
ns_per_ms = 1_000_000

abbrev pub ns_per_us : ℕ
ns_per_us = 1000

abbrev pub reading : Interest
reading = record { readable = true; writable = false }

abbrev pub writing : Interest
writing = record { readable = false; writable = true }

module _ {sys : System} where
  open sys use {now, accept, connect_backend, socket_error, close, draws}

  -- `close(fd)` of a socket that is no peer yet.
  unfoldable pub drop_client : ℕ → M (Worker sys) (Unit {0})
  drop_client fd w = done tt (record w { world = close fd w.world })

  -- `runtime->scheduler().select()`, with what the random generator draws.
  unfoldable pub select_backend : M (Worker sys) (Option SelectedBackend)
  select_backend w =
      let (d, world) = draws (length w.runtime.scheduler.backends) w.world in
      on_runtime (on_scheduler (select d)) (record w { world = world })

  -- The two calls of `emplace`.
  unfoldable pub pair_up : ℕ → ℕ → ℕ → M (Worker sys) (Unit {0})
  pair_up client_fd backend_fd index w =
      let (t, world) = now w.world in
      let deadline = t + w.runtime.config.connect_timeout_ms * ns_per_ms in
      (do
        on_runtime (record_connection_open index)
        λ v. done tt (record v {
          peers =
              emplace backend_fd (backend_peer client_fd backend_fd index t deadline)
                (emplace client_fd (client_peer client_fd backend_fd index t deadline) v.peers);
        }))
        (record w { world = world })

  -- What `attach_backend` does with the result of `connect_backend`.
  unfoldable pub attach_result : ℕ → SelectedBackend → Option ℕ → M (Worker sys) (Unit {0})
  attach_result client_fd selected none = do fail_backend selected.index; drop_client client_fd
  attach_result client_fd selected (some backend_fd) = do
    pair_up client_fd backend_fd selected.index
    add_fd client_fd reading
    add_fd backend_fd writing

  -- `attach_backend` behind the choice of a backend.
  unfoldable pub attach_to : ℕ → SelectedBackend → M (Worker sys) (Unit {0})
  attach_to client_fd selected w =
      let (connection, world) = connect_backend selected.endpoint w.world in
      attach_result client_fd selected connection (record w { world = world })

  unfoldable pub attach_chosen : ℕ → Option SelectedBackend → M (Worker sys) (Unit {0})
  attach_chosen client_fd none = drop_client client_fd
  attach_chosen client_fd (some selected) = attach_to client_fd selected

  unfoldable pub attach_backend : ℕ → M (Worker sys) (Unit {0})
  attach_backend client_fd = do selected ← select_backend; attach_chosen client_fd selected

  -- What `accept_clients` does with the result of `accept4`. `tune_socket` only sets options.
  unfoldable pub accept_result :
      M (Worker sys) (Unit {0}) → AcceptResult → M (Worker sys) (Unit {0})
  accept_result again (accepted client_fd) = do attach_backend client_fd; again
  accept_result again AcceptResult.would_block = pure tt
  accept_result again AcceptResult.interrupted = again
  accept_result again AcceptResult.failed = pure tt

  -- The loop of `accept_clients`, on fuel.
  unfoldable pub accept_clients : ℕ → M (Worker sys) (Unit {0})
  accept_clients zero w = throw out_of_fuel w
  accept_clients (suc fuel) w =
      let again = accept_clients fuel in
      let (result, world) = accept w.world in
      accept_result again result (record w { world = world })

  -- `finish_connect` behind the tests, on the peer that it has found.
  unfoldable pub connected : ℕ → ℕ → Peer → M (Worker sys) (Unit {0})
  connected fuel fd peer w =
      let (t, world) = now w.world in
      let latency = (t - peer.connected_started_at) / ns_per_us % u64_mod in
      let p = record peer { connecting = false; last_activity = t } in
      (do
        on_runtime (record_connect_latency peer.backend_index latency)
        on_runtime (on_scheduler (mark_healthy peer.backend_index))
        flush fuel fd
        refresh fd)
        (record w { world = world; peers = put fd p w.peers })

  unfoldable pub finish_connect : ℕ → ℕ → M (Worker sys) (Unit {0})
  finish_connect fuel fd w = elim (find fd w.peers) [
    | none ↦ done tt w
    | some peer ↦
        let (bad, world) = socket_error fd w.world in
        let w' = record w { world = world } in
        if bad then close_pair fd true w' else connected fuel fd peer w'
  ]
