-- ===== src/Worker/Transfer.antt =====
-- `flush` and `read_available` of the worker. The loops take fuel, and `again` is the next turn of
-- the loop; a loop whose fuel runs out throws `out_of_fuel`.
use tcp_load_balancer.Base.{
  ℕ, zero, suc, ◌+◌, Bool, true, false, ◌||◌, ◌++◌, Option, none, some, ltb, leb, ◌==◌,
  if◌then◌else◌, [], length, drop, find, put, M, done, throw, out_of_fuel, ◌>>◌,
}
use tcp_load_balancer.Config.{Bytes}
use tcp_load_balancer.Runtime.{record_bytes_from_client, record_bytes_from_backend}
use tcp_load_balancer.System.{System, ReadResult, WriteResult, got, wrote}
use tcp_load_balancer.Worker.{
  Worker, Peer, Peers, on_runtime, refresh, close_pair, high_watermark, buffer_size,
}

-- `outbound.clear(); sent = 0;`.
abbrev pub cleared : Peer → Peer
cleared p = record p { outbound = []; sent = 0 }

-- `peers.contains(fd) && peers[fd].outbound.size() >= kHighWatermark`.
abbrev pub is_full : ℕ → Peers → Bool
is_full fd ps = elim (find fd ps) [ none ↦ false | some p ↦ leb high_watermark (length p.outbound) ]

module _ {sys : System} where
  open sys use {now, read, write}

  -- What `flush` does once `n` > 0 bytes are written.
  unfoldable pub written : M (Worker sys) (Unit {0}) → ℕ → Peer → ℕ → M (Worker sys) (Unit {0})
  written again fd peer n w =
      let (t, world) = now w.world in
      let p = record peer { sent = peer.sent + n; last_activity = t } in
      if p.sent == length p.outbound
      then refresh p.paired_fd (record w { world = world; peers = put fd (cleared p) w.peers })
      else again (record w { world = world; peers = put fd p w.peers })

  -- What `flush` does with the result of `write`.
  unfoldable pub flush_result :
      M (Worker sys) (Unit {0}) → ℕ → Peer → WriteResult → M (Worker sys) (Unit {0})
  flush_result again fd peer (wrote n) w =
      if ltb 0 n then written again fd peer n w else close_pair fd peer.backend_side w
  flush_result again fd peer WriteResult.would_block w = done tt w
  flush_result again fd peer WriteResult.interrupted w = again w
  flush_result again fd peer WriteResult.failed w = close_pair fd peer.backend_side w

  -- One turn of the loop, on the peer that it has found.
  unfoldable pub flush_turn : M (Worker sys) (Unit {0}) → ℕ → Peer → M (Worker sys) (Unit {0})
  flush_turn again fd peer w =
      if peer.connecting || leb (length peer.outbound) peer.sent
      then done tt (
          if leb (length peer.outbound) peer.sent
          then record w { peers = put fd (cleared peer) w.peers }
          else w)
      else let (result, world) = write fd (drop peer.sent peer.outbound) w.world in
        flush_result again fd peer result (record w { world = world })

  unfoldable pub flush : ℕ → ℕ → M (Worker sys) (Unit {0})
  flush zero fd w = throw out_of_fuel w
  flush (suc fuel) fd w =
      let again = flush fuel fd in
      elim (find fd w.peers) [ none ↦ done tt w | some peer ↦ flush_turn again fd peer w ]

  unfoldable pub record_bytes : Bool → ℕ → ℕ → M (Worker sys) (Unit {0})
  record_bytes true index n = on_runtime (record_bytes_from_backend index n)
  record_bytes false index n = on_runtime (record_bytes_from_client index n)

  -- The rest of a turn of `read_available` once the bytes stand in the paired peer's buffer.
  unfoldable pub pass_on : ℕ → M (Worker sys) (Unit {0}) → ℕ → Peer → ℕ → M (Worker sys) (Unit {0})
  pass_on fuel again fd source n = do
    record_bytes source.backend_side source.backend_index n
    flush fuel source.paired_fd
    refresh fd
    refresh source.paired_fd
    λ w. if is_full source.paired_fd w.peers then done tt w else again w

  -- What `read_available` does for the paired peer once it has read `bytes` at time `t`.
  unfoldable pub fill :
      ℕ → M (Worker sys) (Unit {0}) → ℕ → Peer → Bytes → ℕ → Option Peer → M (Worker sys) (Unit {0})
  fill fuel again fd source bytes t none w = close_pair fd false w
  fill fuel again fd source bytes t (some paired) w =
      let filled = record paired { last_activity = t; outbound = paired.outbound ++ bytes } in
      pass_on fuel again fd source (length bytes)
        (record w { peers = put source.paired_fd filled w.peers })

  -- What `read_available` does once it has read `bytes`.
  unfoldable pub received :
      ℕ → M (Worker sys) (Unit {0}) → ℕ → Peer → Bytes → M (Worker sys) (Unit {0})
  received fuel again fd source bytes w =
      let (t, world) = now w.world in
      let ps = put fd (record source { last_activity = t }) w.peers in
      fill fuel again fd source bytes t (find source.paired_fd ps)
        (record w { world = world; peers = ps })

  -- What `read_available` does with the result of `read`.
  unfoldable pub read_result :
      ℕ → M (Worker sys) (Unit {0}) → ℕ → Peer → ReadResult → M (Worker sys) (Unit {0})
  read_result fuel again fd source (got bytes) w =
      if ltb 0 (length bytes) then received fuel again fd source bytes w else close_pair fd false w
  read_result fuel again fd source ReadResult.would_block w = done tt w
  read_result fuel again fd source ReadResult.interrupted w = again w
  read_result fuel again fd source ReadResult.failed w = close_pair fd source.backend_side w

  -- One turn of the loop, on the peer that it has found.
  unfoldable pub read_turn : ℕ → M (Worker sys) (Unit {0}) → ℕ → Peer → M (Worker sys) (Unit {0})
  read_turn fuel again fd source w =
      let (result, world) = read fd buffer_size w.world in
      read_result fuel again fd source result (record w { world = world })

  unfoldable pub read_available : ℕ → ℕ → M (Worker sys) (Unit {0})
  read_available zero fd w = throw out_of_fuel w
  read_available (suc fuel) fd w =
      let again = read_available fuel fd in
      elim (find fd w.peers) [ none ↦ done tt w | some source ↦ read_turn fuel again fd source w ]
