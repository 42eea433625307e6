-- ===== src/Worker/Sockets.antt =====
-- What the sockets of a worker give and take, and how the peers stand to it.
use tcp_load_balancer.Base.{ℕ, ◌≤◌, ◌≡◌, [], ◌++◌, ◌==◌, if◌then◌else◌, length, take, drop}
use tcp_load_balancer.Config.{Bytes}
use tcp_load_balancer.System.{System, Interest, ReadResult, count_of, got}
use tcp_load_balancer.Worker.{Peer}

-- The bytes that a result of `read` hands over.
abbrev pub bytes_of : ReadResult → Bytes
bytes_of (got bytes) = bytes
bytes_of ReadResult.would_block = []
bytes_of ReadResult.interrupted = []
bytes_of ReadResult.failed = []

-- Between two worlds no socket has given or taken a byte.
abbrev pub Untouched : {W : Type 0} → (ℕ → W → Bytes) → (ℕ → W → Bytes) → W → W → Type 0
Untouched taken given x y = (k : ℕ) → (taken k y ≡ taken k x) × (given k y ≡ given k x)

-- The documented behaviour of the calls on sockets. `given k` are the bytes read from socket `k`,
-- and `taken k` the bytes that it has taken from writers; only `read` and `write` change them.
pub record Sockets (sys : System) : Type 0 where
  pub taken : ℕ → sys.World → Bytes
  pub given : ℕ → sys.World → Bytes
  pub now_keeps : (x : sys.World) → Untouched taken given x (sys.now x).1
  pub modify_keeps :
      (fd : ℕ) (i : Interest) (x : sys.World) → Untouched taken given x (sys.epoll_modify fd i x)
  pub delete_keeps : (fd : ℕ) (x : sys.World) → Untouched taken given x (sys.epoll_delete fd x)
  pub close_keeps : (fd : ℕ) (x : sys.World) → Untouched taken given x (sys.close fd x)
  pub error_keeps : (fd : ℕ) (x : sys.World) → Untouched taken given x (sys.socket_error fd x).1
  pub read_gives :
      (fd n k : ℕ) (x : sys.World)
      → (taken k (sys.read fd n x).1 ≡ taken k x)
        × (given k (sys.read fd n x).1
            ≡ given k x ++ (if k == fd then bytes_of (sys.read fd n x).0 else []))
  pub write_takes :
      (fd : ℕ) (bytes : Bytes) (k : ℕ) (x : sys.World)
      → (given k (sys.write fd bytes x).1 ≡ given k x)
        × (taken k (sys.write fd bytes x).1
            ≡ taken k x ++ (if k == fd then take (count_of (sys.write fd bytes x).0) bytes else []))
  pub write_fits :
      (fd : ℕ) (bytes : Bytes) (x : sys.World) → count_of (sys.write fd bytes x).0 ≤ length bytes

-- The bytes of a peer that wait to be written.
abbrev pub pending : Peer → Bytes
pending p = drop p.sent p.outbound
