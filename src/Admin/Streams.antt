-- ===== src/Admin/Streams.antt =====
-- What the threads of src/admin.cpp rely on from the sockets.
use tcp_load_balancer.Admin.{AdminSystem, SendResult, returned, held}
use tcp_load_balancer.Base.{ℕ, ◌<◌, ◌≤◌, ◌≡◌, [], ◌++◌, ◌==◌, if◌then◌else◌, length, take}
use tcp_load_balancer.System.{WriteResult, count_of}
use tcp_load_balancer.Text.{Bytes}

-- The number of bytes that a call of `send` has taken.
abbrev pub count_taken : SendResult → ℕ
count_taken (returned result) = count_of result
count_taken (held n) = n

-- The documented behaviour of the calls on sockets. `taken k` are the bytes that socket `k` has
-- taken from `send`, which no other call changes.
pub record Streams (sys : AdminSystem) : Type 0 where
  pub taken : ℕ → sys.World → Bytes
  pub now_keeps : (k : ℕ) (x : sys.World) → taken k (sys.now x).1 ≡ taken k x
  pub recv_keeps : (fd n k : ℕ) (x : sys.World) → taken k (sys.recv fd n x).1 ≡ taken k x
  pub close_keeps : (fd k : ℕ) (x : sys.World) → taken k (sys.close fd x) ≡ taken k x
  pub open_keeps :
      (path : Bytes) (k : ℕ) (x : sys.World) → taken k (sys.open_file path x).1 ≡ taken k x
  pub sleep_keeps : (ms k : ℕ) (x : sys.World) → taken k (sys.sleep_ms ms x) ≡ taken k x
  pub send_takes :
      (fd : ℕ) (bytes : Bytes) (k : ℕ) (x : sys.World)
      → taken k (sys.send fd bytes x).1
        ≡ taken k x ++ (if k == fd then take (count_taken (sys.send fd bytes x).0) bytes else [])
  pub send_fits :
      (fd : ℕ) (bytes : Bytes) (x : sys.World) → count_taken (sys.send fd bytes x).0 ≤ length bytes

-- The signals still to come, each of which can interrupt a `send`.
pub record Interruptions (sys : AdminSystem) : Type 0 where
  pub left : sys.World → ℕ
  pub send_left : (fd : ℕ) (bytes : Bytes) (x : sys.World) → left (sys.send fd bytes x).1 ≤ left x
  pub interrupted_left :
      (fd : ℕ) (bytes : Bytes) (x : sys.World)
      → (sys.send fd bytes x).0 ≡ returned WriteResult.interrupted
      → left (sys.send fd bytes x).1 < left x
