-- ===== src/System.antt =====
-- The system calls of a worker, and the clock. Their results come from a world that each call
-- changes; what they are documented to do is stated where a theorem relies on it.
use tcp_load_balancer.Base.{ℕ, Bool, Option}
use tcp_load_balancer.Config.{Bytes, Endpoint}

-- `read`: the bytes read, none of them at the end of the stream; or -1 and `errno`.
pub data ReadResult : Type 0 where
  got : Bytes → ReadResult
  would_block interrupted failed : ReadResult

-- `write`: the number of bytes taken; or -1 and `errno`.
pub data WriteResult : Type 0 where
  wrote : ℕ → WriteResult
  would_block interrupted failed : WriteResult

-- The number of bytes that a result of `write` has taken.
abbrev pub count_of : WriteResult → ℕ
count_of (wrote n) = n
count_of WriteResult.would_block = 0
count_of WriteResult.interrupted = 0
count_of WriteResult.failed = 0

-- `accept4`: a new descriptor; or -1 and `errno`.
pub data AcceptResult : Type 0 where
  accepted : ℕ → AcceptResult
  would_block interrupted failed : AcceptResult

-- The events that a worker may ask `epoll` for; errors and hang-ups are always asked for.
pub record Interest : Type 0 where
  pub readable : Bool
  pub writable : Bool

pub record System : Type 1 where
  pub World : Type 0
  -- The steady clock, in nanoseconds.
  pub now : World → ℕ × World
  pub read : ℕ → ℕ → World → ReadResult × World
  pub write : ℕ → Bytes → World → WriteResult × World
  pub accept : World → AcceptResult × World
  -- `connect_backend`: the descriptor of a socket that connects, or nothing for -1.
  pub connect_backend : Endpoint → World → Option ℕ × World
  -- Whether `getsockopt(SO_ERROR)` fails or reports an error.
  pub socket_error : ℕ → World → Bool × World
  -- Whether `epoll_ctl(EPOLL_CTL_ADD)` succeeds.
  pub epoll_add : ℕ → Interest → World → Bool × World
  pub epoll_modify : ℕ → Interest → World → World
  pub epoll_delete : ℕ → World → World
  pub close : ℕ → World → World
  -- What `std::uniform_int_distribution(0, count - 1)` draws in one call of `select`.
  pub draws : ℕ → World → (ℕ → ℕ) × World
