-- ===== src/Examples/Wire.antt =====
-- A small system to run a worker on.
use tcp_load_balancer.Base.{
  append_nil, ◌≤◌, ℕ, ◌+◌, ◌≡◌, refl, true, false, [], ◌∷◌, ◌++◌, some, arith, if◌then◌else◌, ◌==◌,
  length, take, drop,
}
use tcp_load_balancer.Config.{Bytes}
use tcp_load_balancer.System.{System, ReadResult, WriteResult, AcceptResult, got, wrote}
use tcp_load_balancer.Worker.Patience.{Signals}
use tcp_load_balancer.Worker.Sockets.{Sockets, bytes_of}

-- What each socket has to be read, has given to a reader and has taken from a writer.
pub record Wire : Type 0 where
  pub ticks : ℕ
  pub next_fd : ℕ
  pub inbox : ℕ → Bytes
  pub given : ℕ → Bytes
  pub taken : ℕ → Bytes

abbrev write_at : (ℕ → Bytes) → ℕ → Bytes → ℕ → Bytes
write_at f fd bytes k = if fd == k then bytes else f k

-- A read gives at most three of the bytes at hand.
abbrev deliver : ℕ → Bytes → Wire → ReadResult × Wire
deliver fd [] x = (ReadResult.would_block, x)
deliver fd (b ∷ bs) x = (
  got (take 3 (b ∷ bs)),
  record x {
    inbox = write_at x.inbox fd (drop 3 (b ∷ bs));
    given = write_at x.given fd (x.given fd ++ take 3 (b ∷ bs));
  },
)

-- A write takes at most two bytes.
abbrev write_wire : ℕ → Bytes → Wire → WriteResult × Wire
write_wire fd bytes x = (
  wrote (length (take 2 bytes)),
  record x { taken = write_at x.taken fd (x.taken fd ++ take 2 bytes) },
)

abbrev pub wire : System
wire = record {
  World = Wire;
  now = λ x. (x.ticks, record x { ticks = x.ticks + 1 });
  read = λ fd n x. deliver fd (x.inbox fd) x;
  write = write_wire;
  accept = λ x. (AcceptResult.would_block, x);
  connect_backend = λ e x. (some x.next_fd, record x { next_fd = x.next_fd + 1 });
  socket_error = λ fd x. (false, x);
  epoll_add = λ fd i x. (true, x);
  epoll_modify = λ fd i x. x;
  epoll_delete = λ fd x. x;
  close = λ fd x. x;
  draws = λ n x. ((λ k. 0), x);
}

abbrev pub idle_wire : Wire
idle_wire = record {
  ticks = 90_000_000_000;
  next_fd = 9;
  inbox = λ k. if k == 7 then b'a' ∷ b'b' ∷ b'c' ∷ b'd' ∷ [] else [];
  given = λ k. [];
  taken = λ k. [];
}

pub length-take_2 : (bytes : Bytes) → length (take 2 bytes) ≤ length bytes
length-take_2 [] = omega arith
length-take_2 (a ∷ []) = omega arith
length-take_2 (a ∷ (b ∷ bs)) = omega arith

pub deliver-gives :
    (fd k : ℕ) (bytes : Bytes) (x : Wire)
    → ((deliver fd bytes x).1.taken k ≡ x.taken k)
      × ((deliver fd bytes x).1.given k
          ≡ x.given k ++ (if k == fd then bytes_of (deliver fd bytes x).0 else []))
deliver-gives fd k [] x = (refl, ground (arith, append_nil (x.given k)))
deliver-gives fd k (b ∷ bs) x = (refl, ground (arith, append_nil (x.given k)))

unfoldable pub wire_sockets : Sockets wire
wire_sockets = record {
  taken = λ k x. x.taken k;
  given = λ k x. x.given k;
  now_keeps = λ x k. (refl, refl);
  modify_keeps = λ fd i x k. (refl, refl);
  delete_keeps = λ fd x k. (refl, refl);
  close_keeps = λ fd x k. (refl, refl);
  error_keeps = λ fd x k. (refl, refl);
  read_gives = λ fd n k x. deliver-gives fd k (x.inbox fd) x;
  write_takes = λ fd bytes k x. (refl, ground (arith, append_nil (x.taken k), length-take_2 bytes));
  write_fits = λ fd bytes x. length-take_2 bytes;
}

-- No signal comes.
unfoldable pub wire_signals : Signals wire
wire_signals = record {
  left = λ x. 0;
  now_left = λ x. omega arith;
  write_left = λ fd bytes x. omega arith;
  interrupted_left = λ fd bytes x e. ground (arith, e);
}
