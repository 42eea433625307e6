-- ===== src/Examples/Sockets.antt =====
-- Tests of the helpers for sockets, and the theorem on them at a concrete input.
use tcp_load_balancer.Base.{
  ℕ, ◌≡◌, refl, ap, Bool, true, false, List, [], ◌∷◌, Option, some, done, after,
}
use tcp_load_balancer.Examples.Process.{local}
use tcp_load_balancer.Network.Closing.{Listens, sockets_closed}
use tcp_load_balancer.Network.Descriptors.{Descriptors, Gives}
use tcp_load_balancer.Network.{
  Network, connect_backend, make_listener, tcp_probe, resolved_worker_count,
}

-- The world is the open descriptors; a name has two addresses, and the first one refuses.
abbrev tail_of : List ℕ → List ℕ
tail_of [] = []
tail_of (fd ∷ rest) = rest

abbrev two_addresses : Network
two_addresses = record {
  World = List ℕ;
  Address = Bool;
  now = λ w. (5000, w);
  addresses_of = λ e w. (some (false ∷ true ∷ []), w);
  socket = λ a w. (some 8, 8 ∷ w);
  get_flags = λ fd w. (true, w);
  add_nonblock = λ fd w. (true, w);
  reuse_address = λ fd w. (true, w);
  share_port = λ fd w. (true, w);
  bind = λ fd a w. (a, w);
  listen = λ fd w. (true, w);
  connect = λ fd a w. (a, w);
  poll = λ fd ms w. (true, w);
  has_no_error = λ fd w. (true, w);
  no_delay = λ fd w. w;
  close = λ fd w. tail_of w;
}

some_injective : (m n : ℕ) → ◌≡◌ {A = Option ℕ} (some m) (some n) → m ≡ n
some_injective m n e = cc

two_addresses-Descriptors : Descriptors two_addresses
two_addresses-Descriptors = record {
  opened = λ w. w;
  now_keeps = λ w. refl;
  resolve_keeps = λ e w. refl;
  socket_opens = λ a fd w e. ap (λ k. k ∷ w) (some_injective 8 fd e);
  socket_fails = λ a w e. cc;
  get_keeps = λ fd w. refl;
  add_keeps = λ fd w. refl;
  reuse_keeps = λ fd w. refl;
  share_keeps = λ fd w. refl;
  bind_keeps = λ fd a w. refl;
  listen_keeps = λ fd w. refl;
  connect_keeps = λ fd a w. refl;
  poll_keeps = λ fd ms w. refl;
  error_keeps = λ fd w. refl;
  delay_keeps = λ fd w. refl;
  close_closes = λ fd rest w e. ap tail_of e;
}

second_connected : connect_backend two_addresses (local 80) (3 ∷ []) ≡ done (some 8) (8 ∷ 3 ∷ [])
unfolding connect_backend
second_connected = refl

probed : tcp_probe two_addresses (local 80) 500 (3 ∷ []) ≡ done (some 0) (3 ∷ [])
unfolding tcp_probe
probed = refl

one_worker : resolved_worker_count 0 0 ≡ 1
unfolding resolved_worker_count
one_worker = refl

sockets_closed_example :
    Gives two_addresses-Descriptors (3 ∷ []) (connect_backend two_addresses (local 80) (3 ∷ []))
    × Listens two_addresses-Descriptors
        (3 ∷ [])
        (make_listener two_addresses (local 80) true (3 ∷ []))
    × (after (tcp_probe two_addresses (local 80) 500 (3 ∷ [])) ≡ 3 ∷ [])
unfolding two_addresses-Descriptors
sockets_closed_example = sockets_closed two_addresses-Descriptors (local 80) true 500 (3 ∷ [])
