-- ===== src/Network.antt =====
-- src/server.cpp: the helpers that make sockets, over a record of system calls. An address is one
-- of those that a name resolves to.
pub mod Descriptors
pub mod Closing
use tcp_load_balancer.Base.{
  ℕ, ◌-◌, ◌/◌, Bool, true, false, List, [], ◌∷◌, Option, none, some, ltb, leb, if◌then◌else◌, M,
  Outcome, Exception, done, throw, pure, ◌>>=◌, ◌>>◌,
}
use tcp_load_balancer.Config.{Endpoint}

pub record Network : Type 1 where
  pub World : Type 0
  pub Address : Type 0
  -- The steady clock, in nanoseconds.
  pub now : World → ℕ × World
  -- The addresses that `getaddrinfo` gives, or its failure.
  pub addresses_of : Endpoint → World → Option (List Address) × World
  -- A new socket, or nothing for -1.
  pub socket : Address → World → Option ℕ × World
  -- Whether the call succeeds.
  pub get_flags : ℕ → World → Bool × World
  pub add_nonblock : ℕ → World → Bool × World
  pub reuse_address : ℕ → World → Bool × World
  pub share_port : ℕ → World → Bool × World
  pub bind : ℕ → Address → World → Bool × World
  pub listen : ℕ → World → Bool × World
  -- Whether `connect` succeeds or is in progress.
  pub connect : ℕ → Address → World → Bool × World
  -- Whether `poll` reports the socket within so many milliseconds; none for a negative number, with
  -- which it waits for the socket.
  pub poll : ℕ → Option ℕ → World → Bool × World
  -- Whether `getsockopt(SO_ERROR)` succeeds and reports no error.
  pub has_no_error : ℕ → World → Bool × World
  pub no_delay : ℕ → World → World
  pub close : ℕ → World → World

abbrev pub ns_per_us : ℕ
ns_per_us = 1000

-- `hardware_concurrency()` gives `detected`.
unfoldable pub resolved_worker_count : ℕ → ℕ → ℕ
resolved_worker_count detected configured =
    if ltb 0 configured then configured else if ltb detected 1 then 1 else detected

-- `static_cast<int>(timeout_ms)` is negative from 2^31 on.
abbrev pub poll_timeout : ℕ → Option ℕ
poll_timeout timeout_ms = if ltb timeout_ms 2_147_483_648 then some timeout_ms else none

abbrev pub call : {A W : Type 0} → (W → A × W) → M W A
call f w = let (a, w') = f w in done a w'

abbrev pub effect : {W : Type 0} → (W → W) → M W (Unit {0})
effect f w = done tt (f w)

-- `throw_errno` unless the call succeeds.
abbrev pub check : {W : Type 0} → (W → Bool × W) → M W (Unit {0})
check f = call f >>= λ b. if b then pure tt else throw Exception.runtime_error

-- `listen_addresses` has found no address to listen on.
abbrev pub must_listen : {W : Type 0} → Option ℕ → M W ℕ
must_listen none = throw Exception.runtime_error
must_listen (some fd) = pure fd

module _ (net : Network) where
  open net use {
    World, Address, now, addresses_of, socket, get_flags, add_nonblock, reuse_address, share_port,
    bind, listen, connect, poll, has_no_error, no_delay, close,
  }

  unfoldable pub resolve_endpoint : Endpoint → M World (List Address)
  resolve_endpoint endpoint = call (addresses_of endpoint) >>= λ found. elim found [
    | none ↦ throw Exception.runtime_error
    | some addresses ↦ pure addresses
  ]

  unfoldable pub set_nonblocking : ℕ → M World (Unit {0})
  set_nonblocking fd = check (get_flags fd) >> check (add_nonblock fd)

  unfoldable pub set_reuse_options : ℕ → Bool → M World (Unit {0})
  set_reuse_options fd reuse_port =
      check (reuse_address fd) >> (if reuse_port then check (share_port fd) else pure tt)

  -- `try { ... } catch (...) { close(fd); throw; }`.
  abbrev pub guarded : ℕ → M World (Unit {0}) → M World (Unit {0})
  guarded fd m w = elim (m w) [ done a w' ↦ done a w' | throw e w' ↦ throw e (close fd w') ]

  -- The end of a turn: the socket, or the next address once it is closed.
  abbrev pub keep_or : ℕ → M World (Option ℕ) → Bool → M World (Option ℕ)
  keep_or fd later true = pure (some fd)
  keep_or fd later false = effect (close fd) >> later

  -- A turn on the socket for an address, with what `prepare` does to it and `join` tries.
  abbrev pub turn :
      (ℕ → M World (Unit {0}))
      → (ℕ → World → Bool × World)
      → M World (Option ℕ)
      → Option ℕ
      → M World (Option ℕ)
  turn prepare join later none = later
  turn prepare join later (some fd) =
      guarded fd (prepare fd) >> (call (join fd) >>= keep_or fd later)

  unfoldable pub connect_addresses : List Address → M World (Option ℕ)
  unfolding set_nonblocking
  connect_addresses [] = pure none
  connect_addresses (a ∷ rest) =
      let later = connect_addresses rest in
      call (socket a)
      >>= turn (λ fd. set_nonblocking fd >> effect (no_delay fd)) (λ fd. connect fd a) later

  unfoldable pub connect_backend : Endpoint → M World (Option ℕ)
  unfolding resolve_endpoint connect_addresses
  connect_backend endpoint = resolve_endpoint endpoint >>= connect_addresses

  -- `bind(...) == 0 && listen(...) == 0`.
  unfoldable pub bind_and_listen : Address → ℕ → World → Bool × World
  bind_and_listen a fd w =
      let (bound, w') = bind fd a w in if bound then listen fd w' else (false, w')

  unfoldable pub listen_addresses : Bool → List Address → M World (Option ℕ)
  unfolding set_reuse_options set_nonblocking bind_and_listen
  listen_addresses reuse_port [] = pure none
  listen_addresses reuse_port (a ∷ rest) =
      let later = listen_addresses reuse_port rest in
      call (socket a)
      >>= turn (λ fd. set_reuse_options fd reuse_port >> set_nonblocking fd) (bind_and_listen a)
          later

  unfoldable pub make_listener : Endpoint → Bool → M World ℕ
  unfolding resolve_endpoint listen_addresses
  make_listener endpoint reuse_port =
      resolve_endpoint endpoint >>= λ found. listen_addresses reuse_port found >>= must_listen

  -- The latency in microseconds, or nothing where the probe fails.
  unfoldable pub probe_ready : ℕ → ℕ → Bool → M World (Option ℕ)
  probe_ready started fd false = effect (close fd) >> pure none
  probe_ready started fd true = do
    ok ← call (has_no_error fd)
    effect (close fd)
    ended ← call now
    pure (if ok then some ((ended - started) / ns_per_us) else none)

  unfoldable pub probe_connected : ℕ → ℕ → Option ℕ → M World (Option ℕ)
  unfolding probe_ready
  probe_connected started timeout_ms none = pure none
  probe_connected started timeout_ms (some fd) =
      call (poll fd (poll_timeout timeout_ms)) >>= probe_ready started fd

  unfoldable pub tcp_probe : Endpoint → ℕ → M World (Option ℕ)
  unfolding connect_backend probe_connected
  tcp_probe endpoint timeout_ms =
      call now >>= λ started. connect_backend endpoint >>= probe_connected started timeout_ms
