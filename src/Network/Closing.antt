-- ===== src/Network/Closing.antt =====
-- About the sockets that `connect_backend` and `tcp_probe` of src/server.cpp leave open.
use tcp_load_balancer.Base.Sparing.{>>=-Spares}
use tcp_load_balancer.Base.{
  ℕ, ◌≡◌, refl, ap, ◌∙◌, Bool, true, false, List, [], ◌∷◌, Option, none, some, M, Outcome,
  Exception, done, throw, pure, after, ◌>>=◌, ◌>>◌,
}
use tcp_load_balancer.Config.{Endpoint}
use tcp_load_balancer.Network.{
  poll_timeout, Network, call, effect, resolve_endpoint, set_nonblocking, set_reuse_options,
  keep_or, turn, connect_addresses, connect_backend, bind_and_listen, listen_addresses, must_listen,
  make_listener, probe_ready, probe_connected, tcp_probe,
}
use tcp_load_balancer.Network.Descriptors.{
  Descriptors, Keeps, Gives, set_nonblocking-Keeps, set_reuse_options-Keeps, bind_and_listen_lem,
}

module _ {net : Network} (de : Descriptors net) where
  turn-Gives :
      (prepare : ℕ → M net.World (Unit {0})) (join : ℕ → net.World → Bool × net.World)
      (later : M net.World (Option ℕ)) (l : List ℕ)
      → ((fd : ℕ) → Keeps de (prepare fd))
      → ((fd : ℕ) (w : net.World) → de.opened (join fd w).1 ≡ de.opened w)
      → ((w : net.World) → de.opened w ≡ l → Gives de l (later w))
      → (fd : ℕ) (w : net.World) → de.opened w ≡ fd ∷ l
      → Gives de l (turn net prepare join later (some fd) w)
  unfolding Gives
  turn-Gives prepare join later l p j h fd w e = of_prepared (prepare fd w) ((p fd).spared w ∙ e)
    where
      of_joined :
          (b : Bool) (v : net.World) → de.opened v ≡ fd ∷ l → Gives de l (keep_or net fd later b v)
      of_joined true v k = k
      of_joined false v k = h (net.close fd v) (de.close_closes fd l v k)

      of_prepared :
          (o : Outcome net.World (Unit {0}))
          → de.opened (after o) ≡ fd ∷ l
          → Gives de l
              (elim (elim o as (λ _. Outcome net.World (Unit {0})) [
                | done a v ↦ done a v
                | throw x v ↦ throw x (net.close fd v)
              ])
                as (λ _. Outcome net.World (Option ℕ)) [
                  | done a v ↦ keep_or net fd later (join fd v).0 (join fd v).1
                  | throw x v ↦ throw x v
                ])
      of_prepared (done a v) k = of_joined (join fd v).0 (join fd v).1 (j fd v ∙ k)
      of_prepared (throw x v) k = de.close_closes fd l v k

  socket-Gives :
      (a : net.Address) (next : Option ℕ → M net.World (Option ℕ)) (l : List ℕ) (w : net.World)
      → de.opened w ≡ l
      → ((v : net.World) → de.opened v ≡ l → Gives de l (next none v))
      → ((fd : ℕ) (v : net.World) → de.opened v ≡ fd ∷ l → Gives de l (next (some fd) v))
      → Gives de l ((call (net.socket a) >>= next) w)
  socket-Gives a next l w e h k = of_socket (net.socket a w).0 refl
    where
      of_socket : (o : Option ℕ) → (net.socket a w).0 ≡ o → Gives de l (next o (net.socket a w).1)
      of_socket none f = h (net.socket a w).1 (de.socket_fails a w f ∙ e)
      of_socket (some fd) f = k fd (net.socket a w).1 (de.socket_opens a fd w f ∙ ap (◌∷◌ fd) e)

  connect_addresses-Gives :
      (found : List net.Address) (l : List ℕ) (w : net.World)
      → de.opened w ≡ l
      → Gives de l (connect_addresses net found w)
  unfolding connect_addresses Gives
  connect_addresses-Gives [] l w e = e
  connect_addresses-Gives (a ∷ found) l w e =
      let later = connect_addresses-Gives found l in
      socket-Gives a
        (turn net (λ fd. set_nonblocking net fd >> effect (net.no_delay fd))
          (λ fd. net.connect fd a) (connect_addresses net found))
        l w e later
        (turn-Gives (λ fd. set_nonblocking net fd >> effect (net.no_delay fd))
          (λ fd. net.connect fd a) (connect_addresses net found) l
          (λ fd.
            >>=-Spares _ _ _ (set_nonblocking-Keeps de fd)
              λ _. record { spared = de.delay_keeps fd })
          (λ fd v. de.connect_keeps fd a v) later)

  listen_addresses-Gives :
      (reuse_port : Bool) (found : List net.Address) (l : List ℕ) (w : net.World)
      → de.opened w ≡ l
      → Gives de l (listen_addresses net reuse_port found w)
  unfolding listen_addresses Gives
  listen_addresses-Gives reuse_port [] l w e = e
  listen_addresses-Gives reuse_port (a ∷ found) l w e =
      let later = listen_addresses-Gives reuse_port found l in
      socket-Gives a
        (turn net (λ fd. set_reuse_options net fd reuse_port >> set_nonblocking net fd)
          (bind_and_listen net a) (listen_addresses net reuse_port found))
        l w e later
        (turn-Gives (λ fd. set_reuse_options net fd reuse_port >> set_nonblocking net fd)
          (bind_and_listen net a) (listen_addresses net reuse_port found) l
          (λ fd.
            >>=-Spares _ _ _ (set_reuse_options-Keeps de fd reuse_port)
              λ _. set_nonblocking-Keeps de fd)
          (λ fd v. bind_and_listen_lem de a fd v) later)

  resolve-Gives :
      (e : Endpoint) (next : List net.Address → M net.World (Option ℕ)) (w : net.World)
      → ((found : List net.Address) (v : net.World)
          → de.opened v ≡ de.opened w
          → Gives de (de.opened w) (next found v))
      → Gives de (de.opened w) ((resolve_endpoint net e >>= next) w)
  unfolding resolve_endpoint Gives
  resolve-Gives e next w h =
      of_found (net.addresses_of e w).0 (net.addresses_of e w).1 (de.resolve_keeps e w)
    where
      of_found :
          (o : Option (List net.Address)) (v : net.World)
          → de.opened v ≡ de.opened w
          → Gives de (de.opened w) (
              ((elim o as (λ _. M net.World (List net.Address)) [
                | none ↦ throw Exception.runtime_error
                | some found ↦ pure found
              ])
                  >>= next)
                v)
      of_found none v k = k
      of_found (some found) v k = h found v k

  pub connect_backend-Gives :
      (e : Endpoint) (w : net.World) → Gives de (de.opened w) (connect_backend net e w)
  unfolding connect_backend
  connect_backend-Gives e w =
      resolve-Gives e (connect_addresses net) w
        λ found v k. connect_addresses-Gives found (de.opened w) v k

  pub probe_connected_closes :
      (started ms : ℕ) (l : List ℕ) (o : Outcome net.World (Option ℕ))
      → Gives de l o
      → de.opened (
          after (elim o as (λ _. Outcome net.World (Option ℕ)) [
            | done a v ↦ probe_connected net started ms a v
            | throw x v ↦ throw x v
          ]))
        ≡ l
  unfolding probe_connected probe_ready Gives
  probe_connected_closes started ms l (done none v) g = g
  probe_connected_closes started ms l (done (some fd) v) g =
      let limit = poll_timeout ms in
      of_ready (net.poll fd limit v).0 (net.poll fd limit v).1 (de.poll_keeps fd limit v ∙ g)
    where
      of_ready :
          (b : Bool) (u : net.World)
          → de.opened u ≡ fd ∷ l
          → de.opened (after (probe_ready net started fd b u)) ≡ l
      of_ready false u k = de.close_closes fd l u k
      of_ready true u k =
          de.now_keeps (net.close fd (net.has_no_error fd u).1)
          ∙ de.close_closes fd l (net.has_no_error fd u).1 (de.error_keeps fd u ∙ k)
  probe_connected_closes started ms l (throw x v) g = g

  -- The socket that `make_listener` returns is open, and what was open before.
  unfoldable pub Listens : List ℕ → Outcome net.World ℕ → Type 0
  Listens l (done fd w) = de.opened w ≡ fd ∷ l
  Listens l (throw e w) = de.opened w ≡ l

  make_listener-Listens :
      (e : Endpoint) (reuse_port : Bool) (w : net.World)
      → Listens (de.opened w) (make_listener net e reuse_port w)
  unfolding make_listener resolve_endpoint Listens Gives
  make_listener-Listens e reuse_port w =
      of_found (net.addresses_of e w).0 (net.addresses_of e w).1 (de.resolve_keeps e w)
    where
      of_listened :
          (o : Outcome net.World (Option ℕ))
          → Gives de (de.opened w) o
          → Listens (de.opened w) (elim o as (λ _. Outcome net.World ℕ) [
            | done a v ↦ must_listen a v
            | throw x v ↦ throw x v
          ])
      of_listened (done none v) g = g
      of_listened (done (some fd) v) g = g
      of_listened (throw x v) g = g

      of_found :
          (o : Option (List net.Address)) (v : net.World)
          → de.opened v ≡ de.opened w
          → Listens (de.opened w) (
              ((elim o as (λ _. M net.World (List net.Address)) [
                | none ↦ throw Exception.runtime_error
                | some found ↦ pure found
              ])
                  >>= λ found. listen_addresses net reuse_port found >>= must_listen)
                v)
      of_found none v k = k
      of_found (some found) v k =
          of_listened (listen_addresses net reuse_port found v)
            (listen_addresses-Gives reuse_port found (de.opened w) v k)

  -- However the system calls end, also where a helper throws: `connect_backend` and `make_listener`
  -- leave open what was open and the socket that they return, and `tcp_probe` leaves open what was
  -- open.
  pub sockets_closed :
      (e : Endpoint) (reuse_port : Bool) (ms : ℕ) (w : net.World)
      → Gives de (de.opened w) (connect_backend net e w)
        × Listens (de.opened w) (make_listener net e reuse_port w)
        × (de.opened (after (tcp_probe net e ms w)) ≡ de.opened w)
  unfolding tcp_probe
  sockets_closed e reuse_port ms w =
      let (started, v) = net.now w in
      (
        connect_backend-Gives e w,
        make_listener-Listens e reuse_port w,
        probe_connected_closes started ms (de.opened v) (connect_backend net e v)
              (connect_backend-Gives e v)
            ∙ de.now_keeps w,
      )
