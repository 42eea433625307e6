-- ===== src/Network/Descriptors.antt =====
-- About the descriptors that the helpers of src/server.cpp open.
use tcp_load_balancer.Base.Sparing.{Spares, >>=-Spares, if-Spares}
use tcp_load_balancer.Base.{
  ℕ, ◌≡◌, refl, ◌∙◌, Bool, true, false, List, ◌∷◌, Option, none, some, if◌then◌else◌, M, Outcome,
  Exception, done, throw, pure,
}
use tcp_load_balancer.Config.{Endpoint}
use tcp_load_balancer.Network.{
  Network, call, check, set_nonblocking, set_reuse_options, bind_and_listen,
}

-- The documented effect of the calls on the open descriptors, the last opened first: `socket` opens
-- one, `close` closes one, and no other call does either.
pub record Descriptors (net : Network) : Type 0 where
  pub opened : net.World → List ℕ
  pub now_keeps : (w : net.World) → opened (net.now w).1 ≡ opened w
  pub resolve_keeps : (e : Endpoint) (w : net.World) → opened (net.addresses_of e w).1 ≡ opened w
  pub socket_opens :
      (a : net.Address) (fd : ℕ) (w : net.World)
      → (net.socket a w).0 ≡ some fd
      → opened (net.socket a w).1 ≡ fd ∷ opened w
  pub socket_fails :
      (a : net.Address) (w : net.World)
      → (net.socket a w).0 ≡ none
      → opened (net.socket a w).1 ≡ opened w
  pub get_keeps : (fd : ℕ) (w : net.World) → opened (net.get_flags fd w).1 ≡ opened w
  pub add_keeps : (fd : ℕ) (w : net.World) → opened (net.add_nonblock fd w).1 ≡ opened w
  pub reuse_keeps : (fd : ℕ) (w : net.World) → opened (net.reuse_address fd w).1 ≡ opened w
  pub share_keeps : (fd : ℕ) (w : net.World) → opened (net.share_port fd w).1 ≡ opened w
  pub bind_keeps :
      (fd : ℕ) (a : net.Address) (w : net.World) → opened (net.bind fd a w).1 ≡ opened w
  pub listen_keeps : (fd : ℕ) (w : net.World) → opened (net.listen fd w).1 ≡ opened w
  pub connect_keeps :
      (fd : ℕ) (a : net.Address) (w : net.World) → opened (net.connect fd a w).1 ≡ opened w
  pub poll_keeps : (fd : ℕ) (ms : Option ℕ) (w : net.World) → opened (net.poll fd ms w).1 ≡ opened w
  pub error_keeps : (fd : ℕ) (w : net.World) → opened (net.has_no_error fd w).1 ≡ opened w
  pub delay_keeps : (fd : ℕ) (w : net.World) → opened (net.no_delay fd w) ≡ opened w
  pub close_closes :
      (fd : ℕ) (rest : List ℕ) (w : net.World)
      → opened w ≡ fd ∷ rest
      → opened (net.close fd w) ≡ rest

module _ {net : Network} (de : Descriptors net) where
  -- The method opens and closes no descriptor in the end.
  abbrev pub Keeps : {A : Type 0} → M net.World A → Type 0
  Keeps m = Spares de.opened m

  pure-Keeps : {A : Type 0} (a : A) → Keeps (pure a)
  pure-Keeps a = record { spared = λ w. refl }

  call-Keeps :
      {A : Type 0} (f : net.World → A × net.World)
      → ((w : net.World) → de.opened (f w).1 ≡ de.opened w)
      → Keeps (call f)
  call-Keeps f h = record { spared = h }

  check-Keeps :
      (f : net.World → Bool × net.World)
      → ((w : net.World) → de.opened (f w).1 ≡ de.opened w)
      → Keeps (check f)
  check-Keeps f h = >>=-Spares _ _ _ (call-Keeps f h) λ b.
      if-Spares _ b (pure tt) (throw Exception.runtime_error) (pure-Keeps tt)
        (record { spared = λ w. refl })

  pub set_nonblocking-Keeps : (fd : ℕ) → Keeps (set_nonblocking net fd)
  unfolding set_nonblocking
  set_nonblocking-Keeps fd =
      >>=-Spares _ _ _ (check-Keeps (net.get_flags fd) (de.get_keeps fd))
        λ _. check-Keeps (net.add_nonblock fd) (de.add_keeps fd)

  pub set_reuse_options-Keeps :
      (fd : ℕ) (reuse_port : Bool) → Keeps (set_reuse_options net fd reuse_port)
  unfolding set_reuse_options
  set_reuse_options-Keeps fd reuse_port =
      >>=-Spares _ _ _ (check-Keeps (net.reuse_address fd) (de.reuse_keeps fd)) λ _.
        if-Spares _ reuse_port (check (net.share_port fd)) (pure tt)
          (check-Keeps (net.share_port fd) (de.share_keeps fd)) (pure-Keeps tt)

  pub bind_and_listen_lem :
      (a : net.Address) (fd : ℕ) (w : net.World)
      → de.opened (bind_and_listen net a fd w).1 ≡ de.opened w
  unfolding bind_and_listen
  bind_and_listen_lem a fd w =
      of_bound (net.bind fd a w).0 (net.bind fd a w).1 ∙ de.bind_keeps fd a w
    where
      of_bound :
          (b : Bool) (v : net.World)
          → de.opened (if b then net.listen fd v else (false, v)).1 ≡ de.opened v
      of_bound true v = de.listen_keeps fd v
      of_bound false v = refl

  -- Where `l` was open before: the socket that is given is open too, and nothing else.
  unfoldable pub Gives : List ℕ → Outcome net.World (Option ℕ) → Type 0
  Gives l (done none w) = de.opened w ≡ l
  Gives l (done (some fd) w) = de.opened w ≡ fd ∷ l
  Gives l (throw e w) = de.opened w ≡ l
