-- ===== src/Worker/Reading.antt =====
-- About `read_available` of src/server.cpp: the worker's invariant and the bytes of the sockets.
use tcp_load_balancer.Base.{
  append_nil, length-zero, subst, [], drop-append, find-put, ◌≢◌, arith, ◌∙◌, false, true, ℕ, zero,
  suc, ◌≡◌, refl, Bool, ◌++◌, Option, none, some, ltb, if◌then◌else◌, length, length-append, find,
  put, M, done, throw, after, ◌>>◌, Preserves, >>-Preserves, Outcome, if_elim, option_elim,
}
use tcp_load_balancer.Config.{Bytes}
use tcp_load_balancer.Health.Rounds.{IsReady}
use tcp_load_balancer.Runtime.{RuntimeState, record_bytes_from_client, record_bytes_from_backend}
use tcp_load_balancer.System.{System, ReadResult, got}
use tcp_load_balancer.Worker.Closing.{Inv}
use tcp_load_balancer.Worker.Effects.{client_bytes-Acts, backend_bytes-Acts, Acts, quiet}
use tcp_load_balancer.Worker.Keeping.{
  Sound, SoundWith, LeavesSound, alike, close-Preserves, refresh-Preserves, runtime-Inv, put-Sound,
  flush-Preserves,
}
use tcp_load_balancer.Worker.Sockets.{Sockets, pending, bytes_of}
use tcp_load_balancer.Worker.Balance.{owed, put-Balance, read-Balance, on_runtime-Balance}
use tcp_load_balancer.Worker.Storing.{put-Inv, world-Inv}
use tcp_load_balancer.Worker.Transfer.{
  flush, record_bytes, is_full, pass_on, fill, received, read_result, read_turn, read_available,
}
use tcp_load_balancer.Worker.{Worker, Peer, on_runtime, refresh, close_pair, buffer_size}

module _ {sys : System} (so : Sockets sys) (others : ℕ → ℕ) where
  pub on_runtime-Preserves :
      {A : Type 0} (m : M RuntimeState A) (w : Worker sys)
      → (IsReady w.runtime → Acts quiet w.runtime (after (m w.runtime)))
      → Sound so others w
      → Sound so others (after (on_runtime {sys = sys} m w))
  on_runtime-Preserves m w a (v, b) =
      (on_outcome (m w.runtime) (a v.ready), on_runtime-Balance so (λ k p. pending p) m w b)
    where
      on_outcome :
          {A : Type 0} (o : Outcome RuntimeState A)
          → Acts quiet w.runtime (after o)
          → Inv others (
              after (elim o [
                | done a r ↦ done a (record w { runtime = r })
                | throw e r ↦ throw e (record w { runtime = r })
              ]))
      on_outcome (done a r) c = runtime-Inv so others w r v c
      on_outcome (throw e r) c = runtime-Inv so others w r v c

  record_bytes-Preserves :
      (side : Bool) (i n : ℕ) → Preserves (Sound so others) (record_bytes side i n)
  unfolding record_bytes
  record_bytes-Preserves true i n w v =
      on_runtime-Preserves (record_bytes_from_backend i n) w
        (λ u. backend_bytes-Acts i n w.runtime u) v
  record_bytes-Preserves false i n w v =
      on_runtime-Preserves (record_bytes_from_client i n) w (λ u. client_bytes-Acts i n w.runtime u)
        v

  -- No byte is owed after a read that gives none.
  none_owed : (fd : ℕ) (w : Worker sys) → SoundWith so others (owed so fd []) w → Sound so others w
  none_owed fd w (v, b) = (v, λ k p h. (ground (arith, append_nil (pending p))) ∙ b k p h)

  -- What is owed from `fd` is owed to the peer that it is paired with, and to no other.
  owed_elsewhere :
      (fd : ℕ) (bytes : Bytes) (source paired : Peer) (w : Worker sys)
      → Inv others w
      → find fd w.peers ≡ some source
      → find source.paired_fd w.peers ≡ some paired
      → (paired.paired_fd ≡ fd)
        × ((k : ℕ) (r : Peer)
            → source.paired_fd ≢ k
            → find k w.peers ≡ some r
            → pending r ≡ owed so fd bytes k r)
  owed_elsewhere fd bytes source paired w v h g =
      let u = v.paired fd source h in
      (
        ground (arith, u.mated, u.mate_found, g),
        λ k r d m.
            let z = v.paired k r m in
            let differ : r.paired_fd ≢ fd = λ e. ground (arith, e, d, z.mated, z.mate_found, h) in
            ground (arith, differ, append_nil (pending r)),
      )

  module _ (fuel : ℕ) (again : M (Worker sys) (Unit {0}))
      (keeps : Preserves (Sound so others) again) (fd : ℕ) where
    pass_on-Preserves :
        (source : Peer) (n : ℕ) → Preserves (Sound so others) (pass_on fuel again fd source n)
    unfolding pass_on
    pass_on-Preserves source n =
        let P = Sound so others in
        let turn : M (Worker sys) (Unit {0}) =
          λ w. if is_full source.paired_fd w.peers then done tt w else again w in
        let last : M (Worker sys) (Unit {0}) = refresh source.paired_fd >> turn in
        let asks : M (Worker sys) (Unit {0}) = refresh fd >> last in
        let moves : M (Worker sys) (Unit {0}) = flush fuel source.paired_fd >> asks in
        >>-Preserves P (record_bytes source.backend_side source.backend_index n) moves
          (record_bytes-Preserves source.backend_side source.backend_index n)
          (>>-Preserves P (flush fuel source.paired_fd) asks
            (flush-Preserves so others fuel source.paired_fd)
            (>>-Preserves P (refresh fd) last (refresh-Preserves so others fd) (
              >>-Preserves P (refresh source.paired_fd) turn
                (refresh-Preserves so others source.paired_fd)
                (λ w v.
                  if_elim (LeavesSound so others) (is_full source.paired_fd w.peers) (done tt w)
                    (again w) (λ _. v) (λ _. keeps w v)))))

    fill-Preserves :
        (source stored : Peer) (bytes : Bytes) (t : ℕ) (o : Option Peer) (w : Worker sys)
        → find fd w.peers ≡ some stored
        → stored.paired_fd ≡ source.paired_fd
        → find source.paired_fd w.peers ≡ o
        → SoundWith so others (owed so fd bytes) w
        → LeavesSound so others (fill fuel again fd source bytes t o w)
    unfolding fill
    fill-Preserves source stored bytes t none w h d g (v, b) =
        let u = v.paired fd stored h in ground (arith, u.mate_found, d, g)
    fill-Preserves source stored bytes t (some paired) w h d g (v, b) =
        let u = v.paired source.paired_fd paired g in
        let (back, elsewhere) =
          owed_elsewhere fd bytes stored paired w v h (ground (arith, d, g)) in
        let filled : Peer = record paired {
          last_activity = t;
          outbound = paired.outbound ++ bytes;
        } in
        pass_on-Preserves source (length bytes)
          (record w { peers = put source.paired_fd filled w.peers })
          (put-Sound so others (owed so fd bytes) source.paired_fd paired filled w w.world g
            (alike refl refl refl refl
              (omega (arith, u.sent_bound, length-append paired.outbound bytes)))
            (λ j. (refl, refl))
            (ground (arith, back, drop-append paired.sent paired.outbound bytes u.sent_bound))
            (rw (← d) elsewhere) (v, b))

    received-Preserves :
        (source : Peer) (bytes : Bytes) (w : Worker sys)
        → find fd w.peers ≡ some source
        → SoundWith so others (owed so fd bytes) w
        → LeavesSound so others (received fuel again fd source bytes w)
    unfolding received
    received-Preserves source bytes w h (v, b) =
        let u = v.paired fd source h in
        let (t, world) = sys.now w.world in
        let p : Peer = record source { last_activity = t } in
        let w₁ : Worker sys = record w { world = world; peers = put fd p w.peers } in
        fill-Preserves source p bytes t (find source.paired_fd w₁.peers) w₁
          (ground (arith, find-put fd fd p source w.peers h)) refl refl
          (
            put-Inv others fd source p w world v h (alike refl refl refl refl u.sent_bound),
            put-Balance so (owed so fd bytes) (owed so fd bytes) fd source p w world h
                (so.now_keeps w.world) refl refl (λ k r d m. refl) b,
          )

    read_result-Preserves :
        (source : Peer) (result : ReadResult) (w : Worker sys)
        → find fd w.peers ≡ some source
        → SoundWith so others (owed so fd (bytes_of result)) w
        → LeavesSound so others (read_result fuel again fd source result w)
    unfolding read_result
    read_result-Preserves source (got bytes) w h v =
        if_elim (LeavesSound so others) (ltb 0 (length bytes))
          (received fuel again fd source bytes w) (close_pair fd false w)
          (λ _. received-Preserves source bytes w h v)
          (λ e.
            let nothing : bytes ≡ [] = length-zero bytes (ground arith) in
            close-Preserves so others fd false w
              (none_owed fd w (subst (λ bs. SoundWith so others (owed so fd bs) w) nothing v)))
    read_result-Preserves source ReadResult.would_block w h v = none_owed fd w v
    read_result-Preserves source ReadResult.interrupted w h v = keeps w (none_owed fd w v)
    read_result-Preserves source ReadResult.failed w h v =
        close-Preserves so others fd source.backend_side w (none_owed fd w v)

  pub read_available-Preserves :
      (fuel fd : ℕ) → Preserves (Sound so others) (read_available fuel fd)
  unfolding read_available read_turn
  read_available-Preserves zero fd w v = v
  read_available-Preserves (suc fuel) fd w (v, b) =
      let ih = read_available-Preserves fuel fd in
      let (result, world) = sys.read fd buffer_size w.world in
      option_elim (LeavesSound so others) (find fd w.peers) (done tt w)
        (λ source. read_turn fuel (read_available fuel fd) fd source w) (λ _. (v, b))
        (λ source e.
          read_result-Preserves fuel (read_available fuel fd) ih fd source result
            (record w { world = world }) e
            (world-Inv others w world v, read-Balance so fd buffer_size w b))
