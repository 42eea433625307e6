-- ===== src/Admin/Orders.antt =====
-- About the orders to drain and to enable a backend that `handle_client` of src/admin.cpp takes.
use tcp_load_balancer.Admin.Commands.{post_of, handle_client-post}
use tcp_load_balancer.Admin.Requests.{act, parse_id, send_stats, handle_client, request_size}
use tcp_load_balancer.Admin.Sending.{Delivers, IsSent, answer_of, send_all-Ends}
use tcp_load_balancer.Admin.Streams.{Streams, Interruptions}
use tcp_load_balancer.Admin.{
  AdminSystem, Session, received, on_shared, answer, stats, close_client, send_all, response,
}
use tcp_load_balancer.Base.{
  ℕ, suc, ◌+◌, ◌<◌, ◌≡◌, refl, sym, ap, ◌∙◌, Bool, true, [], ◌++◌, some, arith, ◌==◌, if◌then◌else◌,
  length, set, length-set, Exception, Outcome, after, done, throw, ◌>>◌, append_nil,
}
use tcp_load_balancer.Health.Rounds.{IsReady}
use tcp_load_balancer.Report.Statistics.{stats_json-Returns}
use tcp_load_balancer.Report.{stats_json}
use tcp_load_balancer.Runtime.{RuntimeState, set_backend_state}
use tcp_load_balancer.Scheduler.{BackendState, up, draining, set_state}
use tcp_load_balancer.Text.Searching.{digits-Absent}
use tcp_load_balancer.Text.Numbers.{to_string-AreDigits, stoul-to_string}
use tcp_load_balancer.Text.Words.{HasNoSpace, has_no_space_lem, to_string-HasNoSpace, starts_blank}
use tcp_load_balancer.Text.{Bytes, text, stoul, number, ulong_mod, to_string}

-- The two orders, and the state that each sets.
pub data Order : Type 0 where
  drains enables : Order

abbrev pub word_of : Order → Bytes
word_of drains = text "drain"
word_of enables = text "enable"

abbrev pub target : Order → BackendState
target drains = draining
target enables = up

pub word-HasNoSpace : (o : Order) → HasNoSpace (word_of o)
word-HasNoSpace drains = has_no_space_lem (text "drain") refl
word-HasNoSpace enables = has_no_space_lem (text "enable") refl

module _ {sys : AdminSystem} (fuel fd : ℕ) where
  pub act-order :
      (o : Order) (n : ℕ) (s : Session sys)
      → act fuel fd n (word_of o) s
        ≡ (on_shared (set_backend_state n (target o)) >> send_stats fuel fd) s
  unfolding act
  act-order drains n s = refl
  act-order enables n s = refl

-- The runtime once the order for backend `n` is carried out.
abbrev pub ordered : Order → ℕ → RuntimeState → RuntimeState
ordered o n r = record r {
  scheduler = record r.scheduler { states = set r.scheduler.states n (target o) };
}

ordered-IsReady : (o : Order) (n : ℕ) (r : RuntimeState) → IsReady r → IsReady (ordered o n r)
ordered-IsReady o n r v = grind (arith, v, length-set)

pub set_backend_state_lem :
    (o : Order) (n : ℕ) (r : RuntimeState)
    → n < length r.scheduler.states
    → set_backend_state n (target o) r ≡ done tt (ordered o n r)
unfolding set_backend_state set_state
set_backend_state_lem o n r h = ground (arith, h)

abbrev pub reply : Bytes → Bytes
reply body = response (text "200 OK") (text "application/json") body []

module _ {sys : AdminSystem} (so : Streams sys) (si : Interruptions sys) (fd : ℕ) where
  -- The runtime is `r`, socket `fd` has taken a first part of the reply, and no other socket has
  -- taken anything.
  pub record CarriesOut (r : RuntimeState) (s : Session sys) (reply : Bytes) (t : Session sys)
      : Type 0 where
    pub sent : Bytes
    pub rest : Bytes
    pub splits : sent ++ rest ≡ reply
    pub runtime_is : t.runtime ≡ r
    pub delivered :
        (k : ℕ) → so.taken k t.world ≡ so.taken k s.world ++ (if k == fd then sent else [])

  module _ (o : Order) (n : ℕ) (rest : Bytes) (s : Session sys) where
    -- The worlds behind `recv` and behind the reading of the clock.
    abbrev w₁ : sys.World
    w₁ = (sys.recv fd request_size s.world).1

    abbrev w₂ : sys.World
    w₂ = (sys.now w₁).1

    -- What the order makes of the end of `send_all`.
    abbrev acted : Outcome (Session sys) Bool → Outcome (Session sys) (Unit {0})
    acted (done b t) = done tt t
    acted (throw e t) = throw e t

    act-Ends :
        (body : Bytes) (fuel : ℕ) (end : Outcome (Session sys) Bool)
        → n < length s.runtime.scheduler.states
        → stats_json sys.quotient (sys.now w₁).0 (ordered o n s.runtime)
          ≡ done body (ordered o n s.runtime)
        → send_all fuel fd (reply body) (record { runtime = ordered o n s.runtime; world = w₂ })
          ≡ end
        → act fuel fd n (word_of o) (record s { world = w₁ }) ≡ acted end
    unfolding send_stats stats answer
    act-Ends body fuel (done b t) h e f =
        act-order fuel fd o n (record s { world = w₁ })
        ∙ ground (arith, set_backend_state_lem o n s.runtime h, e, f)
    act-Ends body fuel (throw x t) h e f =
        act-order fuel fd o n (record s { world = w₁ })
        ∙ ground (arith, set_backend_state_lem o n s.runtime h, e, f)

    stoul_lem : n < ulong_mod → stoul (to_string n) ≡ number n
    stoul_lem h = ap stoul (sym (append_nil (to_string n))) ∙ stoul-to_string n [] h refl

    -- What `handle_client` makes of it.
    abbrev finished : Outcome (Session sys) Bool → Outcome (Session sys) (Unit {0})
    finished (done b t) = done tt (record t { world = sys.close fd t.world })
    finished (throw e t) = throw e t

    client-Ends :
        (fuel : ℕ) (end : Outcome (Session sys) Bool)
        → n < ulong_mod
        → starts_blank rest ≡ true
        → (sys.recv fd request_size s.world).0
          ≡ received (some (post_of (to_string n) (word_of o) rest))
        → act fuel fd n (word_of o) (record s { world = w₁ }) ≡ acted end
        → handle_client fuel fd s ≡ finished end
    unfolding parse_id close_client
    client-Ends fuel (done b t) small blank h e =
        handle_client-post (to_string n) (word_of o) (to_string-HasNoSpace n)
          (digits-Absent b'/' (to_string n) refl (to_string-AreDigits n)) (word-HasNoSpace o) fuel
          fd rest s blank h
        ∙ ground (arith, stoul_lem small, e)
    client-Ends fuel (throw x t) small blank h e =
        handle_client-post (to_string n) (word_of o) (to_string-HasNoSpace n)
          (digits-Absent b'/' (to_string n) refl (to_string-AreDigits n)) (word-HasNoSpace o) fuel
          fd rest s blank h
        ∙ ground (arith, stoul_lem small, e)

    -- The reply that was sent, and what follows it.
    finished-CarriesOut :
        (body : Bytes) (end : Outcome (Session sys) Bool)
        → IsSent fd end
        → Delivers so si fd
            (reply body)
            (record { runtime = ordered o n s.runtime; world = w₂ })
            (answer_of end)
            (after end)
        → IsSent fd (finished end)
          × CarriesOut (ordered o n s.runtime) s (reply body) (after (finished end))
    finished-CarriesOut body (done b t) h v = (
      tt,
      record {
        sent = v.sent;
        rest = v.rest;
        splits = v.splits;
        runtime_is = v.runtime_kept;
        delivered = λ k.
            so.close_keeps fd k t.world
            ∙ v.delivered k
            ∙ ap (λ w. w ++ (if k == fd then v.sent else []))
                (so.now_keeps k w₁ ∙ so.recv_keeps fd request_size k s.world);
      },
    )
    finished-CarriesOut body (throw Exception.blocked t) h v = (
      h,
      record {
        sent = v.sent;
        rest = v.rest;
        splits = v.splits;
        runtime_is = v.runtime_kept;
        delivered = λ k.
            v.delivered k
            ∙ ap (λ w. w ++ (if k == fd then v.sent else []))
                (so.now_keeps k w₁ ∙ so.recv_keeps fd request_size k s.world);
      },
    )
    finished-CarriesOut body (throw Exception.out_of_range t) h v = elim h [ ]
    finished-CarriesOut body (throw Exception.invalid_argument t) h v = elim h [ ]
    finished-CarriesOut body (throw Exception.runtime_error t) h v = elim h [ ]
    finished-CarriesOut body (throw Exception.out_of_fuel t) h v = elim h [ ]

    -- An order for a backend in range, in a runtime that has the scheduler's backends: with fuel
    -- for each byte of the reply and each signal, and any more, `handle_client` returns, or the
    -- thread stays in a call of `send` of the reply that does not return. It has set this backend's
    -- state, to DRAINING for `drain` and to UP for `enable`, and nothing else in the runtime; the
    -- socket has taken a first part of a reply with the new statistics, and no other socket has
    -- taken anything.
    pub handle_client-orders :
        (extra : ℕ)
        → IsReady s.runtime
        → n < length s.runtime.scheduler.states
        → n < ulong_mod
        → starts_blank rest ≡ true
        → (sys.recv fd request_size s.world).0
          ≡ received (some (post_of (to_string n) (word_of o) rest))
        → (body : Bytes) × (end : Outcome (Session sys) (Unit {0})) × (stats_json sys.quotient
              (sys.now w₁).0
              (ordered o n s.runtime)
            ≡ done body (ordered o n s.runtime))
          × (handle_client (suc (length (reply body) + si.left w₂ + extra)) fd s ≡ end)
          × IsSent fd end
          × CarriesOut (ordered o n s.runtime) s (reply body) (after end)
    handle_client-orders extra ready h small blank asked =
        let r = ordered o n s.runtime in
        let (body, told) =
          stats_json-Returns sys.quotient (sys.now w₁).0 r (ordered-IsReady o n s.runtime ready) in
        let start : Session sys = record { runtime = r; world = w₂ } in
        let bound = length (reply body) + si.left w₂ + extra in
        let (end, sent, runs, v) = send_all-Ends so si bound fd (reply body) start (omega arith) in
        let (meant, carried) = finished-CarriesOut body end sent v in
        (
          body,
          finished end,
          told,
          client-Ends (suc bound) end small blank asked
              (act-Ends body (suc bound) end h told (runs (suc bound) (omega arith))),
          meant,
          carried,
        )
