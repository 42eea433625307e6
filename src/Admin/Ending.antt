-- ===== src/Admin/Ending.antt =====
-- About the ends of `handle_client` of src/admin.cpp, once the fuel of its loops is enough.
use tcp_load_balancer.Admin.{
  AdminSystem, Session, on_shared, answer, close_client, read_file, pause, stream_turns,
  stream_events, stream_rounds, event_headers, stats_event, content_type_for, send_all, response,
  RecvResult, received, waits,
}
use tcp_load_balancer.Admin.Requests.{
  send_stats, act, at_slash, backend_request, serve_file, route, respond, handle_request,
  received_request, handle_client, backends_path, no_such_thing, request_size,
}
use tcp_load_balancer.Admin.Sending.{send_all-Ends}
use tcp_load_balancer.Admin.Streams.{Streams, Interruptions}
use tcp_load_balancer.Admin.Settling.{IsEnd, Settles, AreMeant-Settles, >>=-Settles, if-Settles}
use tcp_load_balancer.Base.{
  ℕ, zero, suc, ◌+◌, ◌≡◌, not, ◌&&◌, [], ◌∷◌, ◌++◌, ◌<◌, Option, none, some, arith, if◌then◌else◌,
  length, take, drop, Outcome, throw, blocked, refl, inl, pure, ◌>>◌,
}
use tcp_load_balancer.Runtime.{RuntimeState, set_backend_state}
use tcp_load_balancer.Scheduler.{BackendState, up, draining}
use tcp_load_balancer.Text.{Bytes, text, same, is_empty, starts_with, find_first, next_word}
use tcp_load_balancer.Admin.Reports.{prometheus_metrics-AreMeant, set_backend_state-AreMeant}
use tcp_load_balancer.Admin.Staying.{
  IsStuck, sent_IsEnd, on_shared-AreMeant, stats-Settles, parse_id-AreMeant,
}

module _ {sys : AdminSystem} (so : Streams sys) (si : Interruptions sys) (fd : ℕ) where
  send_all-Settles :
      (payload : Bytes) → Settles (IsStuck {sys = sys} fd) (λ fuel. send_all fuel fd payload)
  send_all-Settles payload s =
      let bound = length payload + si.left s.world in
      let (o, sent, runs, v) = send_all-Ends so si bound fd payload s (omega arith) in
      (bound, o, sent_IsEnd fd o sent, runs)

  answer-Settles :
      (status type body : Bytes)
      → Settles (IsStuck {sys = sys} fd) (λ fuel. answer fuel fd status type body)
  unfolding answer
  answer-Settles status type body =
      >>=-Settles (IsStuck fd) _ _ (send_all-Settles (response status type body []))
        λ b. AreMeant-Settles (IsStuck fd) (pure tt) λ s. tt

  send_stats-Settles : Settles (IsStuck {sys = sys} fd) (λ fuel. send_stats fuel fd)
  unfolding send_stats
  send_stats-Settles =
      >>=-Settles (IsStuck fd) _ _ (stats-Settles fd)
        λ body. answer-Settles (text "200 OK") (text "application/json") body

  stream_turns-Settles :
      (rounds : ℕ) → Settles (IsStuck {sys = sys} fd) (λ fuel. stream_turns fuel rounds fd)
  unfolding stream_turns pause
  stream_turns-Settles zero = AreMeant-Settles (IsStuck fd) _ λ s. tt
  stream_turns-Settles (suc rounds) = >>=-Settles (IsStuck fd) _ _ (stats-Settles fd) λ figures.
      >>=-Settles (IsStuck fd) _ _ (send_all-Settles (stats_event figures)) λ b.
        if-Settles (IsStuck fd) b _ _
          (>>=-Settles (IsStuck fd) _ _ (AreMeant-Settles (IsStuck fd) (pause 400) λ s. tt)
            λ _. stream_turns-Settles rounds)
          (AreMeant-Settles (IsStuck fd) _ λ s. tt)

  stream_events-Settles : Settles (IsStuck {sys = sys} fd) (λ fuel. stream_events fuel fd)
  unfolding stream_events
  stream_events-Settles = >>=-Settles (IsStuck fd) _ _ (send_all-Settles event_headers) λ b.
      if-Settles (IsStuck fd) b _ _ (stream_turns-Settles stream_rounds)
        (AreMeant-Settles (IsStuck fd) _ λ s. tt)

  set-Settles :
      (id : ℕ) (st : BackendState)
      → Settles
          (IsStuck {sys = sys} fd)
          (λ fuel. on_shared (set_backend_state id st) >> send_stats fuel fd)
  set-Settles id st =
      >>=-Settles (IsStuck fd) _ _
        (AreMeant-Settles (IsStuck fd) _ (on_shared-AreMeant _ (set_backend_state-AreMeant id st)))
        λ _. send_stats-Settles

  act-Settles :
      (id : ℕ) (action : Bytes) → Settles (IsStuck {sys = sys} fd) (λ fuel. act fuel fd id action)
  unfolding act
  act-Settles id action =
      if-Settles (IsStuck fd) (same action (text "drain")) _ _ (set-Settles id draining) (
        if-Settles (IsStuck fd) (same action (text "enable")) _ _ (set-Settles id up)
          (answer-Settles (text "404 Not Found") (text "application/json") no_such_thing))

  at_slash-Settles :
      (tail : Bytes) (o : Option ℕ)
      → Settles (IsStuck {sys = sys} fd) (λ fuel. at_slash fuel fd tail o)
  unfolding at_slash
  at_slash-Settles tail none =
      answer-Settles (text "404 Not Found") (text "application/json") no_such_thing
  at_slash-Settles tail (some slash) =
      >>=-Settles (IsStuck fd) _ _
        (AreMeant-Settles (IsStuck fd) _ (parse_id-AreMeant (take slash tail)))
        λ id. act-Settles id (drop (slash + 1) tail)

  backend_request-Settles :
      (path : Bytes) → Settles (IsStuck {sys = sys} fd) (λ fuel. backend_request fuel fd path)
  unfolding backend_request
  backend_request-Settles path =
      let tail = drop (length backends_path) path in at_slash-Settles tail (find_first b'/' tail)

  read_file-Settles : (path : Bytes) → Settles (IsStuck {sys = sys} fd) (λ fuel. read_file path)
  unfolding read_file
  read_file-Settles path = AreMeant-Settles (IsStuck fd) (read_file path) λ s. tt

  serve_file-Settles :
      (path : Bytes) → Settles (IsStuck {sys = sys} fd) (λ fuel. serve_file fuel fd path)
  unfolding serve_file
  serve_file-Settles path =
      let file_path =
        text "web/dist" ++ (if same path (text "/") then text "/index.html" else path) in
      >>=-Settles (IsStuck fd) _ _ (read_file-Settles file_path) λ found.
        >>=-Settles (IsStuck fd) _ _
          (if-Settles (IsStuck fd) (is_empty found && not (same path (text "/"))) _ _
            (read_file-Settles (text "web/dist/index.html"))
            (AreMeant-Settles (IsStuck fd) (pure found) λ s. tt))
          λ body.
            if-Settles (IsStuck fd) (is_empty body) _ _
              (answer-Settles (text "404 Not Found") (text "text/plain")
                (text "dashboard build not found\n"))
              (answer-Settles (text "200 OK") (content_type_for file_path) body)

  route-Settles :
      (method path : Bytes) → Settles (IsStuck {sys = sys} fd) (λ fuel. route fuel fd method path)
  unfolding route
  route-Settles method path =
      if-Settles (IsStuck fd) (same method (text "GET") && same path (text "/stats")) _ _
        send_stats-Settles
        (if-Settles (IsStuck fd) (same method (text "GET") && same path (text "/metrics")) _ _
          (>>=-Settles (IsStuck fd) _ _
            (AreMeant-Settles (IsStuck fd) _ (on_shared-AreMeant _ prometheus_metrics-AreMeant))
            λ body. answer-Settles (text "200 OK") (text "text/plain; version=0.0.4") body)
          (if-Settles (IsStuck fd) (same method (text "GET") && same path (text "/events")) _ _
            stream_events-Settles
            (if-Settles (IsStuck fd) (same method (text "POST") && starts_with backends_path path) _
              _ (backend_request-Settles path)
              (if-Settles (IsStuck fd) (same method (text "GET")) _ _ (serve_file-Settles path) (
                answer-Settles (text "405 Method Not Allowed") (text "application/json")
                  (text "{\"error\":\"method not allowed\"}"))))))

  close-Settles : Settles (IsStuck {sys = sys} fd) (λ fuel. close_client fd)
  unfolding close_client
  close-Settles = AreMeant-Settles (IsStuck fd) _ λ s. tt

  request-Settles :
      (request : Bytes) → Settles (IsStuck {sys = sys} fd) (λ fuel. handle_request fuel fd request)
  unfolding handle_request respond
  request-Settles request =
      if-Settles (IsStuck fd) (same (next_word request).0 (text "OPTIONS")) _ _
        (>>=-Settles (IsStuck fd) _ _
          (answer-Settles (text "204 No Content") (text "text/plain") []) λ _. close-Settles)
        (>>=-Settles (IsStuck fd) _ _
          (route-Settles (next_word request).0 (next_word (next_word request).1).0)
          λ _. close-Settles)

  -- What follows a call of `recv` in the world `x`.
  received-Settles :
      (result : RecvResult) (r : RuntimeState) (x : sys.World)
      → (sys.recv fd request_size x).0 ≡ result
      → let s : Session sys = record { runtime = r; world = (sys.recv fd request_size x).1 } in
        (n : ℕ) × (o : Outcome (Session sys) (Unit {0})) × IsEnd (IsStuck fd) o
        × ((fuel : ℕ) → n < fuel → received_request fuel fd result s ≡ o)
  unfolding received_request
  received-Settles (received none) r x h = close-Settles _
  received-Settles (received (some [])) r x h = close-Settles _
  received-Settles (received (some (c ∷ request))) r x h = request-Settles (c ∷ request) _
  received-Settles waits r x h = (
    0,
    throw blocked (record { runtime = r; world = (sys.recv fd request_size x).1 }),
    inl (record { world = x; stays = h; left = refl }),
    λ fuel le. refl,
  )

  -- Whatever a client sends, where only finitely many signals interrupt `send`: from some fuel on
  -- `handle_client` ends in one and the same way, and does not run out of fuel. It returns, an
  -- exception of the program leaves it, or the thread stays in a call of `recv` or `send` on the
  -- client's socket that does not return. This covers the event stream with its 7200 rounds.
  pub handle_client-Settles :
      (s : Session sys)
      → (n : ℕ) × (o : Outcome (Session sys) (Unit {0})) × IsEnd (IsStuck fd) o
        × ((extra : ℕ) → handle_client (suc (n + extra)) fd s ≡ o)
  unfolding handle_client
  handle_client-Settles s =
      let (n, o, m, e) =
        received-Settles (sys.recv fd request_size s.world).0 s.runtime s.world refl in
      (n, o, m, λ extra. e (suc (n + extra)) (omega arith))
