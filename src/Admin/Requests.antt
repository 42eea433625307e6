-- ===== src/Admin/Requests.antt =====
-- src/admin.cpp: `handle_client`, from the bytes of a request to what the thread does.
use tcp_load_balancer.Admin.{
  AdminSystem, Session, on_shared, answer, close_client, read_file, stats, stream_events,
  content_type_for, RecvResult, received, waits,
}
use tcp_load_balancer.Base.{
  ℕ, ◌+◌, not, ◌&&◌, [], ◌∷◌, ◌++◌, Option, none, some, length, take, drop, if◌then◌else◌, M, throw,
  blocked, Exception, pure, ◌>>=◌, ◌>>◌,
}
use tcp_load_balancer.Report.{prometheus_metrics}
use tcp_load_balancer.Runtime.{set_backend_state}
use tcp_load_balancer.Scheduler.{up, draining}
use tcp_load_balancer.Text.{
  Bytes, text, same, is_empty, starts_with, find_first, next_word, stoul, StoulError, number,
  refused,
}

abbrev pub request_size : ℕ
request_size = 4095

abbrev pub no_such_thing : Bytes
no_such_thing = text "{\"error\":\"not found\"}"

abbrev pub backends_path : Bytes
backends_path = text "/backends/"

abbrev pub exception_of : StoulError → Exception
exception_of StoulError.no_conversion = Exception.invalid_argument
exception_of StoulError.out_of_range = Exception.out_of_range

module _ {sys : AdminSystem} where
  open sys use {recv}

  unfoldable pub parse_id : Bytes → M (Session sys) ℕ
  unfolding stoul
  parse_id s = elim (stoul s) [ number n ↦ pure n | refused e ↦ throw (exception_of e) ]

  unfoldable pub send_stats : ℕ → ℕ → M (Session sys) (Unit {0})
  unfolding stats answer
  send_stats fuel fd = stats >>= answer fuel fd (text "200 OK") (text "application/json")

  unfoldable pub act : ℕ → ℕ → ℕ → Bytes → M (Session sys) (Unit {0})
  unfolding set_backend_state send_stats answer
  act fuel fd id action =
      if same action (text "drain")
      then on_shared (set_backend_state id draining) >> send_stats fuel fd
      else if same action (text "enable")
      then on_shared (set_backend_state id up) >> send_stats fuel fd
      else answer fuel fd (text "404 Not Found") (text "application/json") no_such_thing

  -- The identifier in front of the slash and the action behind it.
  unfoldable pub at_slash : ℕ → ℕ → Bytes → Option ℕ → M (Session sys) (Unit {0})
  unfolding parse_id act answer
  at_slash fuel fd tail none =
      answer fuel fd (text "404 Not Found") (text "application/json") no_such_thing
  at_slash fuel fd tail (some slash) =
      parse_id (take slash tail) >>= λ id. act fuel fd id (drop (slash + 1) tail)

  unfoldable pub backend_request : ℕ → ℕ → Bytes → M (Session sys) (Unit {0})
  unfolding find_first at_slash
  backend_request fuel fd path =
      let tail = drop (length backends_path) path in at_slash fuel fd tail (find_first b'/' tail)

  unfoldable pub serve_file : ℕ → ℕ → Bytes → M (Session sys) (Unit {0})
  unfolding read_file answer content_type_for
  serve_file fuel fd path =
      let file_path =
        text "web/dist" ++ (if same path (text "/") then text "/index.html" else path) in
      do
        body ← read_file file_path
        body ←
            if is_empty body && not (same path (text "/"))
            then read_file (text "web/dist/index.html")
            else pure body
        if is_empty body
            then answer fuel fd (text "404 Not Found") (text "text/plain")
                (text "dashboard build not found\n")
            else answer fuel fd (text "200 OK") (content_type_for file_path) body

  unfoldable pub route : ℕ → ℕ → Bytes → Bytes → M (Session sys) (Unit {0})
  unfolding send_stats prometheus_metrics stream_events backend_request serve_file answer
  route fuel fd method path =
      if same method (text "GET") && same path (text "/stats")
      then send_stats fuel fd
      else if same method (text "GET") && same path (text "/metrics")
      then on_shared prometheus_metrics
        >>= answer fuel fd (text "200 OK") (text "text/plain; version=0.0.4")
      else if same method (text "GET") && same path (text "/events")
      then stream_events fuel fd
      else if same method (text "POST") && starts_with backends_path path
      then backend_request fuel fd path
      else if same method (text "GET")
      then serve_file fuel fd path
      else answer fuel fd (text "405 Method Not Allowed") (text "application/json")
          (text "{\"error\":\"method not allowed\"}")

  unfoldable pub respond : ℕ → ℕ → Bytes → Bytes → M (Session sys) (Unit {0})
  unfolding route answer close_client
  respond fuel fd method path =
      if same method (text "OPTIONS")
      then answer fuel fd (text "204 No Content") (text "text/plain") [] >> close_client fd
      else route fuel fd method path >> close_client fd

  unfoldable pub handle_request : ℕ → ℕ → Bytes → M (Session sys) (Unit {0})
  unfolding next_word respond
  handle_request fuel fd request =
      let (method, rest) = next_word request in respond fuel fd method (next_word rest).0

  -- What `handle_client` does with the result of `recv`.
  unfoldable pub received_request : ℕ → ℕ → RecvResult → M (Session sys) (Unit {0})
  unfolding handle_request close_client
  received_request fuel fd (received none) = close_client fd
  received_request fuel fd (received (some [])) = close_client fd
  received_request fuel fd (received (some (c ∷ request))) = handle_request fuel fd (c ∷ request)
  received_request fuel fd waits = throw blocked

  unfoldable pub handle_client : ℕ → ℕ → M (Session sys) (Unit {0})
  unfolding received_request
  handle_client fuel fd s =
      let (result, world) = recv fd request_size s.world in
      received_request fuel fd result (record s { world = world })
