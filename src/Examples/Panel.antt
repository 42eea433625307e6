-- ===== src/Examples/Panel.antt =====
-- Tests of the admin server, and the theorems on it at concrete inputs.
use tcp_load_balancer.Admin.Caution.{IsObeyed, handle_client-obeys}
use tcp_load_balancer.Admin.Commands.{post_of}
use tcp_load_balancer.Admin.Ending.{handle_client-Settles}
use tcp_load_balancer.Admin.Framing.{read_reply-response}
use tcp_load_balancer.Admin.Orders.{
  drains, enables, word_of, ordered, reply, CarriesOut, handle_client-orders,
}
use tcp_load_balancer.Admin.Refusals.{handle_client-throws}
use tcp_load_balancer.Admin.Requests.{
  handle_client, route, respond, handle_request, received_request,
}
use tcp_load_balancer.Admin.Sending.{Delivers, IsSent, answer_of, send_all-Delivers}
use tcp_load_balancer.Admin.Streams.{Streams, Interruptions}
use tcp_load_balancer.Admin.Settling.{IsEnd}
use tcp_load_balancer.Admin.Staying.{IsStuck}
use tcp_load_balancer.Admin.{
  AdminSystem, Session, received, returned, held, response, send_all, answer, close_client,
  content_type_for,
}
use tcp_load_balancer.Base.{
  ℕ, suc, ◌+◌, ◌/◌, ◌<◌, ◌≤◌, ◌≡◌, refl, inr, List, [], ◌∷◌, ◌++◌, none, some, arith, ltb, ◌==◌,
  if◌then◌else◌, length, take, Outcome, Exception, blocked, done, throw, after,
}
use tcp_load_balancer.Examples.Process.{busy, busy-IsReady}
use tcp_load_balancer.Http.{read_reply}
use tcp_load_balancer.Report.{stats_json}
use tcp_load_balancer.Scheduler.{up}
use tcp_load_balancer.System.{WriteResult, wrote}
use tcp_load_balancer.Text.Searching.{is_absent_lem}
use tcp_load_balancer.Text.Words.{has_no_space_lem}
use tcp_load_balancer.Text.{Bytes, text, to_string, next_word, stoul}

-- The request of a client, the sockets that have been closed, and what the sockets have taken,
-- the last one first.
record Wire : Type 0 where
  asked : Bytes
  closed : List ℕ
  log : List (ℕ × Bytes)

abbrev logged : ℕ → List (ℕ × Bytes) → Bytes
logged k [] = []
logged k ((fd, bytes) ∷ log) = logged k log ++ (if k == fd then bytes else [])

-- A socket takes 100 bytes at once; there is one file.
abbrev taking : Bytes → ℕ
taking bytes = if ltb 100 (length bytes) then 100 else length bytes

abbrev panel : AdminSystem
panel = record {
  World = Wire;
  now = λ w. (7_000_000_000, w);
  recv = λ fd n w. (received (some (take n w.asked)), w);
  send = λ fd bytes w.
      (returned (wrote (taking bytes)), record w { log = (fd, take (taking bytes) bytes) ∷ w.log });
  close = λ fd w. record w { closed = fd ∷ w.closed };
  open_file = λ path w. (none, w);
  sleep_ms = λ ms w. w;
  quotient = λ m n. to_string (m / n);
}

taking-le : (bytes : Bytes) → taking bytes ≤ length bytes
taking-le bytes = ground arith

wrote_apart : (n : ℕ) → returned (wrote n) ≡ returned WriteResult.interrupted → 0 < 0
wrote_apart n e = cc

abbrev panel-Streams : Streams panel
panel-Streams = record {
  taken = λ k w. logged k w.log;
  now_keeps = λ k x. refl;
  recv_keeps = λ fd n k x. refl;
  close_keeps = λ fd k x. refl;
  open_keeps = λ path k x. refl;
  sleep_keeps = λ ms k x. refl;
  send_takes = λ fd bytes k x. refl;
  send_fits = λ fd bytes x. taking-le bytes;
}

abbrev panel-Interruptions : Interruptions panel
panel-Interruptions = record {
  left = λ w. 0;
  send_left = λ fd bytes x. omega arith;
  interrupted_left = λ fd bytes x e. wrote_apart (taking bytes) e;
}

abbrev asking : Bytes → Session panel
asking request = record {
  runtime = busy up;
  world = record { asked = request; closed = []; log = [] };
}

css_served : content_type_for (text "/assets/index.css") ≡ text "text/css"
unfolding content_type_for
css_served = refl

-- A client that sends nothing is closed.
nothing_asked :
    handle_client {sys = panel} 0 7 (asking [])
    ≡ done tt (record (asking []) { world = record { asked = []; closed = 7 ∷ []; log = [] } })
unfolding handle_client close_client
nothing_asked = refl

abbrev not_allowed : Bytes
not_allowed =
    response (text "405 Method Not Allowed") (text "application/json")
      (text "{\"error\":\"method not allowed\"}") []

put_refused :
    (after (handle_client {sys = panel} 9 7 (asking (text "PUT /stats HTTP/1.1\r\n")))).world.closed
    ≡ 7 ∷ []
unfolding handle_client next_word route respond handle_request received_request answer send_all
    response to_string close_client
put_refused = refl

-- A client that stops reading after three bytes.
abbrev deaf : AdminSystem
deaf = record {
  World = Wire;
  now = λ w. (7_000_000_000, w);
  recv = λ fd n w. (received (some (take n w.asked)), w);
  send = λ fd bytes w. (held 3, record w { log = (fd, take 3 bytes) ∷ w.log });
  close = λ fd w. record w { closed = fd ∷ w.closed };
  open_file = λ path w. (none, w);
  sleep_ms = λ ms w. w;
  quotient = λ m n. to_string (m / n);
}

abbrev unheard : Session deaf
unheard = record {
  runtime = busy up;
  world = record { asked = text "PUT /stats HTTP/1.1\r\n"; closed = []; log = [] };
}

-- Its thread stays in `send`, and its socket open.
deaf_stays :
    handle_client 9 7 unheard
    ≡ throw blocked (record unheard { world = record unheard.world { log = (7, text "HTT") ∷ [] } })
unfolding handle_client next_word route respond handle_request received_request answer send_all
    response to_string close_client
deaf_stays = refl

send_all-Delivers_example :
    IsSent 7 (send_all 9 7 (text "event") (asking []))
    × Delivers panel-Streams panel-Interruptions 7
        (text "event")
        (asking [])
        (answer_of (send_all 9 7 (text "event") (asking [])))
        (after (send_all 9 7 (text "event") (asking [])))
send_all-Delivers_example =
    send_all-Delivers panel-Streams panel-Interruptions 9 7 (text "event") (asking []) (omega arith)

handle_client-Settles_example :
    (n : ℕ) × (o : Outcome (Session panel) (Unit {0})) × IsEnd (IsStuck 7) o
    × ((extra : ℕ)
        → handle_client (suc (n + extra)) 7 (asking (text "GET /events HTTP/1.1\r\n")) ≡ o)
handle_client-Settles_example =
    handle_client-Settles panel-Streams panel-Interruptions 7
      (asking (text "GET /events HTTP/1.1\r\n"))

read_reply-response_example :
    read_reply (response (text "200 OK") (text "text/css") (text "a\r\n\r\nb") [])
    ≡ some (record {
      status = text "200 OK";
      content_type = text "text/css";
      body = text "a\r\n\r\nb";
    })
read_reply-response_example =
    read_reply-response (text "200 OK") (text "text/css") (text "a\r\n\r\nb")
      (is_absent_lem b'\r' (text "200 OK") refl) (is_absent_lem b'\r' (text "text/css") refl)
      (omega arith)

abbrev drain_request : Bytes
drain_request = post_of (to_string 1) (word_of drains) (text " HTTP/1.1\r\n")

handle_client-orders_example :
    (body : Bytes) × (end : Outcome (Session panel) (Unit {0})) × (stats_json panel.quotient
        7_000_000_000
        (ordered drains 1 (busy up))
      ≡ done body (ordered drains 1 (busy up)))
    × (handle_client (suc (length (reply body) + 0 + 0)) 7 (asking drain_request) ≡ end)
    × IsSent 7 end
    × CarriesOut panel-Streams panel-Interruptions 7
        (ordered drains 1 (busy up))
        (asking drain_request)
        (reply body)
        (after end)
handle_client-orders_example =
    handle_client-orders panel-Streams panel-Interruptions 7 drains 1 (text " HTTP/1.1\r\n")
      (asking drain_request) 0 (busy-IsReady up) (omega arith) (omega arith) refl
      (unfold to_string in refl)

handle_client-throws_example :
    handle_client 0 7 (asking (post_of (text "2") (text "enable") []))
    ≡ throw Exception.out_of_range (asking (post_of (text "2") (text "enable") []))
handle_client-throws_example =
    handle_client-throws 0 7 enables (text "2") [] Exception.out_of_range
      (asking (post_of (text "2") (text "enable") [])) (has_no_space_lem (text "2") refl)
      (is_absent_lem b'/' (text "2") refl) refl refl
      (inr (2, unfold stoul in refl, omega arith, refl))

abbrev enable_request : Bytes
enable_request = text "POST /backends/0/enable HTTP/1.1\r\n"

handle_client-obeys_example :
    IsObeyed
      (next_word enable_request).0
      (next_word (next_word enable_request).1).0
      (asking enable_request)
      (after (handle_client 50 7 (asking enable_request)))
handle_client-obeys_example = handle_client-obeys 50 7 enable_request (asking enable_request) refl
