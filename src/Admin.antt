-- ===== src/Admin.antt =====
-- src/admin.cpp: the texts that the admin server sends, and how a thread of it sends them. The
-- system calls of such a thread are a parameter; a `Session` is what the thread works on.
pub mod Requests
pub mod Streams
pub mod Sending
pub mod Settling
pub mod Reports
pub mod Staying
pub mod Ending
pub mod Commands
pub mod Orders
pub mod Refusals
pub mod Sparing
pub mod Framing
pub mod Quiet
pub mod Obeying
pub mod Caution
use tcp_load_balancer.Base.{
  ℕ, zero, suc, ◌+◌, Bool, true, false, List, [], ◌∷◌, ◌++◌, Option, none, some, ltb, length, drop,
  if◌then◌else◌, M, Outcome, done, throw, out_of_fuel, blocked, pure, ◌>>=◌, ◌>>◌,
}
use tcp_load_balancer.Report.{stats_json, prometheus_metrics}
use tcp_load_balancer.Runtime.{RuntimeState}
use tcp_load_balancer.System.{WriteResult, wrote}
use tcp_load_balancer.Text.{Bytes, text, to_string, ends_with}

-- The client's socket is blocking. A call of `recv` or `send` returns what the system tells, or it
-- stays, and the thread with it; so many bytes `send` has taken when it stays.
pub data RecvResult : Type 0 where
  received : Option Bytes → RecvResult
  waits : RecvResult

pub data SendResult : Type 0 where
  returned : WriteResult → SendResult
  held : ℕ → SendResult

-- The system calls of a thread, with the world that each call changes.
pub record AdminSystem : Type 1 where
  pub World : Type 0
  -- The steady clock, in nanoseconds.
  pub now : World → ℕ × World
  -- `recv` of at most so many bytes; nothing for -1.
  pub recv : ℕ → ℕ → World → RecvResult × World
  pub send : ℕ → Bytes → World → SendResult × World
  pub close : ℕ → World → World
  -- The content of a file that can be opened.
  pub open_file : Bytes → World → Option Bytes × World
  pub sleep_ms : ℕ → World → World
  -- How a stream writes the quotient of two counters as a `double`.
  pub quotient : ℕ → ℕ → Bytes

pub record Session (sys : AdminSystem) : Type 0 where
  pub runtime : RuntimeState
  pub world : sys.World

unfoldable pub response : Bytes → Bytes → Bytes → Bytes → Bytes
response status content_type body extra_headers =
    text "HTTP/1.1 "
    ++ (status
        ++ (text "\r\n"
            ++ (text "Content-Type: "
                ++ (content_type
                    ++ (text "\r\n"
                        ++ (text "Content-Length: "
                            ++ (to_string (length body)
                                ++ (text "\r\n"
                                    ++ (text "Access-Control-Allow-Origin: *\r\n"
                                        ++ (text
                                              "Access-Control-Allow-Methods: GET,POST,OPTIONS\r\n"
                                            ++ (text
                                                  "Access-Control-Allow-Headers: content-type\r\n"
                                                ++ (extra_headers
                                                    ++ (text "Connection: close\r\n\r\n"
                                                        ++ body)))))))))))))

unfoldable pub content_type_for : Bytes → Bytes
content_type_for path =
    if ends_with (text ".css") path
    then text "text/css"
    else if ends_with (text ".js") path
    then text "application/javascript"
    else if ends_with (text ".svg") path
    then text "image/svg+xml"
    else text "text/html"

abbrev pub event_headers : Bytes
event_headers =
    text
      "HTTP/1.1 200 OK\r\nContent-Type: text/event-stream\r\nCache-Control: no-cache\r\nConnection: keep-alive\r\nAccess-Control-Allow-Origin: *\r\n\r\n"

abbrev pub stats_event : Bytes → Bytes
stats_event stats = text "event: stats\ndata: " ++ (stats ++ text "\n\n")

-- The rounds of `stream_events`.
abbrev pub stream_rounds : ℕ
stream_rounds = 7200

module _ {sys : AdminSystem} where
  open sys use {now, send, close, open_file, sleep_ms, quotient}

  abbrev pub on_shared : {A : Type 0} → M RuntimeState A → M (Session sys) A
  on_shared m s = elim (m s.runtime) [
    | done a r ↦ done a (record s { runtime = r })
    | throw e r ↦ throw e (record s { runtime = r })
  ]

  -- The bytes that are left are the argument of the next turn.
  abbrev pub send_result :
      (Bytes → M (Session sys) Bool) → Bytes → SendResult → M (Session sys) Bool
  send_result again payload (returned (wrote n)) s = elim (ltb 0 n) [
    | true ↦ again (drop n payload) s
    | false ↦ done false s
  ]
  send_result again payload (returned WriteResult.would_block) s = done false s
  send_result again payload (returned WriteResult.interrupted) s = again payload s
  send_result again payload (returned WriteResult.failed) s = done false s
  send_result again payload (held n) s = throw blocked s

  unfoldable pub send_all : ℕ → ℕ → Bytes → M (Session sys) Bool
  send_all zero fd payload s = throw out_of_fuel s
  send_all (suc fuel) fd [] s = done true s
  send_all (suc fuel) fd (c ∷ rest) s =
      let (result, world) = send fd (c ∷ rest) s.world in
      send_result (send_all fuel fd) (c ∷ rest) result (record s { world = world })

  unfoldable pub close_client : ℕ → M (Session sys) (Unit {0})
  close_client fd s = done tt (record s { world = close fd s.world })

  unfoldable pub read_file : Bytes → M (Session sys) Bytes
  read_file path s =
      let (file, world) = open_file path s.world in
      done (elim file [ none ↦ [] | some content ↦ content ]) (record s { world = world })

  unfoldable pub stats : M (Session sys) Bytes
  unfolding stats_json
  stats s =
      let (t, world) = now s.world in on_shared (stats_json quotient t) (record s { world = world })

  -- `send_all(fd, response(...))`, whose result is not used.
  unfoldable pub answer : ℕ → ℕ → Bytes → Bytes → Bytes → M (Session sys) (Unit {0})
  unfolding send_all response
  answer fuel fd status content_type body =
      send_all fuel fd (response status content_type body []) >>= λ _. pure tt

  unfoldable pub pause : ℕ → M (Session sys) (Unit {0})
  pause ms s = done tt (record s { world = sleep_ms ms s.world })

  unfoldable pub stream_turns : ℕ → ℕ → ℕ → M (Session sys) (Unit {0})
  unfolding stats send_all pause
  stream_turns fuel zero fd = pure tt
  stream_turns fuel (suc rounds) fd =
      let later = stream_turns fuel rounds fd in
      do
        figures ← stats
        sent ← send_all fuel fd (stats_event figures)
        if sent then pause 400 >> later else pure tt

  unfoldable pub stream_events : ℕ → ℕ → M (Session sys) (Unit {0})
  unfolding stream_turns send_all
  stream_events fuel fd = do
    sent ← send_all fuel fd event_headers
    if sent then stream_turns fuel stream_rounds fd else pure tt
