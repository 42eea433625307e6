-- ===== src/Admin/Caution.antt =====
-- About which requests to `handle_client` of src/admin.cpp change the runtime.
use tcp_load_balancer.Admin.Requests.{
  backend_request, route, respond, handle_request, received_request, handle_client, backends_path,
  request_size,
}
use tcp_load_balancer.Admin.Quiet.{
  IsQuiet, on_shared-IsQuiet, answer-IsQuiet, send_stats-IsQuiet, stream_events-IsQuiet,
  serve_file-IsQuiet,
}
use tcp_load_balancer.Admin.Sparing.{prometheus_metrics-IsPure}
use tcp_load_balancer.Base.Sparing.{>>=-Spares}
use tcp_load_balancer.Text.Equality.{same_eq}
use tcp_load_balancer.Admin.Orders.{Order, target}
use tcp_load_balancer.Admin.{
  RecvResult, received, waits, AdminSystem, Session, answer, close_client,
}
use tcp_load_balancer.Base.{
  ℕ, ◌≡◌, refl, sym, subst, ◌⊎◌, inl, inr, Bool, true, false, ◌&&◌, [], ◌∷◌, none, some, arith,
  if◌then◌else◌, M, after, ◌>>◌, keeps_rest,
}
use tcp_load_balancer.Runtime.{set_backend_state}
use tcp_load_balancer.Text.{Bytes, text, same, starts_with, next_word}
use tcp_load_balancer.Admin.Obeying.{IsOrder, Obeys, backend_request-Obeys}

-- The bytes that `recv` gives, or none.
abbrev bytes_of : RecvResult → Bytes
bytes_of (received none) = []
bytes_of (received (some bytes)) = bytes
bytes_of waits = []

module _ {sys : AdminSystem} where
  -- The request changes the runtime only as an order of a POST does.
  abbrev pub IsObeyed : Bytes → Bytes → Session sys → Session sys → Type 0
  IsObeyed method path s t =
      (t.runtime ≡ s.runtime)
      ⊎ ((o : Order) × (n : ℕ) × (method ≡ text "POST")
          × IsOrder path o n
          × (t.runtime ≡ after (set_backend_state n (target o) s.runtime)))

module _ {sys : AdminSystem} (fuel fd : ℕ) where
  quiet-IsObeyed :
      (method path : Bytes) (s : Session sys) (m : M (Session sys) (Unit {0}))
      → IsQuiet m
      → IsObeyed method path s (after (m s))
  quiet-IsObeyed method path s m h = inl (h.spared s)

  either-IsObeyed :
      (method path : Bytes) (s : Session sys) (b : Bool) (m k : M (Session sys) (Unit {0}))
      → (b ≡ true → IsObeyed method path s (after (m s)))
      → IsObeyed method path s (after (k s))
      → IsObeyed method path s (after ((if b then m else k) s))
  either-IsObeyed method path s true m k h g = h refl
  either-IsObeyed method path s false m k h g = g

  post-IsObeyed :
      (method path : Bytes) (s : Session sys)
      → (same method (text "POST") && starts_with backends_path path) ≡ true
      → IsObeyed method path s (after (backend_request fuel fd path s))
  post-IsObeyed method path s e =
      of_obeys (backend_request-Obeys fuel fd path s (ground (arith, e)))
    where
      of_obeys :
          Obeys path s (after (backend_request fuel fd path s))
          → IsObeyed method path s (after (backend_request fuel fd path s))
      of_obeys (inl h) = inl h
      of_obeys (inr (o, n, v, h)) =
          inr (o, n, same_eq method (text "POST") (ground (arith, e)), v, h)

  route-IsObeyed :
      (method path : Bytes) (s : Session sys)
      → IsObeyed method path s (after (route fuel fd method path s))
  unfolding route
  route-IsObeyed method path s =
      either-IsObeyed method path s (same method (text "GET") && same path (text "/stats")) _ _
        (λ _. quiet-IsObeyed method path s _ (send_stats-IsQuiet fuel fd))
        (either-IsObeyed method path s (same method (text "GET") && same path (text "/metrics")) _ _
          (λ _. quiet-IsObeyed method path s _ (
            >>=-Spares _ _ _ (on_shared-IsQuiet _ prometheus_metrics-IsPure) λ body.
              answer-IsQuiet fuel fd (text "200 OK") (text "text/plain; version=0.0.4") body))
          (either-IsObeyed method path s (same method (text "GET") && same path (text "/events")) _
            _ (λ _. quiet-IsObeyed method path s _ (stream_events-IsQuiet fuel fd))
            (either-IsObeyed method path s
              (same method (text "POST") && starts_with backends_path path) _ _
              (λ e. post-IsObeyed method path s e)
              (either-IsObeyed method path s (same method (text "GET")) _ _
                (λ _. quiet-IsObeyed method path s _ (serve_file-IsQuiet fuel fd path))
                (quiet-IsObeyed method path s _ (
                  answer-IsQuiet fuel fd (text "405 Method Not Allowed") (text "application/json")
                    (text "{\"error\":\"method not allowed\"}")))))))

  close-IsObeyed :
      (method path : Bytes) (s : Session sys) (m : M (Session sys) (Unit {0}))
      → IsObeyed method path s (after (m s))
      → IsObeyed method path s (after ((m >> close_client fd) s))
  unfolding close_client
  close-IsObeyed method path s m h =
      keeps_rest (IsObeyed method path s) (m s) (λ _. close_client fd) h λ a t k. k

  respond-IsObeyed :
      (method path : Bytes) (s : Session sys)
      → IsObeyed method path s (after (respond fuel fd method path s))
  unfolding respond
  respond-IsObeyed method path s =
      either-IsObeyed method path s (same method (text "OPTIONS")) _ _
        (λ _.
          close-IsObeyed method path s
            (answer fuel fd (text "204 No Content") (text "text/plain") [])
            (quiet-IsObeyed method path s _
              (answer-IsQuiet fuel fd (text "204 No Content") (text "text/plain") [])))
        (close-IsObeyed method path s (route fuel fd method path) (route-IsObeyed method path s))

  received-IsObeyed :
      (result : RecvResult) (s : Session sys)
      → let asked = bytes_of result in
        let (method, rest) = next_word asked in
        IsObeyed method (next_word rest).0 s (after (received_request fuel fd result s))
  unfolding received_request handle_request close_client
  received-IsObeyed (received none) s = inl refl
  received-IsObeyed (received (some [])) s = inl refl
  received-IsObeyed waits s = inl refl
  received-IsObeyed (received (some (c ∷ request))) s =
      respond-IsObeyed (next_word (c ∷ request)).0 (next_word (next_word (c ∷ request)).1).0 s

  -- Whatever the fuel and the client, and however `handle_client` ends: the runtime is as before,
  -- or the request was a POST of a path `/backends/<number>/drain` or `/backends/<number>/enable`,
  -- and the runtime is what `set_backend_state` makes of it for this number and order.
  pub handle_client-obeys :
      (request : Bytes) (s : Session sys)
      → (sys.recv fd request_size s.world).0 ≡ received (some request)
      → let (method, rest) = next_word request in
        IsObeyed method (next_word rest).0 s (after (handle_client fuel fd s))
  unfolding handle_client
  handle_client-obeys request s h =
      let t : Session sys = record s { world = (sys.recv fd request_size s.world).1 } in
      subst
        (λ r.
          IsObeyed (next_word request).0 (next_word (next_word request).1).0 s
            (after (received_request fuel fd r t)))
        (sym h) (received-IsObeyed (received (some request)) t)
