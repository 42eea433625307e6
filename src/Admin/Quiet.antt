-- ===== src/Admin/Quiet.antt =====
-- What the replies of src/admin.cpp leave alone.
use tcp_load_balancer.Admin.Requests.{send_stats, serve_file}
use tcp_load_balancer.Admin.Sparing.{stats_json-IsPure, IsPure}
use tcp_load_balancer.Base.Sparing.{Spares, >>=-Spares, if-Spares}
use tcp_load_balancer.Admin.{
  SendResult, returned, held, AdminSystem, Session, on_shared, answer, stats, send_all, send_result,
  response, read_file, pause, stream_turns, stream_events, stream_rounds, event_headers,
  stats_event, content_type_for,
}
use tcp_load_balancer.Base.{
  ℕ, zero, suc, ◌≡◌, refl, ◌∙◌, Bool, true, false, not, ◌&&◌, [], ◌∷◌, ◌++◌, ltb, if◌then◌else◌,
  drop, M, Outcome, done, throw, pure, after,
}
use tcp_load_balancer.Runtime.{RuntimeState}
use tcp_load_balancer.System.{WriteResult, wrote}
use tcp_load_balancer.Text.{Bytes, text, same, is_empty}

module _ {sys : AdminSystem} where
  -- The runtime is as it was.
  abbrev pub IsQuiet : {A : Type 0} → M (Session sys) A → Type 0
  IsQuiet m = Spares (λ (s : Session sys). s.runtime) m

  pub pure-IsQuiet : {A : Type 0} (a : A) → IsQuiet (pure a)
  pure-IsQuiet a = record { spared = λ s. refl }

  pub on_shared-after :
      {A : Type 0} (m : M RuntimeState A) (s : Session sys)
      → (after (on_shared m s)).runtime ≡ after (m s.runtime)
  on_shared-after m s = of_outcome (m s.runtime)
    where
      of_outcome :
          {A : Type 0} (o : Outcome RuntimeState A)
          → (after (elim o as (λ _. Outcome (Session sys) A) [
            | done a r ↦ done a (record s { runtime = r })
            | throw e r ↦ throw e (record s { runtime = r })
          ])).runtime
            ≡ after o
      of_outcome (done a r) = refl
      of_outcome (throw e r) = refl

  pub on_shared-IsQuiet : {A : Type 0} (m : M RuntimeState A) → IsPure m → IsQuiet (on_shared m)
  on_shared-IsQuiet m h = record { spared = λ s. on_shared-after m s ∙ h.spared s.runtime }

  send_result-IsQuiet :
      (again : Bytes → M (Session sys) Bool) (payload : Bytes) (result : SendResult)
      → ((rest : Bytes) → IsQuiet (again rest))
      → IsQuiet (send_result again payload result)
  send_result-IsQuiet again payload (returned (wrote n)) h = record {
    spared = λ s. of_test (ltb 0 n) s;
  }
    where
      of_test :
          (b : Bool) (s : Session sys)
          → (after (elim b as (λ _. Outcome (Session sys) Bool) [
            | true ↦ again (drop n payload) s
            | false ↦ done false s
          ])).runtime
            ≡ s.runtime
      of_test true s = (h (drop n payload)).spared s
      of_test false s = refl
  send_result-IsQuiet again payload (returned WriteResult.would_block) h = record {
    spared = λ s. refl;
  }
  send_result-IsQuiet again payload (returned WriteResult.interrupted) h = h payload
  send_result-IsQuiet again payload (returned WriteResult.failed) h = record { spared = λ s. refl }
  send_result-IsQuiet again payload (held n) h = record { spared = λ s. refl }

  send_all-IsQuiet :
      (fuel fd : ℕ) (payload : Bytes) → IsQuiet (send_all {sys = sys} fuel fd payload)
  unfolding send_all
  send_all-IsQuiet zero fd payload = record { spared = λ s. refl }
  send_all-IsQuiet (suc fuel) fd [] = record { spared = λ s. refl }
  send_all-IsQuiet (suc fuel) fd (c ∷ r) = record {
    spared = λ s.
        let (result, world) = sys.send fd (c ∷ r) s.world in
        (send_result-IsQuiet (send_all fuel fd) (c ∷ r) result
            (λ rest. send_all-IsQuiet fuel fd rest)).spared
          (record s { world = world });
  }

  stats-IsQuiet : IsQuiet stats
  unfolding stats
  stats-IsQuiet = record {
    spared = λ s.
        (on_shared-IsQuiet _ (stats_json-IsPure sys.quotient (sys.now s.world).0)).spared
          (record s { world = (sys.now s.world).1 });
  }

  pub answer-IsQuiet :
      (fuel fd : ℕ) (status type body : Bytes) → IsQuiet (answer fuel fd status type body)
  unfolding answer
  answer-IsQuiet fuel fd status type body =
      >>=-Spares _ _ _ (send_all-IsQuiet fuel fd (response status type body []))
        λ b. pure-IsQuiet tt

  pub send_stats-IsQuiet : (fuel fd : ℕ) → IsQuiet (send_stats fuel fd)
  unfolding send_stats
  send_stats-IsQuiet fuel fd =
      >>=-Spares _ _ _ stats-IsQuiet
        λ body. answer-IsQuiet fuel fd (text "200 OK") (text "application/json") body

  stream_turns-IsQuiet : (fuel rounds fd : ℕ) → IsQuiet (stream_turns fuel rounds fd)
  unfolding stream_turns pause
  stream_turns-IsQuiet fuel zero fd = pure-IsQuiet tt
  stream_turns-IsQuiet fuel (suc rounds) fd = >>=-Spares _ _ _ stats-IsQuiet λ figures.
      >>=-Spares _ _ _ (send_all-IsQuiet fuel fd (stats_event figures)) λ b.
        if-Spares _ b _ _
          (>>=-Spares _ (pause 400) _ (record { spared = λ s. refl })
            λ _. stream_turns-IsQuiet fuel rounds fd)
          (pure-IsQuiet tt)

  pub stream_events-IsQuiet : (fuel fd : ℕ) → IsQuiet (stream_events fuel fd)
  unfolding stream_events
  stream_events-IsQuiet fuel fd =
      >>=-Spares _ _ _ (send_all-IsQuiet fuel fd event_headers)
        λ b. if-Spares _ b _ _ (stream_turns-IsQuiet fuel stream_rounds fd) (pure-IsQuiet tt)

  read_file-IsQuiet : (path : Bytes) → IsQuiet (read_file path)
  unfolding read_file
  read_file-IsQuiet path = record { spared = λ s. refl }

  pub serve_file-IsQuiet : (fuel fd : ℕ) (path : Bytes) → IsQuiet (serve_file fuel fd path)
  unfolding serve_file
  serve_file-IsQuiet fuel fd path = >>=-Spares _ _ _ (read_file-IsQuiet _) λ found.
      >>=-Spares _ _ _
        (if-Spares _ (is_empty found && not (same path (text "/"))) _ _
          (read_file-IsQuiet (text "web/dist/index.html")) (pure-IsQuiet found))
        λ body.
          if-Spares _ (is_empty body) _ _
            (answer-IsQuiet fuel fd (text "404 Not Found") (text "text/plain")
              (text "dashboard build not found\n"))
            (answer-IsQuiet fuel fd (text "200 OK")
              (content_type_for
                (text "web/dist" ++ (if same path (text "/") then text "/index.html" else path)))
              body)
