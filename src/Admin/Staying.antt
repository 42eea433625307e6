-- ===== src/Admin/Staying.antt =====
-- Where a thread of src/admin.cpp stays, and the ends of what it does without its client.
use tcp_load_balancer.Admin.{AdminSystem, Session, on_shared, stats, waits}
use tcp_load_balancer.Admin.Requests.{parse_id, exception_of, request_size}
use tcp_load_balancer.Admin.Sending.{IsHeld, IsSent}
use tcp_load_balancer.Admin.Settling.{IsMeant, AreMeant, IsEnd, Settles, AreMeant-Settles}
use tcp_load_balancer.Base.{ℕ, ◌≡◌, M, Outcome, Exception, done, throw, ◌⊎◌, inr, pure}
use tcp_load_balancer.Runtime.{RuntimeState}
use tcp_load_balancer.Text.{Bytes, stoul, StoulError, Stoul, number, refused}
use tcp_load_balancer.Admin.Reports.{stats_json-AreMeant}

-- The thread stays in its call of `recv` on `fd`, which has left the world of `t`.
pub record IsWaiting {sys : AdminSystem} (fd : ℕ) (t : Session sys) : Type 0 where
  pub world : sys.World
  pub stays : (sys.recv fd request_size world).0 ≡ waits
  pub left : t.world ≡ (sys.recv fd request_size world).1

-- The thread stays in a call on its client's socket.
abbrev pub IsStuck : {sys : AdminSystem} → ℕ → Session sys → Type 0
IsStuck fd t = IsWaiting fd t ⊎ IsHeld fd t

module _ {sys : AdminSystem} where
  pub sent_IsEnd :
      {A : Type 0} (fd : ℕ) (o : Outcome (Session sys) A) → IsSent fd o → IsEnd (IsStuck fd) o
  sent_IsEnd fd (done a t) h = tt
  sent_IsEnd fd (throw Exception.out_of_range t) h = tt
  sent_IsEnd fd (throw Exception.invalid_argument t) h = tt
  sent_IsEnd fd (throw Exception.runtime_error t) h = tt
  sent_IsEnd fd (throw Exception.out_of_fuel t) h = h
  sent_IsEnd fd (throw Exception.blocked t) h = inr h

  pub on_shared-AreMeant :
      {A : Type 0} (m : M RuntimeState A) → AreMeant m → AreMeant (on_shared {sys = sys} m)
  on_shared-AreMeant m h s = of_outcome (m s.runtime) (h s.runtime)
    where
      of_outcome :
          {A : Type 0} (o : Outcome RuntimeState A)
          → IsMeant o
          → IsMeant (elim o [
            | done a r ↦ done a (record s { runtime = r })
            | throw e r ↦ throw e (record s { runtime = r })
          ])
      of_outcome (done a r) k = tt
      of_outcome (throw Exception.out_of_range r) k = tt
      of_outcome (throw Exception.invalid_argument r) k = tt
      of_outcome (throw Exception.runtime_error r) k = tt
      of_outcome (throw Exception.out_of_fuel r) k = k
      of_outcome (throw Exception.blocked r) k = k

  pub stats-Settles : (fd : ℕ) → Settles (IsStuck {sys = sys} fd) (λ fuel. stats)
  unfolding stats
  stats-Settles fd = AreMeant-Settles (IsStuck fd) _ λ s.
      on_shared-AreMeant _ (stats_json-AreMeant sys.quotient (sys.now s.world).0)
        (record s { world = (sys.now s.world).1 })

  exception_lem :
      (e : StoulError) (s : Session sys)
      → IsMeant {S = Session sys} {A = ℕ} (throw (exception_of e) s)
  exception_lem StoulError.no_conversion s = tt
  exception_lem StoulError.out_of_range s = tt

  pub parse_id-AreMeant : (s : Bytes) → AreMeant (parse_id {sys = sys} s)
  unfolding parse_id
  parse_id-AreMeant s = of_result (stoul s)
    where
      of_result :
          (r : Stoul)
          → AreMeant (elim r as (λ _. M (Session sys) ℕ) [
            | number n ↦ pure n
            | refused e ↦ throw (exception_of e)
          ])
      of_result (number n) t = tt
      of_result (refused e) t = exception_lem e t
