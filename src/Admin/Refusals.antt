-- ===== src/Admin/Refusals.antt =====
-- About the orders that `handle_client` of src/admin.cpp cannot carry out.
use tcp_load_balancer.Admin.Orders.{Order, word_of, word-HasNoSpace, act-order}
use tcp_load_balancer.Admin.Commands.{post_of, handle_client-post}
use tcp_load_balancer.Admin.Requests.{act, parse_id, handle_client, exception_of, request_size}
use tcp_load_balancer.Admin.{AdminSystem, Session, received}
use tcp_load_balancer.Base.{
  ℕ, ◌≤◌, ◌≡◌, ◌∙◌, ◌⊎◌, inl, inr, true, some, arith, length, Exception, throw,
}
use tcp_load_balancer.Runtime.{set_backend_state}
use tcp_load_balancer.Scheduler.{set_state}
use tcp_load_balancer.Text.Searching.{Absent}
use tcp_load_balancer.Text.Words.{HasNoSpace, starts_blank}
use tcp_load_balancer.Text.{Bytes, stoul, StoulError, number, refused}

-- The exception that an identifier brings about, where there are `count` backends.
abbrev pub Brings : ℕ → Bytes → Exception → Type 0
Brings count id x =
    ((e : StoulError) × (stoul id ≡ refused e) × (x ≡ exception_of e))
    ⊎ ((n : ℕ) × (stoul id ≡ number n) × (count ≤ n) × (x ≡ Exception.out_of_range))

module _ {sys : AdminSystem} (fuel fd : ℕ) where
  past_end_lem :
      (o : Order) (n : ℕ) (s : Session sys)
      → length s.runtime.scheduler.states ≤ n
      → act fuel fd n (word_of o) s ≡ throw Exception.out_of_range s
  unfolding set_backend_state set_state
  past_end_lem o n s h = act-order fuel fd o n s ∙ ground (arith, h)

  -- An order whose identifier is no number, or one past the last state of the scheduler, makes
  -- `handle_client` end with an exception, whatever the fuel. The runtime is as before, and the
  -- world is as `recv` left it: no answer is sent and the socket is not closed.
  pub handle_client-throws :
      (o : Order) (id rest : Bytes) (x : Exception) (s : Session sys)
      → HasNoSpace id
      → Absent b'/' id
      → starts_blank rest ≡ true
      → (sys.recv fd request_size s.world).0 ≡ received (some (post_of id (word_of o) rest))
      → Brings (length s.runtime.scheduler.states) id x
      → handle_client fuel fd s
        ≡ throw x (record s { world = (sys.recv fd request_size s.world).1 })
  unfolding parse_id
  handle_client-throws o id rest x s w a b h (inl (e, k, l)) =
      handle_client-post id (word_of o) w a (word-HasNoSpace o) fuel fd rest s b h
      ∙ ground (arith, k, l)
  handle_client-throws o id rest x s w a b h (inr (n, k, le, l)) =
      let t : Session sys = record s { world = (sys.recv fd request_size s.world).1 } in
      handle_client-post id (word_of o) w a (word-HasNoSpace o) fuel fd rest s b h
      ∙ ground (arith, k, l, past_end_lem o n t le)
