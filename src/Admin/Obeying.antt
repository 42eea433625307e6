-- ===== src/Admin/Obeying.antt =====
-- About the requests to `handle_client` of src/admin.cpp that name a backend, and the runtime.
use tcp_load_balancer.Admin.Commands.{path_of}
use tcp_load_balancer.Admin.Requests.{
  act, parse_id, send_stats, at_slash, backend_request, exception_of, backends_path, no_such_thing,
}
use tcp_load_balancer.Admin.Quiet.{on_shared-after, answer-IsQuiet, send_stats-IsQuiet}
use tcp_load_balancer.Text.Equality.{same_eq}
use tcp_load_balancer.Text.Words.{starts_with-drop, find_first-split}
use tcp_load_balancer.Admin.Orders.{Order, drains, enables, word_of, target}
use tcp_load_balancer.Admin.{AdminSystem, Session, on_shared}
use tcp_load_balancer.Base.{
  ℕ, ◌+◌, ◌≡◌, refl, sym, ap, subst, ◌∙◌, ◌⊎◌, inl, inr, true, ◌++◌, arith, length, take, drop,
  throw, after, ◌>>=◌, ◌>>◌, keeps_rest, Bool-cases, Option-cases,
}
use tcp_load_balancer.Runtime.{set_backend_state}
use tcp_load_balancer.Text.{
  Bytes, text, same, starts_with, find_first, stoul, Stoul, number, refused,
}

-- What a session's method has made of the runtime: nothing, or what an order for a backend makes
-- of it, where `action` is the order's word.
abbrev Acts : {sys : AdminSystem} → ℕ → Bytes → Session sys → Session sys → Type 0
Acts n action s t =
    (t.runtime ≡ s.runtime)
    ⊎ ((o : Order) × (action ≡ word_of o)
        × (t.runtime ≡ after (set_backend_state n (target o) s.runtime)))

-- The path names a backend, the order `o` and the number `n`.
pub record IsOrder (path : Bytes) (o : Order) (n : ℕ) : Type 0 where
  pub id : Bytes
  pub path_is : path ≡ path_of id (word_of o)
  pub id_is : stoul id ≡ number n

module _ {sys : AdminSystem} where
  -- The runtime is as before, or what the order that the path holds makes of it.
  abbrev pub Obeys : Bytes → Session sys → Session sys → Type 0
  Obeys path s t =
      (t.runtime ≡ s.runtime)
      ⊎ ((o : Order) × (n : ℕ) × IsOrder path o n
          × (t.runtime ≡ after (set_backend_state n (target o) s.runtime)))

module _ {sys : AdminSystem} (fuel fd : ℕ) where
  set-Acts :
      (o : Order) (n : ℕ) (action : Bytes) (s : Session sys)
      → action ≡ word_of o
      → Acts n action s
          (after ((on_shared (set_backend_state n (target o)) >> send_stats fuel fd) s))
  set-Acts o n action s e = inr (
    o,
    e,
    keeps_rest (λ (t : Session sys). t.runtime ≡ after (set_backend_state n (target o) s.runtime))
        (on_shared (set_backend_state n (target o)) s) (λ _. send_stats fuel fd)
        (on_shared-after (set_backend_state n (target o)) s)
        λ u t h. (send_stats-IsQuiet fuel fd).spared t ∙ h,
  )

  act-Acts :
      (n : ℕ) (action : Bytes) (s : Session sys) → Acts n action s (after (act fuel fd n action s))
  unfolding act
  act-Acts n action s = elim (Bool-cases (same action (text "drain"))) [
    | inl e ↦ rw e (set-Acts drains n action s (same_eq action (text "drain") e))
    | inr e ↦ rw e (elim (Bool-cases (same action (text "enable"))) [
      | inl k ↦ rw k (set-Acts enables n action s (same_eq action (text "enable") k))
      | inr k ↦ rw k (
          inl (
            (answer-IsQuiet fuel fd (text "404 Not Found") (text "application/json")
                no_such_thing).spared
              s))
    ])
  ]

  parse_act-Obeys :
      (id action path : Bytes) (s : Session sys)
      → path ≡ path_of id action
      → Obeys path s (after ((parse_id id >>= λ n. act fuel fd n action) s))
  unfolding parse_id
  parse_act-Obeys id action path s e = of_result (stoul id) refl
    where
      of_act :
          (n : ℕ)
          → stoul id ≡ number n
          → Acts n action s (after (act fuel fd n action s))
          → Obeys path s (after (act fuel fd n action s))
      of_act n k (inl h) = inl h
      of_act n k (inr (o, w, h)) =
          inr (o, n, record { id = id; path_is = e ∙ ap (path_of id) w; id_is = k }, h)

      of_result :
          (r : Stoul)
          → stoul id ≡ r
          → Obeys path s (after ((parse_id id >>= λ n. act fuel fd n action) s))
      of_result (number n) k =
          let acts : (parse_id id >>= λ n. act fuel fd n action) s ≡ act fuel fd n action s =
            ground (arith, k) in
          subst (λ o. Obeys path s (after o)) (sym acts) (of_act n k (act-Acts n action s))
      of_result (refused x) k =
          let throws : (parse_id id >>= λ n. act fuel fd n action) s ≡ throw (exception_of x) s =
            ground (arith, k) in
          subst (λ o. Obeys path s (after o)) (sym throws) (inl refl)

  pub backend_request-Obeys :
      (path : Bytes) (s : Session sys)
      → starts_with backends_path path ≡ true
      → Obeys path s (after (backend_request fuel fd path s))
  unfolding backend_request at_slash
  backend_request-Obeys path s h =
      elim (Option-cases (find_first b'/' (drop (length backends_path) path))) [
        | inl e ↦ rw e (
            inl (
              (answer-IsQuiet fuel fd (text "404 Not Found") (text "application/json")
                  no_such_thing).spared
                s))
        | inr (slash, e) ↦ rw e (
            parse_act-Obeys (take slash (drop (length backends_path) path))
              (drop (slash + 1) (drop (length backends_path) path)) path s
              (sym (
                ap (◌++◌ backends_path)
                  (find_first-split b'/' (drop (length backends_path) path) slash e)
                ∙ starts_with-drop backends_path path h)))
      ]
