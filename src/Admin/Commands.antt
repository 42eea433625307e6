-- ===== src/Admin/Commands.antt =====
-- About the requests to `handle_client` of src/admin.cpp that name a backend.
use tcp_load_balancer.Admin.Requests.{
  act, parse_id, at_slash, backend_request, route, respond, handle_request, received_request,
  handle_client, backends_path, request_size,
}
use tcp_load_balancer.Admin.{received, AdminSystem, Session, answer, close_client}
use tcp_load_balancer.Base.{
  ℕ, ◌+◌, ◌≡◌, refl, ap, ◌∙◌, Bool, true, ◌∷◌, ◌++◌, some, if◌then◌else◌, length, take, drop,
  Outcome, done, throw, ◌>>=◌, ◌>>◌,
}
use tcp_load_balancer.Text.Searching.{Absent, find_first-append, take-append, drop-append_suc}
use tcp_load_balancer.Text.Words.{
  HasNoSpace, has_no_space_lem, IsWord, starts_blank, append-HasNoSpace, next_word-append,
  next_word-space, starts_with-append, drop-length-append,
}
use tcp_load_balancer.Text.{Bytes, text, find_first, next_word}

-- A request to do `action` to the backend that `id` names; `rest` is what follows the path.
abbrev pub path_of : Bytes → Bytes → Bytes
path_of id action = backends_path ++ (id ++ (b'/' ∷ action))

abbrev pub post_of : Bytes → Bytes → Bytes → Bytes
post_of id action rest = text "POST" ++ (32 ∷ (path_of id action ++ rest))

module _ (id action : Bytes) (id_word : HasNoSpace id) (id_plain : Absent b'/' id)
    (action_word : HasNoSpace action) where
  abbrev tail : Bytes
  tail = id ++ (b'/' ∷ action)

  path-IsWord : IsWord (path_of id action)
  path-IsWord = (
    refl,
    append-HasNoSpace (text "backends/") (id ++ (b'/' ∷ action))
        (has_no_space_lem (text "backends/") refl)
        (append-HasNoSpace id (b'/' ∷ action) id_word (refl, action_word)),
  )

  module _ {sys : AdminSystem} (fuel fd : ℕ) where
    backend_request-path :
        (s : Session sys)
        → backend_request fuel fd (path_of id action) s
          ≡ (parse_id id >>= λ i. act fuel fd i action) s
    unfolding backend_request at_slash
    backend_request-path s =
        let at : drop (length backends_path) (path_of id action) ≡ id ++ (b'/' ∷ action) =
          drop-length-append backends_path (id ++ (b'/' ∷ action)) in
        let found : find_first b'/' (id ++ (b'/' ∷ action)) ≡ some (length id) =
          find_first-append b'/' id action id_plain in
        let before : take (length id) (id ++ (b'/' ∷ action)) ≡ id =
          take-append id (b'/' ∷ action) in
        let behind : drop (length id + 1) (id ++ (b'/' ∷ action)) ≡ action =
          drop-append_suc b'/' id action in
        ap (λ t. at_slash fuel fd t (find_first b'/' t) s) at
        ∙ ap (λ o. at_slash fuel fd tail o s) found
        ∙ ap (λ i. (parse_id i >>= λ i. act fuel fd i (drop (length id + 1) tail)) s) before
        ∙ ap (λ a. (parse_id id >>= λ i. act fuel fd i a) s) behind

    route-path :
        (s : Session sys)
        → route fuel fd (text "POST") (path_of id action) s
          ≡ (parse_id id >>= λ i. act fuel fd i action) s
    unfolding route
    route-path s =
        ap
          (λ (b : Bool).
            (if b
                then backend_request fuel fd (path_of id action)
                else answer fuel fd (text "405 Method Not Allowed") (text "application/json")
                    (text "{\"error\":\"method not allowed\"}"))
              s)
          (starts_with-append backends_path tail)
        ∙ backend_request-path s

    handle_request-post :
        (rest : Bytes) (s : Session sys)
        → starts_blank rest ≡ true
        → handle_request fuel fd (post_of id action rest) s
          ≡ ((parse_id id >>= λ i. act fuel fd i action) >> close_client fd) s
    unfolding handle_request respond
    handle_request-post rest s b =
        let first : next_word (post_of id action rest)
            ≡ (text "POST", 32 ∷ (path_of id action ++ rest)) =
          next_word-append (text "POST") (32 ∷ (path_of id action ++ rest))
            (refl, has_no_space_lem (text "OST") refl) refl in
        let second : next_word (32 ∷ (path_of id action ++ rest)) ≡ (path_of id action, rest) =
          next_word-space 32 (path_of id action) rest refl path-IsWord b in
        ap (λ (p : Bytes × Bytes). respond fuel fd p.0 (next_word p.1).0 s) first
        ∙ ap (λ (p : Bytes × Bytes). respond fuel fd (text "POST") p.0 s) second
        ∙ ap
            (λ (o : Outcome (Session sys) (Unit {0})).
              elim o as (λ _. Outcome (Session sys) (Unit {0})) [
                | done a s' ↦ close_client fd s'
                | throw e s' ↦ throw e s'
              ])
            (route-path s)

    -- What `handle_client` does with such a request.
    pub handle_client-post :
        (rest : Bytes) (s : Session sys)
        → starts_blank rest ≡ true
        → (sys.recv fd request_size s.world).0 ≡ received (some (post_of id action rest))
        → handle_client fuel fd s
          ≡ ((parse_id id >>= λ i. act fuel fd i action) >> close_client fd)
              (record s { world = (sys.recv fd request_size s.world).1 })
    unfolding handle_client received_request
    handle_client-post rest s b h =
        let t = record s { world = (sys.recv fd request_size s.world).1 } in
        ap (λ r. received_request fuel fd r t) h ∙ handle_request-post rest t b
