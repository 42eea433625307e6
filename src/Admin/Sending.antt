-- ===== src/Admin/Sending.antt =====
-- About `send_all` of src/admin.cpp.
use tcp_load_balancer.Admin.{
  AdminSystem, Session, SendResult, returned, held, send_result, send_all,
}
use tcp_load_balancer.Admin.Streams.{Streams, Interruptions, count_taken}
use tcp_load_balancer.Base.{
  ℕ, zero, suc, ◌+◌, ◌<◌, ◌≤◌, ◌≡◌, refl, ap, ◌∙◌, Bool, true, false, [], ◌∷◌, ◌++◌, arith, ltb,
  ◌==◌, if◌then◌else◌, length, take, drop, Outcome, Exception, done, throw, blocked, after,
  append_assoc, append_nil, length-drop, take-drop, Bool-cases, inl, inr,
}
use tcp_load_balancer.System.{WriteResult, wrote}
use tcp_load_balancer.Text.{Bytes}

-- The thread stays in a call of `send` on `fd`, which has left the world of `t`.
pub record IsHeld {sys : AdminSystem} (fd : ℕ) (t : Session sys) : Type 0 where
  pub bytes : Bytes
  pub world : sys.World
  pub count : ℕ
  pub stays : (sys.send fd bytes world).0 ≡ held count
  pub left : t.world ≡ (sys.send fd bytes world).1

-- The method returns, or it stays in a call of `send` on `fd`.
abbrev pub IsSent : {sys : AdminSystem} {A : Type 0} → ℕ → Outcome (Session sys) A → Type 0
IsSent fd (done a t) = Unit {0}
IsSent fd (throw Exception.out_of_range t) = ⊥
IsSent fd (throw Exception.invalid_argument t) = ⊥
IsSent fd (throw Exception.runtime_error t) = ⊥
IsSent fd (throw Exception.out_of_fuel t) = ⊥
IsSent fd (throw Exception.blocked t) = IsHeld fd t

-- It returns `true`.
abbrev pub answer_of : {S : Type 0} → Outcome S Bool → Bool
answer_of (done b t) = b
answer_of (throw e t) = false

module _ {sys : AdminSystem} (so : Streams sys) (si : Interruptions sys) where
  -- Socket `fd` has taken a first part of the payload, all of it if the answer is `true`; no other
  -- socket has taken anything, and the runtime is as it was.
  pub record Delivers (fd : ℕ) (payload : Bytes) (s : Session sys) (b : Bool) (t : Session sys)
      : Type 0 where
    pub sent : Bytes
    pub rest : Bytes
    pub splits : sent ++ rest ≡ payload
    pub complete : b ≡ true → rest ≡ []
    pub runtime_kept : t.runtime ≡ s.runtime
    pub delivered :
        (k : ℕ) → so.taken k t.world ≡ so.taken k s.world ++ (if k == fd then sent else [])

  -- With any fuel above `bound`, the loop ends in the same way.
  abbrev pub Ends : ℕ → ℕ → Bytes → Session sys → Type 0
  Ends bound fd payload s =
      (o : Outcome (Session sys) Bool) × IsSent fd o
      × ((fuel : ℕ) → bound < fuel → send_all fuel fd payload s ≡ o)
      × Delivers fd payload s (answer_of o) (after o)

  part_append :
      (b : Bool) (w x y : Bytes)
      → (w ++ (if b then x else [])) ++ (if b then y else []) ≡ w ++ (if b then x ++ y else [])
  part_append true w x y = append_assoc w x y
  part_append false w x y = append_nil (w ++ [])

  module _ (fd : ℕ) (payload : Bytes) (s : Session sys) where
    -- The session after a call of `send`, and the number of bytes that the call has taken.
    abbrev next : Session sys
    next = record s { world = (sys.send fd payload s.world).1 }

    abbrev count : ℕ
    count = count_taken (sys.send fd payload s.world).0

    Delivers-stop : Delivers fd payload s false next
    Delivers-stop = record {
      sent = take count payload;
      rest = drop count payload;
      splits = take-drop count payload;
      complete = λ e. cc;
      runtime_kept = refl;
      delivered = λ k. so.send_takes fd payload k s.world;
    }

    Delivers-again :
        (b : Bool) (t : Session sys)
        → Delivers fd (drop count payload) next b t
        → Delivers fd payload s b t
    Delivers-again b t v = record {
      sent = take count payload ++ v.sent;
      rest = v.rest;
      splits =
          append_assoc (take count payload) v.sent v.rest
          ∙ ap (◌++◌ (take count payload)) v.splits
          ∙ take-drop count payload;
      complete = v.complete;
      runtime_kept = v.runtime_kept;
      delivered = λ k.
          v.delivered k
          ∙ ap (λ w. w ++ (if k == fd then v.sent else [])) (so.send_takes fd payload k s.world)
          ∙ part_append (k == fd) (so.taken k s.world) (take count payload) v.sent;
    }

  -- A turn of the loop, where the turns after it end.
  module _ (bound fd : ℕ)
      (again : (payload : Bytes) (s : Session sys)
        → length payload + si.left s.world ≤ bound
        → Ends bound fd payload s)
      (payload : Bytes) (s : Session sys) where
    abbrev Turn : SendResult → Type 0
    Turn result =
        (o : Outcome (Session sys) Bool) × IsSent fd o
        × ((fuel : ℕ)
            → bound < fuel
            → send_result (send_all fuel fd) payload result (next fd payload s) ≡ o)
        × Delivers fd payload s (answer_of o) (after o)

    stop-Turn :
        (result : SendResult)
        → ((fuel : ℕ)
            → send_result (send_all fuel fd) payload result (next fd payload s)
              ≡ done false (next fd payload s))
        → Turn result
    stop-Turn result e =
        (done false (next fd payload s), tt, λ fuel h. e fuel, Delivers-stop fd payload s)

    held-Turn : (n : ℕ) → (sys.send fd payload s.world).0 ≡ held n → Turn (held n)
    held-Turn n h = (
      throw blocked (next fd payload s),
      record { bytes = payload; world = s.world; count = n; stays = h; left = refl },
      λ fuel k. refl,
      Delivers-stop fd payload s,
    )

    again-Turn :
        (result : SendResult)
        → (sys.send fd payload s.world).0 ≡ result
        → ((fuel : ℕ)
            → send_result (send_all fuel fd) payload result (next fd payload s)
              ≡ send_all fuel fd (drop (count_taken result) payload) (next fd payload s))
        → length (drop (count_taken result) payload) + si.left (sys.send fd payload s.world).1
          ≤ bound
        → Turn result
    again-Turn result h e le =
        let (o, sent, runs, v) = again (drop (count_taken result) payload) (next fd payload s) le in
        (
          o,
          sent,
          λ fuel k. e fuel ∙ runs fuel k,
          Delivers-again fd payload s (answer_of o) (after o) (rw h v),
        )

    turn_lem :
        (result : SendResult)
        → (sys.send fd payload s.world).0 ≡ result
        → 0 < length payload
        → length payload + si.left s.world ≤ suc bound
        → Turn result
    turn_lem (returned (wrote n)) h pos le = elim (Bool-cases (ltb 0 n)) [
      | inl e ↦
          again-Turn (returned (wrote n)) h (λ fuel. rw (e, send_result) refl)
            (let less = si.send_left fd payload s.world in
              let some_taken : 0 < n = ground (arith, e) in
              omega (arith, length-drop n payload, less, le, pos, some_taken))
      | inr e ↦ stop-Turn (returned (wrote n)) (λ fuel. rw (e, send_result) refl)
    ]
    turn_lem (returned WriteResult.would_block) h pos le =
        stop-Turn (returned WriteResult.would_block) (λ fuel. refl)
    turn_lem (returned WriteResult.interrupted) h pos le =
        again-Turn (returned WriteResult.interrupted) h (λ fuel. refl)
          (let less = si.interrupted_left fd payload s.world h in omega (arith, less, le))
    turn_lem (returned WriteResult.failed) h pos le =
        stop-Turn (returned WriteResult.failed) (λ fuel. refl)
    turn_lem (held n) h pos le = held-Turn n h

    suc_turn :
        (o : Outcome (Session sys) Bool)
        → ((fuel : ℕ)
            → send_all (suc fuel) fd payload s
              ≡ send_result
                  (send_all fuel fd)
                  payload
                  (sys.send fd payload s.world).0
                  (next fd payload s))
        → ((fuel : ℕ)
            → bound < fuel
            → send_result
                (send_all fuel fd)
                payload
                (sys.send fd payload s.world).0
                (next fd payload s)
              ≡ o)
        → (fuel : ℕ) → suc bound < fuel
        → send_all fuel fd payload s ≡ o
    suc_turn o e runs zero h = elim h [ ]
    suc_turn o e runs (suc fuel) h = e fuel ∙ runs fuel (omega (arith, h))

  empty-Ends : (bound fd : ℕ) (s : Session sys) → Ends bound fd [] s
  unfolding send_all
  empty-Ends bound fd s = (
    done true s,
    tt,
    runs,
    record {
      sent = [];
      rest = [];
      splits = refl;
      complete = λ e. refl;
      runtime_kept = refl;
      delivered = λ k. ground (arith, append_nil (so.taken k s.world));
    },
  )
    where
      runs : (fuel : ℕ) → bound < fuel → send_all fuel fd [] s ≡ done true s
      runs zero h = elim h [ ]
      runs (suc fuel) h = refl

  pub send_all-Ends :
      (bound fd : ℕ) (payload : Bytes) (s : Session sys)
      → length payload + si.left s.world ≤ bound
      → Ends bound fd payload s
  unfolding send_all
  send_all-Ends bound fd [] s le = empty-Ends bound fd s
  send_all-Ends zero fd (c ∷ r) s le = absurd (omega (arith, le))
  send_all-Ends (suc bound) fd (c ∷ r) s le =
      let again = send_all-Ends bound fd in
      let (o, sent, runs, v) =
        turn_lem bound fd again (c ∷ r) s (sys.send fd (c ∷ r) s.world).0 refl (omega arith) le in
      (o, sent, suc_turn bound fd again (c ∷ r) s o (λ fuel. refl) runs, v)

  -- `send_all` of a payload ends, where the fuel is more than the bytes and the signals together:
  -- it returns, or the thread stays in a call of `send` that does not return, since the client does
  -- not read. The socket has then taken a first part of the payload, byte for byte in order, all
  -- of it if the answer is `true`; no other socket has taken anything, and the runtime is as it was.
  pub send_all-Delivers :
      (fuel fd : ℕ) (payload : Bytes) (s : Session sys)
      → length payload + si.left s.world < fuel
      → IsSent fd (send_all fuel fd payload s)
        × Delivers fd payload s
            (answer_of (send_all fuel fd payload s))
            (after (send_all fuel fd payload s))
  send_all-Delivers fuel fd payload s h =
      let (o, sent, runs, v) =
        send_all-Ends (length payload + si.left s.world) fd payload s (omega arith) in
      rw (runs fuel h) (sent, v)
