-- ===== src/Admin/Settling.antt =====
-- Methods of which the fuel of a loop is an argument, and their ends once it is enough.
use tcp_load_balancer.Base.{
  ℕ, ◌+◌, ◌<◌, ◌≡◌, refl, Bool, true, false, arith, if◌then◌else◌, M, Outcome, Exception, done,
  throw, ◌>>=◌,
}

-- An end of a method without loops and without calls on a client's socket.
abbrev pub IsMeant : {S A : Type 0} → Outcome S A → Type 0
IsMeant (done a s) = Unit {0}
IsMeant (throw Exception.out_of_range s) = Unit {0}
IsMeant (throw Exception.invalid_argument s) = Unit {0}
IsMeant (throw Exception.runtime_error s) = Unit {0}
IsMeant (throw Exception.out_of_fuel s) = ⊥
IsMeant (throw Exception.blocked s) = ⊥

-- A method without fuel that ends so.
abbrev pub AreMeant : {S A : Type 0} → M S A → Type 0
AreMeant {S = S} m = (s : S) → IsMeant (m s)

IsMeant-rest :
    {S A B : Type 0} (o : Outcome S A) (k : A → M S B)
    → IsMeant o
    → ((a : A) → AreMeant (k a))
    → IsMeant (elim o [ done a s ↦ k a s | throw e s ↦ throw e s ])
IsMeant-rest (done a s) k h f = f a s
IsMeant-rest (throw Exception.out_of_range s) k h f = tt
IsMeant-rest (throw Exception.invalid_argument s) k h f = tt
IsMeant-rest (throw Exception.runtime_error s) k h f = tt
IsMeant-rest (throw Exception.out_of_fuel s) k h f = h
IsMeant-rest (throw Exception.blocked s) k h f = h

pub >>=-AreMeant :
    {S A B : Type 0} (m : M S A) (k : A → M S B)
    → AreMeant m
    → ((a : A) → AreMeant (k a))
    → AreMeant (m >>= k)
>>=-AreMeant m k h f s = IsMeant-rest (m s) k (h s) f

-- An end that the program has: the method returns, an exception of the program leaves it, or the
-- thread stays in a call, where the object is as `Stuck` says.
abbrev pub IsEnd : {S A : Type 0} → (S → Type 0) → Outcome S A → Type 0
IsEnd Stuck (done a s) = Unit {0}
IsEnd Stuck (throw Exception.out_of_range s) = Unit {0}
IsEnd Stuck (throw Exception.invalid_argument s) = Unit {0}
IsEnd Stuck (throw Exception.runtime_error s) = Unit {0}
IsEnd Stuck (throw Exception.out_of_fuel s) = ⊥
IsEnd Stuck (throw Exception.blocked s) = Stuck s

-- From some fuel on the method ends in the same way, which the program has.
abbrev pub Settles : {S A : Type 0} → (S → Type 0) → (ℕ → M S A) → Type 0
Settles {S = S} {A = A} Stuck f =
    (s : S) → (n : ℕ) × (o : Outcome S A) × IsEnd Stuck o × ((fuel : ℕ) → n < fuel → f fuel s ≡ o)

module _ {S : Type 0} (Stuck : S → Type 0) where
  meant-IsEnd : {A : Type 0} (o : Outcome S A) → IsMeant o → IsEnd Stuck o
  meant-IsEnd (done a s) h = tt
  meant-IsEnd (throw Exception.out_of_range s) h = tt
  meant-IsEnd (throw Exception.invalid_argument s) h = tt
  meant-IsEnd (throw Exception.runtime_error s) h = tt
  meant-IsEnd (throw Exception.out_of_fuel s) h = h
  meant-IsEnd (throw Exception.blocked s) h = elim h [ ]

  pub AreMeant-Settles : {A : Type 0} (m : M S A) → AreMeant m → Settles Stuck (λ fuel. m)
  AreMeant-Settles m h s = (0, m s, meant-IsEnd (m s) (h s), λ fuel le. refl)

  pub >>=-Settles :
      {A B : Type 0} (f : ℕ → M S A) (g : ℕ → A → M S B)
      → Settles Stuck f
      → ((a : A) → Settles Stuck (λ fuel. g fuel a))
      → Settles Stuck (λ fuel. f fuel >>= g fuel)
  >>=-Settles {A = A} {B = B} f g h k s = let (n, o, m, e) = h s in rest n o m e
    where
      rest :
          (n : ℕ) (o : Outcome S A)
          → IsEnd Stuck o
          → ((fuel : ℕ) → n < fuel → f fuel s ≡ o)
          → (n : ℕ) × (o : Outcome S B) × IsEnd Stuck o
            × ((fuel : ℕ) → n < fuel → (f fuel >>= g fuel) s ≡ o)
      rest n (done a t) m e =
          let (n₁, o₁, m₁, e₁) = k a t in
          (
            n + n₁,
            o₁,
            m₁,
            λ fuel le. rw (e fuel (omega (arith, le)), ◌>>=◌) (e₁ fuel (omega (arith, le))),
          )
      rest n (throw Exception.out_of_range t) m e =
          (n, throw Exception.out_of_range t, tt, λ fuel le. rw (e fuel le, ◌>>=◌) refl)
      rest n (throw Exception.invalid_argument t) m e =
          (n, throw Exception.invalid_argument t, tt, λ fuel le. rw (e fuel le, ◌>>=◌) refl)
      rest n (throw Exception.runtime_error t) m e =
          (n, throw Exception.runtime_error t, tt, λ fuel le. rw (e fuel le, ◌>>=◌) refl)
      rest n (throw Exception.out_of_fuel t) m e = elim m [ ]
      rest n (throw Exception.blocked t) m e =
          (n, throw Exception.blocked t, m, λ fuel le. rw (e fuel le, ◌>>=◌) refl)

  pub if-Settles :
      {A : Type 0} (b : Bool) (f g : ℕ → M S A)
      → Settles Stuck f
      → Settles Stuck g
      → Settles Stuck (λ fuel. if b then f fuel else g fuel)
  if-Settles true f g h k = h
  if-Settles false f g h k = k
