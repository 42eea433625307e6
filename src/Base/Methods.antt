-- ===== src/Base/Methods.antt =====
-- Methods of an object: state passing with C++ exceptions. A method that throws has still made
-- the changes that it made before, so `throw` carries the state too.

use mathlib.Core.Path.{◌≡◌, ◌∙◌}

pub data Exception : Type 0 where
  out_of_range invalid_argument runtime_error : Exception
  -- No exceptions of the program: the fuel of a loop has run out; the thread stays in a call of
  -- the system that does not return.
  out_of_fuel blocked : Exception

pub data Outcome (S A : Type 0) : Type 0 where
  done : A → S → Outcome S A
  throw : Exception → S → Outcome S A

-- The object after the call, however the call ended.
abbrev pub after : {S A : Type 0} → Outcome S A → S
after (done a s) = s
after (throw e s) = s

abbrev pub M : Type 0 → Type 0 → Type 0
M S A = S → Outcome S A

abbrev pub pure : {S A : Type 0} → A → M S A
pure a s = done a s

infixl 5 ◌>>=◌ ◌>>◌
abbrev pub ◌>>=◌ : {S A B : Type 0} → M S A → (A → M S B) → M S B
◌>>=◌ m f s = elim (m s) [ done a s' ↦ f a s' | throw e s' ↦ throw e s' ]

abbrev pub ◌>>◌ : {S B : Type 0} → M S (Unit {0}) → M S B → M S B
m >> k = m >>= λ _. k

-- A call that returns is followed by the rest.
pub >>-step :
    {S B : Type 0} (m : M S (Unit {0})) (k : M S B) (s t : S) → m s ≡ done tt t → (m >> k) s ≡ k t
>>-step m k s t e = rw (e, ◌>>=◌)

-- The call returns, and `P` holds of the object afterwards.
abbrev pub Returns {ℓ} : {S : Type 0} → Outcome S (Unit {0}) → (S → Type ℓ) → Type ℓ
Returns {S = S} o P = (t : S) × (o ≡ done tt t) × P t

pub >>-Returns {ℓ κ} :
    {S : Type 0} (P : S → Type ℓ) (Q : S → Type κ) (m k : M S (Unit {0})) (s : S)
    → Returns (m s) P
    → ((t : S) → P t → Returns (k t) Q)
    → Returns ((m >> k) s) Q
>>-Returns P Q m k s (t, e, p) f = let (u, e', q) = f t p in (u, >>-step m k s t e ∙ e', q)

pub Returns-mono {ℓ κ} :
    {S : Type 0} (P : S → Type ℓ) (Q : S → Type κ) (o : Outcome S (Unit {0}))
    → ((t : S) → P t → Q t)
    → Returns o P
    → Returns o Q
Returns-mono P Q o f (t, e, p) = (t, e, f t p)

-- The method keeps `P`, however it ends.
abbrev pub Preserves {ℓ} : {S A : Type 0} → (S → Type ℓ) → M S A → Type ℓ
Preserves {S = S} P m = (s : S) → P s → P (after (m s))

pub keeps_rest {ℓ} :
    {S A B : Type 0} (P : S → Type ℓ) (o : Outcome S A) (k : A → M S B)
    → P (after o)
    → ((a : A) → Preserves P (k a))
    → P (after (elim o [ done a s ↦ k a s | throw e s ↦ throw e s ]))
keeps_rest P (done a s) k p h = h a s p
keeps_rest P (throw e s) k p h = p

pub >>=-Preserves {ℓ} :
    {S A B : Type 0} (P : S → Type ℓ) (m : M S A) (k : A → M S B)
    → Preserves P m
    → ((a : A) → Preserves P (k a))
    → Preserves P (m >>= k)
>>=-Preserves P m k h f s p = keeps_rest P (m s) k (h s p) f

pub >>-Preserves {ℓ} :
    {S : Type 0} (P : S → Type ℓ) (m k : M S (Unit {0}))
    → Preserves P m
    → Preserves P k
    → Preserves P (m >> k)
>>-Preserves P m k h g = >>=-Preserves P m (λ _. k) h (λ _. g)
