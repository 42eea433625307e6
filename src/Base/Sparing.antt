-- ===== src/Base/Sparing.antt =====
-- Methods that leave alone what is seen of their object.
use mathlib.Core.Bool.{Bool, true, false}
use mathlib.Core.Path.{◌≡◌, ◌∙◌}
use tcp_load_balancer.Base.Methods.{M, after, ◌>>=◌, keeps_rest}
use tcp_load_balancer.Base.Tests.{if◌then◌else◌}

-- What is seen of the object is the same after the method.
pub record Spares {S A B : Type 0} (view : S → B) (m : M S A) : Type 0 where
  pub spared : (s : S) → view (after (m s)) ≡ view s

pub >>=-Spares :
    {S A B C : Type 0} (view : S → C) (m : M S A) (k : A → M S B)
    → Spares view m
    → ((a : A) → Spares view (k a))
    → Spares view (m >>= k)
>>=-Spares view m k h f = record {
  spared = λ s. keeps_rest (λ t. view t ≡ view s) (m s) k (h.spared s) λ a t e. (f a).spared t ∙ e;
}

pub if-Spares :
    {S A C : Type 0} (view : S → C) (b : Bool) (m k : M S A)
    → Spares view m
    → Spares view k
    → Spares view (if b then m else k)
if-Spares view true m k h g = h
if-Spares view false m k h g = g
