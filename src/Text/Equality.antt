-- ===== src/Text/Equality.antt =====
-- Equality of texts.
use tcp_load_balancer.Base.{◌≡◌, refl, true, [], ◌∷◌, arith}
use tcp_load_balancer.Text.{Bytes, same}

pub same_refl : (s : Bytes) → same s s ≡ true
same_refl [] = refl
same_refl (c ∷ s) = ground (arith, same_refl s)

pub same_eq : (s t : Bytes) → same s t ≡ true → s ≡ t
same_eq [] [] h = refl
same_eq [] (d ∷ t) h = cc
same_eq (c ∷ s) [] h = cc
same_eq (c ∷ s) (d ∷ t) h = ground (arith, same_eq s t)
