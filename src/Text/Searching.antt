-- ===== src/Text/Searching.antt =====
-- `find` and `rfind` of a byte.
use tcp_load_balancer.Base.{
  ℕ, ◌+◌, ◌≡◌, refl, ap, Bool, true, false, not, ◌&&◌, [], ◌∷◌, ◌++◌, none, some, arith, ◌==◌,
  length, take, drop,
}
use tcp_load_balancer.Text.Numbers.{AreDigits}
use tcp_load_balancer.Text.{Bytes, find_first, find_last, is_digit}

-- The byte `c` does not occur.
abbrev pub Absent : ℕ → Bytes → Type 0
Absent c [] = Unit {0}
Absent c (d ∷ s) = ((d == c) ≡ false) × Absent c s

pub Absent-append : (c : ℕ) (s t : Bytes) → Absent c s → Absent c t → Absent c (s ++ t)
Absent-append c [] t h k = k
Absent-append c (d ∷ s) t h k = (h.0, Absent-append c s t h.1 k)

pub digits-Absent : (c : ℕ) (s : Bytes) → is_digit c ≡ false → AreDigits s → Absent c s
digits-Absent c [] h k = tt
digits-Absent c (d ∷ s) h k = (ground (arith, k.0), digits-Absent c s h k.1)

pub find_first-Absent : (c : ℕ) (s : Bytes) → Absent c s → find_first c s ≡ none
unfolding find_first
find_first-Absent c [] h = refl
find_first-Absent c (d ∷ s) h = ground (arith, h.0, find_first-Absent c s h.1)

pub find_first-append :
    (c : ℕ) (s t : Bytes) → Absent c s → find_first c (s ++ (c ∷ t)) ≡ some (length s)
unfolding find_first
find_first-append c [] t h = ground arith
find_first-append c (d ∷ s) t h = ground (arith, h.0, find_first-append c s t h.1)

find_last-Absent : (c : ℕ) (s : Bytes) → Absent c s → find_last c s ≡ none
unfolding find_last
find_last-Absent c [] h = refl
find_last-Absent c (d ∷ s) h = ground (arith, h.0, find_last-Absent c s h.1)

pub find_last-append :
    (c : ℕ) (s t : Bytes) → Absent c t → find_last c (s ++ (c ∷ t)) ≡ some (length s)
unfolding find_last
find_last-append c [] t h = ground (arith, find_last-Absent c t h)
find_last-append c (d ∷ s) t h = ground (arith, find_last-append c s t h)

-- What stands before and behind the position.
pub take-append : (s t : Bytes) → take (length s) (s ++ t) ≡ s
take-append [] t = refl
take-append (c ∷ s) t = ap (◌∷◌ c) (take-append s t)

pub drop-append_suc : (c : ℕ) (s t : Bytes) → drop (length s + 1) (s ++ (c ∷ t)) ≡ t
drop-append_suc c [] t = refl
drop-append_suc c (d ∷ s) t = ground (arith, drop-append_suc c s t)

abbrev pub is_absent : ℕ → Bytes → Bool
is_absent c [] = true
is_absent c (d ∷ s) = not (d == c) && is_absent c s

pub is_absent_lem : (c : ℕ) (s : Bytes) → is_absent c s ≡ true → Absent c s
is_absent_lem c [] h = tt
is_absent_lem c (d ∷ s) h = (ground arith, is_absent_lem c s (ground arith))
