-- ===== src/Json/Grammar.antt =====
-- The bytes of JSON's strings, as far as the reader takes them, and JSON's numbers.
use tcp_load_balancer.Base.{
  ℕ, zero, suc, ◌/◌, ◌%◌, ◌+◌, ◌<◌, ◌≡◌, refl, Bool, true, false, inl, inr, Bool-cases, ◌&&◌, ◌||◌,
  [], ◌∷◌, ◌++◌, arith, ltb, leb, ◌==◌, if◌then◌else◌,
}
use tcp_load_balancer.Text.{Bytes, is_digit, decimal, to_string}
use tcp_load_balancer.Text.Numbers.{AreDigits, to_string-AreDigits}

-- A printable byte of ASCII.
abbrev pub is_printable : ℕ → Bool
is_printable c = leb 32 c && leb c 126

abbrev pub all_printable : Bytes → Bool
all_printable [] = true
all_printable (c ∷ s) = is_printable c && all_printable s

abbrev pub all_digits : Bytes → Bool
all_digits [] = true
all_digits (c ∷ s) = is_digit c && all_digits s

-- The digits of an exponent, and an exponent with its sign.
abbrev pub is_power : Bytes → Bool
is_power [] = false
is_power (c ∷ s) = is_digit c && all_digits s

abbrev pub is_signed_power : Bytes → Bool
is_signed_power [] = false
is_signed_power (c ∷ s) = if c == b'+' || c == b'-' then is_power s else is_power (c ∷ s)

abbrev pub is_exponent : Bytes → Bool
is_exponent [] = true
is_exponent (c ∷ s) = (c == b'e' || c == b'E') && is_signed_power s

-- What may stand behind a digit of the fraction, behind the point, and behind the whole part.
abbrev pub is_fraction : Bytes → Bool
is_fraction [] = true
is_fraction (c ∷ s) = if is_digit c then is_fraction s else is_exponent (c ∷ s)

abbrev pub is_after_point : Bytes → Bool
is_after_point [] = false
is_after_point (c ∷ s) = is_digit c && is_fraction s

abbrev pub is_after_whole : Bytes → Bool
is_after_whole [] = true
is_after_whole (c ∷ s) = if c == b'.' then is_after_point s else is_exponent (c ∷ s)

abbrev pub is_whole : Bytes → Bool
is_whole [] = true
is_whole (c ∷ s) = if is_digit c then is_whole s else is_after_whole (c ∷ s)

-- The whole part is 0 or starts with another digit.
abbrev pub is_unsigned : Bytes → Bool
is_unsigned [] = false
is_unsigned (c ∷ s) = if c == b'0' then is_after_whole s else is_digit c && is_whole s

unfoldable pub is_number : Bytes → Bool
is_number [] = false
is_number (c ∷ s) = if c == b'-' then is_unsigned s else is_unsigned (c ∷ s)

pub all_printable-append :
    (s t : Bytes) → all_printable s ≡ true → all_printable t ≡ true → all_printable (s ++ t) ≡ true
all_printable-append [] t h k = k
all_printable-append (c ∷ s) t h k = ground (arith, all_printable-append s t)

digits-all_printable : (s : Bytes) → AreDigits s → all_printable s ≡ true
digits-all_printable [] h = refl
digits-all_printable (c ∷ s) h = ground (arith, h.0, digits-all_printable s h.1)

pub to_string-all_printable : (n : ℕ) → all_printable (to_string n) ≡ true
to_string-all_printable n = digits-all_printable (to_string n) (to_string-AreDigits n)

-- A text that starts with a digit other than 0.
abbrev is_leading : Bytes → Bool
is_leading [] = false
is_leading (c ∷ s) = leb b'1' c && leb c b'9'

is_leading-append : (s t : Bytes) → is_leading s ≡ true → is_leading (s ++ t) ≡ true
is_leading-append [] t h = cc
is_leading-append (c ∷ s) t h = h

is_leading-decimal : (f n : ℕ) → n < f → 0 < n → is_leading (decimal f n) ≡ true
unfolding decimal
is_leading-decimal zero n h k = elim h [ ]
is_leading-decimal (suc f) n h k = elim (Bool-cases (ltb n 10)) [
  | inl e ↦ ground (arith, e)
  | inr e ↦ rw e (
      is_leading-append (decimal f (n / 10)) ((b'0' + n % 10) ∷ [])
        (is_leading-decimal f (n / 10) (ground (arith, e)) (ground (arith, e))))
]

digits-is_whole : (s : Bytes) → AreDigits s → is_whole s ≡ true
digits-is_whole [] h = refl
digits-is_whole (c ∷ s) h = ground (arith, h.0, digits-is_whole s h.1)

leading-is_number : (s : Bytes) → is_leading s ≡ true → AreDigits s → is_number s ≡ true
unfolding is_number
leading-is_number [] h k = cc
leading-is_number (c ∷ s) h k = ground (arith, h, k.0, digits-is_whole s k.1)

-- The text of a number in decimals is a number of JSON.
pub to_string-is_number : (n : ℕ) → is_number (to_string n) ≡ true
unfolding to_string decimal is_number
to_string-is_number zero = refl
to_string-is_number (suc n) =
    leading-is_number (to_string (suc n))
      (is_leading-decimal (suc (suc n)) (suc n) (omega arith) (omega arith))
      (to_string-AreDigits (suc n))
