-- ===== src/Text/Numbers.antt =====
-- `std::to_string` and `std::stoul`.
use tcp_load_balancer.Base.{
  ℕ, zero, suc, ◌+◌, ◌-◌, ◌/◌, ◌%◌, ◌<◌, ◌≡◌, refl, sym, ap, ◌∙◌, Bool, true, false, [], ◌∷◌, ◌++◌,
  arith, ltb, append_assoc, append_nil, Bool-cases, inl, inr,
}
use tcp_load_balancer.Text.Trimming.{ends_solid, starts_solid}
use tcp_load_balancer.Text.{
  Bytes, is_digit, decimal, to_string, digits_value, starts_digit, trim_start, stoul, stoul_signed,
  stoul_digits, number, ulong_mod,
}

-- Digits and nothing else.
abbrev pub AreDigits : Bytes → Type 0
AreDigits [] = Unit {0}
AreDigits (c ∷ s) = (is_digit c ≡ true) × AreDigits s

append-AreDigits : (s t : Bytes) → AreDigits s → AreDigits t → AreDigits (s ++ t)
append-AreDigits [] t h k = k
append-AreDigits (c ∷ s) t h k = (h.0, append-AreDigits s t h.1 k)

decimal-AreDigits : (f n : ℕ) → AreDigits (decimal f n)
unfolding decimal
decimal-AreDigits zero n = tt
decimal-AreDigits (suc f) n = elim (Bool-cases (ltb n 10)) [
  | inl e ↦ rw e (ground arith, tt)
  | inr e ↦
      rw e
        (append-AreDigits (decimal f (n / 10)) _ (decimal-AreDigits f (n / 10)) (ground arith, tt))
]

pub to_string-AreDigits : (n : ℕ) → AreDigits (to_string n)
unfolding to_string
to_string-AreDigits n = decimal-AreDigits (suc n) n

-- The value that the digits of a number give back, with any text behind them.
value-decimal :
    (f n : ℕ) (rest : Bytes) → n < f → digits_value 0 (decimal f n ++ rest) ≡ digits_value n rest
unfolding decimal digits_value
value-decimal zero n rest h = elim h [ ]
value-decimal (suc f) n rest h = elim (Bool-cases (ltb n 10)) [
  | inl e ↦ ground (arith, e)
  | inr e ↦ ground (
    arith,
    e,
    append_assoc (decimal f (n / 10)) ((b'0' + n % 10) ∷ []) rest,
    value-decimal f (n / 10) ((b'0' + n % 10) ∷ rest),
  )
]

starts-decimal : (f n : ℕ) (rest : Bytes) → n < f → starts_digit (decimal f n ++ rest) ≡ true
unfolding decimal
starts-decimal zero n rest h = elim h [ ]
starts-decimal (suc f) n rest h = elim (Bool-cases (ltb n 10)) [
  | inl e ↦ ground (arith, e)
  | inr e ↦ ground (
    arith,
    e,
    append_assoc (decimal f (n / 10)) ((b'0' + n % 10) ∷ []) rest,
    starts-decimal f (n / 10) ((b'0' + n % 10) ∷ rest),
  )
]

value_stop : (n : ℕ) (rest : Bytes) → starts_digit rest ≡ false → digits_value n rest ≡ n
unfolding digits_value
value_stop n [] h = refl
value_stop n (c ∷ rest) h = ground arith

-- Where a text starts with a digit, `stoul` reads it from there.
stoul_unsigned : (s : Bytes) → starts_digit s ≡ true → stoul s ≡ stoul_digits false s
unfolding stoul trim_start
stoul_unsigned [] h = cc
stoul_unsigned (c ∷ s) h = ground arith

pub stoul-to_string :
    (n : ℕ) (rest : Bytes)
    → n < ulong_mod
    → starts_digit rest ≡ false
    → stoul (to_string n ++ rest) ≡ number n
unfolding to_string
stoul-to_string n rest h k =
    let s = starts-decimal (suc n) n rest (omega arith) in
    stoul_unsigned (to_string n ++ rest) s
    ∙ unfold stoul_digits in
      ground (arith, s, value-decimal (suc n) n rest (omega arith), value_stop n rest k)

pub stoul_minus :
    (n : ℕ) (rest : Bytes)
    → n < ulong_mod
    → starts_digit rest ≡ false
    → stoul (b'-' ∷ (to_string n ++ rest)) ≡ number ((ulong_mod - n) % ulong_mod)
unfolding stoul to_string
stoul_minus n rest h k =
    let s = starts-decimal (suc n) n rest (omega arith) in
    unfold stoul_digits in
    ground (arith, s, value-decimal (suc n) n rest (omega arith), value_stop n rest k)

-- A number that `stoul` gives has 64 bits.
pub stoul-lt : (s : Bytes) (n : ℕ) → stoul s ≡ number n → n < ulong_mod
unfolding stoul stoul_digits
stoul-lt s n h = of_signed (trim_start s) h
  where
    of_digits : (b : Bool) (t : Bytes) → stoul_digits b t ≡ number n → n < ulong_mod
    of_digits true t e = ground arith
    of_digits false t e = ground arith

    of_signed : (t : Bytes) → stoul_signed t ≡ number n → n < ulong_mod
    of_signed [] e = cc
    of_signed (c ∷ t) e =
        ground (arith, of_digits true t, of_digits false t, of_digits false (c ∷ t))

digits_solid : (s : Bytes) → AreDigits s → starts_digit s ≡ true → ends_solid s ≡ true
digits_solid [] h k = cc
digits_solid (c ∷ []) h k = ground (arith, h.0)
digits_solid (c ∷ (d ∷ s)) h k = digits_solid (d ∷ s) h.1 h.1.0

pub starts_digit-to_string : (n : ℕ) → starts_digit (to_string n) ≡ true
unfolding to_string
starts_digit-to_string n =
    ap starts_digit (sym (append_nil (to_string n))) ∙ starts-decimal (suc n) n [] (omega arith)

pub to_string_solid : (n : ℕ) → ends_solid (to_string n) ≡ true
unfolding to_string
to_string_solid n = digits_solid (to_string n) (to_string-AreDigits n) (starts_digit-to_string n)

digit_starts : (s : Bytes) → starts_digit s ≡ true → starts_solid s ≡ true
digit_starts [] k = cc
digit_starts (c ∷ s) k = ground arith

pub to_string_starts : (n : ℕ) → starts_solid (to_string n) ≡ true
unfolding to_string
to_string_starts n =
    digit_starts (to_string n)
      (ap starts_digit (sym (append_nil (to_string n))) ∙ starts-decimal (suc n) n [] (omega arith))
