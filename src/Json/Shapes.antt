-- ===== src/Json/Shapes.antt =====
-- Which values the reader reads back, and how much they hold.
use tcp_load_balancer.Base.{
  ℕ, suc, ◌+◌, ◌≤◌, ◌≡◌, Bool, true, false, ◌||◌, inl, inr, Bool-cases, [], ◌∷◌, arith, ◌==◌,
}
use tcp_load_balancer.Json.{
  Json, num, str, arr, obj, Items, nil, cons, Fields, end, field, ends_token,
}
use tcp_load_balancer.Json.Grammar.{
  all_printable, all_digits, is_power, is_signed_power, is_exponent, is_fraction, is_after_point,
  is_after_whole, is_whole, is_unsigned, is_number,
}
use tcp_load_balancer.Text.{Bytes, is_digit}

-- A token, behind its first byte.
abbrev pub HasNoEnd : Bytes → Type 0
HasNoEnd [] = Unit {0}
HasNoEnd (c ∷ s) = (ends_token c ≡ false) × HasNoEnd s

abbrev pub opens : ℕ → Bool
opens c = c == b'"' || c == b'[' || c == b'{'

abbrev pub IsToken : Bytes → Type 0
IsToken [] = ⊥
IsToken (c ∷ s) = (opens c ≡ false) × (ends_token c ≡ false) × HasNoEnd s

digits-HasNoEnd : (s : Bytes) → all_digits s ≡ true → HasNoEnd s
digits-HasNoEnd [] h = tt
digits-HasNoEnd (c ∷ s) h = (ground arith, digits-HasNoEnd s (ground arith))

power-HasNoEnd : (s : Bytes) → is_power s ≡ true → HasNoEnd s
power-HasNoEnd [] h = cc
power-HasNoEnd (c ∷ s) h = (ground arith, digits-HasNoEnd s (ground arith))

signed-HasNoEnd : (s : Bytes) → is_signed_power s ≡ true → HasNoEnd s
signed-HasNoEnd [] h = cc
signed-HasNoEnd (c ∷ s) h = elim (Bool-cases (c == b'+' || c == b'-')) [
  | inl e ↦ (ground (arith, e), power-HasNoEnd s (ground (arith, e)))
  | inr e ↦ power-HasNoEnd (c ∷ s) (ground (arith, e))
]

exponent-HasNoEnd : (s : Bytes) → is_exponent s ≡ true → HasNoEnd s
exponent-HasNoEnd [] h = tt
exponent-HasNoEnd (c ∷ s) h = (ground arith, signed-HasNoEnd s (ground arith))

fraction-HasNoEnd : (s : Bytes) → is_fraction s ≡ true → HasNoEnd s
fraction-HasNoEnd [] h = tt
fraction-HasNoEnd (c ∷ s) h = elim (Bool-cases (is_digit c)) [
  | inl e ↦ (ground (arith, e), fraction-HasNoEnd s (rw e at h))
  | inr e ↦ exponent-HasNoEnd (c ∷ s) (rw e at h)
]

after_point-HasNoEnd : (s : Bytes) → is_after_point s ≡ true → HasNoEnd s
after_point-HasNoEnd [] h = cc
after_point-HasNoEnd (c ∷ s) h = (ground arith, fraction-HasNoEnd s (ground arith))

after_whole-HasNoEnd : (s : Bytes) → is_after_whole s ≡ true → HasNoEnd s
after_whole-HasNoEnd [] h = tt
after_whole-HasNoEnd (c ∷ s) h = elim (Bool-cases (c == b'.')) [
  | inl e ↦ (ground (arith, e), after_point-HasNoEnd s (rw e at h))
  | inr e ↦ exponent-HasNoEnd (c ∷ s) (rw e at h)
]

whole-HasNoEnd : (s : Bytes) → is_whole s ≡ true → HasNoEnd s
whole-HasNoEnd [] h = tt
whole-HasNoEnd (c ∷ s) h = elim (Bool-cases (is_digit c)) [
  | inl e ↦ (ground (arith, e), whole-HasNoEnd s (rw e at h))
  | inr e ↦ after_whole-HasNoEnd (c ∷ s) (rw e at h)
]

unsigned-IsToken : (s : Bytes) → is_unsigned s ≡ true → IsToken s
unsigned-IsToken [] h = cc
unsigned-IsToken (c ∷ s) h = elim (Bool-cases (c == b'0')) [
  | inl e ↦ (ground (arith, e), ground (arith, e), after_whole-HasNoEnd s (rw e at h))
  | inr e ↦ (ground (arith, e), ground (arith, e), whole-HasNoEnd s (ground (arith, e)))
]

token-HasNoEnd : (s : Bytes) → IsToken s → HasNoEnd s
token-HasNoEnd [] h = tt
token-HasNoEnd (c ∷ s) h = (h.1, h.2)

-- The reader takes a number whole.
pub number-IsToken : (s : Bytes) → is_number s ≡ true → IsToken s
unfolding is_number
number-IsToken [] h = cc
number-IsToken (c ∷ s) h = elim (Bool-cases (c == b'-')) [
  | inl e ↦
      (ground (arith, e), ground (arith, e), token-HasNoEnd s (unsigned-IsToken s (rw e at h)))
  | inr e ↦ unsigned-IsToken (c ∷ s) (rw e at h)
]

-- A text in front of which a token ends.
abbrev pub Stops : Bytes → Type 0
Stops [] = Unit {0}
Stops (c ∷ s) = ends_token c ≡ true

-- The numbers are JSON's, and the strings and names are printable ASCII.
abbrev mutual
  pub IsReadable : Json → Type 0
  IsReadable (num t) = is_number t ≡ true
  IsReadable (str s) = all_printable s ≡ true
  IsReadable (arr vs) = AreReadable vs
  IsReadable (obj fs) = HasReadable fs

  pub AreReadable : Items → Type 0
  AreReadable nil = Unit {0}
  AreReadable (cons v vs) = IsReadable v × AreReadable vs

  pub HasReadable : Fields → Type 0
  HasReadable end = Unit {0}
  HasReadable (field name v fs) = (all_printable name ≡ true) × IsReadable v × HasReadable fs

abbrev mutual
  pub size : Json → ℕ
  size (num t) = 1
  size (str s) = 1
  size (arr vs) = suc (size_items vs)
  size (obj fs) = suc (size_fields fs)

  pub size_items : Items → ℕ
  size_items nil = 1
  size_items (cons v vs) = suc (size v + size_items vs)

  pub size_fields : Fields → ℕ
  size_fields end = 1
  size_fields (field name v fs) = suc (size v + size_fields fs)

pub size_pos : (j : Json) → size j ≤ 0 → ⊥
size_pos (num t) h = omega (arith, h)
size_pos (str t) h = omega (arith, h)
size_pos (arr vs) h = omega (arith, h)
size_pos (obj fs) h = omega (arith, h)

pub size_items_pos : (vs : Items) → size_items vs ≤ 0 → ⊥
size_items_pos nil h = omega (arith, h)
size_items_pos (cons v vs) h = omega (arith, h)

pub size_fields_pos : (fs : Fields) → size_fields fs ≤ 0 → ⊥
size_fields_pos end h = omega (arith, h)
size_fields_pos (field name v fs) h = omega (arith, h)
