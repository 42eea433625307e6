-- ===== src/Text.antt =====
-- The parts of the C++ standard library that the program uses on texts: `isspace` and `tolower` in
-- the C locale, `find`, `rfind`, `std::to_string` and `std::stoul` where `unsigned long` has 64
-- bits. A `std::string` is the list of its bytes.
pub mod Equality
pub mod Trimming
pub mod Searching
pub mod Numbers
pub mod Words
use Prim.Native.Char.{code}
use Prim.Native.String.{String}
use tcp_load_balancer.Base.{
  ℕ, zero, suc, ◌+◌, ◌-◌, ◌*◌, ◌/◌, ◌%◌, Bool, true, false, ◌&&◌, ◌||◌, List, [], ◌∷◌, ◌++◌, map,
  Option, none, some, ltb, leb, ◌==◌, if◌then◌else◌, length, drop,
}

abbrev pub Bytes : Type 0
Bytes = List ℕ

-- The bytes of an ASCII text.
abbrev pub text : String → Bytes
text String.[] = []
text (String.◌∷◌ c s) = code c ∷ text s

abbrev pub is_empty : Bytes → Bool
is_empty [] = true
is_empty (c ∷ s) = false

-- `==` on strings.
abbrev pub same : Bytes → Bytes → Bool
same [] [] = true
same [] (d ∷ t) = false
same (c ∷ s) [] = false
same (c ∷ s) (d ∷ t) = c == d && same s t

abbrev pub starts_with : Bytes → Bytes → Bool
starts_with [] s = true
starts_with (c ∷ p) [] = false
starts_with (c ∷ p) (d ∷ s) = c == d && starts_with p s

abbrev pub is_space : ℕ → Bool
is_space c = c == 32 || (leb 9 c && leb c 13)

abbrev pub to_lower : ℕ → ℕ
to_lower c = if leb b'A' c && leb c b'Z' then c + 32 else c

abbrev pub is_digit : ℕ → Bool
is_digit c = leb b'0' c && leb c b'9'

-- `erase(begin, find_if_not(begin, end, is_space))`.
unfoldable pub trim_start : Bytes → Bytes
trim_start [] = []
trim_start (c ∷ s) = if is_space c then trim_start s else c ∷ s

-- `erase(find_if_not(rbegin, rend, is_space).base(), end)`.
unfoldable pub trim_end : Bytes → Bytes
trim_end [] = []
trim_end (c ∷ s) = let rest = trim_end s in if is_space c && is_empty rest then [] else c ∷ rest

-- `find(c)`: the first position, or nothing for `npos`.
unfoldable pub find_first : ℕ → Bytes → Option ℕ
find_first c [] = none
find_first c (d ∷ s) =
    let rest = find_first c s in
    if d == c then some 0 else elim rest [ none ↦ none | some i ↦ some (suc i) ]

-- `rfind(c)`: the last position.
unfoldable pub find_last : ℕ → Bytes → Option ℕ
find_last c [] = none
find_last c (d ∷ s) = elim (find_last c s) [
  | none ↦ if d == c then some 0 else none
  | some i ↦ some (suc i)
]

abbrev pub backslash : ℕ
backslash = 92

-- `std::to_string` of an unsigned number. `n + 1` turns are enough for its digits.
unfoldable pub decimal : ℕ → ℕ → Bytes
decimal zero n = []
decimal (suc turns) n =
    let rest = decimal turns (n / 10) in
    if ltb n 10 then (b'0' + n) ∷ [] else rest ++ (b'0' + n % 10) ∷ []

unfoldable pub to_string : ℕ → Bytes
unfolding decimal
to_string n = decimal (suc n) n

-- The number that the leading digits of a text stand for, after the digits that stand for `n`.
unfoldable pub digits_value : ℕ → Bytes → ℕ
digits_value n [] = n
digits_value n (c ∷ s) =
    let rest = digits_value (n * 10 + (c - b'0')) s in if is_digit c then rest else n

-- What `std::stoul` throws.
pub data StoulError : Type 0 where
  no_conversion out_of_range : StoulError

pub data Stoul : Type 0 where
  number : ℕ → Stoul
  refused : StoulError → Stoul

abbrev pub ulong_mod : ℕ
ulong_mod = 18_446_744_073_709_551_616

abbrev pub starts_digit : Bytes → Bool
starts_digit [] = false
starts_digit (c ∷ s) = is_digit c

-- The digits behind the sign. A minus negates in the arithmetic of `unsigned long`.
unfoldable pub stoul_digits : Bool → Bytes → Stoul
unfolding digits_value
stoul_digits negative s =
    let n = digits_value 0 s in
    if starts_digit s
    then if leb ulong_mod n
      then refused out_of_range
      else number (if negative then (ulong_mod - n) % ulong_mod else n)
    else refused no_conversion

abbrev pub stoul_signed : Bytes → Stoul
stoul_signed [] = refused no_conversion
stoul_signed (c ∷ s) =
    if c == b'-'
    then stoul_digits true s
    else if c == b'+'
    then stoul_digits false s
    else stoul_digits false (c ∷ s)

-- `std::stoul(s)`: spaces, a sign, digits; what stands behind the digits is not read.
unfoldable pub stoul : Bytes → Stoul
unfolding trim_start stoul_digits
stoul s = stoul_signed (trim_start s)

-- `s.ends_with(suffix)`.
abbrev pub ends_with : Bytes → Bytes → Bool
ends_with suffix s = same (drop (length s - length suffix) s) suffix

-- `in >> word` on a string of its own: the next word, or nothing, and what is left.
unfoldable pub split_word : Bytes → Bytes × Bytes
split_word [] = ([], [])
split_word (c ∷ s) =
    let rest = split_word s in if is_space c then ([], c ∷ s) else (c ∷ rest.0, rest.1)

unfoldable pub next_word : Bytes → Bytes × Bytes
unfolding trim_start split_word
next_word s = split_word (trim_start s)
