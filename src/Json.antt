-- ===== src/Json.antt =====
-- A reference for JSON texts: values, their text, and a reader. No code of the program is modelled
-- here; the statistics of src/runtime.cpp and the lines of src/logger.cpp are measured against it.
-- The reader takes a part of JSON: texts without spaces between the tokens, without `true`, `false`
-- and `null`, whose strings hold printable bytes of ASCII and no escape but `\"` and `\\`.
pub mod Grammar
pub mod Reading
pub mod Shapes
use tcp_load_balancer.Base.{
  ℕ, zero, suc, ◌+◌, Bool, true, false, ◌||◌, ◌&&◌, not, List, [], ◌∷◌, ◌++◌, Option, none, some,
  ◌==◌, if◌then◌else◌,
}
use tcp_load_balancer.Json.Grammar.{is_printable, is_number}
use tcp_load_balancer.Text.{Bytes, is_digit, backslash}

-- A number is kept as its token.
mutual
  pub data Json : Type 0 where
    num str : Bytes → Json
    arr : Items → Json
    obj : Fields → Json

  pub data Items : Type 0 where
    nil : Items
    cons : Json → Items → Items

  pub data Fields : Type 0 where
    end : Fields
    field : Bytes → Json → Fields → Fields

abbrev pub is_special : ℕ → Bool
is_special c = c == b'"' || c == backslash

-- The text of a string up to its closing quote, in front of `k`.
unfoldable pub put_chars : Bytes → Bytes → Bytes
put_chars [] k = b'"' ∷ k
put_chars (c ∷ s) k =
    let rest = put_chars s k in if is_special c then backslash ∷ c ∷ rest else c ∷ rest

-- The text of a value, in front of `k`.
unfoldable mutual
  unfolding put_chars

  pub put_value : Json → Bytes → Bytes
  put_value (num token) k = token ++ k
  put_value (str s) k = b'"' ∷ put_chars s k
  put_value (arr nil) k = b'[' ∷ b']' ∷ k
  put_value (arr (cons v vs)) k = b'[' ∷ put_value v (put_items vs k)
  put_value (obj end) k = b'{' ∷ b'}' ∷ k
  put_value (obj (field name v fs)) k =
      b'{' ∷ b'"' ∷ put_chars name (b':' ∷ put_value v (put_fields fs k))

  -- The items behind the first, with a comma before each.
  pub put_items : Items → Bytes → Bytes
  put_items nil k = b']' ∷ k
  put_items (cons v vs) k = b',' ∷ put_value v (put_items vs k)

  pub put_fields : Fields → Bytes → Bytes
  put_fields end k = b'}' ∷ k
  put_fields (field name v fs) k =
      b',' ∷ b'"' ∷ put_chars name (b':' ∷ put_value v (put_fields fs k))

abbrev pub with_some : {A B : Type 0} → Option A → (A → Option B) → Option B
with_some none f = none
with_some (some a) f = f a

abbrev pub cons_first : ℕ → Option (Bytes × Bytes) → Option (Bytes × Bytes)
cons_first c o = with_some o λ (s, rest). some (c ∷ s, rest)

-- A string up to its closing quote; a backslash stands in front of a quote or a backslash.
unfoldable pub read_chars : Bytes → Option (Bytes × Bytes)
read_chars [] = none
read_chars (c ∷ []) = if c == b'"' then some ([], []) else none
read_chars (c ∷ (d ∷ s)) = elim (c == b'"') [
  | true ↦ some ([], d ∷ s)
  | false ↦ elim (c == backslash) [
    | true ↦ elim (is_special d) [ true ↦ cons_first d (read_chars s) | false ↦ none ]
    | false ↦ elim (is_printable c) [ true ↦ cons_first c (read_chars (d ∷ s)) | false ↦ none ]
  ]
]

-- A byte that ends a number's token.
abbrev pub ends_token : ℕ → Bool
ends_token c = c == b',' || c == b']' || c == b'}'

unfoldable pub read_token : Bytes → Bytes × Bytes
read_token [] = ([], [])
read_token (c ∷ s) =
    let rest = read_token s in if ends_token c then ([], c ∷ s) else (c ∷ rest.0, rest.1)

abbrev pub Reader : Type 0 → Type 0
Reader A = Bytes → Option (A × Bytes)

-- The items behind one, the fields behind one, with a reader for the values.
unfoldable pub read_items : ℕ → Reader Json → Reader Items
read_items zero value s = none
read_items (suc f) value [] = none
read_items (suc f) value (c ∷ s) = elim (c == b']') [
  | true ↦ some (nil, s)
  | false ↦ elim (c == b',') [
    | false ↦ none
    | true ↦
        with_some (value s)
          λ (v, t). with_some (read_items f value t) λ (vs, u). some (cons v vs, u)
  ]
]

-- A name in quotes and its value.
unfoldable pub read_member : Reader Json → Reader (Bytes × Json)
unfolding read_chars
read_member value [] = none
read_member value (c ∷ s) = elim (c == b'"') [
  | false ↦ none
  | true ↦ with_some (read_chars s) λ (name, t). elim t [
    | [] ↦ none
    | d ∷ u ↦ elim (d == b':') [
      | false ↦ none
      | true ↦ with_some (value u) λ (v, rest). some ((name, v), rest)
    ]
  ]
]

unfoldable pub read_fields : ℕ → Reader Json → Reader Fields
unfolding read_member
read_fields zero value s = none
read_fields (suc f) value [] = none
read_fields (suc f) value (c ∷ s) = elim (c == b'}') [
  | true ↦ some (end, s)
  | false ↦ elim (c == b',') [
    | false ↦ none
    | true ↦
        with_some (read_member value s)
          λ ((name, v), t). with_some (read_fields f value t) λ (fs, u). some (field name v fs, u)
  ]
]

abbrev pub read_array : ℕ → Reader Json → Reader Json
read_array f value [] = none
read_array f value (c ∷ s) = elim (c == b']') [
  | true ↦ some (arr nil, s)
  | false ↦
      with_some (value (c ∷ s))
        λ (v, t). with_some (read_items f value t) λ (vs, u). some (arr (cons v vs), u)
]

abbrev pub read_object : ℕ → Reader Json → Reader Json
read_object f value [] = none
read_object f value (c ∷ s) = elim (c == b'}') [
  | true ↦ some (obj end, s)
  | false ↦
      with_some (read_member value (c ∷ s)) λ ((name, v), t).
        with_some (read_fields f value t) λ (fs, u). some (obj (field name v fs), u)
]

-- A value; `depth` bounds how deep it nests, and the lengths of its lists.
unfoldable pub read_value : ℕ → Reader Json
unfolding read_chars read_token is_number read_items read_member read_fields
read_value zero s = none
read_value (suc f) [] = none
read_value (suc f) (c ∷ s) =
    let value = read_value f in
    elim (c == b'"') [
      | true ↦ with_some (read_chars s) λ (t, u). some (str t, u)
      | false ↦ elim (c == b'[') [
        | true ↦ read_array f value s
        | false ↦ elim (c == b'{') [
          | true ↦ read_object f value s
          | false ↦
              let (t, u) = read_token (c ∷ s) in
              elim (is_number t) [ true ↦ some (num t, u) | false ↦ none ]
        ]
      ]
    ]
