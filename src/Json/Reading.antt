-- ===== src/Json/Reading.antt =====
-- The reader reads back what is written.
use tcp_load_balancer.Base.{ℕ, zero, suc, ◌≤◌, ◌≡◌, refl, false, true, [], ◌∷◌, ◌++◌, some, arith}
use tcp_load_balancer.Json.{
  Json, num, str, arr, obj, Items, nil, cons, Fields, end, field, put_chars, put_value, put_items,
  put_fields, read_chars, ends_token, read_token, Reader, read_items, read_member, read_fields,
  read_value,
}
use tcp_load_balancer.Json.Grammar.{all_printable, is_number}
use tcp_load_balancer.Json.Shapes.{
  HasNoEnd, IsToken, Stops, IsReadable, AreReadable, HasReadable, size, size_items, size_fields,
  number-IsToken, size_pos, size_items_pos, size_fields_pos,
}
use tcp_load_balancer.Text.{Bytes}

-- The string's text, in front of anything, is read back up to its closing quote.
pub read_chars-put_chars :
    (s k : Bytes) → all_printable s ≡ true → read_chars (put_chars s k) ≡ some (s, k)
unfolding read_chars put_chars
read_chars-put_chars [] [] h = refl
read_chars-put_chars [] (d ∷ k) h = refl
read_chars-put_chars (c ∷ []) k h = ground (arith, h, read_chars-put_chars [] k refl)
read_chars-put_chars (c ∷ (d ∷ s)) k h =
    ground (arith, h, read_chars-put_chars (d ∷ s) k (ground arith))

read_token-append : (t k : Bytes) → HasNoEnd t → Stops k → read_token (t ++ k) ≡ (t, k)
unfolding read_token
read_token-append [] [] h s = refl
read_token-append [] (c ∷ k) h s = ground (arith, s)
read_token-append (c ∷ t) k h s = ground (arith, h.0, read_token-append t k h.1 s)

items-Stops : (vs : Items) (k : Bytes) → Stops (put_items vs k)
unfolding put_value
items-Stops nil k = refl
items-Stops (cons v vs) k = refl

fields-Stops : (fs : Fields) (k : Bytes) → Stops (put_fields fs k)
unfolding put_value
fields-Stops end k = refl
fields-Stops (field name v fs) k = refl

token_lem :
    (f : ℕ) (t k : Bytes)
    → is_number t ≡ true
    → IsToken t
    → Stops k
    → read_value (suc f) (t ++ k) ≡ some (num t, k)
unfolding read_value
token_lem f [] k n h s = elim h [ ]
token_lem f (c ∷ t) k n h s = ground (arith, n, h, read_token-append (c ∷ t) k (h.1, h.2) s)

-- A reader that reads the value `v`, in front of a text at which a token ends.
abbrev Reads : Reader Json → Json → Type 0
Reads value v = (k : Bytes) → Stops k → value (put_value v k) ≡ some (v, k)

-- The first byte of a value's text does not close a list.
head_open :
    (v : Json) (k : Bytes)
    → IsReadable v
    → (c : ℕ) × (s : Bytes) × (put_value v k ≡ c ∷ s) × (ends_token c ≡ false)
unfolding put_value
head_open (num []) k h = elim (number-IsToken [] h) [ ]
head_open (num (c ∷ t)) k h = let v = number-IsToken (c ∷ t) h in (c, t ++ k, refl, v.1)
head_open (str s) k h = (b'"', put_chars s k, refl, refl)
head_open (arr nil) k h = (b'[', b']' ∷ k, refl, refl)
head_open (arr (cons v vs)) k h = (b'[', put_value v (put_items vs k), refl, refl)
head_open (obj end) k h = (b'{', b'}' ∷ k, refl, refl)
head_open (obj (field name v fs)) k h =
    (b'{', b'"' ∷ put_chars name (b':' ∷ put_value v (put_fields fs k)), refl, refl)

member_lem :
    (value : Reader Json) (name : Bytes) (v : Json) (k : Bytes)
    → all_printable name ≡ true
    → Reads value v
    → Stops k
    → read_member value (b'"' ∷ put_chars name (b':' ∷ put_value v k)) ≡ some ((name, v), k)
unfolding read_member
member_lem value name v k n r s =
    ground (arith, read_chars-put_chars name (b':' ∷ put_value v k) n, r k s)

array_lem :
    (f : ℕ) (v : Json) (vs : Items) (k : Bytes)
    → IsReadable v
    → Reads (read_value f) v
    → read_items f (read_value f) (put_items vs k) ≡ some (vs, k)
    → read_value (suc f) (put_value (arr (cons v vs)) k) ≡ some (arr (cons v vs), k)
unfolding read_value put_value
array_lem f v vs k h r i =
    let (c, s, e, inner) = head_open v (put_items vs k) h in
    ground (arith, e, inner, r (put_items vs k) (items-Stops vs k), i)

object_lem :
    (f : ℕ) (name : Bytes) (v : Json) (fs : Fields) (k : Bytes)
    → all_printable name ≡ true
    → Reads (read_value f) v
    → read_fields f (read_value f) (put_fields fs k) ≡ some (fs, k)
    → read_value (suc f) (put_value (obj (field name v fs)) k) ≡ some (obj (field name v fs), k)
unfolding read_value put_value
object_lem f name v fs k n r i =
    ground (arith, member_lem (read_value f) name v (put_fields fs k) n r (fields-Stops fs k), i)

items_lem :
    (f : ℕ) (value : Reader Json) (v : Json) (vs : Items) (k : Bytes)
    → Reads value v
    → read_items f value (put_items vs k) ≡ some (vs, k)
    → read_items (suc f) value (put_items (cons v vs) k) ≡ some (cons v vs, k)
unfolding read_items put_value
items_lem f value v vs k r i = ground (arith, r (put_items vs k) (items-Stops vs k), i)

fields_lem :
    (f : ℕ) (value : Reader Json) (name : Bytes) (v : Json) (fs : Fields) (k : Bytes)
    → all_printable name ≡ true
    → Reads value v
    → read_fields f value (put_fields fs k) ≡ some (fs, k)
    → read_fields (suc f) value (put_fields (field name v fs) k) ≡ some (field name v fs, k)
unfolding read_fields put_value
fields_lem f value name v fs k n r i =
    ground (arith, member_lem value name v (put_fields fs k) n r (fields-Stops fs k), i)

token_value_lem :
    (f : ℕ) (t k : Bytes)
    → is_number t ≡ true
    → Stops k
    → read_value (suc f) (put_value (num t) k) ≡ some (num t, k)
unfolding put_value
token_value_lem f t k h s = token_lem f t k h (number-IsToken t h) s

string_lem :
    (f : ℕ) (t k : Bytes)
    → all_printable t ≡ true
    → read_value (suc f) (put_value (str t) k) ≡ some (str t, k)
unfolding put_value read_value
string_lem f t k h = ground (arith, read_chars-put_chars t k h)

nil_lem : (f : ℕ) (k : Bytes) → read_value (suc f) (put_value (arr nil) k) ≡ some (arr nil, k)
unfolding put_value read_value
nil_lem f k = refl

end_lem : (f : ℕ) (k : Bytes) → read_value (suc f) (put_value (obj end) k) ≡ some (obj end, k)
unfolding put_value read_value
end_lem f k = refl

no_items_lem :
    (g : ℕ) (value : Reader Json) (k : Bytes)
    → read_items (suc g) value (put_items nil k) ≡ some (nil, k)
unfolding put_value read_items
no_items_lem g value k = refl

no_fields_lem :
    (g : ℕ) (value : Reader Json) (k : Bytes)
    → read_fields (suc g) value (put_fields end k) ≡ some (end, k)
unfolding put_value read_fields
no_fields_lem g value k = refl

mutual
  value-Reads : (j : Json) (f : ℕ) → IsReadable j → size j ≤ f → Reads (read_value f) j
  value-Reads j zero h le k s = absurd (size_pos j le)
  value-Reads (num t) (suc f) h le k s = token_value_lem f t k h s
  value-Reads (str t) (suc f) h le k s = string_lem f t k h
  value-Reads (arr nil) (suc f) h le k s = nil_lem f k
  value-Reads (arr (cons v vs)) (suc f) (h, hs) le k s =
      array_lem f v vs k h (value-Reads v f h (omega arith))
        (items-Reads vs f f hs (omega arith) (omega arith) k)
  value-Reads (obj end) (suc f) h le k s = end_lem f k
  value-Reads (obj (field name v fs)) (suc f) (n, h, hs) le k s =
      object_lem f name v fs k n (value-Reads v f h (omega arith))
        (fields-Reads fs f f hs (omega arith) (omega arith) k)

  items-Reads :
      (vs : Items) (f g : ℕ)
      → AreReadable vs
      → size_items vs ≤ f
      → size_items vs ≤ g
      → (k : Bytes) → read_items g (read_value f) (put_items vs k) ≡ some (vs, k)
  items-Reads vs f zero h le lg k = absurd (size_items_pos vs lg)
  items-Reads nil f (suc g) h le lg k = no_items_lem g (read_value f) k
  items-Reads (cons v vs) f (suc g) (h, hs) le lg k =
      items_lem g (read_value f) v vs k (value-Reads v f h (omega arith))
        (items-Reads vs f g hs (omega arith) (omega arith) k)

  fields-Reads :
      (fs : Fields) (f g : ℕ)
      → HasReadable fs
      → size_fields fs ≤ f
      → size_fields fs ≤ g
      → (k : Bytes) → read_fields g (read_value f) (put_fields fs k) ≡ some (fs, k)
  fields-Reads fs f zero h le lg k = absurd (size_fields_pos fs lg)
  fields-Reads end f (suc g) h le lg k = no_fields_lem g (read_value f) k
  fields-Reads (field name v fs) f (suc g) (n, h, hs) le lg k =
      fields_lem g (read_value f) name v fs k n (value-Reads v f h (omega arith))
        (fields-Reads fs f g hs (omega arith) (omega arith) k)

-- The text of a value is read back as the value.
pub read_value-put_value :
    (j : Json) → IsReadable j → read_value (size j) (put_value j []) ≡ some (j, [])
read_value-put_value j h = value-Reads j (size j) h (omega arith) [] tt
