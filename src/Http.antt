-- ===== src/Http.antt =====
-- A reference for the messages that a server sends over HTTP/1.1: a reader of one response. No
-- code of the program is modelled here; the replies of src/admin.cpp are measured against it.
use tcp_load_balancer.Base.{
  ℕ, zero, suc, true, false, ◌&&◌, List, [], ◌∷◌, Option, none, some, ◌==◌, if◌then◌else◌, length,
  drop,
}
use tcp_load_balancer.Json.{with_some}
use tcp_load_balancer.Text.{Bytes, text, starts_with, is_empty, stoul, Stoul, number, refused}

-- The bytes up to the first CRLF, and those behind it.
unfoldable pub split_line : Bytes → Option (Bytes × Bytes)
split_line [] = none
split_line (c ∷ []) = none
split_line (c ∷ (d ∷ s)) = elim (c == b'\r' && d == b'\n') [
  | true ↦ some ([], s)
  | false ↦ with_some (split_line (d ∷ s)) λ (line, rest). some (c ∷ line, rest)
]

-- The lines up to the empty one, at most so many, and what is behind it.
unfoldable pub read_lines : ℕ → Bytes → Option (List Bytes × Bytes)
unfolding split_line
read_lines zero s = none
read_lines (suc limit) s = with_some (split_line s) λ (line, rest). elim (is_empty line) [
  | true ↦ some ([], rest)
  | false ↦ with_some (read_lines limit rest) λ (lines, body). some (line ∷ lines, body)
]

-- The value of the first line with the name.
unfoldable pub header : Bytes → List Bytes → Option Bytes
header name [] = none
header name (line ∷ lines) =
    let rest = header name lines in
    if starts_with name line then some (drop (length name) line) else rest

abbrev pub amount_of : Stoul → Option ℕ
amount_of (number n) = some n
amount_of (refused e) = none

pub record Reply : Type 0 where
  pub status : Bytes
  pub content_type : Bytes
  pub body : Bytes

-- The status, the type and the body, where the body has the length that the header names.
unfoldable pub read_parts : List Bytes → Bytes → Option Reply
unfolding header stoul
read_parts [] body = none
read_parts (first ∷ lines) body = with_some (header (text "Content-Type: ") lines) λ type.
    with_some (header (text "Content-Length: ") lines) λ size.
      with_some (amount_of (stoul size)) λ n.
        elim (starts_with (text "HTTP/1.1 ") first && n == length body) [
          | true ↦ some (record { status = drop 9 first; content_type = type; body = body })
          | false ↦ none
        ]

unfoldable pub read_reply : Bytes → Option Reply
unfolding read_lines read_parts
read_reply s = with_some (read_lines 100 s) λ (lines, body). read_parts lines body
