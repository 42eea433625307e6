-- ===== src/Admin/Framing.antt =====
-- About `response` of src/admin.cpp.
use tcp_load_balancer.Admin.{response}
use tcp_load_balancer.Base.{
  ℕ, zero, suc, ◌<◌, ◌≡◌, refl, sym, ap, ◌∙◌, false, List, [], ◌∷◌, ◌++◌, some, arith, length,
  append_nil,
}
use tcp_load_balancer.Http.{split_line, read_lines, header, read_parts, read_reply}
use tcp_load_balancer.Text.Numbers.{stoul-to_string, to_string-AreDigits}
use tcp_load_balancer.Text.Searching.{Absent, Absent-append, is_absent_lem, digits-Absent}
use tcp_load_balancer.Text.{Bytes, text, to_string, stoul, number, ulong_mod, is_empty}

split_line-append :
    (line s : Bytes)
    → Absent b'\r' line
    → split_line (line ++ (b'\r' ∷ (b'\n' ∷ s))) ≡ some (line, s)
unfolding split_line
split_line-append [] s h = refl
split_line-append (c ∷ []) s h = ground (arith, h.0, split_line-append [] s h.1)
split_line-append (c ∷ (d ∷ line)) s h = ground (arith, h.0, split_line-append (d ∷ line) s h.1)

-- A line that is not empty is read before the rest.
read_lines-suc :
    (limit c : ℕ) (line s body : Bytes) (lines : List Bytes)
    → Absent b'\r' (c ∷ line)
    → read_lines limit s ≡ some (lines, body)
    → read_lines (suc limit) ((c ∷ line) ++ (b'\r' ∷ (b'\n' ∷ s))) ≡ some ((c ∷ line) ∷ lines, body)
unfolding read_lines
read_lines-suc limit c line s body lines h e = ground (arith, split_line-append (c ∷ line) s h, e)

-- The lines of a response behind the status.
abbrev header_lines : Bytes → Bytes → List Bytes
header_lines content_type body =
    (text "Content-Type: " ++ content_type)
    ∷ (text "Content-Length: " ++ to_string (length body))
    ∷ text "Access-Control-Allow-Origin: *"
    ∷ text "Access-Control-Allow-Methods: GET,POST,OPTIONS"
    ∷ text "Access-Control-Allow-Headers: content-type"
    ∷ text "Connection: close"
    ∷ []

-- The text of lines, the empty one behind them and a body.
abbrev framed : List Bytes → Bytes → Bytes
framed [] body = b'\r' ∷ (b'\n' ∷ body)
framed (line ∷ lines) body = line ++ (b'\r' ∷ (b'\n' ∷ framed lines body))

abbrev AreLines : List Bytes → Type 0
AreLines [] = Unit {0}
AreLines (line ∷ lines) = (is_empty line ≡ false) × Absent b'\r' line × AreLines lines

read_lines-framed :
    (limit : ℕ) (lines : List Bytes) (body : Bytes)
    → AreLines lines
    → length lines < limit
    → read_lines limit (framed lines body) ≡ some (lines, body)
read_lines-framed zero lines body v h = elim h [ ]
read_lines-framed (suc limit) [] body v h = unfold read_lines split_line in refl
read_lines-framed (suc limit) ([] ∷ lines) body v h = cc
read_lines-framed (suc limit) ((c ∷ line) ∷ lines) body v h =
    read_lines-suc limit c line (framed lines body) body lines v.1
      (read_lines-framed limit lines body v.2 (omega (arith, h)))

headers-AreLines :
    (content_type body : Bytes)
    → Absent b'\r' content_type
    → AreLines (header_lines content_type body)
headers-AreLines content_type body k = (
  refl,
  Absent-append b'\r' (text "Content-Type: ") content_type
      (is_absent_lem b'\r' (text "Content-Type: ") refl) k,
  (
    refl,
    Absent-append b'\r' (text "Content-Length: ") (to_string (length body))
        (is_absent_lem b'\r' (text "Content-Length: ") refl)
        (digits-Absent b'\r' (to_string (length body)) refl (to_string-AreDigits (length body))),
    (
      refl,
      is_absent_lem b'\r' (text "Access-Control-Allow-Origin: *") refl,
      (
        refl,
        is_absent_lem b'\r' (text "Access-Control-Allow-Methods: GET,POST,OPTIONS") refl,
        (
          refl,
          is_absent_lem b'\r' (text "Access-Control-Allow-Headers: content-type") refl,
          (refl, is_absent_lem b'\r' (text "Connection: close") refl, tt),
        ),
      ),
    ),
  ),
)

response-framed :
    (status content_type body : Bytes)
    → response status content_type body []
      ≡ framed ((text "HTTP/1.1 " ++ status) ∷ header_lines content_type body) body
unfolding response
response-framed status content_type body = refl

parts_lem :
    (status content_type body : Bytes)
    → length body < ulong_mod
    → read_parts ((text "HTTP/1.1 " ++ status) ∷ header_lines content_type body) body
      ≡ some (record { status = status; content_type = content_type; body = body })
unfolding read_parts header
parts_lem status content_type body h =
    let size : stoul (to_string (length body)) ≡ number (length body) =
      ap stoul (sym (append_nil (to_string (length body))))
      ∙ stoul-to_string (length body) [] h refl in
    ground (arith, size)

-- A reader of HTTP reads from a response, whose status and type hold no CR, the status, the type
-- and the body, of exactly the length that the header names, whatever bytes the body holds. The
-- body has fewer than 2^64 bytes.
pub read_reply-response :
    (status content_type body : Bytes)
    → Absent b'\r' status
    → Absent b'\r' content_type
    → length body < ulong_mod
    → read_reply (response status content_type body [])
      ≡ some (record { status = status; content_type = content_type; body = body })
unfolding read_reply
read_reply-response status content_type body h k l =
    let lines = (text "HTTP/1.1 " ++ status) ∷ header_lines content_type body in
    let whole : AreLines lines = (
      refl,
      Absent-append b'\r' (text "HTTP/1.1 ") status (is_absent_lem b'\r' (text "HTTP/1.1 ") refl) h,
      headers-AreLines content_type body k,
    ) in
    let found : read_lines 100 (response status content_type body []) ≡ some (lines, body) =
      ap (read_lines 100) (response-framed status content_type body)
      ∙ read_lines-framed 100 lines body whole (omega arith) in
    ground (arith, found, parts_lem status content_type body l)
