-- ===== src/Logger/Lines.antt =====
-- About the lines of src/logger.cpp.
use tcp_load_balancer.Base.{
  ◌≡◌, ◌≤◌, refl, sym, ap, ◌∙◌, false, true, [], ◌∷◌, ◌++◌, some, arith, append_assoc,
}
use tcp_load_balancer.Json.Grammar.{all_printable, all_printable-append}
use tcp_load_balancer.Json.Reading.{read_value-put_value}
use tcp_load_balancer.Json.Shapes.{size}
use tcp_load_balancer.Json.{
  Json, str, obj, end, field, is_special, put_chars, put_value, read_value,
}
use tcp_load_balancer.Logger.{LogLevel, debug, info, warn, error, rank, label, log_line, log}
use tcp_load_balancer.Text.{Bytes, text}
use tcp_load_balancer.Text.Searching.{Absent}

-- No byte of the text needs a backslash.
abbrev pub IsPlain : Bytes → Type 0
IsPlain [] = Unit {0}
IsPlain (c ∷ s) = (is_special c ≡ false) × IsPlain s

put_chars-IsPlain : (s k : Bytes) → IsPlain s → put_chars s k ≡ s ++ (b'"' ∷ k)
unfolding put_chars
put_chars-IsPlain [] k h = refl
put_chars-IsPlain (c ∷ s) k h = ground (arith, h.0, put_chars-IsPlain s k h.1)

label-put_chars :
    (level : LogLevel) (k : Bytes) → put_chars (label level) k ≡ label level ++ (b'"' ∷ k)
unfolding put_chars
label-put_chars debug k = refl
label-put_chars info k = refl
label-put_chars warn k = refl
label-put_chars error k = refl

-- What a line says.
abbrev pub told : Bytes → LogLevel → Bytes → Json
told timestamp level message = obj (
    field (text "ts") (str timestamp)
      (field (text "level") (str (label level)) (field (text "message") (str message) end)))

-- The line without its newline.
abbrev bare : Bytes → LogLevel → Bytes → Bytes
bare timestamp level message =
    text "{\"ts\":\""
    ++ (timestamp
        ++ (text "\",\"level\":\""
            ++ (label level ++ (text "\",\"message\":\"" ++ (message ++ text "\"}")))))

bare-put_value :
    (timestamp message : Bytes) (level : LogLevel)
    → IsPlain timestamp
    → IsPlain message
    → put_value (told timestamp level message) [] ≡ bare timestamp level message
unfolding put_value put_chars
bare-put_value timestamp message level t m =
    let behind = text ",\"message\":\"" ++ (message ++ text "\"}") in
    rw
      (
        put_chars-IsPlain message (text "}") m,
        label-put_chars level behind,
        put_chars-IsPlain timestamp (text ",\"level\":\"" ++ (label level ++ (b'"' ∷ behind))) t,
      )
      refl

log_line-bare :
    (timestamp message : Bytes) (level : LogLevel)
    → log_line timestamp level message ≡ bare timestamp level message ++ (b'\n' ∷ [])
unfolding log_line
log_line-bare timestamp message level =
    let behind = text "\",\"message\":\"" ++ (message ++ text "\"}") in
    rw
      (
        append_assoc timestamp (text "\",\"level\":\"" ++ (label level ++ behind)) (text "\n"),
        append_assoc (label level) behind (text "\n"),
        append_assoc message (text "\"}") (text "\n"),
      )
      refl

-- No printable byte is a newline.
printable-Absent : (s : Bytes) → all_printable s ≡ true → Absent b'\n' s
printable-Absent [] h = tt
printable-Absent (c ∷ s) h = (ground arith, printable-Absent s (ground arith))

label-all_printable : (level : LogLevel) → all_printable (label level) ≡ true
label-all_printable debug = refl
label-all_printable info = refl
label-all_printable warn = refl
label-all_printable error = refl

bare-all_printable :
    (timestamp message : Bytes) (level : LogLevel)
    → all_printable timestamp ≡ true
    → all_printable message ≡ true
    → all_printable (bare timestamp level message) ≡ true
bare-all_printable timestamp message level t m =
    let ending = all_printable-append message (text "\"}") m refl in
    let middle = all_printable-append (label level) _ (label-all_printable level) ending in
    all_printable-append timestamp _ t middle

-- Where the time and the message are printable ASCII without a quote or a backslash and the level
-- is at least the least one, `log` writes one line, with no newline but the last, from which a
-- reader of JSON reads the time, the level and the message.
pub log-read :
    (least level : LogLevel) (timestamp message : Bytes)
    → IsPlain timestamp
    → IsPlain message
    → all_printable timestamp ≡ true
    → all_printable message ≡ true
    → rank least ≤ rank level
    → (line : Bytes) × (log least timestamp level message ≡ line ++ text "\n")
      × Absent b'\n' line
      × (read_value (size (told timestamp level message)) line
          ≡ some (told timestamp level message, []))
unfolding log
log-read least level timestamp message t m pt pm h =
    let line = bare timestamp level message in
    let written : log least timestamp level message ≡ log_line timestamp level message =
      ground (arith, h) in
    (
      line,
      written ∙ log_line-bare timestamp message level,
      printable-Absent line (bare-all_printable timestamp message level pt pm),
      ap (read_value (size (told timestamp level message)))
            (sym (bare-put_value timestamp message level t m))
          ∙ read_value-put_value (told timestamp level message)
              (refl, pt, (refl, label-all_printable level, (refl, pm, tt))),
    )
