-- ===== src/Config/Lines.antt =====
-- About the lines of a configuration file, as `load_config_file` of src/config.cpp reads them.
use tcp_load_balancer.Base.{
  ℕ, ◌+◌, ◌≡◌, refl, sym, ap, ◌∙◌, false, [], ◌∷◌, ◌++◌, some, arith, if◌then◌else◌, length, take,
  drop, append_assoc, append_nil,
}
use tcp_load_balancer.Config.Loader.{lines_of, without_comment, load_entry, load_line, assign}
use tcp_load_balancer.Base.Results.{ok}
use tcp_load_balancer.Config.Parser.{trim, lower}
use tcp_load_balancer.Config.{AppConfig}
use tcp_load_balancer.Text.Searching.{
  Absent, Absent-append, find_first-Absent, find_first-append, take-append, drop-append_suc,
}
use tcp_load_balancer.Text.Trimming.{
  IsBlank, IsSolid, starts_solid-append, ends_solid-append, trim-append,
}
use tcp_load_balancer.Text.{Bytes, find_first, is_empty, is_space}

pub lines_of-append :
    (line s : Bytes) → Absent b'\n' line → lines_of (line ++ (b'\n' ∷ s)) ≡ line ∷ lines_of s
unfolding lines_of
lines_of-append [] s h = refl
lines_of-append (c ∷ line) s h = ground (arith, h.0, lines_of-append line s h.1)

without_comment-append :
    (line s : Bytes) → Absent b'#' line → without_comment (line ++ (b'#' ∷ s)) ≡ line
unfolding without_comment
without_comment-append line s h =
    rw (find_first-append b'#' line s h, without_comment) (take-append line (b'#' ∷ s))

without_comment-Absent : (line : Bytes) → Absent b'#' line → without_comment line ≡ line
unfolding without_comment
without_comment-Absent line h = rw (find_first-Absent b'#' line h, without_comment) refl

-- A comment at the end of a line is not read.
pub load_line-comment :
    (c : AppConfig) (n : ℕ) (line s : Bytes)
    → Absent b'#' line
    → load_line c n (line ++ (b'#' ∷ s)) ≡ load_line c n line
unfolding load_line
load_line-comment c n line s h =
    ap (λ l. if is_empty (trim l) then ok c else load_entry c n (trim l))
      (without_comment-append line s h ∙ sym (without_comment-Absent line h))

-- A line that assigns `value` to `key`, with spaces where they may stand.
pub record IsEntry (key value : Bytes) : Type 0 where
  pub key_solid : IsSolid key
  pub value_solid : IsSolid value
  pub key_plain : Absent b'=' key × Absent b'#' key
  pub value_plain : Absent b'#' value

blank-Absent : (c : ℕ) (s : Bytes) → is_space c ≡ false → IsBlank s → Absent c s
blank-Absent c [] h k = tt
blank-Absent c (d ∷ s) h k = (ground (arith, k.0), blank-Absent c s h k.1)

trim_lem : (a s b : Bytes) → IsBlank a → IsSolid s → IsBlank b → trim (a ++ (s ++ b)) ≡ s
unfolding trim
trim_lem = trim-append

solid_full : (s : Bytes) → IsSolid s → is_empty s ≡ false
solid_full [] v = ground (arith, v)
solid_full (c ∷ s) v = refl

module _ (key value : Bytes) (v : IsEntry key value) (b d : Bytes) (hb : IsBlank b)
    (hd : IsBlank d) where
  -- The line between its first and its last byte that is no space.
  body : Bytes
  body = (key ++ b) ++ (b'=' ∷ (d ++ value))

  body-IsSolid : IsSolid body
  unfolding body
  body-IsSolid = record {
    starts =
        starts_solid-append (key ++ b) (b'=' ∷ (d ++ value))
          (starts_solid-append key b v.key_solid.starts);
    ends =
        ends_solid-append (key ++ b) (b'=' ∷ (d ++ value))
          (ends_solid-append (b'=' ∷ d) value v.value_solid.ends);
  }

  body_plain : Absent b'#' body
  unfolding body
  body_plain =
      Absent-append b'#' (key ++ b) (b'=' ∷ (d ++ value))
        (Absent-append b'#' key b v.key_plain.1 (blank-Absent b'#' b refl hb))
        (refl, Absent-append b'#' d value (blank-Absent b'#' d refl hd) v.value_plain)

  load_entry-body : (c : AppConfig) (n : ℕ) → load_entry c n body ≡ assign c n (lower key) value
  unfolding load_entry body
  load_entry-body c n =
      let found : find_first b'=' body ≡ some (length (key ++ b)) =
        find_first-append b'=' (key ++ b) (d ++ value)
          (Absent-append b'=' key b v.key_plain.0 (blank-Absent b'=' b refl hb)) in
      let before : trim (take (length (key ++ b)) body) ≡ key =
        ap trim (take-append (key ++ b) (b'=' ∷ (d ++ value)))
        ∙ trim_lem [] key b tt v.key_solid hb in
      let behind : trim (drop (length (key ++ b) + 1) body) ≡ value =
        ap trim
          (drop-append_suc b'=' (key ++ b) (d ++ value) ∙ ap (◌++◌ d) (sym (append_nil value)))
        ∙ trim_lem d value [] hd v.value_solid tt in
      ground (arith, found, before, behind)

  -- A line that assigns a value, with spaces where they may stand, does so.
  pub load_line-entry :
      (a e : Bytes) (c : AppConfig) (n : ℕ)
      → IsBlank a
      → IsBlank e
      → load_line c n (a ++ ((key ++ b) ++ (b'=' ∷ (d ++ (value ++ e)))))
        ≡ assign c n (lower key) value
  unfolding load_line body
  load_line-entry a e c n ha he =
      let joined : (key ++ b) ++ (b'=' ∷ (d ++ (value ++ e))) ≡ body ++ e =
        ap (λ s. (key ++ b) ++ (b'=' ∷ s)) (sym (append_assoc d value e))
        ∙ sym (append_assoc (key ++ b) (b'=' ∷ (d ++ value)) e) in
      let plain : Absent b'#' (a ++ (body ++ e)) =
        Absent-append b'#' a (body ++ e) (blank-Absent b'#' a refl ha)
          (Absent-append b'#' body e body_plain (blank-Absent b'#' e refl he)) in
      let trimmed : trim (without_comment (a ++ (body ++ e))) ≡ body =
        ap trim (without_comment-Absent (a ++ (body ++ e)) plain)
        ∙ trim_lem a body e ha body-IsSolid he in
      let full : is_empty body ≡ false = solid_full body body-IsSolid in
      ap (λ l. load_line c n (a ++ l)) joined ∙ ground (arith, trimmed, full, load_entry-body c n)
