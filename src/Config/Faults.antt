-- ===== src/Config/Faults.antt =====
-- About the lines that `load_config_file` of src/config.cpp passes over, and those that it refuses.
use tcp_load_balancer.Base.{
  ◌-◌, ◌<◌, inl, inr, ℕ, ◌+◌, ◌≡◌, refl, sym, ap, ◌∙◌, Bool, false, ◌||◌, List, [], ◌∷◌, ◌++◌, some,
  arith, length, append_assoc,
}
use tcp_load_balancer.Base.Results.{ok, err, ◌>>=◌, Result-cases}
use tcp_load_balancer.Config.Entries.{bind-ap, line_of, load_line-line_of}
use tcp_load_balancer.Config.Lines.{lines_of-append, load_line-comment, IsEntry}
use tcp_load_balancer.Config.Loader.{
  default_config, lines_of, load_line, load_lines, load_config_file, assign, has_backends,
}
use tcp_load_balancer.Config.Parser.{ConfigError, runtime_error, lower}
use tcp_load_balancer.Config.{AppConfig}
use tcp_load_balancer.Text.Searching.{Absent, Absent-append}
use tcp_load_balancer.Config.Validity.{u32_bound}
use tcp_load_balancer.Config.Loader.{parse_u32}
use tcp_load_balancer.Config.Parser.{parse_number}
use tcp_load_balancer.Text.Numbers.{stoul-to_string, stoul_minus}
use tcp_load_balancer.Text.{Bytes, text, same, to_string, starts_digit}

-- Lines, each with a comment for it.
abbrev pub Notes : Type 0
Notes = List (Bytes × Bytes)

abbrev pub AreNotes : Notes → Type 0
AreNotes [] = Unit {0}
AreNotes ((line, note) ∷ ls) =
    Absent b'#' line × Absent b'\n' line × Absent b'\n' note × AreNotes ls

unfoldable pub without_notes : Notes → Bytes
without_notes [] = []
without_notes ((line, note) ∷ ls) = line ++ (b'\n' ∷ without_notes ls)

unfoldable pub with_notes : Notes → Bytes
with_notes [] = []
with_notes ((line, note) ∷ ls) = (line ++ (b'#' ∷ note)) ++ (b'\n' ∷ with_notes ls)

load_lines-notes :
    (c : AppConfig) (n : ℕ) (ls : Notes)
    → AreNotes ls
    → load_lines c n (lines_of (with_notes ls)) ≡ load_lines c n (lines_of (without_notes ls))
unfolding load_lines with_notes without_notes
load_lines-notes c n [] v = refl
load_lines-notes c n ((line, note) ∷ ls) (plain, one, note_one, vs) =
    ap (load_lines c n) (
      lines_of-append (line ++ (b'#' ∷ note)) (with_notes ls)
        (Absent-append b'\n' line (b'#' ∷ note) one (refl, note_one)))
    ∙ bind-ap _ _ _ _ (load_line-comment c (n + 1) line note plain)
        (λ d. load_lines-notes d (n + 1) ls vs)
    ∙ sym (ap (load_lines c n) (lines_of-append line (without_notes ls) one))

-- A comment behind each line of a file changes nothing about what `load_config_file` returns or
-- throws, the line numbers of its messages included. The lines may be empty; they hold no `#`, and
-- neither they nor the comments hold a newline.
pub load_config_file-notes :
    (path : Bytes) (ls : Notes)
    → AreNotes ls
    → load_config_file path (some (with_notes ls)) ≡ load_config_file path (some (without_notes ls))
unfolding load_config_file
load_config_file-notes path ls v =
    ap (λ r. r >>= has_backends) (load_lines-notes default_config 0 ls v)

-- The lines of a file, each with its newline.
unfoldable pub unlines : List Bytes → Bytes
unlines [] = []
unlines (line ∷ ls) = line ++ (b'\n' ∷ unlines ls)

abbrev pub AreSingle : List Bytes → Type 0
AreSingle [] = Unit {0}
AreSingle (line ∷ ls) = Absent b'\n' line × AreSingle ls

lines_of-unlines :
    (ls : List Bytes) (s : Bytes) → AreSingle ls → lines_of (unlines ls ++ s) ≡ ls ++ lines_of s
unfolding unlines
lines_of-unlines [] s v = refl
lines_of-unlines (line ∷ ls) s (v, vs) =
    ap lines_of (append_assoc line (b'\n' ∷ unlines ls) s)
    ∙ lines_of-append line (unlines ls ++ s) v
    ∙ ap (◌∷◌ line) (lines_of-unlines ls s vs)

load_lines-append :
    (c d : AppConfig) (n : ℕ) (ls ms : List Bytes)
    → load_lines c n ls ≡ ok d
    → load_lines c n (ls ++ ms) ≡ load_lines d (n + length ls) ms
unfolding load_lines
load_lines-append c d n [] ms h = let is : c ≡ d = cc in ground (arith, is)
load_lines-append c d n (line ∷ ls) ms h = elim (Result-cases (load_line c (n + 1) line)) [
  | inl (m, e) ↦ ground (arith, e, h, load_lines-append m d (n + 1) ls ms)
  | inr (x, e) ↦ ground (arith, e, h)
]

-- The keys of the program.
abbrev pub is_known : Bytes → Bool
is_known k =
    same k (text "listen")
    || same k (text "admin")
    || same k (text "policy")
    || same k (text "backend")
    || same k (text "workers")
    || same k (text "file_limit")
    || same k (text "connect_timeout_ms")
    || same k (text "idle_timeout_ms")
    || same k (text "health_interval_ms")
    || same k (text "health_timeout_ms")
    || same k (text "passive_failure_threshold")

assign_unknown :
    (c : AppConfig) (n : ℕ) (key value : Bytes)
    → is_known key ≡ false
    → assign c n key value
      ≡ err (
          runtime_error (text "unknown config key on line " ++ (to_string n ++ (text ": " ++ key))))
unfolding assign
assign_unknown c n key value h = ground (arith, h)

fault_lem :
    (path : Bytes) (good : List Bytes) (bad rest : Bytes) (c : AppConfig) (x : ConfigError)
    → AreSingle good
    → Absent b'\n' bad
    → load_lines default_config 0 good ≡ ok c
    → load_line c (length good + 1) bad ≡ err x
    → load_config_file path (some (unlines good ++ (bad ++ (b'\n' ∷ rest)))) ≡ err x
unfolding load_config_file
fault_lem path good bad rest c x vs v loaded fails =
    let content = unlines good ++ (bad ++ (b'\n' ∷ rest)) in
    let ls : lines_of content ≡ good ++ (bad ∷ lines_of rest) =
      lines_of-unlines good (bad ++ (b'\n' ∷ rest)) vs
      ∙ ap (◌++◌ good) (lines_of-append bad rest v) in
    let zero_first : 0 + length good ≡ length good = omega arith in
    let stops : load_lines c (length good) (bad ∷ lines_of rest) ≡ err x =
      unfold load_lines in rw fails refl in
    ap (λ r. r >>= has_backends)
      (ap (load_lines default_config 0) ls
        ∙ load_lines-append default_config c 0 good (bad ∷ lines_of rest) loaded
        ∙ ap (λ n. load_lines c n (bad ∷ lines_of rest)) zero_first
        ∙ stops)

-- Behind lines that load, a line `key=value` whose key the program does not know makes
-- `load_config_file` throw a `std::runtime_error` that names this line's number and the key in
-- lower case, whatever follows. Key and value are not empty, have no space at their ends and hold
-- no `#` and no newline, and the key holds no `=`.
pub load_config_file-unknown :
    (path key value rest : Bytes) (good : List Bytes) (c : AppConfig)
    → AreSingle good
    → load_lines default_config 0 good ≡ ok c
    → IsEntry key value
    → Absent b'\n' (line_of key value)
    → is_known (lower key) ≡ false
    → load_config_file path (some (unlines good ++ (line_of key value ++ (b'\n' ∷ rest))))
      ≡ err (
          runtime_error (
            text "unknown config key on line "
            ++ (to_string (length good + 1) ++ (text ": " ++ lower key))))
load_config_file-unknown path key value rest good c vs loaded v one h =
    fault_lem path good (line_of key value) rest c _ vs one loaded (
      load_line-line_of c (length good + 1) key value v
      ∙ assign_unknown c (length good + 1) (lower key) value h)

-- A numeric setting is read from the digits of a positive number below 2^32 whatever follows them,
-- if no digit does, and behind a minus sign it is read as 2^32 less that number.
pub parse_u32_lenient :
    (n : ℕ) (junk : Bytes)
    → 0 < n
    → n < u32_bound
    → starts_digit junk ≡ false
    → (parse_u32 (to_string n ++ junk) ≡ ok n)
      × (parse_u32 (b'-' ∷ (to_string n ++ junk)) ≡ ok (u32_bound - n))
unfolding parse_u32 parse_number
parse_u32_lenient n junk p h k =
    let read = stoul-to_string n junk (omega (arith, h)) k in
    let negated = stoul_minus n junk (omega (arith, h)) k in
    (ground (arith, read), ground (arith, negated))
