-- ===== src/Config/Loader.antt =====
-- src/config.cpp: `load_config_file`.
use tcp_load_balancer.Base.{
  ℕ, ◌+◌, ◌%◌, List, [], ◌∷◌, ◌++◌, Option, none, some, ◌==◌, if◌then◌else◌, take, drop,
}
use tcp_load_balancer.Base.Results.{ok, err, ◌>>=◌}
use tcp_load_balancer.Config.Parser.{
  Parsed, runtime_error, trim, lower, parse_policy, parse_endpoint, parse_number,
}
use tcp_load_balancer.Config.{round_robin, AppConfig}
use tcp_load_balancer.Text.{Bytes, text, same, is_empty, to_string, find_first}

-- The member initializers of `AppConfig`.
abbrev pub default_config : AppConfig
default_config = record {
  listen = record { host = text "0.0.0.0"; port = 9000 };
  admin = record { host = text "127.0.0.1"; port = 9100 };
  policy = round_robin;
  backends = [];
  worker_count = 0;
  file_limit = 25000;
  connect_timeout_ms = 3000;
  idle_timeout_ms = 60000;
  health_interval_ms = 2000;
  health_timeout_ms = 500;
  passive_failure_threshold = 3;
}

-- The lines that `std::getline` gives. A last line without its newline counts, an empty one does not.
abbrev pub put_first : ℕ → List Bytes → List Bytes
put_first c [] = (c ∷ []) ∷ []
put_first c (line ∷ rest) = (c ∷ line) ∷ rest

unfoldable pub lines_of : Bytes → List Bytes
lines_of [] = []
lines_of (c ∷ s) = let rest = lines_of s in if c == b'\n' then [] ∷ rest else put_first c rest

-- The line without what stands behind `#`.
unfoldable pub without_comment : Bytes → Bytes
unfolding find_first
without_comment line = elim (find_first b'#' line) [ none ↦ line | some pos ↦ take pos line ]

abbrev pub u32_of : ℕ → ℕ
u32_of n = n % 4_294_967_296

-- `static_cast<std::uint32_t>(std::stoul(value))`.
unfoldable pub parse_u32 : Bytes → Parsed ℕ
parse_u32 value = parse_number value >>= λ n. ok (u32_of n)

-- The assignment for a key.
unfoldable pub assign : AppConfig → ℕ → Bytes → Bytes → Parsed AppConfig
unfolding parse_u32
assign config line_number key value =
    if same key (text "listen")
    then (parse_endpoint value >>= λ e. ok (record config { listen = e }))
    else if same key (text "admin")
    then (parse_endpoint value >>= λ e. ok (record config { admin = e }))
    else if same key (text "policy")
    then (parse_policy value >>= λ p. ok (record config { policy = p }))
    else if same key (text "backend")
    then (parse_endpoint value >>= λ e. ok (record config { backends = config.backends ++ e ∷ [] }))
    else if same key (text "workers")
    then (parse_u32 value >>= λ n. ok (record config { worker_count = n }))
    else if same key (text "file_limit")
    then (parse_u32 value >>= λ n. ok (record config { file_limit = n }))
    else if same key (text "connect_timeout_ms")
    then (parse_u32 value >>= λ n. ok (record config { connect_timeout_ms = n }))
    else if same key (text "idle_timeout_ms")
    then (parse_u32 value >>= λ n. ok (record config { idle_timeout_ms = n }))
    else if same key (text "health_interval_ms")
    then (parse_u32 value >>= λ n. ok (record config { health_interval_ms = n }))
    else if same key (text "health_timeout_ms")
    then (parse_u32 value >>= λ n. ok (record config { health_timeout_ms = n }))
    else if same key (text "passive_failure_threshold")
    then (parse_u32 value >>= λ n. ok (record config { passive_failure_threshold = n }))
    else err (
        runtime_error
          (text "unknown config key on line " ++ (to_string line_number ++ (text ": " ++ key))))

-- The body of the loop behind the trimming of a line that is not empty.
unfoldable pub load_entry : AppConfig → ℕ → Bytes → Parsed AppConfig
unfolding find_first assign
load_entry config line_number line = elim (find_first b'=' line) [
  | none ↦ err (
      runtime_error (text "invalid config line " ++ (to_string line_number ++ (text ": " ++ line))))
  | some equals ↦
      assign config line_number (lower (trim (take equals line))) (trim (drop (equals + 1) line))
]

unfoldable pub load_line : AppConfig → ℕ → Bytes → Parsed AppConfig
unfolding without_comment load_entry
load_line config line_number raw =
    let line = trim (without_comment raw) in
    if is_empty line then ok config else load_entry config line_number line

-- The loop; `line_number` is the number of the line before.
unfoldable pub load_lines : AppConfig → ℕ → List Bytes → Parsed AppConfig
load_lines config line_number [] = ok config
load_lines config line_number (line ∷ rest) =
    load_line config (line_number + 1) line >>= λ next. load_lines next (line_number + 1) rest

abbrev pub has_backends : AppConfig → Parsed AppConfig
has_backends config = elim config.backends [
  | [] ↦ err (runtime_error (text "config must define at least one backend"))
  | e ∷ rest ↦ ok config
]

-- The file's content, or nothing where it cannot be opened.
unfoldable pub load_config_file : Bytes → Option Bytes → Parsed AppConfig
unfolding load_lines lines_of
load_config_file path none = err (runtime_error (text "failed to open config file: " ++ path))
load_config_file path (some content) =
    load_lines default_config 0 (lines_of content) >>= has_backends
