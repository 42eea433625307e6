-- ===== src/Examples/Files.antt =====
-- Tests of the configuration's parser, and the theorems on it at concrete inputs.
use tcp_load_balancer.Base.{◌-◌, ◌<◌, ◌≡◌, refl, [], ◌∷◌, ◌++◌, some, arith, length}
use tcp_load_balancer.Base.Results.{ok, err}
use tcp_load_balancer.Config.Endpoints.{
  IsPrintable, parse_endpoint-endpoint_label, parse_endpoint-IsPrintable,
}
use tcp_load_balancer.Config.Writable.{AllWritable}
use tcp_load_balancer.Config.Entries.{entries_of, render, line_of}
use tcp_load_balancer.Config.Faults.{
  Notes, with_notes, without_notes, unlines, load_config_file-notes, load_config_file-unknown,
  parse_u32_lenient,
}
use tcp_load_balancer.Config.Loader.{load_line, load_config_file, default_config, parse_u32}
use tcp_load_balancer.Config.Parser.{
  parse_number, trim, lower, parse_policy, parse_endpoint, runtime_error, invalid_argument,
  stoul_error,
}
use tcp_load_balancer.Config.Printer.{endpoint_label}
use tcp_load_balancer.Config.RoundTrip.{load_config_file-render}
use tcp_load_balancer.Config.Lines.{IsEntry}
use tcp_load_balancer.Text.Searching.{is_absent_lem}
use tcp_load_balancer.Config.Validity.{IsValid, u32_bound, load_config_file-IsValid}
use tcp_load_balancer.Config.{Endpoint, AppConfig, least_connections, power_of_two_choices}
use tcp_load_balancer.Text.{text, to_string, no_conversion}

policy_short : parse_policy (text " P2C\t") ≡ ok power_of_two_choices
unfolding parse_policy
policy_short = refl

policy_unknown :
    parse_policy (text "random") ≡ err (invalid_argument (text "unknown scheduling policy: random"))
unfolding parse_policy
policy_unknown = refl

endpoint_six : parse_endpoint (text "::1:80") ≡ ok (record { host = text "::1"; port = 80 })
unfolding parse_endpoint
endpoint_six = refl

endpoint_no_port :
    parse_endpoint (text "host:")
    ≡ err (invalid_argument (text "endpoint must be host:port: host:"))
unfolding parse_endpoint
endpoint_no_port = refl

endpoint_large :
    parse_endpoint (text "host:65536")
    ≡ err (invalid_argument (text "port out of range in endpoint: host:65536"))
unfolding parse_endpoint
endpoint_large = refl

endpoint_word : parse_endpoint (text "host:http") ≡ err (stoul_error no_conversion)
unfolding parse_endpoint
endpoint_word = refl

abbrev small : AppConfig
small = record default_config {
  policy = least_connections;
  backends = record { host = text "a"; port = 80 } ∷ [];
  worker_count = 3;
}

small_loaded :
    load_config_file [] (some (text "# pool\n\n policy = LC # least\nbackend = a:80\nworkers=3"))
    ≡ ok small
unfolding load_config_file load_line trim lower parse_policy parse_endpoint
small_loaded = refl

no_backends :
    load_config_file [] (some [])
    ≡ err (runtime_error (text "config must define at least one backend"))
unfolding load_config_file
no_backends = refl

no_equals :
    load_config_file [] (some (text "\nworkers 3"))
    ≡ err (runtime_error (text "invalid config line 2: workers 3"))
unfolding load_config_file load_line trim to_string
no_equals = refl

abbrev six : Endpoint
six = record { host = text "::1"; port = 8080 }

six-IsPrintable : IsPrintable six
six-IsPrintable = record { host_solid = refl; port_pos = omega arith; port_bound = omega arith }

parse_endpoint-endpoint_label_example :
    parse_endpoint (text "  " ++ (endpoint_label six ++ text " ")) ≡ ok six
parse_endpoint-endpoint_label_example =
    parse_endpoint-endpoint_label six (text "  ") (text " ") six-IsPrintable (refl, (refl, tt))
      (refl, tt)

parse_endpoint-IsPrintable_example : IsPrintable (record { host = text "::1"; port = 80 })
parse_endpoint-IsPrintable_example =
    parse_endpoint-IsPrintable (text "::1:80") (record { host = text "::1"; port = 80 })
      endpoint_six

load_config_file-IsValid_example : IsValid small × (0 < length small.backends)
load_config_file-IsValid_example =
    load_config_file-IsValid []
      (some (text "# pool\n\n policy = LC # least\nbackend = a:80\nworkers=3")) small small_loaded

small-AllWritable : AllWritable small
small-AllWritable = record {
  listen_writable = record {
    printable = load_config_file-IsValid_example.0.listen_printable;
    host_no_comment = is_absent_lem b'#' (text "0.0.0.0") refl;
    host_one_line = is_absent_lem b'\n' (text "0.0.0.0") refl;
  };
  admin_writable = record {
    printable = load_config_file-IsValid_example.0.admin_printable;
    host_no_comment = is_absent_lem b'#' (text "127.0.0.1") refl;
    host_one_line = is_absent_lem b'\n' (text "127.0.0.1") refl;
  };
  backends_writable = (
    record {
      printable = load_config_file-IsValid_example.0.backends_printable.0;
      host_no_comment = is_absent_lem b'#' (text "a") refl;
      host_one_line = is_absent_lem b'\n' (text "a") refl;
    },
    tt,
  );
}

load_config_file-render_example :
    load_config_file (text "backends.conf") (some (render (entries_of small))) ≡ ok small
load_config_file-render_example =
    load_config_file-render (text "backends.conf") small load_config_file-IsValid_example.0
      small-AllWritable (omega arith)

abbrev noted : Notes
noted =
    ([], text " the pool") ∷ (text "backend = a:80 ", text " first") ∷ (text "speed = 3", []) ∷ []

load_config_file-notes_example :
    load_config_file (text "backends.conf") (some (with_notes noted))
    ≡ load_config_file (text "backends.conf") (some (without_notes noted))
load_config_file-notes_example = load_config_file-notes (text "backends.conf") noted (
  tt,
  tt,
  is_absent_lem b'\n' (text " the pool") refl,
  (
    is_absent_lem b'#' (text "backend = a:80 ") refl,
    is_absent_lem b'\n' (text "backend = a:80 ") refl,
    is_absent_lem b'\n' (text " first") refl,
    (
      is_absent_lem b'#' (text "speed = 3") refl,
      is_absent_lem b'\n' (text "speed = 3") refl,
      tt,
      tt,
    ),
  ),
)

speed-IsEntry : IsEntry (text "Speed") (text "3")
speed-IsEntry = record {
  key_solid = record { starts = refl; ends = refl };
  value_solid = record { starts = refl; ends = refl };
  key_plain = (is_absent_lem b'=' (text "Speed") refl, is_absent_lem b'#' (text "Speed") refl);
  value_plain = is_absent_lem b'#' (text "3") refl;
}

load_config_file-unknown_example :
    load_config_file [] (
      some (
        unlines (text "workers=3" ∷ [])
        ++ (line_of (text "Speed") (text "3") ++ (b'\n' ∷ text "policy=none"))))
    ≡ err (
        runtime_error
          (text "unknown config key on line " ++ (to_string 2 ++ (text ": " ++ text "speed"))))
unfolding lower
load_config_file-unknown_example =
    load_config_file-unknown [] (text "Speed") (text "3") (text "policy=none")
      (text "workers=3" ∷ []) (record default_config { worker_count = 3 })
      (is_absent_lem b'\n' (text "workers=3") refl, tt)
      (unfold load_config_file load_line trim lower parse_u32 parse_number in refl) speed-IsEntry
      (is_absent_lem b'\n' (text "Speed=3") refl) (unfold lower in refl)

parse_u32_lenient_example :
    (parse_u32 (to_string 12 ++ text "ms") ≡ ok 12)
    × (parse_u32 (b'-' ∷ (to_string 12 ++ text "ms")) ≡ ok (u32_bound - 12))
parse_u32_lenient_example = parse_u32_lenient 12 (text "ms") (omega arith) (omega arith) refl
