-- ===== src/Examples/Shell.antt =====
-- Tests of the arguments and of the logger, and the theorems on them at concrete inputs.
use tcp_load_balancer.Base.{◌≡◌, refl, [], ◌∷◌, ◌++◌, Option, none, some, arith}
use tcp_load_balancer.Config.Loader.{load_config_file}
use tcp_load_balancer.Config.Parser.{runtime_error}
use tcp_load_balancer.Json.Shapes.{size}
use tcp_load_balancer.Json.{read_value}
use tcp_load_balancer.Logger.Lines.{told, log-read}
use tcp_load_balancer.Logger.{debug, info, warn, log}
use tcp_load_balancer.Program.CommandLine.{configs, main-configs}
use tcp_load_balancer.Program.{main, usage, bad_argument, fatal, loaded, status}
use tcp_load_balancer.Text.Searching.{Absent}
use tcp_load_balancer.Text.{Bytes, text}

abbrev no_files : Bytes → Option Bytes
no_files p = none

default_path :
    main no_files []
    ≡ fatal (runtime_error (text "failed to open config file: config/backends.conf"))
unfolding main
default_path = refl

quiet_debug : log info [] debug (text "x") ≡ []
unfolding log
quiet_debug = refl

main-configs_example :
    (main no_files (configs (text "a" ∷ text "b" ∷ [])) ≡ loaded (load_config_file (text "b") none))
    × (main no_files (configs (text "a" ∷ text "b" ∷ []) ++ (text "-h" ∷ [])) ≡ usage)
    × (status (main no_files (configs (text "a" ∷ text "b" ∷ []) ++ (text "-v" ∷ []))) ≡ some 2)
    × (main no_files (configs (text "a" ∷ text "b" ∷ []) ++ (text "--config" ∷ []))
        ≡ bad_argument (text "--config"))
main-configs_example =
    main-configs no_files (text "a" ∷ text "b" ∷ []) [] (text "-h") (text "-v") refl refl refl

log-read_example :
    (line : Bytes) × (log info (text "T") warn (text "hi") ≡ line ++ text "\n")
    × Absent b'\n' line
    × (read_value (size (told (text "T") warn (text "hi"))) line
        ≡ some (told (text "T") warn (text "hi"), []))
log-read_example =
    log-read info warn (text "T") (text "hi") (refl, tt) (refl, (refl, tt)) refl refl (omega arith)
