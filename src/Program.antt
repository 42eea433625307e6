-- ===== src/Program.antt =====
-- src/main.cpp: the arguments of the program, up to the start of the server.
pub mod CommandLine
use tcp_load_balancer.Base.Results.{Result, ok, err}
use tcp_load_balancer.Base.{ℕ, Bool, true, false, ◌||◌, List, [], ◌∷◌, Option, if◌then◌else◌}
use tcp_load_balancer.Config.Loader.{load_config_file}
use tcp_load_balancer.Config.Parser.{ConfigError, Parsed}
use tcp_load_balancer.Config.{AppConfig}
use tcp_load_balancer.Text.{Bytes, text, same}

-- What the loop over the arguments ends with: the usage is asked for, an argument is not taken, or
-- the path of the configuration.
pub data Arguments : Type 0 where
  help : Arguments
  unknown path : Bytes → Arguments

abbrev pub asks_help : Bytes → Bool
asks_help arg = same arg (text "--help") || same arg (text "-h")

-- The loop from an argument on, with the path so far.
unfoldable pub read_arguments : Bytes → List Bytes → Arguments
read_arguments config_path [] = path config_path
read_arguments config_path (arg ∷ []) = if asks_help arg then help else unknown arg
read_arguments config_path (arg ∷ (value ∷ rest)) =
    let later = read_arguments value rest in
    if asks_help arg then help else if same arg (text "--config") then later else unknown arg

-- How the program starts: it ends with a status, or it runs the server with the configuration.
pub data Start : Type 0 where
  usage : Start
  bad_argument : Bytes → Start
  fatal : ConfigError → Start
  serves : AppConfig → Start

abbrev pub loaded : Parsed AppConfig → Start
loaded (err e) = fatal e
loaded (ok config) = serves config

-- `main` without the program's name; `files` gives the content of a file that can be opened.
unfoldable pub main : (Bytes → Option Bytes) → List Bytes → Start
unfolding read_arguments load_config_file
main files args = elim (read_arguments (text "config/backends.conf") args) [
  | help ↦ usage
  | unknown arg ↦ bad_argument arg
  | path p ↦ loaded (load_config_file p (files p))
]

-- The status that the program ends with, if it does not run the server.
abbrev pub status : Start → Option ℕ
status usage = Option.some 0
status (bad_argument arg) = Option.some 2
status (fatal e) = Option.some 1
status (serves config) = Option.none
