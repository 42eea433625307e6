-- ===== src/Program/CommandLine.antt =====
-- About the arguments of src/main.cpp.
use tcp_load_balancer.Base.{
  ◌≡◌, refl, sym, ap, ◌∙◌, true, false, List, [], ◌∷◌, ◌++◌, Option, some, arith, append_nil,
}
use tcp_load_balancer.Config.Loader.{load_config_file}
use tcp_load_balancer.Program.{
  help, unknown, path, asks_help, read_arguments, usage, bad_argument, loaded, main, status,
}
use tcp_load_balancer.Text.{Bytes, text, same}

-- `--config` with each of the paths.
abbrev pub configs : List Bytes → List Bytes
configs [] = []
configs (p ∷ ps) = text "--config" ∷ (p ∷ configs ps)

abbrev pub last_of : Bytes → List Bytes → Bytes
last_of p [] = p
last_of p (q ∷ ps) = last_of q ps

read_arguments-configs :
    (p : Bytes) (ps rest : List Bytes)
    → read_arguments p (configs ps ++ rest) ≡ read_arguments (last_of p ps) rest
unfolding read_arguments
read_arguments-configs p [] rest = refl
read_arguments-configs p (q ∷ ps) rest = read_arguments-configs q ps rest

first_lem :
    (p arg : Bytes) (rest : List Bytes)
    → asks_help arg ≡ false
    → same arg (text "--config") ≡ false
    → read_arguments p (arg ∷ rest) ≡ unknown arg
unfolding read_arguments
first_lem p arg [] h k = ground (arith, h)
first_lem p arg (v ∷ rest) h k = ground (arith, h, k)

help_lem :
    (p arg : Bytes) (rest : List Bytes)
    → asks_help arg ≡ true
    → read_arguments p (arg ∷ rest) ≡ help
unfolding read_arguments
help_lem p arg [] h = ground (arith, h)
help_lem p arg (v ∷ rest) h = ground (arith, h)

-- Any number of `--config <path>` loads the file of the last path, or config/backends.conf if there
-- is none. Behind them an argument that asks for help ends the program with the usage, and any
-- other but `--config` ends it with status 2, whatever follows; `--config` without a path does too.
pub main-configs :
    (files : Bytes → Option Bytes) (ps rest : List Bytes) (asking other : Bytes)
    → asks_help asking ≡ true
    → asks_help other ≡ false
    → same other (text "--config") ≡ false
    → let p = last_of (text "config/backends.conf") ps in
      (main files (configs ps) ≡ loaded (load_config_file p (files p)))
      × (main files (configs ps ++ (asking ∷ rest)) ≡ usage)
      × (status (main files (configs ps ++ (other ∷ rest))) ≡ some 2)
      × (main files (configs ps ++ (text "--config" ∷ [])) ≡ bad_argument (text "--config"))
unfolding main
main-configs files ps rest asking other h k l =
    let p = text "config/backends.conf" in
    let none_behind : read_arguments p (configs ps) ≡ path (last_of p ps) =
      ap (read_arguments p) (sym (append_nil (configs ps)))
      ∙ read_arguments-configs p ps []
      ∙ (unfold read_arguments in refl) in
    let asked =
      read_arguments-configs p ps (asking ∷ rest) ∙ help_lem (last_of p ps) asking rest h in
    let others =
      read_arguments-configs p ps (other ∷ rest) ∙ first_lem (last_of p ps) other rest k l in
    let short : read_arguments p (configs ps ++ (text "--config" ∷ []))
        ≡ unknown (text "--config") =
      read_arguments-configs p ps (text "--config" ∷ []) ∙ (unfold read_arguments in refl) in
    (
      ground (arith, none_behind),
      ground (arith, asked),
      ground (arith, others),
      ground (arith, short),
    )
