-- ===== src/Config/Parser.antt =====
-- src/config.cpp: `trim`, `lower`, `parse_policy`, `to_string` and `parse_endpoint`.
use tcp_load_balancer.Base.{
  ℕ, ◌+◌, ◌%◌, Bool, true, ◌||◌, ◌++◌, map, Option, none, some, ltb, leb, ◌==◌, if◌then◌else◌,
  length, take, drop,
}
use tcp_load_balancer.Base.Results.{Result, ok, err, ◌>>=◌}
use tcp_load_balancer.Config.{
  Endpoint, Policy, round_robin, least_connections, power_of_two_choices,
}
use tcp_load_balancer.Text.{
  Bytes, text, same, to_lower, trim_start, trim_end, find_last, stoul, StoulError, number, refused,
}

-- What the parser throws: with its text where the text is the program's, or from `std::stoul`.
pub data ConfigError : Type 0 where
  invalid_argument runtime_error : Bytes → ConfigError
  stoul_error : StoulError → ConfigError

abbrev pub Parsed : Type 0 → Type 0
Parsed A = Result ConfigError A

unfoldable pub trim : Bytes → Bytes
unfolding trim_start trim_end
trim value = trim_end (trim_start value)

unfoldable pub lower : Bytes → Bytes
lower value = map to_lower value

-- `normalized == a || normalized == b || normalized == c`.
abbrev pub is_one_of : Bytes → Bytes → Bytes → Bytes → Bool
is_one_of s a b c = same s a || same s b || same s c

unfoldable pub policy_named : Bytes → Option Policy
policy_named s =
    if is_one_of s (text "round-robin") (text "round_robin") (text "rr")
    then some round_robin
    else if is_one_of s (text "least-connections") (text "least_connections") (text "lc")
    then some least_connections
    else if is_one_of s (text "power-of-two-choices") (text "power_of_two_choices") (text "p2c")
    then some power_of_two_choices
    else none

unfoldable pub parse_policy : Bytes → Parsed Policy
unfolding trim lower policy_named
parse_policy value = elim (policy_named (lower (trim value))) [
  | none ↦ err (invalid_argument (text "unknown scheduling policy: " ++ value))
  | some policy ↦ ok policy
]

abbrev pub policy_text : Policy → Bytes
policy_text round_robin = text "round-robin"
policy_text least_connections = text "least-connections"
policy_text power_of_two_choices = text "power-of-two-choices"

-- `std::stoul`, which throws errors of its own.
unfoldable pub parse_number : Bytes → Parsed ℕ
unfolding stoul
parse_number s = elim (stoul s) [ number n ↦ ok n | refused e ↦ err (stoul_error e) ]

-- The test on the colon's position: `npos`, at the start, or at the end.
abbrev pub has_no_parts : Option ℕ → Bytes → Bool
has_no_parts none input = true
has_no_parts (some pos) input = pos == 0 || leb (length input) (pos + 1)

abbrev pub position : Option ℕ → ℕ
position none = 0
position (some pos) = pos

-- `parse_endpoint` behind the port's conversion.
unfoldable pub checked_endpoint : Bytes → Bytes → ℕ → ℕ → Parsed Endpoint
checked_endpoint value input pos port_number =
    if port_number == 0 || ltb 65535 port_number
    then err (invalid_argument (text "port out of range in endpoint: " ++ value))
    else ok (record { host = take pos input; port = port_number % 65536 })

unfoldable pub parse_endpoint : Bytes → Parsed Endpoint
unfolding trim find_last parse_number checked_endpoint
parse_endpoint value =
    let input = trim value in
    let colon = find_last b':' input in
    let pos = position colon in
    if has_no_parts colon input
    then err (invalid_argument (text "endpoint must be host:port: " ++ value))
    else (parse_number (drop (pos + 1) input) >>= checked_endpoint value input pos)
