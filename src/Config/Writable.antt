-- ===== src/Config/Writable.antt =====
-- The configurations whose values can stand in the lines of a file that `load_config_file` of
-- src/config.cpp reads.
use tcp_load_balancer.Base.{ℕ, ◌≡◌, refl, Bool, true, false, ◌&&◌, List, [], ◌∷◌, arith, ◌==◌}
use tcp_load_balancer.Config.Endpoints.{IsPrintable, endpoint_label-IsSolid, to_string-IsSolid}
use tcp_load_balancer.Config.Parser.{policy_text, lower}
use tcp_load_balancer.Config.Policies.{policy_text-IsSolid}
use tcp_load_balancer.Config.Printer.{endpoint_label}
use tcp_load_balancer.Config.{
  Endpoint, Policy, round_robin, least_connections, power_of_two_choices, AppConfig,
}
use tcp_load_balancer.Text.Numbers.{to_string-AreDigits}
use tcp_load_balancer.Text.Searching.{
  is_absent, is_absent_lem, Absent, Absent-append, digits-Absent,
}
use tcp_load_balancer.Text.Trimming.{IsSolid, starts_solid, ends_solid}
use tcp_load_balancer.Text.{Bytes, text, to_string, is_digit, same}
use tcp_load_balancer.Text.Equality.{same_eq}
use tcp_load_balancer.Config.Entries.{entries_of, backend_entries, IsLine, AreLines}

-- An endpoint that a line can hold.
pub record IsWritable (e : Endpoint) : Type 0 where
  pub printable : IsPrintable e
  pub host_no_comment : Absent b'#' e.host
  pub host_one_line : Absent b'\n' e.host

abbrev pub AreWritable : List Endpoint → Type 0
AreWritable [] = Unit {0}
AreWritable (e ∷ es) = IsWritable e × AreWritable es

to_string-Absent : (b n : ℕ) → is_digit b ≡ false → Absent b (to_string n)
to_string-Absent b n h = digits-Absent b (to_string n) h (to_string-AreDigits n)

label-Absent :
    (b : ℕ) (e : Endpoint)
    → is_digit b ≡ false
    → (b':' == b) ≡ false
    → Absent b e.host
    → Absent b (endpoint_label e)
unfolding endpoint_label
label-Absent b e h k a =
    Absent-append b e.host (b':' ∷ to_string e.port) a (k, to_string-Absent b e.port h)

-- A key that the program can know.
abbrev is_key : Bytes → Bool
is_key key =
    starts_solid key
    && ends_solid key
    && is_absent b'=' key
    && is_absent b'#' key
    && is_absent b'\n' key
    && same (lower key) key

key-IsLine :
    (key value : Bytes)
    → is_key key ≡ true
    → IsSolid value
    → Absent b'#' value
    → Absent b'\n' value
    → IsLine key value
key-IsLine key value k v a b = record {
  entry = record {
    key_solid = record { starts = ground (arith, k); ends = ground (arith, k) };
    value_solid = v;
    key_plain =
        (is_absent_lem b'=' key (ground (arith, k)), is_absent_lem b'#' key (ground (arith, k)));
    value_plain = a;
  };
  key_low = same_eq (lower key) key (ground (arith, k));
  one_line =
      Absent-append b'\n' key (b'=' ∷ value) (is_absent_lem b'\n' key (ground (arith, k)))
        (refl, b);
}

endpoint-IsLine :
    (key : Bytes) (e : Endpoint) → is_key key ≡ true → IsWritable e → IsLine key (endpoint_label e)
endpoint-IsLine key e k w =
    key-IsLine key (endpoint_label e) k (endpoint_label-IsSolid e w.printable)
      (label-Absent b'#' e refl refl w.host_no_comment)
      (label-Absent b'\n' e refl refl w.host_one_line)

number-IsLine : (key : Bytes) (n : ℕ) → is_key key ≡ true → IsLine key (to_string n)
number-IsLine key n k =
    key-IsLine key (to_string n) k (to_string-IsSolid n) (to_string-Absent b'#' n refl)
      (to_string-Absent b'\n' n refl)

policy-IsLine : (key : Bytes) (p : Policy) → is_key key ≡ true → IsLine key (policy_text p)
policy-IsLine key p k =
    key-IsLine key (policy_text p) k (policy_text-IsSolid p) (plain p).0 (plain p).1
  where
    plain : (p : Policy) → Absent b'#' (policy_text p) × Absent b'\n' (policy_text p)
    plain round_robin = (
      is_absent_lem b'#' (text "round-robin") refl,
      is_absent_lem b'\n' (text "round-robin") refl,
    )
    plain least_connections = (
      is_absent_lem b'#' (text "least-connections") refl,
      is_absent_lem b'\n' (text "least-connections") refl,
    )
    plain power_of_two_choices = (
      is_absent_lem b'#' (text "power-of-two-choices") refl,
      is_absent_lem b'\n' (text "power-of-two-choices") refl,
    )

backends-AreLines : (es : List Endpoint) → AreWritable es → AreLines (backend_entries es)
unfolding backend_entries lower
backends-AreLines [] w = tt
backends-AreLines (e ∷ es) (w, ws) =
    (endpoint-IsLine (text "backend") e refl w, backends-AreLines es ws)

-- The endpoints of the configuration can stand in lines.
pub record AllWritable (c : AppConfig) : Type 0 where
  pub listen_writable : IsWritable c.listen
  pub admin_writable : IsWritable c.admin
  pub backends_writable : AreWritable c.backends

pub entries-AreLines : (c : AppConfig) → AllWritable c → AreLines (entries_of c)
unfolding entries_of lower
entries-AreLines c w = (
  endpoint-IsLine (text "listen") c.listen refl w.listen_writable,
  (
    endpoint-IsLine (text "admin") c.admin refl w.admin_writable,
    (
      policy-IsLine (text "policy") c.policy refl,
      (
        number-IsLine (text "workers") c.worker_count refl,
        (
          number-IsLine (text "file_limit") c.file_limit refl,
          (
            number-IsLine (text "connect_timeout_ms") c.connect_timeout_ms refl,
            (
              number-IsLine (text "idle_timeout_ms") c.idle_timeout_ms refl,
              (
                number-IsLine (text "health_interval_ms") c.health_interval_ms refl,
                (
                  number-IsLine (text "health_timeout_ms") c.health_timeout_ms refl,
                  (
                    number-IsLine (text "passive_failure_threshold") c.passive_failure_threshold
                        refl,
                    backends-AreLines c.backends w.backends_writable,
                  ),
                ),
              ),
            ),
          ),
        ),
      ),
    ),
  ),
)
