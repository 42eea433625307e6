-- ===== src/Config/RoundTrip.antt =====
-- A configuration that is written out and loaded again by `load_config_file` of src/config.cpp.
use tcp_load_balancer.Base.{
  ℕ, ◌+◌, ◌<◌, ◌≡◌, refl, sym, ap, ◌∙◌, List, [], ◌∷◌, ◌++◌, some, arith, length, append_assoc,
  append_nil,
}
use tcp_load_balancer.Base.Results.{ok, ◌>>=◌}
use tcp_load_balancer.Config.Endpoints.{
  IsPrintable, parse_endpoint-endpoint_label, parse_number-to_string,
}
use tcp_load_balancer.Config.Loader.{
  has_backends, default_config, load_config_file, assign, parse_u32,
}
use tcp_load_balancer.Config.Parser.{parse_endpoint, parse_policy, policy_text, lower}
use tcp_load_balancer.Config.Policies.{parse_policy-policy_text}
use tcp_load_balancer.Config.Printer.{endpoint_label}
use tcp_load_balancer.Config.Validity.{IsValid, u32_bound}
use tcp_load_balancer.Config.{
  Endpoint, Policy, round_robin, least_connections, power_of_two_choices, AppConfig,
}
use tcp_load_balancer.Text.{Bytes, to_string}
use tcp_load_balancer.Config.Writable.{AllWritable, AreWritable, entries-AreLines}
use tcp_load_balancer.Config.Entries.{
  backend_entries, entries_of, render, assign_all, load_lines-render,
}

parse_u32-to_string : (n : ℕ) → n < u32_bound → parse_u32 (to_string n) ≡ ok n
unfolding parse_u32
parse_u32-to_string n h = ground (arith, parse_number-to_string n (omega (arith, h)))

parse_label : (e : Endpoint) → IsPrintable e → parse_endpoint (endpoint_label e) ≡ ok e
parse_label e v =
    ap parse_endpoint (sym (append_nil (endpoint_label e)))
    ∙ parse_endpoint-endpoint_label e [] [] v tt tt

lower-policy_text : (p : Policy) → lower (policy_text p) ≡ policy_text p
unfolding lower
lower-policy_text round_robin = refl
lower-policy_text least_connections = refl
lower-policy_text power_of_two_choices = refl

parse_policy_text : (p : Policy) → parse_policy (policy_text p) ≡ ok p
parse_policy_text p =
    ap parse_policy (sym (append_nil (policy_text p)))
    ∙ parse_policy-policy_text p (policy_text p) [] [] (lower-policy_text p) tt tt

assign_backends :
    (c : AppConfig) (n : ℕ) (es : List Endpoint)
    → AreWritable es
    → assign_all c n (backend_entries es) ≡ ok (record c { backends = c.backends ++ es })
unfolding assign_all backend_entries assign
assign_backends c n [] w = rw (append_nil c.backends) refl
assign_backends c n (e ∷ es) (w, ws) = rw (parse_label e w.printable) (
    assign_backends (record c { backends = c.backends ++ e ∷ [] }) (n + 1) es ws
    ∙ ap (λ bs. ok (record c { backends = bs })) (append_assoc c.backends (e ∷ []) es))

assign_entries :
    (c : AppConfig) → IsValid c → AllWritable c → assign_all default_config 0 (entries_of c) ≡ ok c
unfolding assign_all entries_of assign
assign_entries c v w =
    rw
      (
        parse_label c.listen v.listen_printable,
        parse_label c.admin v.admin_printable,
        parse_policy_text c.policy,
        parse_u32-to_string c.worker_count v.worker_count_bound,
        parse_u32-to_string c.file_limit v.file_limit_bound,
        parse_u32-to_string c.connect_timeout_ms v.connect_timeout_bound,
        parse_u32-to_string c.idle_timeout_ms v.idle_timeout_bound,
        parse_u32-to_string c.health_interval_ms v.health_interval_bound,
        parse_u32-to_string c.health_timeout_ms v.health_timeout_bound,
        parse_u32-to_string c.passive_failure_threshold v.threshold_bound,
      )
      (assign_backends (record c { backends = [] }) 10 c.backends w.backends_writable)

-- A valid configuration with at least one backend, in whose hosts no `#` and no newline stands, is
-- loaded back from its text, which has one line for each key and one for each backend.
pub load_config_file-render :
    (path : Bytes) (c : AppConfig)
    → IsValid c
    → AllWritable c
    → 0 < length c.backends
    → load_config_file path (some (render (entries_of c))) ≡ ok c
unfolding load_config_file
load_config_file-render path c v w h =
    ap (λ r. r >>= has_backends)
      (load_lines-render default_config 0 (entries_of c) (entries-AreLines c w)
        ∙ assign_entries c v w)
    ∙ of_backends c c.backends refl h
  where
    of_backends :
        (c : AppConfig) (es : List Endpoint)
        → c.backends ≡ es
        → 0 < length es
        → has_backends c ≡ ok c
    of_backends c [] e h = elim h [ ]
    of_backends c (x ∷ es) e h = ground (arith, e)
