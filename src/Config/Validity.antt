-- ===== src/Config/Validity.antt =====
-- What a configuration that has been loaded satisfies.
use tcp_load_balancer.Base.{
  ℕ, ◌+◌, ◌<◌, ◌≡◌, refl, Bool, true, false, List, [], ◌∷◌, ◌++◌, Option, none, some, arith,
  if◌then◌else◌, length, Option-cases, inl, inr, take, drop,
}
use tcp_load_balancer.Base.Results.{ok, err, ◌>>=◌, >>=-ok}
use tcp_load_balancer.Config.Endpoints.{IsPrintable, parse_endpoint-IsPrintable}
use tcp_load_balancer.Config.Loader.{
  default_config, assign, load_entry, load_line, load_lines, load_config_file, has_backends,
  parse_u32, u32_of, lines_of, without_comment,
}
use tcp_load_balancer.Config.Parser.{
  Parsed, ConfigError, parse_endpoint, parse_policy, parse_number, trim, lower,
}
use tcp_load_balancer.Config.{Endpoint, AppConfig}
use tcp_load_balancer.Text.{Bytes, find_first, is_empty}

abbrev pub ArePrintable : List Endpoint → Type 0
ArePrintable [] = Unit {0}
ArePrintable (e ∷ es) = IsPrintable e × ArePrintable es

ArePrintable-concat :
    (es : List Endpoint) (e : Endpoint)
    → ArePrintable es
    → IsPrintable e
    → ArePrintable (es ++ e ∷ [])
ArePrintable-concat [] e h k = (k, tt)
ArePrintable-concat (x ∷ es) e h k = (h.0, ArePrintable-concat es e h.1 k)

abbrev pub u32_bound : ℕ
u32_bound = 4_294_967_296

-- The endpoints can be printed, and the numbers have 32 bits.
pub record IsValid (c : AppConfig) : Type 0 where
  pub listen_printable : IsPrintable c.listen
  pub admin_printable : IsPrintable c.admin
  pub backends_printable : ArePrintable c.backends
  pub worker_count_bound : c.worker_count < u32_bound
  pub file_limit_bound : c.file_limit < u32_bound
  pub connect_timeout_bound : c.connect_timeout_ms < u32_bound
  pub idle_timeout_bound : c.idle_timeout_ms < u32_bound
  pub health_interval_bound : c.health_interval_ms < u32_bound
  pub health_timeout_bound : c.health_timeout_ms < u32_bound
  pub threshold_bound : c.passive_failure_threshold < u32_bound

-- Where the result is a configuration, it is valid.
record Fine (r : Parsed AppConfig) : Type 0 where
  fine : (c : AppConfig) → r ≡ ok c → IsValid c

err-Fine : (e : ConfigError) → Fine (err e)
err-Fine e = record { fine = λ c h. cc }

either-Fine : (b : Bool) (x y : Parsed AppConfig) → Fine x → Fine y → Fine (if b then x else y)
either-Fine true x y h k = h
either-Fine false x y h k = k

bind-Fine :
    {A : Type 0} (r : Parsed A) (f : A → AppConfig)
    → ((a : A) → r ≡ ok a → IsValid (f a))
    → Fine (r >>= λ a. ok (f a))
bind-Fine r f h = record {
  fine = λ c e.
      let (a, k, l) = >>=-ok r (λ a. ok (f a)) c e in
      let same_config : f a ≡ c = cc in rw (← same_config) (h a k);
}

parse_u32-lt : (s : Bytes) (n : ℕ) → parse_u32 s ≡ ok n → n < u32_bound
unfolding parse_u32
parse_u32-lt s n h =
    let (m, _, e) = >>=-ok (parse_number s) (λ m. ok (u32_of m)) n h in
    let is : u32_of m ≡ n = cc in omega (arith, is)

assign-Fine : (c : AppConfig) (n : ℕ) (key value : Bytes) → IsValid c → Fine (assign c n key value)
unfolding assign
assign-Fine c n key value v =
    (either-Fine _ _ _
      (bind-Fine (parse_endpoint value) (λ e. record c { listen = e })
        (λ e h. ground (arith, v, parse_endpoint-IsPrintable value e h)))
      (either-Fine _ _ _
        (bind-Fine (parse_endpoint value) (λ e. record c { admin = e })
          (λ e h. ground (arith, v, parse_endpoint-IsPrintable value e h)))
        (either-Fine _ _ _
          (bind-Fine (parse_policy value) (λ p. record c { policy = p }) (λ p h. ground (arith, v)))
          (either-Fine _ _ _
            (bind-Fine (parse_endpoint value) (λ e. record c { backends = c.backends ++ e ∷ [] })
              (λ e h. ground (
                arith,
                v,
                ArePrintable-concat c.backends e v.backends_printable
                    (parse_endpoint-IsPrintable value e h),
              )))
            (either-Fine _ _ _
              (bind-Fine (parse_u32 value) (λ n. record c { worker_count = n })
                (λ n h. ground (arith, v, parse_u32-lt value n h)))
              (either-Fine _ _ _
                (bind-Fine (parse_u32 value) (λ n. record c { file_limit = n })
                  (λ n h. ground (arith, v, parse_u32-lt value n h)))
                (either-Fine _ _ _
                  (bind-Fine (parse_u32 value) (λ n. record c { connect_timeout_ms = n })
                    (λ n h. ground (arith, v, parse_u32-lt value n h)))
                  (either-Fine _ _ _
                    (bind-Fine (parse_u32 value) (λ n. record c { idle_timeout_ms = n })
                      (λ n h. ground (arith, v, parse_u32-lt value n h)))
                    (either-Fine _ _ _
                      (bind-Fine (parse_u32 value) (λ n. record c { health_interval_ms = n })
                        (λ n h. ground (arith, v, parse_u32-lt value n h)))
                      (either-Fine _ _ _
                        (bind-Fine (parse_u32 value) (λ n. record c { health_timeout_ms = n })
                          (λ n h. ground (arith, v, parse_u32-lt value n h)))
                        (either-Fine _ _ _
                          (bind-Fine (parse_u32 value)
                            (λ n. record c { passive_failure_threshold = n })
                            (λ n h. ground (arith, v, parse_u32-lt value n h)))
                          (err-Fine _))))))))))))

load_line-IsValid :
    (c d : AppConfig) (n : ℕ) (raw : Bytes) → IsValid c → load_line c n raw ≡ ok d → IsValid d
unfolding load_line
load_line-IsValid c d n raw v h = of_line (trim (without_comment raw)) h
  where
    of_entry : (line : Bytes) → load_entry c n line ≡ ok d → IsValid d
    of_entry line e = elim (Option-cases (find_first b'=' line)) [
      | inl none_found ↦ ground (arith, e, none_found)
      | inr (pos, found) ↦
          (assign-Fine c n (lower (trim (take pos line))) (trim (drop (pos + 1) line)) v).fine d
            (ground (arith, e, found))
    ]

    of_line :
        (line : Bytes) → (if is_empty line then ok c else load_entry c n line) ≡ ok d → IsValid d
    of_line [] e = let is : c ≡ d = cc in rw (← is) v
    of_line (b ∷ line) e = of_entry (b ∷ line) e

load_lines-IsValid :
    (c d : AppConfig) (n : ℕ) (ls : List Bytes) → IsValid c → load_lines c n ls ≡ ok d → IsValid d
unfolding load_lines
load_lines-IsValid c d n [] v h = let is : c ≡ d = cc in rw (← is) v
load_lines-IsValid c d n (line ∷ ls) v h =
    let (m, first, rest) = >>=-ok (load_line c (n + 1) line) (λ m. load_lines m (n + 1) ls) d h in
    load_lines-IsValid m d (n + 1) ls (load_line-IsValid c m (n + 1) line v first) rest

default_config-IsValid : IsValid default_config
default_config-IsValid = record {
  listen_printable = record { host_solid = refl; port_pos = omega arith; port_bound = omega arith };
  admin_printable = record { host_solid = refl; port_pos = omega arith; port_bound = omega arith };
  backends_printable = tt;
  worker_count_bound = omega arith;
  file_limit_bound = omega arith;
  connect_timeout_bound = omega arith;
  idle_timeout_bound = omega arith;
  health_interval_bound = omega arith;
  health_timeout_bound = omega arith;
  threshold_bound = omega arith;
}

-- A configuration that `load_config_file` returns has at least one backend, endpoints whose hosts
-- are not empty and whose ports lie between 1 and 65535, and numbers below 2^32.
pub load_config_file-IsValid :
    (path : Bytes) (file : Option Bytes) (c : AppConfig)
    → load_config_file path file ≡ ok c
    → IsValid c × (0 < length c.backends)
unfolding load_config_file
load_config_file-IsValid path none c h = cc
load_config_file-IsValid path (some content) c h =
    let (d, loaded, checked) =
      >>=-ok (load_lines default_config 0 (lines_of content)) has_backends c h in
    let v =
      load_lines-IsValid default_config d 0 (lines_of content) default_config-IsValid loaded in
    of_backends d d.backends refl v checked
  where
    of_backends :
        (d : AppConfig) (es : List Endpoint)
        → d.backends ≡ es
        → IsValid d
        → has_backends d ≡ ok c
        → IsValid c × (0 < length c.backends)
    of_backends d [] e v k = ground (arith, e, k)
    of_backends d (x ∷ es) e v k =
        let is : d ≡ c = ground (arith, e, k) in rw (← is) (v, ground (arith, e))
