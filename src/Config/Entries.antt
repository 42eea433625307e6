-- ===== src/Config/Entries.antt =====
-- A configuration written out, one line for each key, and what `load_config_file` of
-- src/config.cpp makes of the lines.
use tcp_load_balancer.Base.{ℕ, ◌+◌, ◌≡◌, refl, sym, ap, ◌∙◌, List, [], ◌∷◌, ◌++◌, append_nil}
use tcp_load_balancer.Base.Results.{ok, err, ◌>>=◌}
use tcp_load_balancer.Config.Lines.{lines_of-append, IsEntry, load_line-entry}
use tcp_load_balancer.Config.Loader.{lines_of, load_line, load_lines, assign}
use tcp_load_balancer.Config.Parser.{Parsed, policy_text, lower}
use tcp_load_balancer.Config.Printer.{endpoint_label}
use tcp_load_balancer.Config.{Endpoint, AppConfig}
use tcp_load_balancer.Text.Searching.{Absent}
use tcp_load_balancer.Text.{Bytes, text, to_string}

abbrev pub Entries : Type 0
Entries = List (Bytes × Bytes)

unfoldable pub backend_entries : List Endpoint → Entries
backend_entries [] = []
backend_entries (e ∷ es) = (text "backend", endpoint_label e) ∷ backend_entries es

-- The keys of a configuration with the texts of their values.
unfoldable pub entries_of : AppConfig → Entries
unfolding backend_entries
entries_of c =
    (text "listen", endpoint_label c.listen)
    ∷ (text "admin", endpoint_label c.admin)
    ∷ (text "policy", policy_text c.policy)
    ∷ (text "workers", to_string c.worker_count)
    ∷ (text "file_limit", to_string c.file_limit)
    ∷ (text "connect_timeout_ms", to_string c.connect_timeout_ms)
    ∷ (text "idle_timeout_ms", to_string c.idle_timeout_ms)
    ∷ (text "health_interval_ms", to_string c.health_interval_ms)
    ∷ (text "health_timeout_ms", to_string c.health_timeout_ms)
    ∷ (text "passive_failure_threshold", to_string c.passive_failure_threshold)
    ∷ backend_entries c.backends

abbrev pub line_of : Bytes → Bytes → Bytes
line_of key value = key ++ (b'=' ∷ value)

unfoldable pub render : Entries → Bytes
render [] = []
render ((key, value) ∷ es) = line_of key value ++ (b'\n' ∷ render es)

-- A key and a value that stand on one line and are read back from it.
pub record IsLine (key value : Bytes) : Type 0 where
  pub entry : IsEntry key value
  pub key_low : lower key ≡ key
  pub one_line : Absent b'\n' (line_of key value)

abbrev pub AreLines : Entries → Type 0
AreLines [] = Unit {0}
AreLines ((key, value) ∷ es) = IsLine key value × AreLines es

unfoldable pub assign_all : AppConfig → ℕ → Entries → Parsed AppConfig
assign_all c n [] = ok c
assign_all c n ((key, value) ∷ es) = assign c (n + 1) key value >>= λ d. assign_all d (n + 1) es

pub load_line-line_of :
    (c : AppConfig) (n : ℕ) (key value : Bytes)
    → IsEntry key value
    → load_line c n (line_of key value) ≡ assign c n (lower key) value
load_line-line_of c n key value v =
    ap (λ (l : Bytes). load_line c n l)
      (ap (λ (s : Bytes). s ++ (b'=' ∷ value)) (sym (append_nil key))
        ∙ ap (λ (s : Bytes). (key ++ []) ++ (b'=' ∷ s)) (sym (append_nil value)))
    ∙ load_line-entry key value v [] [] tt tt [] [] c n tt tt

load_line-line :
    (c : AppConfig) (n : ℕ) (key value : Bytes)
    → IsLine key value
    → load_line c n (line_of key value) ≡ assign c n key value
load_line-line c n key value v =
    load_line-line_of c n key value v.entry ∙ ap (λ k. assign c n k value) v.key_low

pub bind-ap :
    {A B : Type 0} (r s : Parsed A) (f g : A → Parsed B)
    → r ≡ s
    → ((a : A) → f a ≡ g a)
    → (r >>= f) ≡ (s >>= g)
bind-ap r (ok a) f g e h = rw e (h a)
bind-ap r (err x) f g e h = rw e refl

pub load_lines-render :
    (c : AppConfig) (n : ℕ) (es : Entries)
    → AreLines es
    → load_lines c n (lines_of (render es)) ≡ assign_all c n es
unfolding load_lines render assign_all
load_lines-render c n [] v = unfold lines_of in refl
load_lines-render c n ((key, value) ∷ es) (v, vs) =
    ap (load_lines c n) (lines_of-append (line_of key value) (render es) v.one_line)
    ∙ bind-ap _ _ _ _ (load_line-line c (n + 1) key value v)
        (λ d. load_lines-render d (n + 1) es vs)
