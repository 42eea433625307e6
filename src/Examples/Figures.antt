-- ===== src/Examples/Figures.antt =====
-- The theorem on the statistics at a concrete input.
use tcp_load_balancer.Base.{ℕ, ◌-◌, ◌/◌, ◌≡◌, [], some, done, refl}
use tcp_load_balancer.Examples.Process.{busy, busy-IsReady}
use tcp_load_balancer.Json.Grammar.{to_string-is_number}
use tcp_load_balancer.Json.Shapes.{size}
use tcp_load_balancer.Json.{read_value}
use tcp_load_balancer.Report.Statistics.{stats_json-read}
use tcp_load_balancer.Report.Values.{stats_value}
use tcp_load_balancer.Report.{stats_json, ns_per_second}
use tcp_load_balancer.Scheduler.{down}
use tcp_load_balancer.Text.{Bytes, to_string}

-- The quotient, rounded down.
abbrev rounded : ℕ → ℕ → Bytes
rounded m n = to_string (m / n)

stats_json-read_example :
    let told = stats_value rounded ((7_000_000_000 - 100) / ns_per_second) (busy down) in
    (s : Bytes) × (stats_json rounded 7_000_000_000 (busy down) ≡ done s (busy down))
    × (read_value (size told) s ≡ some (told, []))
stats_json-read_example =
    stats_json-read rounded 7_000_000_000 (busy down) (busy-IsReady down)
      (λ m n. to_string-is_number (m / n)) refl (refl, (refl, tt))
