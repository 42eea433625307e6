-- ===== src/Logger.antt =====
-- src/logger.cpp: what `log` writes. The text of the time is an argument.
pub mod Lines
use tcp_load_balancer.Base.{ℕ, Bool, List, [], ◌∷◌, ◌++◌, ltb, if◌then◌else◌}
use tcp_load_balancer.Report.{joined}
use tcp_load_balancer.Text.{Bytes, text}

pub data LogLevel : Type 0 where
  debug info warn error : LogLevel

-- `static_cast<int>(level)`.
abbrev pub rank : LogLevel → ℕ
rank debug = 0
rank info = 1
rank warn = 2
rank error = 3

abbrev pub label : LogLevel → Bytes
label debug = text "DEBUG"
label info = text "INFO"
label warn = text "WARN"
label error = text "ERROR"

-- `min_level` before and behind a call of `set_log_level`.
abbrev pub min_level : LogLevel
min_level = info

abbrev pub set_log_level : LogLevel → LogLevel → LogLevel
set_log_level level least = level

unfoldable pub log_line : Bytes → LogLevel → Bytes → Bytes
log_line timestamp level message = joined (
    text "{\"ts\":\""
    ∷ timestamp
    ∷ text "\",\"level\":\""
    ∷ label level
    ∷ text "\",\"message\":\""
    ∷ message
    ∷ text "\"}\n"
    ∷ [])

-- What a call writes, where `least` is `min_level`.
unfoldable pub log : LogLevel → Bytes → LogLevel → Bytes → Bytes
unfolding log_line
log least timestamp level message =
    if ltb (rank level) (rank least) then [] else log_line timestamp level message
