-- ===== src/Logger/Formatter.antt =====
-- src/common/Logger.hpp: `JsonFormatter`, and the methods of `Logger` that log at a level.
-- A time is the number of nanoseconds since the epoch. `strftime` is the text of the local time of a number
-- of seconds, by `localtime_r` and the format; `to_string_view` is spdlog's name of a level, and `should_log`
-- says what spdlog lets through once the levels of the logger and its sinks are set.
use purity.Common.{ℕ, ◌-◌, ◌*◌, ◌/◌, Bool, List, [], ◌∷◌, ◌++◌, if◌then◌else◌}
use purity.Logger.{Mdc, log_json, format_with_mdc}
use purity.Logger.Decimal.{decimal, padded}

-- `spdlog::level`
pub data Level : Type 0 where
  trace debug info warn err critical : Level

pub record LogMsg : Type 0 where
  pub time : ℕ
  pub level : Level
  pub thread_id : ℕ
  pub payload : List ℕ

pub record Outside : Type 0 where
  pub strftime : ℕ → List ℕ
  pub to_string_view : Level → List ℕ
  pub should_log : Level → Bool

unfoldable pub seconds : ℕ → ℕ
seconds tp = tp / 1000000000

unfoldable pub ms : ℕ → ℕ
ms tp = tp / 1000000 - seconds tp * 1000

unfoldable pub ns : ℕ → ℕ
ns tp = tp - tp / 1000000 * 1000000

-- "{\"timestamp\":\""
abbrev pub timestamp_key : List ℕ
timestamp_key = 123 ∷ 34 ∷ 116 ∷ 105 ∷ 109 ∷ 101 ∷ 115 ∷ 116 ∷ 97 ∷ 109 ∷ 112 ∷ 34 ∷ 58 ∷ 34 ∷ []

-- "\",\"level\":\"", but for the quote that it begins with.
abbrev pub level_key : List ℕ
level_key = 44 ∷ 34 ∷ 108 ∷ 101 ∷ 118 ∷ 101 ∷ 108 ∷ 34 ∷ 58 ∷ 34 ∷ []

-- "\",\"thread_id\":", but for the quote.
abbrev pub thread_key : List ℕ
thread_key = 44 ∷ 34 ∷ 116 ∷ 104 ∷ 114 ∷ 101 ∷ 97 ∷ 100 ∷ 95 ∷ 105 ∷ 100 ∷ 34 ∷ 58 ∷ []

-- " }\n"
abbrev pub line_end : List ℕ
line_end = 32 ∷ 125 ∷ 10 ∷ []

-- The timestamp: the time, a full stop, and the two numbers behind it.
unfoldable pub timestamp : Outside → ℕ → List ℕ
timestamp t tp = t.strftime (seconds tp) ++ (46 ∷ (padded (ms tp) ++ padded (ns tp)))

unfoldable pub format : Outside → LogMsg → List ℕ
format t msg =
    timestamp_key
    ++ (timestamp t msg.time
        ++ (34
            ∷ (level_key
                ++ (t.to_string_view msg.level
                    ++ (34
                        ∷ (thread_key
                            ++ (decimal msg.thread_id ++ (44 ∷ (msg.payload ++ line_end)))))))))

-- The line that a level and a payload come to, if any: `time` and `thread_id` are the caller's.
unfoldable pub log : Outside → ℕ → ℕ → Level → List ℕ → List ℕ
log t time thread_id level payload =
    if t.should_log level
    then format t (record { time = time; level = level; thread_id = thread_id; payload = payload })
    else []

-- `trace`, `debug`, ..., for the formatted message, and the methods with an `MDC`.
unfoldable pub log_message : Outside → ℕ → ℕ → Level → List ℕ → List ℕ
log_message t time thread_id level message = log t time thread_id level (log_json message)

unfoldable pub log_with_mdc : Outside → ℕ → ℕ → Level → List ℕ → Mdc → List ℕ
log_with_mdc t time thread_id level message mdc =
    log t time thread_id level (format_with_mdc message mdc)
