-- ===== src/Logs.antt =====
-- The logs: log.go of the package gocs, and the same in core/utils.go, each with a level of its own.
-- A message is its text behind fmt.Sprintf; what is written is a list of lines, oldest first.
use mathlib.Core.List.{append_assoc}
use gocs.Prelude.{ℕ, ◌≡◌, ◌∙◌, ap, sym, refl, List, [], ◌∷◌, ◌++◌, Bytes, codes, if◌then◌else◌, ltb}
use gocs.GoText.Decimal.{ℤ, pos, negsuc}

pub data Severity : Type 0 where
  debug info warn error : Severity

-- LogLevelDebug, LogLevelInfo, LogLevelWarn and LogLevelError.
abbrev pub log_level_of : Severity → ℕ
log_level_of debug = 40
log_level_of info = 30
log_level_of warn = 20
log_level_of error = 10

abbrev pub prefix_of : Severity → Bytes
prefix_of debug = codes "D "
prefix_of info = codes "I "
prefix_of warn = codes "W "
prefix_of error = codes "E "

-- `logLevel` as it is declared.
abbrev pub default_level : ℕ
default_level = log_level_of info

-- SetLogLevel
unfoldable pub set_log_level : ℤ → ℕ → ℕ
set_log_level (pos n) level = if ltb 0 n then n else level
set_log_level (negsuc n) level = level

-- DebugLog, InfoLog, WarnLog and ErrorLog: the line that is written at this level, if any.
unfoldable pub log_line : Severity → Bytes → ℕ → List Bytes
log_line severity text level =
    if ltb level (log_level_of severity) then [] else (prefix_of severity ++ text) ∷ []

-- A call to the log of a package.
pub data Call : Type 0 where
  sets : ℤ → Call
  logs : Severity → Bytes → Call

-- The lines of these calls, from this level on.
pub run : List Call → ℕ → List Bytes
unfolding set_log_level log_line
run [] level = []
run (sets l ∷ calls) level = run calls (set_log_level l level)
run (logs severity text ∷ calls) level = log_line severity text level ++ run calls level

-- The level behind these calls: the last positive one that was set.
pub level_after : List Call → ℕ → ℕ
unfolding set_log_level
level_after [] level = level
level_after (sets l ∷ calls) level = level_after calls (set_log_level l level)
level_after (logs severity text ∷ calls) level = level_after calls level

-- Further calls write their lines behind those of the first ones, at the level that these have left.
pub run-append :
    (calls later : List Call) (level : ℕ)
    → run (calls ++ later) level ≡ run calls level ++ run later (level_after calls level)
unfolding run level_after
run-append [] later level = refl
run-append (sets l ∷ calls) later level = run-append calls later (set_log_level l level)
run-append (logs severity text ∷ calls) later level =
    ap (λ lines. log_line severity text level ++ lines) (run-append calls later level)
    ∙ sym (
        append_assoc (log_line severity text level) (run calls level)
          (run later (level_after calls level)))
