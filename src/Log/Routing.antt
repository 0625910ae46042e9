-- ===== src/Log/Routing.antt =====
-- Where the lines of gRPC go.
use grpc_push_sdk.Common.{
  ℕ, ◌≡◌, refl, true, ◌&&◌, List, [], ◌∷◌, Option, none, some, arith, is_some, bytes, All,
  All-append, Bool-cases, Option-cases, inl, inr,
}
use grpc_push_sdk.Config.{sdk_log_on_console, sdk_log_enable_grpc}
use grpc_push_sdk.Log.{
  Log, Level, Sink, Spdlog, Loggers, no_loggers, Initialized, log_initialize, init_logger, with_sdk,
  with_grpc, prepared, is_done,
}
use grpc_push_sdk.Log.Output.{
  Line, Written, Severity, to_console, to_file, write_at, level_for, grpc_log_func,
}
use grpc_push_sdk.Log.Registry.{init_all}
use grpc_push_sdk.Types.{TerminalType}
use grpc_push_sdk.Utils.{cut_file_path}

-- grpc_log_func is installed only where it has a logger.
abbrev pub IsSafe : Loggers → Type 0
IsSafe g = g.log_function ≡ true → is_some g.grpc_logger ≡ true

with_sdk-IsSafe :
    (sp : Spdlog) (segment : ℕ) (t : TerminalType) (dir : List ℕ) (g : Loggers) (i : Initialized)
    → IsSafe g
    → IsSafe (with_sdk sp segment t dir g i).0
unfolding with_sdk with_grpc
with_sdk-IsSafe sp segment t dir g (names, l, end) h =
    elim (Bool-cases (is_done end && sdk_log_enable_grpc t)) [
      | inl both ↦ rw both (λ e. refl)
      | inr one ↦ rw one h
    ]

init_logger-IsSafe :
    (sp : Spdlog) (segment : ℕ) (t : TerminalType) (dir : List ℕ) (g : Loggers)
    → IsSafe g
    → IsSafe (init_logger sp segment t dir g).0
unfolding init_logger
init_logger-IsSafe sp segment t dir g h =
    with_sdk-IsSafe sp segment t dir g
      (log_initialize sp segment g.registered
        (prepared segment (bytes "push_sdk") (sdk_log_on_console t) dir))
      h

init_all-IsSafe :
    (sp : Spdlog) (segment : ℕ) (t : TerminalType) (dirs : List (List ℕ)) (g : Loggers)
    → IsSafe g
    → IsSafe (init_all sp segment t dirs g)
init_all-IsSafe sp segment t [] g h = h
init_all-IsSafe sp segment t (dir ∷ dirs) g h =
    init_all-IsSafe sp segment t dirs (init_logger sp segment t dir g).0
      (init_logger-IsSafe sp segment t dir g h)

abbrev pub IsWritten : Level → Line → Written → Type 0
IsWritten level line o = (o.at_level ≡ level) × (o.line ≡ line)

console-All :
    (k : Option Level) (level : Level) (line : Line)
    → All (IsWritten level line) (to_console k level line)
unfolding to_console
console-All none level line = tt
console-All (some k) level line = ((refl, refl), tt)

file-All :
    (k : Option Sink) (level : Level) (line : Line)
    → All (IsWritten level line) (to_file k level line)
unfolding to_file
file-All none level line = tt
file-All (some k) level line = ((refl, refl), tt)

write_at-All :
    (level : Level) (line : Line) (l : Log) → All (IsWritten level line) (write_at level line l)
unfolding write_at
write_at-All level line l =
    All-append (IsWritten level line) (to_console l.console_logger level line)
      (to_file l.file_logger level line) (console-All l.console_logger level line)
      (file-All l.file_logger level line)

-- Whatever calls of init_logger were made, with whatever results: where gRPC calls grpc_log_func, it has
-- a logger to write to, and each thing that it writes has the level for the severity, and the name
-- of the file without its directory.
pub grpc_log_func-All :
    (sp : Spdlog) (segment : ℕ) (t : TerminalType) (dirs : List (List ℕ)) (severity : Severity)
    (path : List ℕ) (number : ℕ) (text : List ℕ)
    → (init_all sp segment t dirs no_loggers).log_function ≡ true
    → (out : List Written) × (grpc_log_func segment severity path number text
          (init_all sp segment t dirs no_loggers).grpc_logger
        ≡ some out)
      × All
          (IsWritten
            (level_for severity)
            (record { file = cut_file_path segment path; number = number; text = text }))
          out
unfolding grpc_log_func
grpc_log_func-All sp segment t dirs severity path number text installed =
    elim (Option-cases (init_all sp segment t dirs no_loggers).grpc_logger) [
      | inl missing ↦ absurd (
          ground (
            arith,
            missing,
            init_all-IsSafe sp segment t dirs no_loggers (λ e. ground arith) installed,
          ))
      | inr (l, e) ↦ (
        write_at (level_for severity)
            (record { file = cut_file_path segment path; number = number; text = text }) l,
        rw e refl,
        write_at-All (level_for severity)
            (record { file = cut_file_path segment path; number = number; text = text }) l,
      )
    ]
