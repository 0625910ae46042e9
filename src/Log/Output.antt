-- ===== src/Log/Output.antt =====
-- What the methods of Log, the macros of log.h and grpc_log_func write.
use grpc_push_sdk.Common.{ℕ, List, [], ◌∷◌, ◌++◌, Option, none, some}
use grpc_push_sdk.Log.{Level, Log, Sink, Loggers}
use grpc_push_sdk.Utils.{cut_file_path}

-- A line with where it is from. spdlog formats it, and filters it by the level of the logger.
pub record Line : Type 0 where
  pub file : List ℕ
  pub number : ℕ
  pub text : List ℕ

-- A call on a logger of spdlog, the console's or that of a file.
pub record Written : Type 0 where
  pub to : Option (List ℕ)
  pub at_level : Level
  pub line : Line

unfoldable pub to_console : Option Level → Level → Line → List Written
to_console none level line = []
to_console (some l) level line = record { to = none; at_level = level; line = line } ∷ []

unfoldable pub to_file : Option Sink → Level → Line → List Written
to_file none level line = []
to_file (some k) level line = record { to = some k.path; at_level = level; line = line } ∷ []

-- Trace, Debug, Info, Warn, Error and Critical, which differ in the level.
unfoldable pub write_at : Level → Line → Log → List Written
unfolding to_console to_file
write_at level line l = to_console l.console_logger level line ++ to_file l.file_logger level line

-- log_e, log_t, log_i, log_w, log_c and log_d: nothing without a logger.
unfoldable pub log_macro : ℕ → Level → List ℕ → ℕ → List ℕ → Option Log → List Written
log_macro segment level path number text none = []
log_macro segment level path number text (some l) =
    write_at level (record { file = cut_file_path segment path; number = number; text = text }) l

-- gpr_log_severity.
pub data Severity : Type 0 where
  debug info error : Severity

abbrev pub level_for : Severity → Level
level_for Severity.debug = Level.debug
level_for Severity.info = Level.info
level_for Severity.error = Level.err

-- grpc_log_func; `none` is the null pointer that it does not test for.
unfoldable pub grpc_log_func :
    ℕ → Severity → List ℕ → ℕ → List ℕ → Option Log → Option (List Written)
grpc_log_func segment severity path number text none = none
grpc_log_func segment severity path number text (some l) =
    let line : Line = record { file = cut_file_path segment path; number = number; text = text } in
    some (write_at (level_for severity) line l)

-- Flush and flush_logger: the files that spdlog is told to flush, in order.
abbrev pub flush : Log → List Sink
flush l = elim l.file_logger [ none ↦ [] | some k ↦ k ∷ [] ]

abbrev flush_of : Option Log → List Sink
flush_of none = []
flush_of (some l) = flush l

unfoldable pub flush_logger : Loggers → List Sink
flush_logger g = flush_of g.sdk_logger ++ flush_of g.grpc_logger
