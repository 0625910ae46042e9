-- ===== src/Log.antt =====
-- src/common/log.cpp and log.h over spdlog, which is not part of the repository.
pub mod Registry
pub mod Output
pub mod Routing
pub mod Destinations
use grpc_push_sdk.Common.{
  ℕ, ◌+◌, Bool, true, false, ◌&&◌, ◌||◌, List, [], ◌∷◌, ◌++◌, Option, none, some, ◌==◌, leb,
  if◌then◌else◌, bytes,
}
use grpc_push_sdk.Config.{sdk_log_on_console, grpc_log_on_console, sdk_log_enable_grpc, log_level}
use grpc_push_sdk.Types.{RetCode, TerminalType}

pub data Level : Type 0 where
  trace debug info warn err critical : Level

-- What a call that makes a logger does.
pub data Created : Type 0 where
  made null_pointer throws : Created

-- spdlog: what its two makers do, given the names that are registered, the name, and the path. `stamp`
-- is strftime at the time of the call.
pub record Spdlog : Type 0 where
  pub stdout_color_mt : List (List ℕ) → List ℕ → Created
  pub basic_logger_mt : List (List ℕ) → List ℕ → List ℕ → Created
  pub stamp : List ℕ → List ℕ

-- A logger of spdlog: its level, and the path of its file.
pub record Sink : Type 0 where
  pub level : Level
  pub path : List ℕ

-- The class Log; its format never changes. The console's logger has no path.
pub record Log : Type 0 where
  pub file_logger : Option Sink
  pub console_logger : Option Level
  pub on_console : Bool
  pub level : Level
  pub dir : List ℕ
  pub logger_name : List ℕ

unfoldable pub new_log : List ℕ → Log
new_log name = record {
  file_logger = none;
  console_logger = none;
  on_console = false;
  level = Level.trace;
  dir = [];
  logger_name = name;
}

abbrev pub log_on_console : Bool → Log → Log
log_on_console v l = record l { on_console = v }

-- Whether the last byte is the separator, and the text without its last byte.
unfoldable pub ends_in : ℕ → List ℕ → Bool
ends_in segment [] = false
ends_in segment (c ∷ []) = c == segment
ends_in segment (c ∷ d ∷ s) = ends_in segment (d ∷ s)

unfoldable pub drop_last : List ℕ → List ℕ
drop_last [] = []
drop_last (c ∷ []) = []
drop_last (c ∷ d ∷ s) = c ∷ drop_last (d ∷ s)

unfoldable pub set_output_dir : ℕ → List ℕ → Log → Log
set_output_dir segment [] l = l
set_output_dir segment (c ∷ s) l =
    let dir = c ∷ s in record l { dir = if ends_in segment dir then drop_last dir else dir }

-- strcasecmp, equal: ASCII letters without their case.
abbrev to_lower : ℕ → ℕ
to_lower c = if leb b'A' c && leb c b'Z' then c + 32 else c

unfoldable pub same_text : List ℕ → List ℕ → Bool
same_text [] [] = true
same_text (c ∷ s) (d ∷ t) = to_lower c == to_lower d && same_text s t
same_text _ _ = false

unfoldable pub level_of : List ℕ → Level
level_of s =
    if same_text s (bytes "trace")
    then Level.trace
    else if same_text s (bytes "debug")
    then Level.debug
    else if same_text s (bytes "info")
    then Level.info
    else if same_text s (bytes "warn")
    then Level.warn
    else if same_text s (bytes "error")
    then Level.err
    else if same_text s (bytes "critical")
    then Level.critical
    else Level.trace

abbrev pub set_log_level : List ℕ → Log → Log
set_log_level s l = record l { level = level_of s }

-- How Log::Initialize ends: with PS_RET_SUCCESS, with PS_RET_INIT_LOG_FAILED, or by an exception.
pub data Status : Type 0 where
  done failed thrown : Status

-- The names that are registered, the log, and the end.
abbrev pub Initialized : Type 0
Initialized = List (List ℕ) × Log × Status

with_console : Created → List (List ℕ) → Log → Initialized
with_console Created.made names l =
    (names ++ l.logger_name ∷ [], record l { console_logger = some l.level }, Status.done)
with_console Created.null_pointer names l =
    (names, record l { console_logger = none }, Status.failed)
with_console Created.throws names l = (names, l, Status.thrown)

abbrev pub file_name : List ℕ → List ℕ
file_name name = name ++ bytes "_f"

with_file : Created → List ℕ → List (List ℕ) → Log → Initialized
with_file Created.made path names l = (
  names ++ file_name l.logger_name ∷ [],
  record l { file_logger = some (record { level = l.level; path = path }) },
  Status.done,
)
with_file Created.null_pointer path names l =
    (names, record l { file_logger = none }, Status.failed)
with_file Created.throws path names l = (names, l, Status.thrown)

module _ (sp : Spdlog) (segment : ℕ) where
  unfoldable pub log_path : Log → List ℕ
  log_path l = l.dir ++ segment ∷ sp.stamp (l.logger_name ++ bytes "-%Y-%m-%d") ++ bytes ".log"

  with_dir : List ℕ → List (List ℕ) → Log → Initialized
  unfolding with_file
  with_dir [] names l = (names, l, Status.done)
  with_dir (c ∷ s) names l =
      with_file (sp.basic_logger_mt names (file_name l.logger_name) (log_path l)) (log_path l) names
        l

  then_file : Initialized → Initialized
  unfolding with_dir
  then_file (names, l, Status.done) = with_dir l.dir names l
  then_file (names, l, Status.failed) = (names, l, Status.failed)
  then_file (names, l, Status.thrown) = (names, l, Status.thrown)

  start : Bool → List (List ℕ) → Log → Initialized
  unfolding with_console
  start true names l = with_console (sp.stdout_color_mt names l.logger_name) names l
  start false names l = (names, l, Status.done)

  -- Log::Initialize.
  unfoldable pub log_initialize : List (List ℕ) → Log → Initialized
  unfolding then_file start
  log_initialize names l = then_file (start l.on_console names l)

-- The two global loggers, whether gRPC calls grpc_log_func, and spdlog's registry.
pub record Loggers : Type 0 where
  pub registered : List (List ℕ)
  pub sdk_logger : Option Log
  pub grpc_logger : Option Log
  pub log_function : Bool

abbrev pub no_loggers : Loggers
no_loggers = record { registered = []; sdk_logger = none; grpc_logger = none; log_function = false }

-- The calls on a new Log before Initialize.
unfoldable pub prepared : ℕ → List ℕ → Bool → List ℕ → Log
prepared segment name console dir =
    set_log_level (bytes log_level)
      (set_output_dir segment dir (log_on_console console (new_log name)))

-- The result of init_logger, which catches exceptions.
abbrev pub result : Status → RetCode
result Status.done = RetCode.success
result Status.failed = RetCode.init_log_failed
result Status.thrown = RetCode.init_log_failed

abbrev is_done : Status → Bool
is_done Status.done = true
is_done _ = false

with_grpc : Loggers → Initialized → Loggers × RetCode
with_grpc g (names, l, end) = (
  record g {
    registered = names;
    grpc_logger = some l;
    log_function = is_done end || g.log_function;
  },
  result end,
)

module _ (sp : Spdlog) (segment : ℕ) (t : TerminalType) (log_dir : List ℕ) where
  with_sdk : Loggers → Initialized → Loggers × RetCode
  unfolding with_grpc
  with_sdk g (names, l, end) =
      let g' = record g { registered = names; sdk_logger = some l } in
      if is_done end && sdk_log_enable_grpc t
      then with_grpc g' (
          log_initialize sp segment names
            (prepared segment (bytes "grpc") (grpc_log_on_console t) log_dir))
      else (g', result end)

  unfoldable pub init_logger : Loggers → Loggers × RetCode
  unfolding with_sdk
  init_logger g = with_sdk g (
      log_initialize sp segment g.registered
        (prepared segment (bytes "push_sdk") (sdk_log_on_console t) log_dir))
