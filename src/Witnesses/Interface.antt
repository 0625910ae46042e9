-- ===== src/Witnesses/Interface.antt =====
-- The theorems on the C functions and on the loggers, applied.
use grpc_push_sdk.Api.{Api, push_sdk_initialize}
use grpc_push_sdk.Common.{ℕ, ◌≡◌, refl, true, false, List, [], ◌∷◌, none, some}
use grpc_push_sdk.Sdk.State.{new_sdk}
use grpc_push_sdk.Types.{TerminalType, RetCode}
use grpc_push_sdk.Witnesses.{world, heap}
use grpc_push_sdk.Api.Guard.{retried, initialize_stuck, initialize_once}
use grpc_push_sdk.Log.{
  Log, Spdlog, made, throws, no_loggers, init_logger, log_initialize, prepared, set_output_dir,
  new_log, ends_in, drop_last,
}
use grpc_push_sdk.Log.Registry.{Has, IsUnique, init_all, init_logger-again}
use grpc_push_sdk.Log.Destinations.{Destination, log_file_name, init_logger-success}
use grpc_push_sdk.Common.{is_some, bytes}

abbrev new_api : Api
new_api = record {
  initialized = false;
  log_initialized = false;
  loggers = no_loggers;
  sdk = new_sdk heap;
}

new_sdk-closed : new_api.sdk.init ≡ false
unfolding new_sdk
new_sdk-closed = refl

-- A spdlog that makes each logger of the console once, and files in directories that are not "/x".
abbrev spdlog : Spdlog
spdlog = record {
  stdout_color_mt = λ names n. elim names [ [] ↦ made | m ∷ ms ↦ throws ];
  basic_logger_mt = λ names n path. elim names [ [] ↦ made | m ∷ ms ↦ throws ];
  stamp = λ format. format;
}

is_unique : IsUnique spdlog
is_unique = record { console_once = console_once; file_once = file_once }
  where
    console_once :
        (names : List (List ℕ)) (n : List ℕ) → Has n names → spdlog.stdout_color_mt names n ≡ throws
    console_once [] n h = absurd h
    console_once (m ∷ ms) n h = refl

    file_once :
        (names : List (List ℕ)) (n path : List ℕ)
        → Has n names
        → spdlog.basic_logger_mt names n path ≡ throws
    file_once [] n path h = absurd h
    file_once (m ∷ ms) n path h = refl

-- A spdlog that makes every logger.
abbrev willing : Spdlog
willing = record {
  stdout_color_mt = λ names n. made;
  basic_logger_mt = λ names n path. made;
  stamp = λ format. format;
}

abbrev tmp : List ℕ
tmp = b'/' ∷ b't' ∷ b'/' ∷ []

willing_success : (init_logger willing b'/' TerminalType.linux tmp no_loggers).1 ≡ RetCode.success
unfolding init_logger log_initialize prepared set_output_dir new_log ends_in drop_last
willing_success = refl

-- The console's logger is made, and the file's is not.
file_fails : (init_logger spdlog b'/' TerminalType.linux tmp no_loggers).1 ≡ RetCode.init_log_failed
unfolding init_logger log_initialize prepared set_output_dir new_log ends_in drop_last
file_fails = refl

initialize_stuck_example :
    let (api1, ret) = push_sdk_initialize world spdlog tmp 5 6 7 (some 1) none false new_api in
    (ret ≡ RetCode.init_log_failed)
    × ((push_sdk_initialize world spdlog [] 5 6 7
          (some 1)
          none
          false
          (retried world spdlog refl is_unique 5 6 7 (some 1) none false (tmp ∷ []) api1)).1
        ≡ RetCode.init_log_failed)
initialize_stuck_example =
    initialize_stuck world spdlog refl is_unique tmp [] (tmp ∷ []) 5 6 7 (some 1) none false new_api
      refl refl refl file_fails

init_logger-success_example :
    (l : Log) × ((init_logger willing b'/' TerminalType.linux tmp no_loggers).0.sdk_logger ≡ some l)
    × (is_some l.console_logger ≡ true)
    × Destination b'/' (log_file_name willing (bytes "push_sdk")) tmp l.file_logger
init_logger-success_example =
    init_logger-success willing b'/' TerminalType.linux tmp no_loggers willing_success

init_logger-again_example :
    (init_logger spdlog b'/' TerminalType.linux [] (
      init_all spdlog b'/' TerminalType.linux
        (tmp ∷ [])
        (init_logger spdlog b'/' TerminalType.linux tmp no_loggers).0)).1
    ≡ RetCode.init_log_failed
init_logger-again_example =
    init_logger-again spdlog b'/' TerminalType.linux tmp [] (tmp ∷ []) no_loggers refl is_unique
      refl

initialize_once_example :
    let (api1, ret) = push_sdk_initialize world willing tmp 5 6 7 (some 1) none false new_api in
    (ret ≡ RetCode.success)
    × (push_sdk_initialize world willing [] 5 6 7 (some 1) none true api1
        ≡ (api1, RetCode.already_init))
initialize_once_example =
    initialize_once world willing tmp 5 6 7 1 none false new_api willing [] 5 6 7 (some 1) none true
      refl new_sdk-closed willing_success
