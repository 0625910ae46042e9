-- ===== src/Config.antt =====
-- src/common/config.h. Times are in milliseconds, but for the one in seconds that its name says.
use grpc_push_sdk.Common.{ℕ, List, [], ◌∷◌, Bool, true, false, String}
use grpc_push_sdk.Types.{TerminalType}

-- The two halves of `#ifdef __linux__`; Android defines __linux__ too.
abbrev pub is_linux : TerminalType → Bool
is_linux TerminalType.linux = true
is_linux TerminalType.android = true
is_linux _ = false

abbrev pub sdk_log_on_console : TerminalType → Bool
sdk_log_on_console t = is_linux t

abbrev pub grpc_log_on_console : TerminalType → Bool
grpc_log_on_console t = false

abbrev pub sdk_log_enable_grpc : TerminalType → Bool
sdk_log_enable_grpc t = is_linux t

-- Of both loggers.
abbrev pub log_level : String
log_level = "trace"

abbrev pub front_envoy_host : TerminalType → String
front_envoy_host t = elim (is_linux t) [ true ↦ "183.36.117.51" | false ↦ "front.100.com" ]

abbrev pub front_envoy_ports : List ℕ
front_envoy_ports = 15000 ∷ 14000 ∷ 5000 ∷ 1500 ∷ 500 ∷ []

abbrev pub heart_beat_interval : ℕ
heart_beat_interval = 3000

abbrev pub call_timeout_interval : ℕ
call_timeout_interval = 3000

abbrev pub elk_upload_min_size : ℕ
elk_upload_min_size = 5

abbrev pub elk_upload_max_size : ℕ
elk_upload_max_size = 100

abbrev pub elk_project_name : String
elk_project_name = "100edu-signal-platform"

abbrev pub elk_region : String
elk_region = "cn-shenzhen"

abbrev pub elk_log_store : String
elk_log_store = "edu_sp_push_sdk_test"

abbrev pub elk_source : String
elk_source = "localhost"

abbrev pub elk_encode : ℕ
elk_encode = 2

abbrev pub grpc_keep_alive_time : ℕ
grpc_keep_alive_time = 1000

abbrev pub grpc_keep_alive_timeout : ℕ
grpc_keep_alive_timeout = 5000

abbrev pub grpc_keep_alive_permit_without_calls : ℕ
grpc_keep_alive_permit_without_calls = 1

abbrev pub grpc_max_pings_without_data : ℕ
grpc_max_pings_without_data = 0

abbrev pub grpc_min_sent_ping_interval_without_data : ℕ
grpc_min_sent_ping_interval_without_data = 1000

abbrev pub logger_flush_interval_sec : ℕ
logger_flush_interval_sec = 1

abbrev pub grpc_cq_timeout_ms : ℕ
grpc_cq_timeout_ms = 50

abbrev pub grpc_wait_connect_ms : ℕ
grpc_wait_connect_ms = 500

abbrev pub call_check_timeout_interval : ℕ
call_check_timeout_interval = 500

abbrev pub elk_upload_interval_ms : ℕ
elk_upload_interval_ms = 5000

abbrev pub elk_upload_host : String
elk_upload_host = "cloud-log.yy.com"

abbrev pub elk_upload_path : String
elk_upload_path = "/api/log/put"

abbrev pub elk_upload_headers : List (String × String)
elk_upload_headers = ("referer", "www.yy.com") ∷ []
