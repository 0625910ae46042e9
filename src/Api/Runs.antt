-- ===== src/Api/Runs.antt =====
-- The application and the threads, as sequences of calls of the C functions and of rounds.
pub mod Follows
use grpc_push_sdk.Api.{
  Api, push_sdk_initialize, push_sdk_login, push_sdk_logout, push_sdk_join_group,
  push_sdk_leave_group, push_sdk_destroy_begin, push_sdk_destroy_end, push_sdk_create_handler,
  push_sdk_destroy_handler, push_sdk_set_conn_state_cb, push_sdk_set_user_msg_cb,
  push_sdk_set_group_msg_cb, initialize_core, initialize_with, initialize_logged, login_checked,
  destroyed,
}
use grpc_push_sdk.Client.{Poll}
use grpc_push_sdk.Common.{
  ℕ, ◌≡◌, refl, Bool, true, false, ◌&&◌, List, [], ◌∷◌, ◌++◌, Option, none, some, arith, ap, ◌∙◌,
  sym, Bool-cases, Option-cases, inl, inr, is_some, subst, if◌then◌else◌,
}
use grpc_push_sdk.Elk
use grpc_push_sdk.Http.{Exchange}
use grpc_push_sdk.Log.{Loggers, Spdlog, init_logger, no_loggers}
use grpc_push_sdk.Packet.{World}
use grpc_push_sdk.Sdk.Lifecycle.{initialize_sdk, destroy_begin, has_ended}
use grpc_push_sdk.Sdk.Invariant.{Inv, Encodes, run-new_sdk-Inv}
use grpc_push_sdk.Sdk.Methods.{login, logout, join_group, leave_group}
use mathlib.Core.Option.{some-injective}
use grpc_push_sdk.Sdk.Run.{Op, step, run}
use grpc_push_sdk.Sdk.State.{PushSdk, CallContext, new_sdk}
use grpc_push_sdk.Types.{RetCode, UserInfo, GroupInfo}
use grpc_push_sdk.Utils.{os_segment}

-- What runs besides the C functions: the rounds of the four threads, and the end of a wait.
pub data Background : Type 0 where
  polls : Poll → Background
  times_out delivers : Background
  uploads : List (Exchange × Bool) → Background
  finishes : List ℕ → List ℕ → ℕ → Background

abbrev pub op_of : Background → Op
op_of (polls p) = Op.polls p
op_of Background.times_out = Op.times_out
op_of Background.delivers = Op.delivers
op_of (uploads attempts) = Op.uploads attempts
op_of (finishes info action a) = Op.finishes info action a

-- The calls of the application, and the rest.
pub data ApiOp : Type 0 where
  initializes : Spdlog → List ℕ → ℕ → ℕ → ℕ → Option ℕ → Option ℕ → Bool → ApiOp
  begins_destroy : Bool → ApiOp
  ends_destroy : ApiOp
  logs_in : Option UserInfo → ApiOp
  logs_out : ApiOp
  joins leaves : GroupInfo → ApiOp
  creates_handler : ApiOp
  destroys_handler : Option ℕ → ApiOp
  sets_conn_state_cb sets_user_msg_cb sets_group_msg_cb : Option ℕ → Option ℕ → ApiOp
  background : Background → ApiOp

abbrev pub with_core : Api → Option PushSdk → Option Api
with_core api none = none
with_core api (some s) = some (record api { sdk = s })

abbrev pub new_api : (ℕ → CallContext) → Api
new_api heap = record {
  initialized = false;
  log_initialized = false;
  loggers = no_loggers;
  sdk = new_sdk heap;
}

module _ (w : World) where
  unfoldable pub api_step : ApiOp → Api → Option Api
  api_step (initializes sp dir uid appid appkey cb arg garbage) api =
      some (push_sdk_initialize w sp dir uid appid appkey cb arg garbage api).0
  api_step (begins_destroy b) api = push_sdk_destroy_begin b api
  api_step ends_destroy api = some (push_sdk_destroy_end api)
  api_step (logs_in user) api = some (push_sdk_login w user api).0
  api_step logs_out api = some (push_sdk_logout w api).0
  api_step (joins g) api = some (push_sdk_join_group w g api).0
  api_step (leaves g) api = some (push_sdk_leave_group w g api).0
  api_step creates_handler api = some (push_sdk_create_handler api).0
  api_step (destroys_handler hdl) api = some (push_sdk_destroy_handler hdl api)
  api_step (sets_conn_state_cb hdl cb) api = some (push_sdk_set_conn_state_cb hdl cb api)
  api_step (sets_user_msg_cb hdl cb) api = some (push_sdk_set_user_msg_cb hdl cb api)
  api_step (sets_group_msg_cb hdl cb) api = some (push_sdk_set_group_msg_cb hdl cb api)
  api_step (background b) api = with_core api (step w (op_of b) api.sdk)

  unfoldable pub api_run : List ApiOp → Api → Option Api
  api_run [] api = some api
  api_run (op ∷ ops) api = elim (api_step op api) [ none ↦ none | some api' ↦ api_run ops api' ]
