-- ===== src/Api.antt =====
-- src/push_sdk.cpp: the C functions of include/push_sdk.h over the one PushSDK.
pub mod Guard
pub mod Runs
use grpc_push_sdk.Common.{
  ℕ, Bool, true, false, ◌&&◌, List, [], ◌∷◌, ◌++◌, Option, none, some, if◌then◌else◌,
}
use grpc_push_sdk.Int.{ℤ}
use grpc_push_sdk.Packet.{World}
use grpc_push_sdk.Sdk.Calls.{get_last_error}
use grpc_push_sdk.Sdk.Handlers
use grpc_push_sdk.Sdk.Lifecycle.{initialize_sdk, destroy_begin, destroy_end, has_ended}
use grpc_push_sdk.Sdk.Methods.{Outcome, returns, login, logout, join_group, leave_group}
use grpc_push_sdk.Sdk.State.{PushSdk}
use grpc_push_sdk.Types.{RetCode, UserInfo, GroupInfo}
use grpc_push_sdk.Elk
use grpc_push_sdk.Log.{Loggers, Spdlog, init_logger}
use grpc_push_sdk.Utils.{os_segment}

-- The static variables of the file, the global loggers, and the singleton.
pub record Api : Type 0 where
  pub initialized : Bool
  pub log_initialized : Bool
  pub loggers : Loggers
  pub sdk : PushSdk

abbrev on_sdk : Api → PushSdk × Outcome → Api × Outcome
on_sdk api (s, out) = (record api { sdk = s }, out)

-- ELKAsyncUploader::Instance()->Initialize().
abbrev start_elk : PushSdk → PushSdk
start_elk s = record s { elk = Elk.initialize s.elk }

-- The rest of PushSDKInitialize once the logger is there.
initialize_core : Api → Option ℕ → PushSdk × RetCode → Api × RetCode
initialize_core api none r = (api, RetCode.cb_is_null)
initialize_core api (some cb) (s, RetCode.success) =
    (record api { sdk = s; initialized = true }, RetCode.success)
initialize_core api (some cb) (s, ret) = (record api { sdk = s }, ret)

module _ (w : World) where
  initialize_with : ℕ → ℕ → ℕ → Option ℕ → Option ℕ → Bool → Api → Api × RetCode
  unfolding initialize_core
  initialize_with uid appid appkey cb_func cb_arg garbage api =
      initialize_core api cb_func (initialize_sdk w uid appid appkey cb_func cb_arg garbage api.sdk)

  initialize_logged :
      ℕ → ℕ → ℕ → Option ℕ → Option ℕ → Bool → Api → Loggers × RetCode → Api × RetCode
  unfolding initialize_with
  initialize_logged uid appid appkey cb_func cb_arg garbage api (g, RetCode.success) =
      initialize_with uid appid appkey cb_func cb_arg garbage
        (record api { sdk = start_elk api.sdk; log_initialized = true; loggers = g })
  initialize_logged uid appid appkey cb_func cb_arg garbage api (g, ret) =
      (record api { loggers = g }, ret)

  -- `log_dir` is taken not to be a null pointer.
  unfoldable pub push_sdk_initialize :
      Spdlog → List ℕ → ℕ → ℕ → ℕ → Option ℕ → Option ℕ → Bool → Api → Api × RetCode
  unfolding initialize_logged
  push_sdk_initialize sp log_dir uid appid appkey cb_func cb_arg garbage api =
      if api.initialized
      then (api, RetCode.already_init)
      else if api.log_initialized
      then initialize_with uid appid appkey cb_func cb_arg garbage api
      else initialize_logged uid appid appkey cb_func cb_arg garbage api
          (init_logger sp (os_segment w.terminal_type) w.terminal_type log_dir api.loggers)

  login_checked : Option UserInfo → Api → Api × Outcome
  login_checked none api = (api, returns RetCode.user_info_is_null)
  login_checked (some user) api = on_sdk api (login w user none api.sdk)

  -- The four calls below wait inside PushSDK, and return what it returns.
  unfoldable pub push_sdk_login : Option UserInfo → Api → Api × Outcome
  unfolding login_checked
  push_sdk_login user api =
      if api.initialized then login_checked user api else (api, returns RetCode.sdk_uninit)

  unfoldable pub push_sdk_logout : Api → Api × Outcome
  push_sdk_logout api =
      if api.initialized
      then on_sdk api (logout w none api.sdk)
      else (api, returns RetCode.sdk_uninit)

  -- The pointer `group` is not tested: it is taken not to be null.
  unfoldable pub push_sdk_join_group : GroupInfo → Api → Api × Outcome
  push_sdk_join_group group api =
      if api.initialized
      then on_sdk api (join_group w group none api.sdk)
      else (api, returns RetCode.sdk_uninit)

  unfoldable pub push_sdk_leave_group : GroupInfo → Api → Api × Outcome
  push_sdk_leave_group group api =
      if api.initialized
      then on_sdk api (leave_group w group none api.sdk)
      else (api, returns RetCode.sdk_uninit)

-- PushSDKDestroy, whose call of flush_logger only writes files, up to the join with the client's thread, and from its return on.
destroyed : Api → Option PushSdk → Option Api
destroyed api none = none
destroyed api (some s) = some (record api { sdk = s })

unfoldable pub push_sdk_destroy_begin : Bool → Api → Option Api
unfolding destroyed
push_sdk_destroy_begin in_event_thread api =
    if api.initialized then destroyed api (destroy_begin in_event_thread api.sdk) else some api

unfoldable pub push_sdk_destroy_end : Api → Api
push_sdk_destroy_end api =
    if api.initialized && has_ended api.sdk.client
    then record api { sdk = destroy_end api.sdk; initialized = false }
    else api

-- The text handed out ends with a zero byte.
unfoldable pub push_sdk_get_error : Api → List ℕ × ℤ
push_sdk_get_error api = let (desc, code) = get_last_error api.sdk in (desc ++ 0 ∷ [], code)

unfoldable pub push_sdk_create_handler : Api → Api × ℕ
push_sdk_create_handler api =
    let (s, hdl) = Handlers.create_handler api.sdk in (record api { sdk = s }, hdl)

unfoldable pub push_sdk_destroy_handler : Option ℕ → Api → Api
push_sdk_destroy_handler none api = api
push_sdk_destroy_handler (some hdl) api = record api { sdk = Handlers.destroy_handler hdl api.sdk }

unfoldable pub push_sdk_set_conn_state_cb : Option ℕ → Option ℕ → Api → Api
push_sdk_set_conn_state_cb (some hdl) (some cb) api = record api {
  sdk = Handlers.add_conn_state_cb_to_handler hdl cb api.sdk;
}
push_sdk_set_conn_state_cb _ _ api = api

unfoldable pub push_sdk_set_user_msg_cb : Option ℕ → Option ℕ → Api → Api
push_sdk_set_user_msg_cb (some hdl) (some cb) api = record api {
  sdk = Handlers.add_user_msg_cb_to_handler hdl cb api.sdk;
}
push_sdk_set_user_msg_cb _ _ api = api

unfoldable pub push_sdk_set_group_msg_cb : Option ℕ → Option ℕ → Api → Api
push_sdk_set_group_msg_cb (some hdl) (some cb) api = record api {
  sdk = Handlers.add_group_msg_cb_to_handler hdl cb api.sdk;
}
push_sdk_set_group_msg_cb _ _ api = api
