-- ===== src/Types.antt =====
-- The enumerations of include/push_sdk.h, src/core/type.h and src/proto/pushGateWay.proto, the
-- structs of the public API, and the names of src/core/type.cpp.
use grpc_push_sdk.Common.{ℕ, List, bytes}

-- PushSDKRetCode.
pub data RetCode : Type 0 where
  success already_init init_log_failed sdk_uninit already_login req_enc_failed user_info_is_null
        cb_is_null already_join_group unlogin call_timeout call_failed :
      RetCode

-- PushSDKCBType.
pub data CbType : Type 0 where
  login logout join_group leave_group inner_err : CbType

-- PushSDKCBEvent.
pub data CbEvent : Type 0 where
  ok failed timeout req_enc_failed res_dec_failed user_kicked_by_srv : CbEvent

-- PushSDKConnState.
pub data ConnState : Type 0 where
  ok no_ready : ConnState

-- PushSDKUserInfo: three buffers, each with the size in use, an int in C++; a negative size, on which
-- std::string throws, and one beyond its buffer are not modelled.
pub record UserInfo : Type 0 where
  pub token : List ℕ
  pub token_size : ℕ
  pub account : List ℕ
  pub account_size : ℕ
  pub passwd : List ℕ
  pub passwd_size : ℕ

-- PushSDKGroupInfo.
pub record GroupInfo : Type 0 where
  pub gtype : ℕ
  pub gid : ℕ

pub data ClientEvent : Type 0 where
  connected read_done write_done half_close finished : ClientEvent

pub data StreamStatus : Type 0 where
  wait_connect connected ready_to_write wait_write_done half_close finished : StreamStatus

pub data ChannelState : Type 0 where
  unknow ok no_ready : ChannelState

-- A number that the .proto file does not list is read as `unknown`: no switch tells them apart.
pub data StreamUri : Type 0 where
  unknown login login_res logout logout_res join_group join_group_res leave_group leave_group_res
        ping pong notify_to_close push_data_by_uid push_data_by_group :
      StreamUri

pub data UserTerminalType : Type 0 where
  unknown desktop web edu ipad apad webyyh5 iphone android server : UserTerminalType

pub data TerminalType : Type 0 where
  unknown windows_32 windows_64 ios android ios_simulator linux unix mac apple_unknown
        posix_unknown :
      TerminalType

unfoldable pub channel_state_to_string : ChannelState → List ℕ
channel_state_to_string ChannelState.ok = bytes "OK"
channel_state_to_string ChannelState.no_ready = bytes "NO_READY"
channel_state_to_string _ = bytes "UNKNOW"

unfoldable pub client_status_to_string : StreamStatus → List ℕ
client_status_to_string StreamStatus.finished = bytes "FINISHED"
client_status_to_string StreamStatus.ready_to_write = bytes "READY_TO_WRITE"
client_status_to_string StreamStatus.wait_connect = bytes "WAIT_CONNECT"
client_status_to_string StreamStatus.wait_write_done = bytes "WAIT_WRITE_DONE"
client_status_to_string StreamStatus.connected = bytes "CONNECTED"
client_status_to_string _ = bytes "UNKNOW"

unfoldable pub stream_uri_to_string : StreamUri → List ℕ
stream_uri_to_string StreamUri.login = bytes "PPushGateWayLoginURI"
stream_uri_to_string StreamUri.login_res = bytes "PPushGateWayLoginResURI"
stream_uri_to_string StreamUri.logout = bytes "PPushGateWayLogoutURI"
stream_uri_to_string StreamUri.logout_res = bytes "PPushGateWayLogoutResURI"
stream_uri_to_string StreamUri.join_group = bytes "PPushGateWayJoinGroupURI"
stream_uri_to_string StreamUri.join_group_res = bytes "PPushGateWayJoinGroupResURI"
stream_uri_to_string StreamUri.leave_group = bytes "PPushGateWayLeaveGroupURI"
stream_uri_to_string StreamUri.leave_group_res = bytes "PPushGateWayLeaveGroupResURI"
stream_uri_to_string StreamUri.ping = bytes "PPushGateWayPingURI"
stream_uri_to_string StreamUri.pong = bytes "PPushGateWayPongURI"
stream_uri_to_string StreamUri.notify_to_close = bytes "PPushGateWayNotifyToCloseURI"
stream_uri_to_string StreamUri.push_data_by_uid = bytes "PPushGateWayPushDataByUidURI"
stream_uri_to_string StreamUri.push_data_by_group = bytes "PPushGateWayPushDataByGroupURI"
stream_uri_to_string _ = bytes "UNKNOW"

-- The number of a PushSDKRetCode.
unfoldable pub ret_number : RetCode → ℕ
ret_number RetCode.success = 0
ret_number RetCode.already_init = 1
ret_number RetCode.init_log_failed = 2
ret_number RetCode.sdk_uninit = 3
ret_number RetCode.already_login = 4
ret_number RetCode.req_enc_failed = 5
ret_number RetCode.user_info_is_null = 6
ret_number RetCode.cb_is_null = 7
ret_number RetCode.already_join_group = 8
ret_number RetCode.unlogin = 9
ret_number RetCode.call_timeout = 10
ret_number RetCode.call_failed = 11

-- RES_SUCCESS and RES_ETIMEOUT of src/common/err_code.h.
abbrev pub res_success : ℕ
res_success = 200

abbrev pub res_etimeout : ℕ
res_etimeout = 408
