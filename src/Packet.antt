-- ===== src/Packet.antt =====
-- src/core/packet.cpp and the messages of src/proto/pushGateWay.proto that the SDK reads or writes.
-- The protobuf runtime is not part of the repository: a `World` holds its serializers and parsers,
-- with the clocks and the platform.
use grpc_push_sdk.Common.{ℕ, List, [], ◌∷◌, Option, none, some, map, take}
use grpc_push_sdk.Decimal.{to_string}
use grpc_push_sdk.Types.{StreamUri, UserTerminalType, TerminalType, UserInfo}
use grpc_push_sdk.Utils.{get_suid}

pub record UserGroup : Type 0 where
  pub user_group_type : ℕ
  pub user_group_id : ℕ

-- The fields that no code of the SDK sets (`reLogin`, `ticket`) are left out.
pub record LoginRequest : Type 0 where
  pub appid : List ℕ
  pub uid : ℕ
  pub suid : ℕ
  pub cookie : List ℕ
  pub context : List ℕ
  pub account : List ℕ
  pub password : List ℕ
  pub app_key : ℕ
  pub termnial_type : UserTerminalType

pub record LogoutRequest : Type 0 where
  pub appid : List ℕ
  pub suid : ℕ
  pub uid : ℕ
  pub context : List ℕ
  pub app_key : ℕ
  pub termnial_type : UserTerminalType

-- JoinGroupRequest and LeaveGroupRequest have the same fields.
pub record GroupRequest : Type 0 where
  pub uid : ℕ
  pub suid : ℕ
  pub context : List ℕ
  pub user_group_set : List UserGroup

pub record PushRegReq : Type 0 where
  pub uri : StreamUri
  pub msg_data : List ℕ

pub record PushData : Type 0 where
  pub uri : StreamUri
  pub group_type : ℕ
  pub group_id : ℕ
  pub msg_data : List ℕ

-- The type argument of the templates of src/core/core.h.
pub data ResponseType : Type 0 where
  login logout join_group leave_group : ResponseType

-- The fields that the templates read; the four response messages share them.
pub record Response : Type 0 where
  pub res_code : ℕ
  pub context : List ℕ
  pub err_msg : List ℕ

pub record World : Type 0 where
  -- The i-th reading of std::chrono::steady_clock, in nanoseconds, and of the wall clock.
  pub steady_nano_seconds : ℕ → ℕ
  pub system_time : ℕ → List ℕ
  pub terminal_type : TerminalType
  -- SerializeToString; `none` where it returns false.
  pub encode_login : LoginRequest → Option (List ℕ)
  pub encode_logout : LogoutRequest → Option (List ℕ)
  pub encode_join_group : GroupRequest → Option (List ℕ)
  pub encode_leave_group : GroupRequest → Option (List ℕ)
  -- ParseFromString; `none` where it returns false.
  pub decode : ResponseType → List ℕ → Option Response

unfoldable pub get_user_terminal_type : TerminalType → UserTerminalType
get_user_terminal_type TerminalType.unknown = UserTerminalType.unknown
get_user_terminal_type TerminalType.windows_32 = UserTerminalType.desktop
get_user_terminal_type TerminalType.windows_64 = UserTerminalType.desktop
get_user_terminal_type TerminalType.ios = UserTerminalType.iphone
get_user_terminal_type TerminalType.android = UserTerminalType.android
get_user_terminal_type TerminalType.ios_simulator = UserTerminalType.iphone
get_user_terminal_type TerminalType.linux = UserTerminalType.server
get_user_terminal_type TerminalType.unix = UserTerminalType.server
get_user_terminal_type TerminalType.mac = UserTerminalType.server
get_user_terminal_type TerminalType.apple_unknown = UserTerminalType.unknown
get_user_terminal_type TerminalType.posix_unknown = UserTerminalType.unknown

-- The number of a UserTerminalType.
unfoldable pub terminal_number : UserTerminalType → ℕ
terminal_number UserTerminalType.unknown = 0
terminal_number UserTerminalType.desktop = 1
terminal_number UserTerminalType.web = 2
terminal_number UserTerminalType.edu = 3
terminal_number UserTerminalType.ipad = 4
terminal_number UserTerminalType.apad = 5
terminal_number UserTerminalType.webyyh5 = 6
terminal_number UserTerminalType.iphone = 7
terminal_number UserTerminalType.android = 8
terminal_number UserTerminalType.server = 65535

abbrev pub request : StreamUri → Option (List ℕ) → Option PushRegReq
request uri none = none
request uri (some msg_data) = some (record { uri = uri; msg_data = msg_data })

abbrev pub user_group : ℕ × ℕ → UserGroup
user_group (gtype, gid) = record { user_group_type = gtype; user_group_id = gid }

module _ (w : World) where
  -- The id under which the server keeps the session, from the platform and the user.
  unfoldable pub session_suid : ℕ → ℕ
  session_suid uid = get_suid uid (terminal_number (get_user_terminal_type w.terminal_type))

  -- std::string(ptr, size), for a size of at most the length of the buffer.
  unfoldable pub login_request : ℕ → ℕ → ℕ → UserInfo → ℕ → LoginRequest
  login_request uid appid appkey user now = record {
    appid = to_string appid;
    uid = uid;
    suid = session_suid uid;
    cookie = take user.token_size user.token;
    context = to_string now;
    account = take user.account_size user.account;
    password = take user.passwd_size user.passwd;
    app_key = appkey;
    termnial_type = get_user_terminal_type w.terminal_type;
  }

  unfoldable pub make_login_packet : ℕ → ℕ → ℕ → UserInfo → ℕ → Option PushRegReq
  make_login_packet uid appid appkey user now =
      request StreamUri.login (w.encode_login (login_request uid appid appkey user now))

  unfoldable pub logout_request : ℕ → ℕ → ℕ → ℕ → LogoutRequest
  logout_request uid appid appkey now = record {
    appid = to_string appid;
    suid = session_suid uid;
    uid = uid;
    context = to_string now;
    app_key = appkey;
    termnial_type = get_user_terminal_type w.terminal_type;
  }

  unfoldable pub make_logout_packet : ℕ → ℕ → ℕ → ℕ → Option PushRegReq
  make_logout_packet uid appid appkey now =
      request StreamUri.logout (w.encode_logout (logout_request uid appid appkey now))

  unfoldable pub group_request : ℕ → List (ℕ × ℕ) → ℕ → GroupRequest
  group_request uid groups now = record {
    uid = uid;
    suid = session_suid uid;
    context = to_string now;
    user_group_set = map user_group groups;
  }

  -- The overload for one group.
  unfoldable pub make_join_group_packet : ℕ → ℕ → ℕ → ℕ → Option PushRegReq
  make_join_group_packet uid gtype gid now =
      request StreamUri.join_group (w.encode_join_group (group_request uid ((gtype, gid) ∷ []) now))

  -- The overload for all groups.
  unfoldable pub make_join_groups_packet : ℕ → List (ℕ × ℕ) → ℕ → Option PushRegReq
  make_join_groups_packet uid groups now =
      request StreamUri.join_group (w.encode_join_group (group_request uid groups now))

  unfoldable pub make_leave_group_packet : ℕ → ℕ → ℕ → ℕ → Option PushRegReq
  make_leave_group_packet uid gtype gid now =
      request StreamUri.leave_group
        (w.encode_leave_group (group_request uid ((gtype, gid) ∷ []) now))
