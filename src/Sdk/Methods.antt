-- ===== src/Sdk/Methods.antt =====
-- PushSDK::Login, Logout, JoinGroup and LeaveGroup, up to the wait of `call_sync`, and the end that
-- they share. `is_sync`, `cb_func` and `cb_args` are one argument: `none` for a synchronous call.
pub mod Repeats
use grpc_push_sdk.Client.{Client, clean_queue}
use grpc_push_sdk.Common.{ℕ, true, false, List, [], Option, none, some, if◌then◌else◌, bytes}
use grpc_push_sdk.Packet.{
  World, PushRegReq, make_login_packet, make_logout_packet, make_join_group_packet,
  make_leave_group_packet,
}
use grpc_push_sdk.Sdk.Calls.{call, call_sync_begin, call_sync_end}
use grpc_push_sdk.Sdk.Groups.{insert, is_group_info_exists, remove_group_info, dump_group_info}
use grpc_push_sdk.Sdk.Session.{forget_user, remove_all_group_info, get_now, after_reading}
use grpc_push_sdk.Sdk.State.{PushSdk, elk_upload}
use grpc_push_sdk.Types.{CbType, RetCode, UserInfo, GroupInfo}

-- The function and its argument of an asynchronous call.
abbrev pub Asynchronous : Type 0
Asynchronous = Option (Option ℕ × Option ℕ)

-- What a method has come to: it returns, or it waits on the context at an address.
pub data Outcome : Type 0 where
  returns : RetCode → Outcome
  waits : ℕ → Outcome

abbrev pub clean_client : Option Client → Option Client
clean_client none = none
clean_client (some c) = some (clean_queue c)

module _ (w : World) where
  -- The statements after a wait, or after an asynchronous `call`: the log item, with `desc_`.
  upload_result : List ℕ → List ℕ → PushSdk × RetCode → PushSdk × RetCode
  upload_result group_info action (s, ret) = (elk_upload w group_info action ret s.desc s, ret)

  unfoldable pub finish_call : List ℕ → List ℕ → ℕ → PushSdk → PushSdk × RetCode
  unfolding upload_result
  finish_call group_info action a s = upload_result group_info action (call_sync_end a s)

  -- An early return with its log item.
  unfoldable pub reject : List ℕ → List ℕ → RetCode → List ℕ → PushSdk → PushSdk × Outcome
  reject group_info action ret msg s = (elk_upload w group_info action ret msg s, returns ret)

  unfoldable pub issue :
      Asynchronous → List ℕ → List ℕ → CbType → PushRegReq → ℕ → ℕ → ℕ → PushSdk → PushSdk × Outcome
  issue none group_info action type req now gtype gid s =
      let (s', a) = call_sync_begin type req now gtype gid s in (s', waits a)
  issue (some (cb_func, cb_args)) group_info action type req now gtype gid s =
      let s' = call type req now cb_func cb_args gtype gid false s in
      (elk_upload w group_info action RetCode.success s'.desc s', returns RetCode.success)

  login_packet : Option PushRegReq → UserInfo → Asynchronous → ℕ → PushSdk → PushSdk × Outcome
  login_packet none user mode now s =
      reject [] (bytes "Login") RetCode.req_enc_failed (bytes "encode login request packet failed")
        s
  login_packet (some req) user mode now s =
      issue mode [] (bytes "Login") CbType.login req now 0 0
        (record s { user = some user; logining = true })

  -- The requests that were not sent are dropped before the test of `user_`.
  login_user : Option UserInfo → UserInfo → Asynchronous → PushSdk → PushSdk × Outcome
  unfolding login_packet
  login_user (some old) user mode s =
      reject [] (bytes "Login") RetCode.already_login (bytes "sdk alreay login") s
  login_user none user mode s =
      login_packet (make_login_packet w s.uid s.appid s.appkey user (get_now w s)) user mode
        (get_now w s) (after_reading w s)

  unfoldable pub login : UserInfo → Asynchronous → PushSdk → PushSdk × Outcome
  unfolding login_user
  login user mode s =
      if s.init
      then login_user s.user user mode (record s { client = clean_client s.client })
      else reject [] (bytes "Login") RetCode.sdk_uninit
          (bytes "login before sdk initialize is illegal") s

  logout_packet : Option PushRegReq → Asynchronous → ℕ → PushSdk → PushSdk × Outcome
  logout_packet none mode now s =
      reject [] (bytes "Logout") RetCode.req_enc_failed
        (bytes "encode logout request packet failed") s
  logout_packet (some req) mode now s =
      issue mode [] (bytes "Logout") CbType.logout req now 0 0
        (forget_user (remove_all_group_info s))

  logout_user : Option UserInfo → Asynchronous → PushSdk → PushSdk × Outcome
  unfolding logout_packet remove_all_group_info
  logout_user none mode s = reject [] (bytes "Logout") RetCode.success (bytes "ok") s
  logout_user (some user) mode s =
      logout_packet (make_logout_packet w s.uid s.appid s.appkey (get_now w s)) mode (get_now w s)
        (after_reading w s)

  unfoldable pub logout : Asynchronous → PushSdk → PushSdk × Outcome
  unfolding logout_user
  logout mode s = logout_user s.user mode s

  join_packet : Option PushRegReq → GroupInfo → Asynchronous → ℕ → PushSdk → PushSdk × Outcome
  join_packet none g mode now s =
      reject (dump_group_info g.gtype g.gid) (bytes "JoinGroup") RetCode.req_enc_failed
        (bytes "encode join group request packet failed") s
  join_packet (some req) g mode now s =
      issue mode (dump_group_info g.gtype g.gid) (bytes "JoinGroup") CbType.join_group req now
        g.gtype g.gid (record s { groups = insert g.gtype g.gid s.groups })

  join_user : Option UserInfo → GroupInfo → Asynchronous → PushSdk → PushSdk × Outcome
  unfolding join_packet
  join_user none g mode s =
      reject (dump_group_info g.gtype g.gid) (bytes "JoinGroup") RetCode.unlogin
        (bytes "join group before login is illegal") s
  join_user (some user) g mode s =
      if is_group_info_exists g.gtype g.gid s.groups
      then reject (dump_group_info g.gtype g.gid) (bytes "JoinGroup") RetCode.already_join_group
          (bytes "already join group") s
      else join_packet (make_join_group_packet w s.uid g.gtype g.gid (get_now w s)) g mode
          (get_now w s) (after_reading w s)

  unfoldable pub join_group : GroupInfo → Asynchronous → PushSdk → PushSdk × Outcome
  unfolding join_user
  join_group g mode s = join_user s.user g mode s

  leave_packet : Option PushRegReq → GroupInfo → Asynchronous → ℕ → PushSdk → PushSdk × Outcome
  leave_packet none g mode now s =
      reject (dump_group_info g.gtype g.gid) (bytes "LeaveGroup") RetCode.req_enc_failed
        (bytes "encode leave group request packet failed") s
  leave_packet (some req) g mode now s =
      issue mode (dump_group_info g.gtype g.gid) (bytes "LeaveGroup") CbType.leave_group req now
        g.gtype g.gid (record s { groups = remove_group_info g.gtype g.gid s.groups })

  leave_user : Option UserInfo → GroupInfo → Asynchronous → PushSdk → PushSdk × Outcome
  unfolding leave_packet
  leave_user none g mode s =
      reject (dump_group_info g.gtype g.gid) (bytes "LeaveGroup") RetCode.unlogin
        (bytes "level group before login is illegal") s
  leave_user (some user) g mode s =
      if is_group_info_exists g.gtype g.gid s.groups
      then leave_packet (make_leave_group_packet w s.uid g.gtype g.gid (get_now w s)) g mode
          (get_now w s) (after_reading w s)
      else reject (dump_group_info g.gtype g.gid) (bytes "LeaveGroup") RetCode.success (bytes "ok")
          s

  unfoldable pub leave_group : GroupInfo → Asynchronous → PushSdk → PushSdk × Outcome
  unfolding leave_user
  leave_group g mode s = leave_user s.user g mode s
