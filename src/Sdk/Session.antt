-- ===== src/Sdk/Session.antt =====
-- The part of PushSDK that keeps a session alive: relogin, rejoin_group, handle_notify_to_close,
-- handle_timeout_response, and the two templates that act on a response. The flags `need_to_lock`
-- are left out: a function here is one critical section.
pub mod Reconnect
pub mod Retry
pub mod Retries
use grpc_push_sdk.Common.{
  ℕ, suc, Bool, true, false, not, ◌&&◌, ◌||◌, List, [], ◌∷◌, Option, none, some, ◌==◌,
  if◌then◌else◌, is_some, bytes,
}
use grpc_push_sdk.Packet.{
  World, PushRegReq, ResponseType, make_login_packet, make_join_groups_packet,
}
use grpc_push_sdk.Sdk.Calls.{call}
use grpc_push_sdk.Sdk.Groups.{remove_group_info, dump_all_group_info}
use grpc_push_sdk.Sdk.State.{PushSdk, CallContext, push_event, elk_upload}
use grpc_push_sdk.Types.{CbType, CbEvent, RetCode, UserInfo}

-- user_ = nullptr.
abbrev pub forget_user : PushSdk → PushSdk
forget_user s = record s { user = none }

-- groups_.clear().
unfoldable pub remove_all_group_info : PushSdk → PushSdk
remove_all_group_info s = record s { groups = [] }

module _ (w : World) where
  -- Utils::GetSteadyNanoSeconds, and the state that has seen the reading.
  abbrev pub get_now : PushSdk → ℕ
  get_now s = w.steady_nano_seconds s.reads

  abbrev pub after_reading : PushSdk → PushSdk
  after_reading s = record s { reads = suc s.reads }

  relogin_packet : Option PushRegReq → ℕ → PushSdk → PushSdk
  relogin_packet none now s =
      push_event CbType.login CbEvent.req_enc_failed
        (bytes "inner relogin: LoginRequest packet serialize failed. you should relogin manually")
        (elk_upload w [] (bytes "ReLogin") RetCode.req_enc_failed
          (bytes "inner relogin: LoginRequest packet serialize failed") (forget_user s))
  relogin_packet (some req) now s =
      call CbType.login req now s.event_cb s.event_cb_arg 0 0 true (record s { logining = true })

  relogin_user : Option UserInfo → Bool → PushSdk → PushSdk
  unfolding relogin_packet
  relogin_user none is_timeout s = s
  relogin_user (some user) is_timeout s =
      if s.logining && not is_timeout
      then s
      else relogin_packet (make_login_packet w s.uid s.appid s.appkey user (get_now s)) (get_now s)
          (after_reading s)

  unfoldable pub relogin : Bool → PushSdk → PushSdk
  unfolding relogin_user
  relogin is_timeout s = relogin_user s.user is_timeout s

  rejoin_packet : Option PushRegReq → ℕ → PushSdk → PushSdk
  rejoin_packet none now s =
      push_event CbType.join_group CbEvent.req_enc_failed
        (bytes
          "inner rejoin group: JoinGroupRequest packet serialize failed. you should rejoin all group manually")
        (elk_upload w (dump_all_group_info s.groups) (bytes "ReJoinGroup") RetCode.req_enc_failed
          (bytes "inner rejoin group: JoinGroupRequest packet serialize failed")
          (remove_all_group_info s))
  rejoin_packet (some req) now s =
      call CbType.join_group req now s.event_cb s.event_cb_arg 0 0 true s

  abbrev is_empty {ℓ} : {A : Type ℓ} → List A → Bool
  is_empty [] = true
  is_empty (x ∷ xs) = false

  unfoldable pub rejoin_group : PushSdk → PushSdk
  unfolding rejoin_packet
  rejoin_group s =
      if not (is_some s.user) || is_empty s.groups
      then s
      else rejoin_packet (make_join_groups_packet w s.uid s.groups (get_now s)) (get_now s)
          (after_reading s)

  -- The context stays in the map while the request is made anew.
  unfoldable pub handle_timeout_response : CallContext → PushSdk → PushSdk
  handle_timeout_response ctx s = elim ctx.type [
    | CbType.login ↦ if ctx.is_retry then relogin true s else s
    | CbType.join_group ↦ if ctx.is_retry then rejoin_group s else s
    | _ ↦ s
  ]

  -- handle_success_response<T>.
  unfoldable pub handle_success_response : ResponseType → CallContext → PushSdk → PushSdk
  handle_success_response ResponseType.login ctx s =
      let s' = record s { logining = false } in if ctx.is_retry then rejoin_group s' else s'
  handle_success_response _ ctx s = s

-- handle_failed_response<T>.
unfoldable pub handle_failed_response : ResponseType → CallContext → PushSdk → PushSdk
unfolding remove_all_group_info
handle_failed_response ResponseType.login ctx s =
    forget_user (remove_all_group_info (record s { logining = false }))
handle_failed_response ResponseType.join_group ctx s =
    if not (ctx.gtype == 0) && not (ctx.gid == 0)
    then record s { groups = remove_group_info ctx.gtype ctx.gid s.groups }
    else remove_all_group_info s
handle_failed_response _ ctx s = s

kicked : Option UserInfo → PushSdk → PushSdk
kicked none s = s
kicked (some user) s =
    push_event CbType.login CbEvent.user_kicked_by_srv (bytes "user be kicked by the server")
      (remove_all_group_info (forget_user s))

unfoldable pub handle_notify_to_close : PushSdk → PushSdk
unfolding kicked remove_all_group_info
handle_notify_to_close s = kicked s.user s
