-- ===== src/Locks/Methods.antt =====
-- What the functions of PushSDK lock, for the state that they find, and what the C functions lock. `done`
-- says whether a context is marked before its call waits on it.
use grpc_push_sdk.Common.{
  ℕ, Bool, true, false, not, ◌&&◌, ◌||◌, List, [], ◌∷◌, ◌++◌, Option, none, some, if◌then◌else◌,
  is_some,
}
use grpc_push_sdk.Locks.{Lock, Act, locked, user, cb_map, event_cb, msg_queue, elk, api, ctx}
use grpc_push_sdk.Packet.{
  World, PushRegReq, make_login_packet, make_logout_packet, make_join_group_packet,
  make_leave_group_packet, make_join_groups_packet,
}
use grpc_push_sdk.Sdk.Groups.{is_group_info_exists}
use grpc_push_sdk.Sdk.Methods.{Asynchronous}
use grpc_push_sdk.Sdk.Session.{get_now}
use grpc_push_sdk.Sdk.State.{PushSdk}
use grpc_push_sdk.Types.{UserInfo, GroupInfo}

-- A critical section with a wait inside.
abbrev pub locked_wait : Lock → List Act
locked_wait m = locked m [] ++ locked m []

-- ELK_UPLOAD.
abbrev pub elk_locks : PushSdk → List Act
elk_locks s = if s.elk.run then locked elk [] else []

-- Client::Send and Client::CleanQueue.
abbrev pub send_locks : List Act
send_locks = locked msg_queue []

abbrev pub call_locks : Bool → List Act
call_locks need_to_lock = (if need_to_lock then locked cb_map [] else []) ++ send_locks

abbrev pub call_sync_locks : ℕ → Bool → List Act
call_sync_locks a done =
    locked cb_map [] ++ send_locks ++ (if done then locked (ctx a) [] else locked_wait (ctx a))

-- A method from the request on: a synchronous one unlocks user_mux_ before its call.
abbrev pub issue_locks : Asynchronous → List Act → Bool → PushSdk → List Act
issue_locks none before done s =
    locked user before ++ call_sync_locks s.next_ctx done ++ elk_locks s
issue_locks (some cb) before done s = locked user (before ++ call_locks true ++ elk_locks s)

-- A method below its test of `init_`: whether it is refused early, and its request.
abbrev pub method_locks :
    Bool → Option PushRegReq → Asynchronous → List Act → Bool → PushSdk → List Act
method_locks true req mode before done s = locked user (before ++ elk_locks s)
method_locks false none mode before done s = locked user (before ++ elk_locks s)
method_locks false (some req) mode before done s = issue_locks mode before done s

-- relogin and rejoin_group from their request on.
abbrev pub retry_locks : Option PushRegReq → Bool → PushSdk → List Act
retry_locks none need_to_lock s = locked user [] ++ elk_locks s ++ locked event_cb []
retry_locks (some req) need_to_lock s = locked user (call_locks need_to_lock)

abbrev pub has_none {ℓ} : {A : Type ℓ} → List A → Bool
has_none [] = true
has_none (x ∷ xs) = false

module _ (w : World) where
  abbrev pub login_locks : UserInfo → Asynchronous → Bool → PushSdk → List Act
  login_locks u mode done s =
      if s.init
      then method_locks (is_some s.user)
          (make_login_packet w s.uid s.appid s.appkey u (get_now w s)) mode send_locks done s
      else elk_locks s

  abbrev pub logout_locks : Asynchronous → Bool → PushSdk → List Act
  logout_locks mode done s =
      method_locks (not (is_some s.user))
        (make_logout_packet w s.uid s.appid s.appkey (get_now w s)) mode [] done s

  abbrev pub join_group_locks : GroupInfo → Asynchronous → Bool → PushSdk → List Act
  join_group_locks g mode done s =
      method_locks (not (is_some s.user) || is_group_info_exists g.gtype g.gid s.groups)
        (make_join_group_packet w s.uid g.gtype g.gid (get_now w s)) mode [] done s

  abbrev pub leave_group_locks : GroupInfo → Asynchronous → Bool → PushSdk → List Act
  leave_group_locks g mode done s =
      method_locks (not (is_some s.user) || not (is_group_info_exists g.gtype g.gid s.groups))
        (make_leave_group_packet w s.uid g.gtype g.gid (get_now w s)) mode [] done s

  abbrev pub relogin_user_locks : Option UserInfo → Bool → Bool → PushSdk → List Act
  relogin_user_locks none need_to_lock is_timeout s = locked user []
  relogin_user_locks (some u) need_to_lock is_timeout s =
      if s.logining && not is_timeout
      then locked user []
      else retry_locks (make_login_packet w s.uid s.appid s.appkey u (get_now w s)) need_to_lock s

  abbrev pub relogin_locks : Bool → Bool → PushSdk → List Act
  relogin_locks need_to_lock is_timeout s = relogin_user_locks s.user need_to_lock is_timeout s

  abbrev pub rejoin_group_locks : Bool → PushSdk → List Act
  rejoin_group_locks need_to_lock s =
      if not (is_some s.user) || has_none s.groups
      then locked user []
      else retry_locks (make_join_groups_packet w s.uid s.groups (get_now w s)) need_to_lock s

-- A call of a C function that holds _mux, with the state that it finds: `initialized`, and the rest.
pub data ApiCall : Type 0 where
  logs_in : Bool → Option UserInfo → Bool → PushSdk → ApiCall
  logs_out : Bool → Bool → PushSdk → ApiCall
  joins leaves : Bool → GroupInfo → Bool → PushSdk → ApiCall
  gets_error : ApiCall

module _ (w : World) where
  abbrev pub login_checked_locks : Option UserInfo → Bool → PushSdk → List Act
  login_checked_locks none done s = []
  login_checked_locks (some u) done s = login_locks w u none done s

  abbrev pub api_locks : ApiCall → List Act
  api_locks (logs_in initialized u done s) =
      locked api (if initialized then login_checked_locks u done s else [])
  api_locks (logs_out initialized done s) =
      locked api (if initialized then logout_locks w none done s else [])
  api_locks (joins initialized g done s) =
      locked api (if initialized then join_group_locks w g none done s else [])
  api_locks (leaves initialized g done s) =
      locked api (if initialized then leave_group_locks w g none done s else [])
  api_locks gets_error = locked api []

  -- What a function of the application locks: the calls that it makes.
  abbrev pub app_locks : List ApiCall → List Act
  app_locks [] = []
  app_locks (c ∷ cs) = api_locks c ++ app_locks cs
