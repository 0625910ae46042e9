-- ===== src/Sdk/Invariant.antt =====
-- What holds of PushSDK between two critical sections.
use grpc_push_sdk.Client.{new_client, initialize}
use grpc_push_sdk.Common.{
  ℕ, ◌≡◌, refl, inl, inr, Bool, true, false, List, [], ◌∷◌, Option, some, arith, is_some,
  Option-cases,
}
use grpc_push_sdk.Packet.{World, ResponseType, LoginRequest, make_login_packet, login_request}
use grpc_push_sdk.Sdk.Calls.{register, call, call_sync_begin, call_sync_end, notify}
use grpc_push_sdk.Sdk.Groups.{remove_group_info}
use grpc_push_sdk.Sdk.Groups.Table.{
  Distinct, Ascends, insert-Distinct, remove_group_info-Distinct, insert-Ascends,
  remove_group_info-Ascends,
}
use grpc_push_sdk.Sdk.Lifecycle.{initialize_sdk, destroy_begin, destroy_end}
use grpc_push_sdk.Sdk.Methods.{
  Asynchronous, login, logout, join_group, leave_group, finish_call, reject, issue,
}
use grpc_push_sdk.Sdk.Session.{
  relogin, rejoin_group, handle_timeout_response, handle_success_response, handle_failed_response,
  handle_notify_to_close, remove_all_group_info,
}
use grpc_push_sdk.Sdk.State.{PushSdk, CallContext, new_sdk, elk_upload}
use grpc_push_sdk.Int.{ℤ}
use grpc_push_sdk.Sdk.Run.{Op, run}
use grpc_push_sdk.Sdk.Steps.{Preserves, run-kept}
use grpc_push_sdk.Types.{RetCode, CbEvent, UserInfo, GroupInfo}

-- A user is logged in only on an initialized SDK, which has a client; there are groups only while a
-- user is logged in, each at most once, by ascending type.
pub record Inv (s : PushSdk) : Type 0 where
  pub user_init : is_some s.user ≡ true → s.init ≡ true
  pub init_client : s.init ≡ true → is_some s.client ≡ true
  pub groups_user : is_some s.user ≡ false → s.groups ≡ []
  pub distinct : Distinct s.groups
  pub ascends : Ascends 0 s.groups

remove-nil : (g i : ℕ) (m : List (ℕ × ℕ)) → m ≡ [] → remove_group_info g i m ≡ []
unfolding remove_group_info
remove-nil g i [] e = refl
remove-nil g i (x ∷ m) e = cc

-- The serializer of protobuf's proto3 messages fails only past 2 GB.
abbrev pub Encodes : World → Type 0
Encodes w = (r : LoginRequest) → is_some (w.encode_login r) ≡ true

new_sdk-Inv : (heap : ℕ → CallContext) → Inv (new_sdk heap)
unfolding new_sdk
new_sdk-Inv heap = ground arith

module _ (w : World) where
  register-Inv :
      (ctx : CallContext) (msg : _) (now : ℕ) (s : PushSdk) → Inv s → Inv (register ctx msg now s)
  unfolding register
  register-Inv ctx msg now s v = ground arith

  rejoin_group-Inv : (s : PushSdk) → Inv s → Inv (rejoin_group w s)
  unfolding rejoin_group call elk_upload remove_all_group_info
  rejoin_group-Inv s v = ground arith

  relogin-Inv : Encodes w → (b : Bool) (s : PushSdk) → Inv s → Inv (relogin w b s)
  unfolding relogin call elk_upload make_login_packet
  relogin-Inv e b s v = elim (Option-cases s.user) [
    | inl out ↦ ground arith
    | inr (u, logged) ↦
        ground (arith, e (login_request w s.uid s.appid s.appkey u (w.steady_nano_seconds s.reads)))
  ]

  notify-Inv :
      (a : ℕ) (res : CbEvent) (desc : List ℕ) (code : ℤ) (s : PushSdk)
      → Inv s
      → Inv (notify a res desc code s)
  unfolding notify
  notify-Inv a res desc code s v = ground arith

  handle_timeout_response-Inv :
      Encodes w → (ctx : CallContext) (s : PushSdk) → Inv s → Inv (handle_timeout_response w ctx s)
  unfolding handle_timeout_response
  handle_timeout_response-Inv e ctx s v =
      ground (arith, relogin-Inv e true s v, rejoin_group-Inv s v)

  handle_success_response-Inv :
      (t : ResponseType) (ctx : CallContext) (s : PushSdk)
      → Inv s
      → Inv (handle_success_response w t ctx s)
  unfolding handle_success_response
  handle_success_response-Inv t ctx s v =
      ground (arith, rejoin_group-Inv (record s { logining = false }))

  handle_failed_response-Inv :
      (t : ResponseType) (ctx : CallContext) (s : PushSdk)
      → Inv s
      → Inv (handle_failed_response t ctx s)
  unfolding handle_failed_response
  handle_failed_response-Inv t ctx s v = ground (
    arith,
    remove_group_info-Distinct ctx.gtype ctx.gid s.groups,
    remove_group_info-Ascends 0 ctx.gtype ctx.gid s.groups,
    remove-nil ctx.gtype ctx.gid s.groups,
  )

  handle_notify_to_close-Inv : (s : PushSdk) → Inv s → Inv (handle_notify_to_close s)
  unfolding handle_notify_to_close
  handle_notify_to_close-Inv s v = ground arith

  login-Inv :
      (user : UserInfo) (mode : Asynchronous) (s : PushSdk) → Inv s → Inv (login w user mode s).0
  unfolding login issue reject elk_upload call call_sync_begin
  login-Inv user mode s v = ground arith

  logout-Inv : (mode : Asynchronous) (s : PushSdk) → Inv s → Inv (logout w mode s).0
  unfolding logout issue reject elk_upload call call_sync_begin
  logout-Inv mode s v = ground arith

  join_group-Inv :
      (g : GroupInfo) (mode : Asynchronous) (s : PushSdk) → Inv s → Inv (join_group w g mode s).0
  unfolding join_group issue reject elk_upload call call_sync_begin
  join_group-Inv g mode s v =
      ground
        (arith, insert-Distinct g.gtype g.gid s.groups, insert-Ascends 0 g.gtype g.gid s.groups)

  leave_group-Inv :
      (g : GroupInfo) (mode : Asynchronous) (s : PushSdk) → Inv s → Inv (leave_group w g mode s).0
  unfolding leave_group issue reject elk_upload call call_sync_begin
  leave_group-Inv g mode s v = ground (
    arith,
    remove_group_info-Distinct g.gtype g.gid s.groups,
    remove_group_info-Ascends 0 g.gtype g.gid s.groups,
  )

  finish_call-Inv :
      (group_info action : List ℕ) (a : ℕ) (s : PushSdk)
      → Inv s
      → Inv (finish_call w group_info action a s).0
  unfolding finish_call call_sync_end elk_upload
  finish_call-Inv group_info action a s v = ground arith

  initialize_sdk-Inv :
      (uid appid appkey : ℕ) (cb arg : Option ℕ) (garbage : Bool) (s : PushSdk)
      → Inv s
      → Inv (initialize_sdk w uid appid appkey cb arg garbage s).0
  unfolding initialize_sdk initialize new_client
  initialize_sdk-Inv uid appid appkey cb arg garbage s v = ground arith

destroy_end-Inv : (s : PushSdk) → Inv s → Inv (destroy_end s)
unfolding destroy_end
destroy_end-Inv s v = ground arith

destroy_begin-Inv :
    (b : Bool) (s : PushSdk) {s' : PushSdk} → Inv s → destroy_begin b s ≡ some s' → Inv s'
unfolding destroy_begin
destroy_begin-Inv b s v e = ground arith

upload-Inv :
    (w : World) (info action : List ℕ) (code : RetCode) (msg : List ℕ) (s : PushSdk)
    → Inv s
    → Inv (elk_upload w info action code msg s)
unfolding elk_upload
upload-Inv w info action code msg s v = ground arith

pub Inv-Preserves : (w : World) → Encodes w → Preserves w Inv
Inv-Preserves w e = record {
  after_relogin = relogin-Inv w e;
  after_timeout = handle_timeout_response-Inv w e;
  after_success = handle_success_response-Inv w;
  after_failure = handle_failed_response-Inv w;
  after_close = handle_notify_to_close-Inv w;
  after_notify = notify-Inv w;
  after_upload = upload-Inv w;
  with_invoked = λ l s v. ground arith;
  with_pctxs = λ l s v. ground arith;
  with_elk = λ u s v. ground arith;
  with_reads = λ n s v. ground arith;
  with_handlers = λ l n s v. ground arith;
  with_erased = λ ts s v. ground arith;
  with_sent = λ req s v. ground arith;
  with_client = λ c c' s h v. ground arith;
  after_login = login-Inv w;
  after_logout = logout-Inv w;
  after_join = join_group-Inv w;
  after_leave = leave_group-Inv w;
  after_finish = finish_call-Inv w;
  after_initialize = initialize_sdk-Inv w;
  after_begin = λ b s s' v e'. destroy_begin-Inv b s v e';
  after_end = destroy_end-Inv;
}

-- Where the login request can always be serialized, every sequence of steps from a new SDK leads to
-- a state in which: a user is logged in only on an initialized SDK; an initialized SDK has a
-- client; without a user there is no group; no group stands twice in the table, and the table
-- ascends by group type.
pub run-new_sdk-Inv :
    (w : World) (heap : ℕ → CallContext) (ops : List Op) (s : PushSdk)
    → Encodes w
    → run w ops (new_sdk heap) ≡ some s
    → Inv s
run-new_sdk-Inv w heap ops s e h =
    run-kept w Inv (Inv-Preserves w e) ops (new_sdk heap) s (new_sdk-Inv heap) h
