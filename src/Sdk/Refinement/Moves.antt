-- ===== src/Sdk/Refinement/Moves.antt =====
-- What each function of PushSDK does to the user and the groups, as equations on its state.
use grpc_push_sdk.Common.{
  ℕ, ◌≡◌, ◌⊎◌, inl, inr, Bool, true, false, List, [], arith, is_some, Option-cases,
}
use grpc_push_sdk.Int.{ℤ}
use grpc_push_sdk.Packet.{
  World, ResponseType, make_login_packet, login_request, make_join_groups_packet, group_request,
}
use grpc_push_sdk.Sdk.Calls.{call, call_sync_begin, notify}
use grpc_push_sdk.Sdk.Groups.{insert, is_group_info_exists, remove_group_info}
use grpc_push_sdk.Sdk.Invariant.{Inv, Encodes}
use grpc_push_sdk.Sdk.Methods.{Asynchronous, login, logout, join_group, leave_group, reject, issue}
use grpc_push_sdk.Sdk.Refinement.{EncodesJoins, succeeds}
use grpc_push_sdk.Sdk.Session.{
  relogin, rejoin_group, handle_timeout_response, handle_success_response, handle_notify_to_close,
  remove_all_group_info,
}
use grpc_push_sdk.Sdk.State.{PushSdk, CallContext, elk_upload}
use grpc_push_sdk.Types.{UserInfo, GroupInfo, CbEvent}

abbrev pub Kept : PushSdk → PushSdk → Type 0
Kept s s' = (is_some s'.user ≡ is_some s.user) × (s'.groups ≡ s.groups)

module _ (w : World) (s : PushSdk) where
  rejoin_group-Kept : EncodesJoins w → Kept s (rejoin_group w s)
  unfolding rejoin_group call elk_upload remove_all_group_info make_join_groups_packet
  rejoin_group-Kept e =
      ground (arith, e (group_request w s.uid s.groups (w.steady_nano_seconds s.reads)))

  pub relogin-Kept : Encodes w → (b : Bool) → Kept s (relogin w b s)
  unfolding relogin call elk_upload make_login_packet
  relogin-Kept e b = elim (Option-cases s.user) [
    | inl out ↦ ground arith
    | inr (u, logged) ↦
        ground (arith, e (login_request w s.uid s.appid s.appkey u (w.steady_nano_seconds s.reads)))
  ]

  pub timeout-Kept :
      Encodes w → EncodesJoins w → (ctx : CallContext) → Kept s (handle_timeout_response w ctx s)
  unfolding handle_timeout_response
  timeout-Kept e j ctx = ground (arith, relogin-Kept e true, rejoin_group-Kept j)

  pub notify-Kept :
      (a : ℕ) (res : CbEvent) (desc : List ℕ) (code : ℤ) → Kept s (notify a res desc code s)
  unfolding notify
  notify-Kept a res desc code = ground arith

  pub close-groups :
      Inv s
      → (is_some (handle_notify_to_close s).user ≡ false) × ((handle_notify_to_close s).groups ≡ [])
  unfolding handle_notify_to_close
  close-groups v = ground (arith, v.groups_user)

  pub login_made :
      (u : UserInfo) (m : Asynchronous)
      → succeeds (login w u m s).1 ≡ true
      → (is_some s.user ≡ false)
        × (is_some (login w u m s).0.user ≡ true)
        × ((login w u m s).0.groups ≡ s.groups)
  unfolding login issue reject elk_upload call call_sync_begin
  login_made u m h = ground arith

  pub login-Kept :
      (u : UserInfo) (m : Asynchronous)
      → succeeds (login w u m s).1 ≡ false
      → Kept s (login w u m s).0
  unfolding login issue reject elk_upload call call_sync_begin
  login-Kept u m h = ground arith

  pub logout_made :
      (m : Asynchronous)
      → Inv s
      → succeeds (logout w m s).1 ≡ true
      → (is_some (logout w m s).0.user ≡ false) × ((logout w m s).0.groups ≡ [])
  unfolding logout issue reject elk_upload call call_sync_begin
  logout_made m v h = ground (arith, v.groups_user)

  pub logout-Kept : (m : Asynchronous) → succeeds (logout w m s).1 ≡ false → Kept s (logout w m s).0
  unfolding logout issue reject elk_upload call call_sync_begin
  logout-Kept m h = ground arith

  pub join_made :
      (g : GroupInfo) (m : Asynchronous)
      → succeeds (join_group w g m s).1 ≡ true
      → (is_some s.user ≡ true)
        × (is_some (join_group w g m s).0.user ≡ true)
        × (is_group_info_exists g.gtype g.gid s.groups ≡ false)
        × ((join_group w g m s).0.groups ≡ insert g.gtype g.gid s.groups)
  unfolding join_group issue reject elk_upload call call_sync_begin
  join_made g m h = ground arith

  pub join-Kept :
      (g : GroupInfo) (m : Asynchronous)
      → succeeds (join_group w g m s).1 ≡ false
      → Kept s (join_group w g m s).0
  unfolding join_group issue reject elk_upload call call_sync_begin
  join-Kept g m h = ground arith

  pub leave_made :
      (g : GroupInfo) (m : Asynchronous)
      → succeeds (leave_group w g m s).1 ≡ true
      → let s' = (leave_group w g m s).0 in
        (is_some s'.user ≡ is_some s.user)
        × ((s'.groups ≡ remove_group_info g.gtype g.gid s.groups)
            ⊎ ((is_group_info_exists g.gtype g.gid s.groups ≡ false) × (s'.groups ≡ s.groups)))
  unfolding leave_group issue reject elk_upload call call_sync_begin
  leave_made g m h = ground arith

  pub leave-Kept :
      (g : GroupInfo) (m : Asynchronous)
      → succeeds (leave_group w g m s).1 ≡ false
      → Kept s (leave_group w g m s).0
  unfolding leave_group issue reject elk_upload call call_sync_begin
  leave-Kept g m h = ground arith

  pub success-Kept :
      EncodesJoins w
      → (t : ResponseType) (ctx : CallContext) → Kept s (handle_success_response w t ctx s)
  unfolding handle_success_response rejoin_group call elk_upload remove_all_group_info
      make_join_groups_packet
  success-Kept e t ctx =
      ground (arith, e (group_request w s.uid s.groups (w.steady_nano_seconds s.reads)))
