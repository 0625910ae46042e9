-- ===== src/Sdk/Methods/Repeats.antt =====
-- Login, Logout, JoinGroup and LeaveGroup (src/core/core.cpp), each called again once it has ended.
use grpc_push_sdk.Common.{
  ℕ, ◌<◌, ◌^◌, ◌≡◌, ap, ◌∙◌, arith, is_some, none, true, false, some, ==_refl,
}
use grpc_push_sdk.Decimal.{to_string}
use grpc_push_sdk.Packet.{World, PushData, PushRegReq, Response, ResponseType}
use grpc_push_sdk.Sdk.CallMap
use grpc_push_sdk.Sdk.CallMap.Order.{find-insert}
use grpc_push_sdk.Sdk.Calls.{call_sync_begin, call_sync_end, notify}
use grpc_push_sdk.Sdk.Correlation.{handle_response_known}
use grpc_push_sdk.Sdk.Groups.{insert, is_group_info_exists, remove_group_info}
use grpc_push_sdk.Sdk.Groups.Table.{
  Distinct, is_group_info_exists-insert, is_group_info_exists-remove_group_info,
}
use grpc_push_sdk.Sdk.Messages.{answer, handle_response}
use grpc_push_sdk.Sdk.Methods.{
  Outcome, login, logout, join_group, leave_group, issue, reject, returns, waits, login_user,
  login_packet, logout_user, logout_packet, join_user, join_packet, leave_user, leave_packet,
}
use grpc_push_sdk.Sdk.Session.{remove_all_group_info, handle_success_response, get_now}
use grpc_push_sdk.Sdk.State.{PushSdk}
use grpc_push_sdk.Types.{CbType, RetCode, UserInfo, GroupInfo, res_success}

module _ (w : World) where
  login_sets :
      (user : UserInfo) (s : PushSdk) (a : ℕ)
      → (login w user none s).1 ≡ waits a
      → ((login w user none s).0.init ≡ true) × ((login w user none s).0.user ≡ some user)
  unfolding login issue call_sync_begin reject login_user login_packet
  login_sets user s a h = ground arith

  login_refused :
      (user old : UserInfo) (s : PushSdk)
      → s.init ≡ true
      → s.user ≡ some old
      → (login w user none s).1 ≡ returns RetCode.already_login
  unfolding login reject login_user
  login_refused user old s i u = ground arith

  logout_clears :
      (s : PushSdk) (a : ℕ) → (logout w none s).1 ≡ waits a → (logout w none s).0.user ≡ none
  unfolding logout issue call_sync_begin reject logout_user logout_packet remove_all_group_info
  logout_clears s a h = ground arith

  logout_again : (s : PushSdk) → s.user ≡ none → (logout w none s).1 ≡ returns RetCode.success
  unfolding logout reject logout_user
  logout_again s u = ground arith

  join_adds :
      (g : GroupInfo) (s : PushSdk) (a : ℕ)
      → (join_group w g none s).1 ≡ waits a
      → (is_some (join_group w g none s).0.user ≡ true)
        × ((join_group w g none s).0.groups ≡ insert g.gtype g.gid s.groups)
  unfolding join_group issue call_sync_begin reject join_user join_packet
  join_adds g s a h = ground arith

  join_refused :
      (g : GroupInfo) (s : PushSdk)
      → is_some s.user ≡ true
      → is_group_info_exists g.gtype g.gid s.groups ≡ true
      → (join_group w g none s).1 ≡ returns RetCode.already_join_group
  unfolding join_group reject join_user
  join_refused g s u i = ground arith

  leave_removes :
      (g : GroupInfo) (s : PushSdk) (a : ℕ)
      → (leave_group w g none s).1 ≡ waits a
      → (is_some (leave_group w g none s).0.user ≡ true)
        × ((leave_group w g none s).0.groups ≡ remove_group_info g.gtype g.gid s.groups)
  unfolding leave_group issue call_sync_begin reject leave_user leave_packet
  leave_removes g s a h = ground arith

  leave_again :
      (g : GroupInfo) (s : PushSdk)
      → is_some s.user ≡ true
      → is_group_info_exists g.gtype g.gid s.groups ≡ false
      → (leave_group w g none s).1 ≡ returns RetCode.success
  unfolding leave_group reject leave_user
  leave_again g s u i = ground arith

  -- The call waits under the instant, and its context is one of `call_sync`.
  abbrev Issued : ℕ → ℕ → PushSdk → Type 0
  Issued now a s1 =
      (CallMap.find now s1.cb_map ≡ some a)
      × ((s1.ctxs a).cb_func ≡ none)
      × ((s1.ctxs a).cb_args ≡ none)
      × ((s1.ctxs a).is_retry ≡ false)

  begin-Issued :
      (type : CbType) (req : PushRegReq) (now gtype gid : ℕ) (s : PushSdk)
      → Issued now s.next_ctx (call_sync_begin type req now gtype gid s).0
  unfolding call_sync_begin
  begin-Issued type req now gtype gid s =
      let found = find-insert now now s.next_ctx s.cb_map in
      (ground (arith, found, ==_refl now), ground arith, ground arith, ground arith)

  -- The answer with the code 200 keeps the session.
  answer_keeps :
      (t : ResponseType) (res : Response) (a : ℕ) (s : PushSdk)
      → res.res_code ≡ res_success
      → (s.ctxs a).cb_func ≡ none
      → (s.ctxs a).cb_args ≡ none
      → (s.ctxs a).is_retry ≡ false
      → let (s3, ret) = call_sync_end a (answer w t res a s) in
        (ret ≡ RetCode.success) × (s3.init ≡ s.init) × (s3.user ≡ s.user) × (s3.groups ≡ s.groups)
  unfolding answer call_sync_end notify handle_success_response
  answer_keeps t res a s good f x r = ground arith

  -- A call of one of the four methods, of the type of its response, without a function of its own.
  abbrev pub method : ResponseType → UserInfo → GroupInfo → PushSdk → PushSdk × Outcome
  method ResponseType.login user g s = login w user none s
  method ResponseType.logout user g s = logout w none s
  method ResponseType.join_group user g s = join_group w g none s
  method ResponseType.leave_group user g s = leave_group w g none s

  login-Issued :
      (user : UserInfo) (s : PushSdk) (a : ℕ)
      → (login w user none s).1 ≡ waits a
      → Issued (get_now w s) a (login w user none s).0
  unfolding login login_user login_packet reject issue call_sync_begin
  login-Issued user s a h =
      let now = get_now w s in
      let found = find-insert now now s.next_ctx s.cb_map in
      (
        ground (arith, found, ==_refl now),
        ground (arith, ==_refl s.next_ctx),
        ground (arith, ==_refl s.next_ctx),
        ground (arith, ==_refl s.next_ctx),
      )

  logout-Issued :
      (s : PushSdk) (a : ℕ)
      → (logout w none s).1 ≡ waits a
      → Issued (get_now w s) a (logout w none s).0
  unfolding logout logout_user logout_packet remove_all_group_info reject issue call_sync_begin
  logout-Issued s a h =
      let now = get_now w s in
      let found = find-insert now now s.next_ctx s.cb_map in
      (
        ground (arith, found, ==_refl now),
        ground (arith, ==_refl s.next_ctx),
        ground (arith, ==_refl s.next_ctx),
        ground (arith, ==_refl s.next_ctx),
      )

  join-Issued :
      (g : GroupInfo) (s : PushSdk) (a : ℕ)
      → (join_group w g none s).1 ≡ waits a
      → Issued (get_now w s) a (join_group w g none s).0
  unfolding join_group join_user join_packet reject issue call_sync_begin
  join-Issued g s a h =
      let now = get_now w s in
      let found = find-insert now now s.next_ctx s.cb_map in
      (
        ground (arith, found, ==_refl now),
        ground (arith, ==_refl s.next_ctx),
        ground (arith, ==_refl s.next_ctx),
        ground (arith, ==_refl s.next_ctx),
      )

  leave-Issued :
      (g : GroupInfo) (s : PushSdk) (a : ℕ)
      → (leave_group w g none s).1 ≡ waits a
      → Issued (get_now w s) a (leave_group w g none s).0
  unfolding leave_group leave_user leave_packet reject issue call_sync_begin
  leave-Issued g s a h =
      let now = get_now w s in
      let found = find-insert now now s.next_ctx s.cb_map in
      (
        ground (arith, found, ==_refl now),
        ground (arith, ==_refl s.next_ctx),
        ground (arith, ==_refl s.next_ctx),
        ground (arith, ==_refl s.next_ctx),
      )

  method-Issued :
      (t : ResponseType) (user : UserInfo) (g : GroupInfo) (s : PushSdk) (a : ℕ)
      → (method t user g s).1 ≡ waits a
      → Issued (get_now w s) a (method t user g s).0
  method-Issued ResponseType.login user g s a h = login-Issued user s a h
  method-Issued ResponseType.logout user g s a h = logout-Issued s a h
  method-Issued ResponseType.join_group user g s a h = join-Issued g s a h
  method-Issued ResponseType.leave_group user g s a h = leave-Issued g s a h

  -- What push_sdk.h promises of each method, where it is called again.
  abbrev pub promised : ResponseType → RetCode
  promised ResponseType.login = RetCode.already_login
  promised ResponseType.logout = RetCode.success
  promised ResponseType.join_group = RetCode.already_join_group
  promised ResponseType.leave_group = RetCode.success

  -- The session after the first call, wherever it was kept.
  again :
      (t : ResponseType) (user user' : UserInfo) (g : GroupInfo) (s s3 : PushSdk) (a : ℕ)
      → (method t user g s).1 ≡ waits a
      → Distinct s.groups
      → s3.init ≡ (method t user g s).0.init
      → s3.user ≡ (method t user g s).0.user
      → s3.groups ≡ (method t user g s).0.groups
      → (method t user' g s3).1 ≡ returns (promised t)
  again ResponseType.login user user' g s s3 a h distinct i u gs =
      let (init, logged) = login_sets user s a h in
      login_refused user' user s3 (i ∙ init) (u ∙ logged)
  again ResponseType.logout user user' g s s3 a h distinct i u gs =
      logout_again s3 (u ∙ logout_clears s a h)
  again ResponseType.join_group user user' g s s3 a h distinct i u gs =
      let (joined, inserted) = join_adds g s a h in
      let found = is_group_info_exists-insert g.gtype g.gid g.gtype g.gid s.groups in
      join_refused g s3 (ap is_some u ∙ joined) (rw (gs, inserted) (ground (arith, found)))
  again ResponseType.leave_group user user' g s s3 a h distinct i u gs =
      let (left, removed) = leave_removes g s a h in
      let gone =
        is_group_info_exists-remove_group_info g.gtype g.gid g.gtype g.gid s.groups distinct in
      leave_again g s3 (ap is_some u ∙ left) (rw (gs, removed) (ground (arith, gone)))

  -- A synchronous Login, Logout, JoinGroup or LeaveGroup that makes its request, on a session in which no
  -- group stands twice, and whose answer has the code 200, returns success at the end of its wait; the
  -- same method called next on the session that it leaves, for the same group and with whatever user,
  -- returns at once: Login PS_RET_ALREADY_LOGIN, JoinGroup PS_RET_ALREADY_JOIN_GROUP, and Logout and
  -- LeaveGroup success.
  pub repeated_calls :
      (t : ResponseType) (user user' : UserInfo) (g : GroupInfo) (s : PushSdk) (a : ℕ)
      (d : PushData) (res : Response)
      → (method t user g s).1 ≡ waits a
      → Distinct s.groups
      → 0 < get_now w s
      → get_now w s < 2 ^ 63
      → w.decode t d.msg_data ≡ some res
      → res.context ≡ to_string (get_now w s)
      → res.res_code ≡ res_success
      → (s2 : PushSdk) × (handle_response w t d (method t user g s).0 ≡ some s2)
        × ((call_sync_end a s2).1 ≡ RetCode.success)
        × ((method t user' g (call_sync_end a s2).0).1 ≡ returns (promised t))
  repeated_calls t user user' g s a d res h distinct p q e echoed good =
      let s1 = (method t user g s).0 in
      let s1' = record s1 { cb_map = CallMap.erase (get_now w s) s1.cb_map } in
      let (found, f, x, r) = method-Issued t user g s a h in
      let (ret, i, u, gs) = answer_keeps t res a s1' good f x r in
      let s2 = answer w t res a s1' in
      (
        s2,
        handle_response_known w t d res (get_now w s) s1 a p q e echoed found,
        ret,
        again t user user' g s (call_sync_end a s2).0 a h distinct i u gs,
      )
