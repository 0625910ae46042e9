-- ===== src/Sdk/Session/Reconnect.antt =====
-- A new connection: OnConnected logs the user in again, and the answer lets him join his groups again.
use grpc_push_sdk.Client.{Client, enqueue}
use grpc_push_sdk.Common.{
  ℕ, ◌^◌, ◌<◌, ◌≡◌, refl, ap, ◌∙◌, Bool, false, true, List, [], ◌∷◌, ◌++◌, some, arith, bytes, ◌==◌,
  is_some, not, ◌||◌, ◌&&◌, if◌then◌else◌, ==_refl,
}
use grpc_push_sdk.Decimal.{to_string}
use grpc_push_sdk.Int.{pos}
use grpc_push_sdk.Packet.{
  World, PushData, PushRegReq, Response, ResponseType, make_login_packet, make_join_groups_packet,
}
use grpc_push_sdk.Sdk.CallMap
use grpc_push_sdk.Sdk.CallMap.Order.{find-insert}
use grpc_push_sdk.Sdk.Calls.{call, notify, register}
use grpc_push_sdk.Sdk.Correlation.{handle_response_known}
use grpc_push_sdk.Sdk.Messages.{answer, handle_response}
use grpc_push_sdk.Sdk.Session.{
  relogin, relogin_user, relogin_packet, rejoin_group, rejoin_packet, handle_success_response,
  get_now, is_empty, after_reading,
}
use grpc_push_sdk.Sdk.State.{PushSdk, new_context}
use grpc_push_sdk.Types.{CbType, CbEvent, UserInfo, res_success}

module _ (w : World) where
  -- The state in which OnConnected leaves the SDK.
  abbrev pub relogged : PushRegReq → PushSdk → PushSdk
  relogged req s =
      call CbType.login req (get_now w s) s.event_cb s.event_cb_arg 0 0 true
        (record (after_reading w s) { logining = true })

  pub relogin-call :
      (is_timeout : Bool) (s : PushSdk) (user : UserInfo) (req : PushRegReq)
      → s.user ≡ some user
      → (s.logining && not is_timeout) ≡ false
      → make_login_packet w s.uid s.appid s.appkey user (get_now w s) ≡ some req
      → relogin w is_timeout s ≡ relogged req s
  unfolding relogin relogin_user relogin_packet
  relogin-call is_timeout s user req u idle made =
      ap (λ x. relogin_user w x is_timeout s) u
      ∙ ap
          (λ b.
            if b
            then s
            else relogin_packet w (make_login_packet w s.uid s.appid s.appkey user (get_now w s))
                (get_now w s) (after_reading w s))
          idle
      ∙ ap (λ p. relogin_packet w p (get_now w s) (after_reading w s)) made

  rejoin_group-call :
      (s : PushSdk) (user : UserInfo) (g : ℕ × ℕ) (gs : List (ℕ × ℕ)) (req : PushRegReq)
      → s.user ≡ some user
      → s.groups ≡ g ∷ gs
      → make_join_groups_packet w s.uid (g ∷ gs) (get_now w s) ≡ some req
      → rejoin_group w s
        ≡ call CbType.join_group req
            (get_now w s)
            s.event_cb
            s.event_cb_arg
            0
            0
            true
            (after_reading w s)
  unfolding rejoin_group rejoin_packet
  rejoin_group-call s user g gs req u m made =
      ap
        (λ x.
          if not (is_some x) || is_empty w s.groups
          then s
          else rejoin_packet w (make_join_groups_packet w s.uid s.groups (get_now w s))
              (get_now w s) (after_reading w s))
        u
      ∙ ap
          (λ m.
            if is_empty w m
            then s
            else rejoin_packet w (make_join_groups_packet w s.uid m (get_now w s)) (get_now w s)
                (after_reading w s))
          m
      ∙ ap (λ p. rejoin_packet w p (get_now w s) (after_reading w s)) made

module _ (w : World) (s : PushSdk) (user : UserInfo) (g : ℕ × ℕ) (gs : List (ℕ × ℕ)) (c : Client)
    (f : ℕ) (login_req join_req : PushRegReq) (has_user : s.user ≡ some user)
    (idle : s.logining ≡ false) (in_groups : s.groups ≡ g ∷ gs) (connected : s.client ≡ some c)
    (has_cb : s.event_cb ≡ some f)
    (login_made : make_login_packet w s.uid s.appid s.appkey user (get_now w s) ≡ some login_req)
    (join_made : make_join_groups_packet w s.uid (g ∷ gs) (get_now w (after_reading w s))
      ≡ some join_req) where
  -- The state in which the answer to the login is taken up.
  abbrev answered : PushSdk
  answered = record (relogged w login_req s) {
    cb_map = CallMap.erase (get_now w s) (relogged w login_req s).cb_map;
    logining = false;
  }

  login_context :
      answered.ctxs s.next_ctx ≡ new_context CbType.login s.event_cb s.event_cb_arg 0 0 true
  unfolding call register
  login_context = rw (==_refl s.next_ctx) refl

  rejoined : PushSdk
  rejoined =
      call CbType.join_group join_req (get_now w answered) s.event_cb s.event_cb_arg 0 0 true
        (after_reading w answered)

  success-rejoins :
      handle_success_response w ResponseType.login
        (answered.ctxs s.next_ctx)
        (record (relogged w login_req s) {
          cb_map = CallMap.erase (get_now w s) (relogged w login_req s).cb_map;
        })
      ≡ rejoined
  unfolding handle_success_response rejoined call register
  success-rejoins =
      let before = record (relogged w login_req s) {
        cb_map = CallMap.erase (get_now w s) (relogged w login_req s).cb_map;
      } in
      ap (λ x. handle_success_response w ResponseType.login x before) login_context
      ∙ rejoin_group-call w answered user g gs join_req has_user in_groups join_made

  notify-rejoined :
      let s2 = notify s.next_ctx CbEvent.ok (bytes "ok") (pos 0) rejoined in
      (s2.client ≡ some (enqueue (enqueue c login_req) join_req))
      × (s2.user ≡ some user)
      × (s2.groups ≡ g ∷ gs)
      × (s2.logining ≡ false)
      × (s2.event_cb_pctxs
          ≡ s.event_cb_pctxs
            ++ record { type = CbType.login; res = CbEvent.ok; desc = bytes "ok" } ∷ [])
  unfolding notify rejoined call register
  notify-rejoined = ground (arith, has_cb, connected)

  answer-rejoined :
      (res : Response)
      → res.res_code ≡ res_success
      → answer w ResponseType.login res s.next_ctx (record (relogged w login_req s) {
        cb_map = CallMap.erase (get_now w s) (relogged w login_req s).cb_map;
      })
        ≡ notify s.next_ctx CbEvent.ok (bytes "ok") (pos 0) rejoined
  unfolding answer
  answer-rejoined res good =
      let success : (res.res_code == res_success) ≡ true = ground (arith, good) in
      rw success (ap (notify s.next_ctx CbEvent.ok (bytes "ok") (pos 0)) success-rejoins)

  -- A user who is logged in and in groups, with a function for events, when the connection is made anew,
  -- no other login is on its way and both requests can be serialized: once the server accepts the
  -- login, the client has been handed the login and, after it, the request to join all the groups; the
  -- user and his groups are as before, no login is on its way any more, and the one event that is
  -- queued says that the login succeeded.
  pub relogin-handle_response :
      (d : PushData) (res : Response)
      → 0 < get_now w s
      → get_now w s < 2 ^ 63
      → w.decode ResponseType.login d.msg_data ≡ some res
      → res.context ≡ to_string (get_now w s)
      → res.res_code ≡ res_success
      → (s2 : PushSdk) × (handle_response w ResponseType.login d (relogin w false s) ≡ some s2)
        × (s2.client ≡ some (enqueue (enqueue c login_req) join_req))
        × (s2.user ≡ some user)
        × (s2.groups ≡ g ∷ gs)
        × (s2.logining ≡ false)
        × (s2.event_cb_pctxs
            ≡ s.event_cb_pctxs
              ++ record { type = CbType.login; res = CbEvent.ok; desc = bytes "ok" } ∷ [])
  unfolding call register
  relogin-handle_response d res p q e echoed good =
      let known =
        handle_response_known w ResponseType.login d res (get_now w s) (relogged w login_req s)
          s.next_ctx p q e echoed
          (ground (arith, find-insert (get_now w s) (get_now w s) s.next_ctx s.cb_map)) in
      let (requests, same_user, same_groups, done, event) = notify-rejoined in
      (
        notify s.next_ctx CbEvent.ok (bytes "ok") (pos 0) rejoined,
        ap (handle_response w ResponseType.login d)
              (relogin-call w false s user login_req has_user (ground (arith, idle)) login_made)
            ∙ known
            ∙ ap some (answer-rejoined res good),
        requests,
        same_user,
        same_groups,
        done,
        event,
      )
