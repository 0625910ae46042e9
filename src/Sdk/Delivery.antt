-- ===== src/Sdk/Delivery.antt =====
-- What becomes of the messages of the server (src/core/core.cpp) once the user has left or logged out.
use grpc_push_sdk.Common.{
  ℕ, ◌≡◌, refl, ◌⊎◌, inl, inr, List, bytes, true, false, [], none, some, arith, is_some, ==_refl,
  Option-cases,
}
use grpc_push_sdk.Decimal.{stoll}
use grpc_push_sdk.Int.{ℤ, pos, negsuc, int_of_u32}
use grpc_push_sdk.Packet.{
  World, PushData, PushRegReq, Response, ResponseType, make_leave_group_packet, make_logout_packet,
}
use grpc_push_sdk.Sdk.CallMap
use grpc_push_sdk.Sdk.Calls.{notify, send_to, call, call_sync_begin, register}
use grpc_push_sdk.Sdk.Groups.{is_group_info_exists, remove_group_info}
use grpc_push_sdk.Sdk.Groups.Table.{Distinct, is_group_info_exists-remove_group_info}
use grpc_push_sdk.Sdk.Messages.{
  answer, c_str, handle_response, handle_group_message, handle_user_message, on_message,
  send_packet,
}
use grpc_push_sdk.Sdk.Methods.{Asynchronous, leave_group, logout, issue}
use grpc_push_sdk.Sdk.Session.{get_now, handle_success_response, handle_failed_response}
use grpc_push_sdk.Sdk.State.{PushSdk, elk_upload}
use grpc_push_sdk.Types.{CbEvent, GroupInfo, StreamUri}

leave_group-groups :
    (w : World) (g : GroupInfo) (mode : Asynchronous) (s : PushSdk) (req : PushRegReq)
    → is_some s.user ≡ true
    → is_group_info_exists g.gtype g.gid s.groups ≡ true
    → make_leave_group_packet w s.uid g.gtype g.gid (get_now w s) ≡ some req
    → ((leave_group w g mode s).0.groups ≡ remove_group_info g.gtype g.gid s.groups)
      × ((leave_group w g mode s).0.uid ≡ s.uid)
unfolding leave_group issue call call_sync_begin elk_upload register
leave_group-groups w g none s req u i e = ground arith
leave_group-groups w g (some (f, x)) s req u i e = ground arith

outside_message :
    (w : World) (d : PushData) (s : PushSdk) (again : PushRegReq)
    → is_group_info_exists d.group_type d.group_id s.groups ≡ false
    → make_leave_group_packet w s.uid d.group_type d.group_id 0 ≡ some again
    → handle_group_message w d s ≡ some (record s { client = send_to s.client again })
unfolding handle_group_message send_packet
outside_message w d s again n e = rw (n, e) refl

notify_frame :
    (a : ℕ) (res : CbEvent) (desc : List ℕ) (code : ℤ) (s : PushSdk)
    → ((notify a res desc code s).groups ≡ s.groups) × ((notify a res desc code s).uid ≡ s.uid)
unfolding notify
notify_frame a res desc code s = ground arith

-- The response to a LeaveGroup, whatever it is, leaves the groups as they are.
leave_answer_frame :
    (w : World) (res : Response) (a : ℕ) (s : PushSdk)
    → let s' = answer w ResponseType.leave_group res a s in
      (s'.groups ≡ s.groups) × (s'.uid ≡ s.uid)
unfolding answer handle_success_response handle_failed_response
leave_answer_frame w res a s = ground (
  arith,
  notify_frame a CbEvent.ok (bytes "ok") (pos 0) s,
  notify_frame a CbEvent.failed (c_str res.err_msg) (int_of_u32 res.res_code) s,
)

leave_response_frame :
    (w : World) (d : PushData) (s s' : PushSdk)
    → handle_response w ResponseType.leave_group d s ≡ some s'
    → (s'.groups ≡ s.groups) × (s'.uid ≡ s.uid)
unfolding handle_response
leave_response_frame w d s s' h =
    elim (Option-cases (w.decode ResponseType.leave_group d.msg_data)) [
      | inl garbled ↦ ground (arith, garbled)
      | inr (res, read) ↦ elim (Option-cases (stoll res.context)) [
        | inl text ↦ absurd (ground (arith, read, text))
        | inr (negsuc n, neg) ↦ ground (arith, read, neg)
        | inr (pos ts, time) ↦ elim (Option-cases (CallMap.find ts s.cb_map)) [
          | inl unknown ↦ ground (arith, read, time, unknown)
          | inr (a, known) ↦ ground (
            arith,
            read,
            time,
            known,
            leave_answer_frame w res a (record s { cb_map = CallMap.erase ts s.cb_map }),
          )
        ]
      ]
    ]

-- A member of a group who has called LeaveGroup gets no message of that group, neither in the state
-- right after the request nor in the one after the server's response to a LeaveGroup, whether it
-- accepts or refuses or cannot be read: the message calls no handler, and the request to leave is sent
-- again. No group stands twice in the table, and the two requests are ones that can be serialized.
pub leave_group-handle_group_message :
    (w : World) (g : GroupInfo) (mode : Asynchronous) (s s2 : PushSdk) (req again : PushRegReq)
    (d response : PushData)
    → is_some s.user ≡ true
    → is_group_info_exists g.gtype g.gid s.groups ≡ true
    → Distinct s.groups
    → make_leave_group_packet w s.uid g.gtype g.gid (get_now w s) ≡ some req
    → make_leave_group_packet w s.uid g.gtype g.gid 0 ≡ some again
    → d.group_type ≡ g.gtype
    → d.group_id ≡ g.gid
    → handle_response w ResponseType.leave_group response (leave_group w g mode s).0 ≡ some s2
    → let s1 = (leave_group w g mode s).0 in
      (handle_group_message w d s1 ≡ some (record s1 { client = send_to s1.client again }))
      × (handle_group_message w d s2 ≡ some (record s2 { client = send_to s2.client again }))
leave_group-handle_group_message w g mode s s2 req again d response u i distinct e e0 t k answered =
    let (gs, same_uid) = leave_group-groups w g mode s req u i e in
    let s1 = (leave_group w g mode s).0 in
    let (gs2, uid2) = leave_response_frame w response s1 s2 answered in
    (
      outside_message w d s1 again (rw (t, k, gs) gone) (rw (t, k, same_uid) e0),
      outside_message w d s2 again (rw (t, k, gs2, gs) gone) (rw (t, k, uid2, same_uid) e0),
    )
  where
    gone : is_group_info_exists g.gtype g.gid (remove_group_info g.gtype g.gid s.groups) ≡ false
    gone = ground (
      arith,
      ==_refl g.gtype,
      ==_refl g.gid,
      is_group_info_exists-remove_group_info g.gtype g.gid g.gtype g.gid s.groups distinct,
    )

silent :
    (w : World) (d : PushData) (s : PushSdk)
    → is_some s.user ≡ false
    → s.groups ≡ []
    → is_some (make_logout_packet w s.uid s.appid s.appkey 0) ≡ true
    → is_some (make_leave_group_packet w s.uid d.group_type d.group_id 0) ≡ true
    → (d.uri ≡ StreamUri.push_data_by_group) ⊎ (d.uri ≡ StreamUri.push_data_by_uid)
    → (s2 : PushSdk) × (on_message w d s ≡ some s2) × (s2.invoked ≡ s.invoked)
unfolding on_message handle_group_message handle_user_message send_packet is_group_info_exists
silent w d s u g out leave (inl k) =
    elim (Option-cases (make_leave_group_packet w s.uid d.group_type d.group_id 0)) [
      | inl fault ↦ absurd (ground arith)
      | inr (req, e) ↦ (record s { client = send_to s.client req }, rw (k, g, e) refl, refl)
    ]
silent w d s u g out leave (inr k) =
    elim (Option-cases (make_logout_packet w s.uid s.appid s.appkey 0)) [
      | inl fault ↦ absurd (ground arith)
      | inr (req, e) ↦ (record s { client = send_to s.client req }, rw (k, u, e) refl, refl)
    ]

logout-session :
    (w : World) (mode : Asynchronous) (s : PushSdk) (req : PushRegReq)
    → is_some s.user ≡ true
    → make_logout_packet w s.uid s.appid s.appkey (get_now w s) ≡ some req
    → (is_some (logout w mode s).0.user ≡ false) × ((logout w mode s).0.groups ≡ [])
unfolding logout issue call call_sync_begin elk_upload register
logout-session w none s req u e = ground arith
logout-session w (some (f, x)) s req u e = ground arith

-- Once a user who is logged in has called Logout, a message to the user or to any group is handled
-- without calling the application, where the requests that answer it can be serialized.
pub logout-on_message :
    (w : World) (mode : Asynchronous) (s : PushSdk) (req : PushRegReq) (d : PushData)
    → is_some s.user ≡ true
    → make_logout_packet w s.uid s.appid s.appkey (get_now w s) ≡ some req
    → ((uid appid appkey : ℕ) → is_some (make_logout_packet w uid appid appkey 0) ≡ true)
    → ((uid g i : ℕ) → is_some (make_leave_group_packet w uid g i 0) ≡ true)
    → (d.uri ≡ StreamUri.push_data_by_group) ⊎ (d.uri ≡ StreamUri.push_data_by_uid)
    → (s2 : PushSdk) × (on_message w d (logout w mode s).0 ≡ some s2)
      × (s2.invoked ≡ (logout w mode s).0.invoked)
logout-on_message w mode s req d u e out leave k =
    let (no_user, empty) = logout-session w mode s req u e in
    silent w d (logout w mode s).0 no_user empty
      (out (logout w mode s).0.uid (logout w mode s).0.appid (logout w mode s).0.appkey)
      (leave (logout w mode s).0.uid d.group_type d.group_id) k
