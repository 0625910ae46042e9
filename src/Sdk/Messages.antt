-- ===== src/Sdk/Messages.antt =====
-- PushSDK::OnMessage and the functions that it calls. `none` is the end of the process: an exception
-- of std::stoll that nothing catches, or a null request that the client's thread would write.
use grpc_push_sdk.Common.{
  ℕ, List, [], ◌∷◌, ◌++◌, Option, none, some, ◌==◌, if◌then◌else◌, is_some, bytes,
}
use grpc_push_sdk.Decimal.{stoll}
use grpc_push_sdk.Int.{ℤ, pos, negsuc, int_of_u32}
use grpc_push_sdk.Packet.{
  World, PushData, PushRegReq, Response, ResponseType, make_leave_group_packet, make_logout_packet,
}
use grpc_push_sdk.Sdk.CallMap
use grpc_push_sdk.Sdk.Calls.{notify, send_to}
use grpc_push_sdk.Sdk.Groups.{is_group_info_exists}
use grpc_push_sdk.Sdk.Session.{
  handle_success_response, handle_failed_response, handle_notify_to_close,
}
use grpc_push_sdk.Sdk.State.{PushSdk, Handler, Invocation, user_msg_cb, group_msg_cb, push_event}
use grpc_push_sdk.Types.{CbType, CbEvent, StreamUri, res_success}

-- A text handed over as a C string ends at its first zero byte.
unfoldable pub c_str : List ℕ → List ℕ
c_str [] = []
c_str (c ∷ s) = let rest = c_str s in if c == 0 then [] else c ∷ rest

-- The handlers that have a function, each called once, in the order of the list.
unfoldable pub call_user_msg_cbs : List ℕ → List (ℕ × Handler) → List Invocation
call_user_msg_cbs msg [] = []
call_user_msg_cbs msg ((a, h) ∷ hdls) =
    let rest = call_user_msg_cbs msg hdls in
    elim h.user_msg_cb [ none ↦ rest | some f ↦ user_msg_cb f msg ∷ rest ]

unfoldable pub call_group_msg_cbs : PushData → List (ℕ × Handler) → List Invocation
call_group_msg_cbs msg [] = []
call_group_msg_cbs msg ((a, h) ∷ hdls) =
    let rest = call_group_msg_cbs msg hdls in
    elim h.group_msg_cb [
      | none ↦ rest
      | some f ↦ group_msg_cb f msg.group_type msg.group_id msg.msg_data ∷ rest
    ]

-- client_->Send of a packet that may be null.
unfoldable pub send_packet : Option PushRegReq → PushSdk → Option PushSdk
send_packet none s = none
send_packet (some req) s = some (record s { client = send_to s.client req })

module _ (w : World) where
  -- The branches below the search in cb_map_.
  unfoldable pub answer : ResponseType → Response → ℕ → PushSdk → PushSdk
  unfolding c_str
  answer t res a s =
      let ctx = s.ctxs a in
      if res.res_code == res_success
      then notify a CbEvent.ok (bytes "ok") (pos 0) (handle_success_response w t ctx s)
      else notify a CbEvent.failed (c_str res.err_msg) (int_of_u32 res.res_code)
          (handle_failed_response t ctx s)

  take_call : Option ℕ → ResponseType → Response → ℕ → PushSdk → PushSdk
  take_call none t res ts s = s
  take_call (some a) t res ts s = answer t res a (record s { cb_map = CallMap.erase ts s.cb_map })

  -- No key is negative.
  correlate : Option ℤ → ResponseType → Response → PushSdk → Option PushSdk
  unfolding take_call
  correlate none t res s = none
  correlate (some (negsuc n)) t res s = some s
  correlate (some (pos ts)) t res s =
      some (if ts == 0 then s else take_call (CallMap.find ts s.cb_map) t res ts s)

  decoded : Option Response → ResponseType → PushSdk → Option PushSdk
  unfolding correlate
  decoded none t s =
      some (push_event CbType.inner_err CbEvent.res_dec_failed (bytes "decode packet failed") s)
  decoded (some res) t s = correlate (stoll res.context) t res s

  -- handle_response<T>.
  unfoldable pub handle_response : ResponseType → PushData → PushSdk → Option PushSdk
  unfolding decoded
  handle_response t msg s = decoded (w.decode t msg.msg_data) t s

  unfoldable pub handle_group_message : PushData → PushSdk → Option PushSdk
  unfolding send_packet
  handle_group_message msg s =
      if is_group_info_exists msg.group_type msg.group_id s.groups
      then some (record s { invoked = s.invoked ++ call_group_msg_cbs msg s.hdls })
      else send_packet (make_leave_group_packet w s.uid msg.group_type msg.group_id 0) s

  unfoldable pub handle_user_message : PushData → PushSdk → Option PushSdk
  unfolding send_packet
  handle_user_message msg s =
      if is_some s.user
      then some (record s { invoked = s.invoked ++ call_user_msg_cbs msg.msg_data s.hdls })
      else send_packet (make_logout_packet w s.uid s.appid s.appkey 0) s

  unfoldable pub on_message : PushData → PushSdk → Option PushSdk
  on_message msg s = elim msg.uri [
    | StreamUri.login_res ↦ handle_response ResponseType.login msg s
    | StreamUri.logout_res ↦ handle_response ResponseType.logout msg s
    | StreamUri.join_group_res ↦ handle_response ResponseType.join_group msg s
    | StreamUri.leave_group_res ↦ handle_response ResponseType.leave_group msg s
    | StreamUri.notify_to_close ↦ some (handle_notify_to_close s)
    | StreamUri.push_data_by_group ↦ handle_group_message msg s
    | StreamUri.push_data_by_uid ↦ handle_user_message msg s
    | _ ↦ some s
  ]
