-- ===== src/Sdk/Refinement/Messages.antt =====
-- The messages of the server (src/core/core.cpp, core.h) against the abstract session.
use grpc_push_sdk.Common.{
  ℕ, ◌≡◌, sym, subst, inl, inr, some, arith, bytes, ◌==◌, Bool-cases, Option-cases,
}
use grpc_push_sdk.Decimal.{stoll}
use grpc_push_sdk.Int.{pos, negsuc, int_of_u32}
use grpc_push_sdk.Packet.{
  World, PushData, Response, ResponseType, make_leave_group_packet, make_logout_packet,
}
use grpc_push_sdk.Sdk.CallMap
use grpc_push_sdk.Sdk.Calls.{notify}
use grpc_push_sdk.Sdk.Invariant.{Inv, Inv-Preserves, Encodes}
use grpc_push_sdk.Sdk.Messages
use grpc_push_sdk.Sdk.Messages.{answer, handle_response, c_str}
use grpc_push_sdk.Sdk.Refinement.{
  view, Stays, SignsOut, Refused, Answered, Responds, Receives, EncodesJoins,
}
use grpc_push_sdk.Sdk.Refinement.Moves.{Kept, notify-Kept, success-Kept, close-groups}
use grpc_push_sdk.Sdk.Session.{
  handle_success_response, handle_failed_response, handle_notify_to_close,
}
use grpc_push_sdk.Sdk.State.{PushSdk}
use grpc_push_sdk.Types.{CbEvent, StreamUri, res_success}
use grpc_push_sdk.Sdk.Refinement.Methods.{
  no_group, Kept-trans, Kept-Stays, Kept-view, failure-Refused,
}

module _ (w : World) (e : Encodes w) (j : EncodesJoins w) where
  answer-Answered :
      (t : ResponseType) (res : Response) (a : ℕ) (s : PushSdk)
      → Inv s
      → Answered t
          (res.res_code == res_success)
          (some (s.ctxs a))
          (view s)
          (view (answer w t res a s))
  unfolding answer
  answer-Answered t res a s v =
      let ctx = s.ctxs a in
      elim (Bool-cases (res.res_code == res_success)) [
        | inl good ↦
            let s1 = handle_success_response w t ctx s in
            let s2 = notify a CbEvent.ok (bytes "ok") (pos 0) s1 in
            rw good (
              Kept-Stays s s2 (
                Kept-trans s s1 s2 (success-Kept w s j t ctx)
                  (notify-Kept w s1 a CbEvent.ok (bytes "ok") (pos 0))))
        | inr bad ↦
            let s1 = handle_failed_response t ctx s in
            let desc = c_str res.err_msg in
            let code = int_of_u32 res.res_code in
            rw bad (
              subst (Refused t ctx (view s))
                (sym (
                  Kept-view s1 (notify a CbEvent.failed desc code s1)
                    (notify-Kept w s1 a CbEvent.failed desc code)))
                (failure-Refused w s v t ctx))
      ]

  handle_response-Responds :
      (t : ResponseType) (d : PushData) (s s' : PushSdk)
      → Inv s
      → handle_response w t d s ≡ some s'
      → Responds t (w.decode t d.msg_data) s (view s) (view s')
  unfolding handle_response
  handle_response-Responds t d s s' v h = elim (Option-cases (w.decode t d.msg_data)) [
    | inl garbled ↦
        let same : Kept s s' = ground (arith, garbled, h) in rw garbled (Kept-Stays s s' same)
    | inr (res, read) ↦ elim (Option-cases (stoll res.context)) [
      | inl text ↦ absurd (ground (arith, read, text, h))
      | inr (negsuc n, neg) ↦
          let same : Kept s s' = ground (arith, read, neg, h) in
          rw (read, neg) (Kept-Stays s s' same)
      | inr (pos ts, time) ↦ elim (Bool-cases (ts == 0)) [
        | inl zero_context ↦
            let same : Kept s s' = ground (arith, read, time, zero_context, h) in
            rw (read, time, zero_context) (Kept-Stays s s' same)
        | inr context ↦ elim (Option-cases (CallMap.find ts s.cb_map)) [
          | inl unknown ↦
              let same : Kept s s' = ground (arith, read, time, context, unknown, h) in
              rw (read, time, context, unknown) (Kept-Stays s s' same)
          | inr (a, known) ↦
              let s1 = record s { cb_map = CallMap.erase ts s.cb_map } in
              let ends : answer w t res a s1 ≡ s' = ground (arith, read, time, context, known, h) in
              rw (read, time, context, known)
                (subst
                  (λ x.
                    Answered t (res.res_code == res_success) (some (s.ctxs a)) (view s) (view x))
                  ends (answer-Answered t res a s1 ((Inv-Preserves w e).with_erased ts s v)))
        ]
      ]
    ]
  ]

  handle_group_message-Kept :
      (d : PushData) (s s' : PushSdk) → Messages.handle_group_message w d s ≡ some s' → Kept s s'
  unfolding Messages.handle_group_message
  handle_group_message-Kept d s s' h =
      elim (Option-cases (make_leave_group_packet w s.uid d.group_type d.group_id 0)) [
        | inl fault ↦ ground (arith, fault)
        | inr (req, made_it) ↦ ground (arith, made_it)
      ]

  handle_user_message-Kept :
      (d : PushData) (s s' : PushSdk) → Messages.handle_user_message w d s ≡ some s' → Kept s s'
  unfolding Messages.handle_user_message
  handle_user_message-Kept d s s' h =
      elim (Option-cases (make_logout_packet w s.uid s.appid s.appkey 0)) [
        | inl fault ↦ ground (arith, fault)
        | inr (req, made_it) ↦ ground (arith, made_it)
      ]

  ignored : (d : PushData) (s s' : PushSdk) → some s ≡ some s' → Stays (view s) (view s')
  ignored d s s' h = Kept-Stays s s' (ground (arith, h))

  pub on_message-Receives :
      (u : StreamUri) (d : PushData) (s s' : PushSdk)
      → Inv s
      → d.uri ≡ u
      → Messages.on_message w d s ≡ some s'
      → Receives w u d s (view s) (view s')
  unfolding Messages.on_message
  on_message-Receives StreamUri.login_res d s s' v k h =
      handle_response-Responds ResponseType.login d s s' v (ground (arith, k, h))
  on_message-Receives StreamUri.logout_res d s s' v k h =
      handle_response-Responds ResponseType.logout d s s' v (ground (arith, k, h))
  on_message-Receives StreamUri.join_group_res d s s' v k h =
      handle_response-Responds ResponseType.join_group d s s' v (ground (arith, k, h))
  on_message-Receives StreamUri.leave_group_res d s s' v k h =
      handle_response-Responds ResponseType.leave_group d s s' v (ground (arith, k, h))
  on_message-Receives StreamUri.notify_to_close d s s' v k h =
      let ends : handle_notify_to_close s ≡ s' = ground (arith, k, h) in
      let (out, empty) = close-groups w s v in
      subst (λ x. SignsOut (view s) (view x)) ends
        (out, λ g i. no_group g i (handle_notify_to_close s).groups empty)
  on_message-Receives StreamUri.push_data_by_uid d s s' v k h =
      Kept-Stays s s' (handle_user_message-Kept d s s' (ground (arith, k, h)))
  on_message-Receives StreamUri.push_data_by_group d s s' v k h =
      Kept-Stays s s' (handle_group_message-Kept d s s' (ground (arith, k, h)))
  on_message-Receives StreamUri.unknown d s s' v k h = ignored d s s' (ground (arith, k, h))
  on_message-Receives StreamUri.login d s s' v k h = ignored d s s' (ground (arith, k, h))
  on_message-Receives StreamUri.logout d s s' v k h = ignored d s s' (ground (arith, k, h))
  on_message-Receives StreamUri.join_group d s s' v k h = ignored d s s' (ground (arith, k, h))
  on_message-Receives StreamUri.leave_group d s s' v k h = ignored d s s' (ground (arith, k, h))
  on_message-Receives StreamUri.ping d s s' v k h = ignored d s s' (ground (arith, k, h))
  on_message-Receives StreamUri.pong d s s' v k h = ignored d s s' (ground (arith, k, h))
