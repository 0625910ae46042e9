-- ===== src/Sdk/Steps/Messages.antt =====
-- OnMessage, and a round of the client's thread, keep what their functions keep.
use grpc_push_sdk.Client.{
  Client, Poll, Callback, notify_channel_state, on_connected, on_message, poll,
}
use grpc_push_sdk.Common.{
  ℕ, ◌≡◌, inl, inr, false, List, [], ◌∷◌, ◌++◌, some, arith, Bool-cases, Option-cases, ◌==◌, bytes,
}
use grpc_push_sdk.Decimal.{stoll}
use grpc_push_sdk.Int.{pos, negsuc}
use grpc_push_sdk.Packet.{
  World, PushData, Response, ResponseType, make_leave_group_packet, make_logout_packet,
}
use grpc_push_sdk.Sdk.CallMap
use grpc_push_sdk.Sdk.Handlers
use grpc_push_sdk.Sdk.Messages
use grpc_push_sdk.Sdk.State.{PushSdk, EventCbContext}
use grpc_push_sdk.Sdk.Threads.{handle_callback, handle_callbacks, poll_of, poll_client}
use grpc_push_sdk.Types.{CbType, CbEvent, res_success}
use grpc_push_sdk.Sdk.Steps.Rule.{Preserves}

abbrev decode_failure : EventCbContext
decode_failure = record {
  type = CbType.inner_err;
  res = CbEvent.res_dec_failed;
  desc = bytes "decode packet failed";
}

module _ (w : World) (P : PushSdk → Type 0) (k : Preserves w P) where
  pub answer-kept :
      (t : ResponseType) (res : Response) (a : ℕ) (s : PushSdk)
      → P s
      → P (Messages.answer w t res a s)
  unfolding Messages.answer
  answer-kept t res a s p = elim (Bool-cases (res.res_code == res_success)) [
    | inl good ↦ rw good (k.after_notify a _ _ _ _ (k.after_success t (s.ctxs a) s p))
    | inr bad ↦ rw bad (k.after_notify a _ _ _ _ (k.after_failure t (s.ctxs a) s p))
  ]

  pub handle_response-kept :
      (t : ResponseType) (msg : PushData) (s s' : PushSdk)
      → P s
      → Messages.handle_response w t msg s ≡ some s'
      → P s'
  unfolding Messages.handle_response
  handle_response-kept t msg s s' p e = elim (Option-cases (w.decode t msg.msg_data)) [
    | inl garbled ↦ ground (arith, k.with_pctxs (s.event_cb_pctxs ++ decode_failure ∷ []) s p)
    | inr (res, read) ↦ elim (Option-cases (stoll res.context)) [
      | inl text ↦ ground arith
      | inr (negsuc n, neg) ↦ ground arith
      | inr (pos ts, time) ↦ elim (Option-cases (CallMap.find ts s.cb_map)) [
        | inl unknown ↦ ground arith
        | inr (a, known) ↦ ground (
          arith,
          answer-kept t res a (record s { cb_map = CallMap.erase ts s.cb_map })
              (k.with_erased ts s p),
        )
      ]
    ]
  ]

  pub handle_group_message-kept :
      (msg : PushData) (s s' : PushSdk)
      → P s
      → Messages.handle_group_message w msg s ≡ some s'
      → P s'
  unfolding Messages.handle_group_message
  handle_group_message-kept msg s s' p e =
      elim (Option-cases (make_leave_group_packet w s.uid msg.group_type msg.group_id 0)) [
        | inl fault ↦
            ground (arith, k.with_invoked (s.invoked ++ Messages.call_group_msg_cbs msg s.hdls) s p)
        | inr (req, made) ↦ ground (
          arith,
          k.with_invoked (s.invoked ++ Messages.call_group_msg_cbs msg s.hdls) s p,
          k.with_sent req s p,
        )
      ]

  pub handle_user_message-kept :
      (msg : PushData) (s s' : PushSdk)
      → P s
      → Messages.handle_user_message w msg s ≡ some s'
      → P s'
  unfolding Messages.handle_user_message
  handle_user_message-kept msg s s' p e =
      elim (Option-cases (make_logout_packet w s.uid s.appid s.appkey 0)) [
        | inl fault ↦ ground (
          arith,
          k.with_invoked (s.invoked ++ Messages.call_user_msg_cbs msg.msg_data s.hdls) s p,
        )
        | inr (req, made) ↦ ground (
          arith,
          k.with_invoked (s.invoked ++ Messages.call_user_msg_cbs msg.msg_data s.hdls) s p,
          k.with_sent req s p,
        )
      ]

  pub on_message-kept :
      (msg : PushData) (s s' : PushSdk) → P s → Messages.on_message w msg s ≡ some s' → P s'
  unfolding Messages.on_message
  on_message-kept msg s s' p e = ground (
    arith,
    handle_response-kept ResponseType.login msg s s' p,
    handle_response-kept ResponseType.logout msg s s' p,
    handle_response-kept ResponseType.join_group msg s s' p,
    handle_response-kept ResponseType.leave_group msg s s' p,
    handle_group_message-kept msg s s' p,
    handle_user_message-kept msg s s' p,
    k.after_close s p,
  )

  pub handle_callback-kept :
      (c : Callback) (s s' : PushSdk) → P s → handle_callback w c s ≡ some s' → P s'
  unfolding handle_callback Handlers.notify_channel_state
  handle_callback-kept (notify_channel_state st) s s' p e = ground (
    arith,
    k.with_invoked (s.invoked ++ Handlers.call_conn_state_cbs (Handlers.conn_state_of st) s.hdls) s
        p,
  )
  handle_callback-kept on_connected s s' p e = ground (arith, k.after_relogin false s p)
  handle_callback-kept (on_message msg) s s' p e = on_message-kept msg s s' p e

  pub handle_callbacks-kept :
      (cs : List Callback) (s s' : PushSdk) → P s → handle_callbacks w cs s ≡ some s' → P s'
  unfolding handle_callbacks
  handle_callbacks-kept [] s s' p e = ground arith
  handle_callbacks-kept (c ∷ cs) s s' p e = elim (Option-cases (handle_callback w c s)) [
    | inl fault ↦ ground arith
    | inr (t, e') ↦ handle_callbacks-kept cs t s' (handle_callback-kept c s t p e') (ground arith)
  ]

  pub poll_of-kept :
      (c : Client) (r : Poll) (s s' : PushSdk)
      → s.client ≡ some c
      → P s
      → poll_of w (some c) r s ≡ some s'
      → P s'
  unfolding poll_of
  poll_of-kept c r s s' h p e = elim (Option-cases (poll w.terminal_type c r)) [
    | inl fault ↦ ground arith
    | inr ((c', calls), e') ↦
        handle_callbacks-kept calls (record s { client = some c' }) s' (k.with_client c c' s h p)
          (ground arith)
  ]

  pub poll_client-kept : (r : Poll) (s s' : PushSdk) → P s → poll_client w r s ≡ some s' → P s'
  unfolding poll_client
  poll_client-kept r s s' p e = elim (Option-cases s.client) [
    | inl h ↦ ground arith
    | inr (c, h) ↦ poll_of-kept c r s s' h p (rw h at e)
  ]
