-- ===== src/Sdk/Exchange.antt =====
-- A synchronous call from its request on the stream to the answer that is read from it.
use grpc_push_sdk.Client.{Client, Poll, on_message, timeout, got_event}
use grpc_push_sdk.Client.Flush.{IsWriteDone, enqueue-Rounds}
use grpc_push_sdk.Client.Round.{IsQuiet, idle, read_done-poll}
use grpc_push_sdk.Common.{
  ℕ, suc, ◌^◌, ◌<◌, ◌≡◌, refl, ap, ◌∙◌, true, false, List, [], ◌∷◌, ◌++◌, none, some, All, map,
  length, arith, ==_refl,
}
use grpc_push_sdk.Decimal.{to_string}
use grpc_push_sdk.Packet.{World, PushRegReq, PushData, Response, ResponseType}
use grpc_push_sdk.Sdk.CallMap
use grpc_push_sdk.Sdk.CallMap.Order.{find-insert}
use grpc_push_sdk.Sdk.Calls.{call_sync_begin, call_sync_end, register, send_to}
use grpc_push_sdk.Sdk.Correlation.{answer_sync, handle_response_known, outcome, last_error}
use grpc_push_sdk.Sdk.Messages
use grpc_push_sdk.Sdk.Messages.{answer, handle_response}
use grpc_push_sdk.Sdk.Outgoing.{
  poll_clients, handle_callbacks-append, poll_client_lem, Rounds-poll_clients,
}
use grpc_push_sdk.Sdk.State.{PushSdk, CallContext, new_context}
use grpc_push_sdk.Sdk.Threads.{handle_callback, handle_callbacks, poll_client}
use grpc_push_sdk.Stream.{Stream, RwCall, write}
use grpc_push_sdk.Types.{CbType, ClientEvent, StreamUri}

-- The uri under which the answers of a kind come.
abbrev pub answer_uri : ResponseType → StreamUri
answer_uri ResponseType.login = StreamUri.login_res
answer_uri ResponseType.logout = StreamUri.logout_res
answer_uri ResponseType.join_group = StreamUri.join_group_res
answer_uri ResponseType.leave_group = StreamUri.leave_group_res

module _ (w : World) where
  on_message-handle_response :
      (t : ResponseType) (d : PushData) (s : PushSdk)
      → d.uri ≡ answer_uri t
      → Messages.on_message w d s ≡ handle_response w t d s
  unfolding Messages.on_message
  on_message-handle_response ResponseType.login d s e = rw e refl
  on_message-handle_response ResponseType.logout d s e = rw e refl
  on_message-handle_response ResponseType.join_group d s e = rw e refl
  on_message-handle_response ResponseType.leave_group d s e = rw e refl

  handle_callbacks-on_message :
      (d : PushData) (s s' : PushSdk)
      → Messages.on_message w d s ≡ some s'
      → handle_callbacks w (on_message d ∷ []) s ≡ some s'
  unfolding handle_callbacks handle_callback
  handle_callbacks-on_message d s s' e = rw e refl

  -- A round in which gRPC has read the answer to a call that waits.
  read-poll_client :
      (t : ResponseType) (res : Response) (now a : ℕ) (s : PushSdk) (c : Client) (st : Stream)
      (p : Poll)
      → s.client ≡ some c
      → c.run ≡ true
      → c.msg_hdl ≡ true
      → c.st ≡ some st
      → p.next ≡ got_event ClientEvent.read_done true
      → p.push_data.uri ≡ answer_uri t
      → 0 < now
      → now < 2 ^ 63
      → w.decode t p.push_data.msg_data ≡ some res
      → res.context ≡ to_string now
      → CallMap.find now s.cb_map ≡ some a
      → (s1 : PushSdk) × (poll_client w p s
          ≡ some (answer w t res a (record s1 { cb_map = CallMap.erase now s1.cb_map })))
        × (s1.ctxs ≡ s.ctxs)
  read-poll_client t res now a s c st p at r hdl e n uri pos small decoded context found =
      let (c', calls, polled, notes) = read_done-poll w.terminal_type c st p r hdl e n in
      let (s1, handled, client1, map1, ctxs1) =
        handle_callbacks-append w calls (on_message p.push_data ∷ [])
          (record s { client = some c' }) notes in
      let known =
        handle_response_known w t p.push_data res now s1 a pos small decoded context
          (ap (CallMap.find now) map1 ∙ found) in
      let answered = on_message-handle_response t p.push_data s1 uri ∙ known in
      (
        s1,
        poll_client_lem w p s c c' (calls ++ on_message p.push_data ∷ []) at polled
            ∙ handled
            ∙ handle_callbacks-on_message p.push_data s1 _ answered,
        ctxs1,
      )

  begun-context :
      (type : CbType) (msg : PushRegReq) (now gtype gid : ℕ) (s : PushSdk)
      → (call_sync_begin type msg now gtype gid s).0.ctxs s.next_ctx
        ≡ new_context type none none gtype gid false
  unfolding call_sync_begin register
  begun-context type msg now gtype gid s = rw (==_refl s.next_ctx) refl

  begun-find :
      (type : CbType) (msg : PushRegReq) (now gtype gid : ℕ) (s : PushSdk)
      → CallMap.find now (call_sync_begin type msg now gtype gid s).0.cb_map ≡ some s.next_ctx
  unfolding call_sync_begin register
  begun-find type msg now gtype gid s = ground (arith, find-insert now now s.next_ctx s.cb_map)

  begun-client :
      (type : CbType) (msg : PushRegReq) (now gtype gid : ℕ) (s : PushSdk)
      → (call_sync_begin type msg now gtype gid s).0.client ≡ send_to s.client msg
  unfolding call_sync_begin register
  begun-client type msg now gtype gid s = refl

  -- A synchronous call on a free connection, answered in time: in a round of the client's thread in which
  -- gRPC reports nothing, and one for each request in the queue and one for its own, in each of which gRPC
  -- reports a finished write, with no heartbeat due, the requests of the queue and then that of the call
  -- are written once each, in this order; and after the round in which gRPC has read a response of the
  -- right kind with the instant of the call, the call returns success exactly for the code 200, and
  -- PS_RET_CALL_FAILED otherwise, and the last error is that of the response.
  pub call_sync-exchanged :
      (type : CbType) (msg : PushRegReq) (now gtype gid : ℕ) (s : PushSdk) (c : Client)
      (p pr : Poll) (ps : List Poll) (m : List (List ℕ × List ℕ)) (l : List RwCall)
      (t : ResponseType) (res : Response)
      → s.client ≡ some c
      → c.run ≡ true
      → c.msg_hdl ≡ true
      → c.event_ok ≡ true
      → c.st ≡ some (idle m l)
      → IsQuiet c.last_heartbeat_ts p
      → p.next ≡ timeout
      → All (IsWriteDone c.last_heartbeat_ts) ps
      → length ps ≡ suc (length c.msg_queue)
      → pr.next ≡ got_event ClientEvent.read_done true
      → pr.push_data.uri ≡ answer_uri t
      → 0 < now
      → now < 2 ^ 63
      → w.decode t pr.push_data.msg_data ≡ some res
      → res.context ≡ to_string now
      → let (s1, a) = call_sync_begin type msg now gtype gid s in
        (s2 : PushSdk) × (s3 : PushSdk) × (c2 : Client) × (poll_clients w (p ∷ ps) s1 ≡ some s2)
        × (s2.client ≡ some c2)
        × (c2.st ≡ some (idle m (l ++ map write (c.msg_queue ++ msg ∷ []))))
        × (poll_client w pr s2 ≡ some s3)
        × ((call_sync_end a s3).1 ≡ outcome res)
        × ((call_sync_end a s3).0.desc ≡ (last_error res).0)
        × ((call_sync_end a s3).0.code ≡ (last_error res).1)
  unfolding call_sync_begin
  call_sync-exchanged type msg now gtype gid s c p pr ps m l t res at r hdl ok e quiet n all k rd
        uri pos small decoded context =
      let s1 = (call_sync_begin type msg now gtype gid s).0 in
      let (c2, ran, empty, free, run2, hdl2) =
        enqueue-Rounds w.terminal_type c msg p ps m l r ok e quiet n all k in
      let (s2, rounds, client2, map2, ctxs2) =
        Rounds-poll_clients w s1 ran
          (begun-client type msg now gtype gid s ∙ ap (λ x. send_to x msg) at) in
      let (s', polled, ctxs3) =
        read-poll_client t res now s.next_ctx s2 c2
          (idle m (l ++ map write (c.msg_queue ++ msg ∷ []))) pr client2 run2 (hdl2 ∙ hdl) free rd
          uri pos small decoded context
          (ap (CallMap.find now) map2 ∙ begun-find type msg now gtype gid s) in
      let taken = record s' { cb_map = CallMap.erase now s'.cb_map } in
      let own : s'.ctxs s.next_ctx ≡ new_context type none none gtype gid false =
        ap (λ h. h s.next_ctx) (ctxs3 ∙ ctxs2) ∙ begun-context type msg now gtype gid s in
      let (ret, desc, code, kept, groups) =
        answer_sync w t res s.next_ctx taken (ap (λ (x : CallContext). x.cb_func) own)
          (ap (λ (x : CallContext). x.cb_args) own) (ap (λ (x : CallContext). x.is_retry) own) in
      (s2, answer w t res s.next_ctx taken, c2, rounds, client2, free, polled, ret, desc, code)
