-- ===== src/Sdk/Outgoing.antt =====
-- A call of PushSDK and the rounds of the client's thread that follow it.
use grpc_push_sdk.Client.{
  Client, Poll, Callback, notify_channel_state, on_connected, on_message, timeout, poll,
}
use grpc_push_sdk.Client.Flush.{Rounds, no_rounds, round, IsWriteDone, enqueue-Rounds}
use grpc_push_sdk.Client.Round.{IsNotify, IsQuiet, idle}
use grpc_push_sdk.Common.{
  ℕ, suc, ◌≡◌, refl, sym, ap, ◌∙◌, Bool, true, List, [], ◌∷◌, ◌++◌, Option, none, some, All, map,
  append-nil, length,
}
use grpc_push_sdk.Packet.{World, PushRegReq}
use grpc_push_sdk.Sdk.CallMap
use grpc_push_sdk.Sdk.Calls.{call, register, send_to}
use grpc_push_sdk.Sdk.Handlers
use grpc_push_sdk.Sdk.State.{PushSdk}
use grpc_push_sdk.Sdk.Threads.{handle_callback, handle_callbacks, poll_of, poll_client}
use grpc_push_sdk.Stream.{RwCall, write}
use grpc_push_sdk.Types.{CbType}

module _ (w : World) where
  -- Rounds of the client's thread, one after the other.
  unfoldable pub poll_clients : List Poll → PushSdk → Option PushSdk
  poll_clients [] s = some s
  poll_clients (p ∷ ps) s = elim (poll_client w p s) [ none ↦ none | some s' ↦ poll_clients ps s' ]

  -- Calls of the listener of the channel's state change neither the client nor the waiting calls.
  pub handle_callbacks-append :
      (calls rest : List Callback) (s : PushSdk)
      → All IsNotify calls
      → (s' : PushSdk) × (handle_callbacks w (calls ++ rest) s ≡ handle_callbacks w rest s')
        × (s'.client ≡ s.client)
        × (s'.cb_map ≡ s.cb_map)
        × (s'.ctxs ≡ s.ctxs)
  unfolding handle_callbacks handle_callback Handlers.notify_channel_state
  handle_callbacks-append [] rest s h = (s, refl, refl, refl, refl)
  handle_callbacks-append (notify_channel_state k ∷ calls) rest s h =
      handle_callbacks-append calls rest (Handlers.notify_channel_state k s) h.1
  handle_callbacks-append (on_connected ∷ calls) rest s h = absurd h.0
  handle_callbacks-append (on_message msg ∷ calls) rest s h = absurd h.0

  pub poll_client_lem :
      (p : Poll) (s : PushSdk) (c c1 : Client) (calls : List Callback)
      → s.client ≡ some c
      → poll w.terminal_type c p ≡ some (c1, calls)
      → poll_client w p s ≡ handle_callbacks w calls (record s { client = some c1 })
  unfolding poll_client poll_of
  poll_client_lem p s c c1 calls at e = ap (λ x. poll_of w x p s) at ∙ rw e refl

  poll_clients-cons :
      (p : Poll) (ps : List Poll) (s s1 : PushSdk)
      → poll_client w p s ≡ some s1
      → poll_clients (p ∷ ps) s ≡ poll_clients ps s1
  unfolding poll_clients
  poll_clients-cons p ps s s1 e = rw (poll_clients, e) refl

  -- Quiet rounds of the client are rounds of PushSDK that leave the waiting calls alone.
  pub Rounds-poll_clients :
      {c c' : Client} {ps : List Poll} (s : PushSdk)
      → Rounds w.terminal_type c ps c'
      → s.client ≡ some c
      → (s' : PushSdk) × (poll_clients ps s ≡ some s')
        × (s'.client ≡ some c')
        × (s'.cb_map ≡ s.cb_map)
        × (s'.ctxs ≡ s.ctxs)
  unfolding poll_clients handle_callbacks
  Rounds-poll_clients s no_rounds at = (s, refl, at, refl, refl)
  Rounds-poll_clients s (round {c} {c'} {p} {ps} c1 calls e notes rest) at =
      let (s1, handled, client1, map1, ctxs1) =
        handle_callbacks-append calls [] (record s { client = some c1 }) notes in
      let all_handled : handle_callbacks w calls (record s { client = some c1 }) ≡ some s1 =
        ap (λ l. handle_callbacks w l (record s { client = some c1 })) (sym (append-nil calls))
        ∙ handled in
      let (s2, ran, client2, map2, ctxs2) = Rounds-poll_clients s1 rest client1 in
      (
        s2,
        poll_clients-cons p ps s s1 (poll_client_lem p s c c1 calls at e ∙ all_handled) ∙ ran,
        client2,
        map2 ∙ map1,
        ctxs2 ∙ ctxs1,
      )

  -- A call that is made while the connection is free: in a round of the client's thread in which gRPC
  -- reports nothing, and then one for each request in the queue and one for the new request, in each of
  -- which gRPC reports a finished write, with no heartbeat due, the requests of the queue and then that of
  -- the call are written once each, in this order, the stream is free again, and the call still waits in
  -- the map under its instant.
  pub call-poll_clients :
      (type : CbType) (msg : PushRegReq) (now : ℕ) (cb arg : Option ℕ) (gtype gid : ℕ)
      (is_retry : Bool) (s : PushSdk) (c : Client) (p : Poll) (ps : List Poll)
      (m : List (List ℕ × List ℕ)) (l : List RwCall)
      → s.client ≡ some c
      → c.run ≡ true
      → c.event_ok ≡ true
      → c.st ≡ some (idle m l)
      → IsQuiet c.last_heartbeat_ts p
      → p.next ≡ timeout
      → All (IsWriteDone c.last_heartbeat_ts) ps
      → length ps ≡ suc (length c.msg_queue)
      → (s' : PushSdk) × (c' : Client) × (poll_clients
            (p ∷ ps)
            (call type msg now cb arg gtype gid is_retry s)
          ≡ some s')
        × (s'.cb_map ≡ CallMap.insert now s.next_ctx s.cb_map)
        × (s'.client ≡ some c')
        × (c'.msg_queue ≡ [])
        × (c'.st ≡ some (idle m (l ++ map write (c.msg_queue ++ msg ∷ []))))
  unfolding call register
  call-poll_clients type msg now cb arg gtype gid is_retry s c p ps m l at r ok e quiet n all k =
      let (c', ran, empty, free, runs, hdl) =
        enqueue-Rounds w.terminal_type c msg p ps m l r ok e quiet n all k in
      let s1 = call type msg now cb arg gtype gid is_retry s in
      let (s', rounds, client, waiting, contexts) =
        Rounds-poll_clients s1 ran (ap (λ x. send_to x msg) at) in
      (s', c', rounds, waiting, client, empty, free)
