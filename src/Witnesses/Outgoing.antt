-- ===== src/Witnesses/Outgoing.antt =====
-- The theorem on a call and the rounds that write its request, applied.
use grpc_push_sdk.Client.{Client, Poll, Connectivity, timeout, got_event, new_client}
use grpc_push_sdk.Client.Round.{idle}
use grpc_push_sdk.Common.{◌≡◌, refl, [], ◌∷◌, none, some, true, false, map}
use grpc_push_sdk.Sdk.CallMap
use grpc_push_sdk.Sdk.Calls.{call}
use grpc_push_sdk.Sdk.Outgoing.{poll_clients, call-poll_clients}
use grpc_push_sdk.Sdk.State.{PushSdk, new_sdk}
use grpc_push_sdk.Stream.{write}
use grpc_push_sdk.Types.{CbType, ClientEvent, StreamUri}
use grpc_push_sdk.Witnesses.{world, heap, req_to, data_of}

-- A client that has one request in its queue.
abbrev client : Client
client = record (new_client 0 true) {
  run = true;
  st = some (idle [] []);
  msg_queue = req_to StreamUri.logout ∷ [];
}

abbrev session : PushSdk
session = record (new_sdk heap) { client = some client }

abbrev nothing : Poll
nothing = record {
  next = timeout;
  state = Connectivity.ready;
  reconnect_state = Connectivity.ready;
  now = 40;
  push_data = data_of StreamUri.login_res [];
}

abbrev write_done : Poll
write_done = record nothing { next = got_event ClientEvent.write_done true }

call-poll_clients_example :
    (s' : PushSdk) × (c' : Client) × (poll_clients world
        (nothing ∷ write_done ∷ write_done ∷ [])
        (call CbType.login (req_to StreamUri.login) 7 none (some 3) 0 0 false session)
      ≡ some s')
    × (s'.cb_map ≡ CallMap.insert 7 session.next_ctx session.cb_map)
    × (s'.client ≡ some c')
    × (c'.msg_queue ≡ [])
    × (c'.st ≡ some (idle [] (map write (req_to StreamUri.logout ∷ req_to StreamUri.login ∷ []))))
unfolding new_client
call-poll_clients_example =
    call-poll_clients world CbType.login (req_to StreamUri.login) 7 none (some 3) 0 0 false session
      client nothing (write_done ∷ write_done ∷ []) [] [] refl refl refl refl refl refl
      ((refl, refl), ((refl, refl), tt)) refl
