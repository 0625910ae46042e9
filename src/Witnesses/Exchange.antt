-- ===== src/Witnesses/Exchange.antt =====
-- The theorem on a synchronous call and the rounds up to its answer, applied.
use grpc_push_sdk.Client.{Client, Poll, Connectivity, timeout, got_event, new_client}
use grpc_push_sdk.Client.Round.{idle}
use grpc_push_sdk.Common.{◌≡◌, refl, [], ◌∷◌, some, true, bytes, arith}
use grpc_push_sdk.Decimal.{to_string}
use grpc_push_sdk.Packet.{PushRegReq, ResponseType}
use grpc_push_sdk.Int.{pos}
use grpc_push_sdk.Sdk.Calls.{call_sync_begin, call_sync_end}
use grpc_push_sdk.Sdk.Exchange.{call_sync-exchanged}
use grpc_push_sdk.Sdk.Outgoing.{poll_clients}
use grpc_push_sdk.Sdk.State.{PushSdk, new_sdk}
use grpc_push_sdk.Sdk.Threads.{poll_client}
use grpc_push_sdk.Stream.{write}
use grpc_push_sdk.Types.{CbType, ClientEvent, StreamUri, RetCode}
use grpc_push_sdk.Witnesses.{world, heap, req_to, data_of}

abbrev client : Client
client = record (new_client 0 true) { run = true; msg_hdl = true; st = some (idle [] []) }

abbrev session : PushSdk
session = record (new_sdk heap) { client = some client }

abbrev nothing : Poll
nothing = record {
  next = timeout;
  state = Connectivity.ready;
  reconnect_state = Connectivity.ready;
  now = 40;
  push_data = data_of StreamUri.login_res (to_string 7);
}

abbrev write_done : Poll
write_done = record nothing { next = got_event ClientEvent.write_done true }

abbrev read_done : Poll
read_done = record nothing { next = got_event ClientEvent.read_done true }

abbrev login : PushRegReq
login = req_to StreamUri.login

call_sync-exchanged_example :
    let (s1, a) = call_sync_begin CbType.login login 7 0 0 session in
    (s2 : PushSdk) × (s3 : PushSdk) × (c2 : Client) × (poll_clients world
        (nothing ∷ write_done ∷ [])
        s1
      ≡ some s2)
    × (s2.client ≡ some c2)
    × (c2.st ≡ some (idle [] (write login ∷ [])))
    × (poll_client world read_done s2 ≡ some s3)
    × ((call_sync_end a s3).1 ≡ RetCode.success)
    × ((call_sync_end a s3).0.desc ≡ bytes "ok")
    × ((call_sync_end a s3).0.code ≡ pos 200)
unfolding new_client
call_sync-exchanged_example =
    call_sync-exchanged world CbType.login login 7 0 0 session client nothing read_done
      (write_done ∷ []) [] [] ResponseType.login
      (record { res_code = 200; context = to_string 7; err_msg = [] }) refl refl refl refl refl refl
      refl ((refl, refl), tt) refl refl refl (omega arith) (omega arith) refl refl
