-- ===== src/Witnesses/Reconnect.antt =====
-- The theorem on a new connection, applied.
use grpc_push_sdk.Client.{Client, new_client, enqueue}
use grpc_push_sdk.Decimal.{to_string}
use grpc_push_sdk.Common.{◌≡◌, refl, [], ◌∷◌, ◌++◌, some, arith, true, false, bytes}
use grpc_push_sdk.Packet.{make_login_packet, make_join_groups_packet, ResponseType}
use grpc_push_sdk.Sdk.Messages.{handle_response}
use grpc_push_sdk.Sdk.Session.{relogin, get_now, after_reading}
use grpc_push_sdk.Sdk.Session.Reconnect.{relogin-handle_response}
use grpc_push_sdk.Types.{CbType, CbEvent, StreamUri}
use grpc_push_sdk.Witnesses.{world, heap, somebody, req_to, data_of}
use grpc_push_sdk.Sdk.State.{PushSdk, new_sdk}

-- A session whose connection is made anew.
abbrev client : Client
client = record (new_client 0 true) { run = true }

abbrev session : PushSdk
session = record (new_sdk heap) {
  client = some client;
  user = some somebody;
  groups = (2, 9) ∷ [];
  event_cb = some 1;
}

session_facts :
    (session.logining ≡ false)
    × (make_login_packet world session.uid session.appid session.appkey somebody
          (get_now world session)
        ≡ some (req_to StreamUri.login))
    × (make_join_groups_packet world session.uid
          ((2, 9) ∷ [])
          (get_now world (after_reading world session))
        ≡ some (req_to StreamUri.join_group))
    × (get_now world session ≡ 7)
unfolding new_sdk make_login_packet make_join_groups_packet
session_facts = (refl, refl, refl, refl)

relogin-handle_response_example :
    (s2 : PushSdk) × (handle_response world ResponseType.login
        (data_of StreamUri.login_res (to_string (get_now world session)))
        (relogin world false session)
      ≡ some s2)
    × (s2.client
        ≡ some (enqueue (enqueue client (req_to StreamUri.login)) (req_to StreamUri.join_group)))
    × (s2.user ≡ some somebody)
    × (s2.groups ≡ (2, 9) ∷ [])
    × (s2.logining ≡ false)
    × (s2.event_cb_pctxs
        ≡ session.event_cb_pctxs
          ++ record { type = CbType.login; res = CbEvent.ok; desc = bytes "ok" } ∷ [])
relogin-handle_response_example =
    relogin-handle_response world session somebody (2, 9) [] client 1 (req_to StreamUri.login)
      (req_to StreamUri.join_group) refl session_facts.0 refl refl refl session_facts.1
      session_facts.2 (data_of StreamUri.login_res (to_string (get_now world session)))
      (record { res_code = 200; context = to_string (get_now world session); err_msg = [] })
      (omega (arith, session_facts.3)) (omega (arith, session_facts.3)) refl refl refl
