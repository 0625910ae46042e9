-- ===== src/Witnesses/Retries.antt =====
-- The theorem on a login that is never answered, applied to sixteen rounds, half a second apart, of which two find it expired.
use grpc_push_sdk.Client.{Client, new_client}
use grpc_push_sdk.Common.{ℕ, ◌+◌, ◌*◌, ◌≡◌, refl, [], ◌∷◌, none, some, true}
use grpc_push_sdk.Packet.{PushRegReq, World}
use grpc_push_sdk.Sdk.Session.Retries.{expiries}
use grpc_push_sdk.Sdk.State.{PushSdk, new_context, new_sdk}
use grpc_push_sdk.Types.{CbType, StreamUri}
use grpc_push_sdk.Witnesses.{world, heap, req_to, somebody}

-- A reading of the clock each half a second.
abbrev slow : World
slow = record world { steady_nano_seconds = λ i. 7 + i * 500000000 }

abbrev client : Client
client = record (new_client 0 true) { run = true }

-- The first login was sent at the instant 7, which was the first reading of the clock.
abbrev session : PushSdk
session = record (new_sdk heap) {
  client = some client;
  user = some somebody;
  logining = true;
  event_cb = some 1;
  cb_map = (7, 0) ∷ [];
  ctxs = λ a. new_context CbType.login (some 1) none 0 0 true;
  next_ctx = 1;
  reads = 1;
}

abbrev login_at : ℕ → PushRegReq
login_at now = req_to StreamUri.login

expired_rounds : expiries slow 16 1 7 ≡ 2
unfolding expiries
expired_rounds = refl
