-- ===== src/Client/Data.antt =====
-- The fields of src/core/client.h, and what gRPC reports in a round of the client's thread.
use grpc_push_sdk.Common.{ℕ, Bool, List, Option, String}
use grpc_push_sdk.Packet.{PushRegReq, PushData}
use grpc_push_sdk.Stream.{Stream}
use grpc_push_sdk.Types.{ClientEvent, ChannelState}

-- What a channel was made with: the address, and the arguments of gRPC.
pub record Channel : Type 0 where
  pub target : List ℕ
  pub args : List (String × ℕ)

-- `port_index` is the static Client::port_index_; `event_ok` is the local `ok` of the thread, which
-- an answer TIMEOUT leaves as it was.
pub record Client : Type 0 where
  pub channel : Option Channel
  pub st : Option Stream
  pub init : Bool
  pub run : Bool
  pub going_to_quit : Bool
  pub channel_state_lis : Bool
  pub stream_status_lis : Bool
  pub msg_hdl : Bool
  pub last_channel_state : ChannelState
  pub last_heartbeat_ts : ℕ
  pub uid : ℕ
  pub suid : ℕ
  pub msg_queue : List PushRegReq
  pub event_ok : Bool
  pub port_index : ℕ

-- grpc_connectivity_state.
pub data Connectivity : Type 0 where
  idle connecting ready transient_failure shutdown : Connectivity

-- The answer of CompletionQueue::AsyncNext.
pub data NextStatus : Type 0 where
  timeout : NextStatus
  got_event : ClientEvent → Bool → NextStatus
  shutdown : NextStatus

-- One round: the answer of the queue, the two readings of the channel's state, the clock in
-- milliseconds, and what gRPC has put in `push_data_`.
pub record Poll : Type 0 where
  pub next : NextStatus
  pub state : Connectivity
  pub reconnect_state : Connectivity
  pub now : ℕ
  pub push_data : PushData

-- The calls of the listeners.
pub data Callback : Type 0 where
  notify_channel_state : ChannelState → Callback
  on_connected : Callback
  on_message : PushData → Callback
