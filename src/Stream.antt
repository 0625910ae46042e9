-- ===== src/Stream.antt =====
-- src/core/stream.cpp. `rw_`, the gRPC reader-writer, is the list of the calls made on it, in order.
pub mod Order
pub mod Writes
pub mod Delivered
pub mod Closing
use grpc_push_sdk.Common.{ℕ, Bool, true, false, List, [], ◌∷◌, ◌++◌, bytes, if◌then◌else◌}
use grpc_push_sdk.Decimal.{to_string}
use grpc_push_sdk.Packet.{PushRegReq}
use grpc_push_sdk.Types.{ClientEvent, StreamStatus}

pub data RwCall : Type 0 where
  read : RwCall
  write : PushRegReq → RwCall
  writes_done : RwCall
  finish : RwCall

-- `msg_queue_` is written `pending`, apart from the queue of the client.
pub record Stream : Type 0 where
  pub metadata : List (List ℕ × List ℕ)
  pub status : StreamStatus
  pub pending : List PushRegReq
  pub rw : List RwCall

-- What Stream::Process reports to its client.
pub data Report : Type 0 where
  nothing connected read_message : Report

-- Stream::Stream and Stream::Init.
unfoldable pub init : ℕ → ℕ → Stream
init suid uid = record {
  metadata = (bytes "suid", to_string suid) ∷ (bytes "uid", to_string uid) ∷ [];
  status = StreamStatus.wait_connect;
  pending = [];
  rw = [];
}

abbrev pub call_rw : RwCall → Stream → Stream
call_rw c st = record st { rw = st.rw ++ c ∷ [] }

-- The head of `pending` goes out.
abbrev pub write_front : Stream → PushRegReq → List PushRegReq → Stream
write_front st r rest = record st {
  pending = rest;
  rw = st.rw ++ write r ∷ [];
  status = StreamStatus.wait_write_done;
}

-- The case WRITE_DONE.
unfoldable pub write_next : Stream → List PushRegReq → Stream
write_next st [] = record st { status = StreamStatus.ready_to_write }
write_next st (r ∷ rest) = write_front st r rest

unfoldable pub process : Stream → ClientEvent → Bool → Stream × Report
unfolding write_next
process st ClientEvent.connected ok =
    let st' = record st { rw = st.rw ++ read ∷ []; status = StreamStatus.ready_to_write } in
    if ok then (st', connected) else (st', nothing)
process st ClientEvent.read_done ok = (call_rw read st, read_message)
process st ClientEvent.write_done ok = (write_next st st.pending, nothing)
process st _ ok = (st, nothing)

abbrev pub is_ready_to_write : StreamStatus → Bool
is_ready_to_write StreamStatus.ready_to_write = true
is_ready_to_write _ = false

-- The common end of Send and SendMsgs: a stream that is free to write takes the head of the queue.
unfoldable pub start_write : Stream → List PushRegReq → Stream
start_write st [] = st
start_write st (r ∷ rest) = if is_ready_to_write st.status then write_front st r rest else st

unfoldable pub send : Stream → PushRegReq → Stream
unfolding start_write
send st req =
    let st' = record st { pending = st.pending ++ req ∷ [] } in start_write st' st'.pending

unfoldable pub send_msgs : Stream → List PushRegReq → Stream
unfolding start_write
send_msgs st msgs =
    let st' = record st { pending = st.pending ++ msgs } in start_write st' st'.pending

unfoldable pub is_connected : Stream → Bool
is_connected st = elim st.status [ StreamStatus.wait_connect ↦ false | _ ↦ true ]

unfoldable pub is_ready_to_send : Stream → Bool
is_ready_to_send st = elim st.status [
  | StreamStatus.ready_to_write ↦ true
  | StreamStatus.wait_write_done ↦ true
  | _ ↦ false
]

unfoldable pub half_close : Stream → Stream
half_close st = elim st.status [
  | StreamStatus.wait_connect ↦ st
  | StreamStatus.finished ↦ st
  | StreamStatus.half_close ↦ st
  | _ ↦ record st { rw = st.rw ++ writes_done ∷ []; status = StreamStatus.half_close }
]

unfoldable pub finish_stream : Stream → Stream
finish_stream st = elim st.status [
  | StreamStatus.wait_connect ↦ st
  | StreamStatus.finished ↦ st
  | _ ↦ record st { rw = st.rw ++ finish ∷ []; status = StreamStatus.finished }
]
