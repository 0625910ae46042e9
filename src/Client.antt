-- ===== src/Client.antt =====
-- src/core/client.cpp. The thread that Client::Initialize starts is the function `poll`, one round of
-- its loop for each answer of the completion queue; the answer, and what gRPC reports in that
-- round, are the argument. gRPC's channel is what it was made with.
pub mod Data
pub mod Order
pub mod Healthy
pub mod Quit
pub mod Round
pub mod Flush
pub use Data.{
  Channel, Client, Connectivity, NextStatus, Poll, Callback, timeout, got_event,
  notify_channel_state, on_connected, on_message,
}
use grpc_push_sdk.Common.{
  ℕ, zero, suc, ◌+◌, ◌-◌, ◌%◌, ◌^◌, Bool, true, false, not, ◌&&◌, List, [], ◌∷◌, ◌++◌, Option, none,
  some, leb, if◌then◌else◌, length, bytes, String,
}
use grpc_push_sdk.Config.{
  front_envoy_host, front_envoy_ports, heart_beat_interval, grpc_keep_alive_time,
  grpc_keep_alive_timeout, grpc_keep_alive_permit_without_calls, grpc_max_pings_without_data,
  grpc_min_sent_ping_interval_without_data,
}
use grpc_push_sdk.Decimal.{to_string}
use grpc_push_sdk.Packet.{PushRegReq, PushData}
use grpc_push_sdk.Stream.{
  Stream, Report, process, send, send_msgs, is_connected, is_ready_to_send, half_close,
  finish_stream,
}
use grpc_push_sdk.Stream
use grpc_push_sdk.Types.{ClientEvent, ChannelState, TerminalType, StreamUri, RetCode}

unfoldable pub new_client : ℕ → Bool → Client
new_client port_index garbage = record {
  channel = none;
  st = none;
  init = false;
  run = false;
  going_to_quit = false;
  channel_state_lis = false;
  stream_status_lis = false;
  msg_hdl = false;
  last_channel_state = ChannelState.unknow;
  last_heartbeat_ts = 0;
  uid = 0;
  suid = 0;
  msg_queue = [];
  event_ok = garbage;
  port_index = port_index;
}

abbrev pub set_channel_state_listener : Client → Client
set_channel_state_listener c = record c { channel_state_lis = true }

abbrev pub set_client_status_listener : Client → Client
set_client_status_listener c = record c { stream_status_lis = true }

abbrev pub set_message_handler : Client → Client
set_message_handler c = record c { msg_hdl = true }

abbrev pub get_uid : Client → ℕ
get_uid c = c.uid

abbrev pub get_suid : Client → ℕ
get_suid c = c.suid

unfoldable pub clean_queue : Client → Client
clean_queue c = record c { msg_queue = [] }

unfoldable pub enqueue : Client → PushRegReq → Client
enqueue c req = record c { msg_queue = c.msg_queue ++ req ∷ [] }

abbrev pub nth_port : List ℕ → ℕ → ℕ
nth_port [] i = 0
nth_port (p ∷ ps) zero = p
nth_port (p ∷ ps) (suc i) = nth_port ps i

unfoldable pub address : TerminalType → ℕ → List ℕ
address t port_index =
    bytes (front_envoy_host t)
    ++ bytes ":"
    ++ to_string (nth_port front_envoy_ports (port_index % length front_envoy_ports))

-- By the names of the macros, whose texts gRPC defines.
abbrev pub get_channel_args : List (String × ℕ)
get_channel_args =
    ("GRPC_ARG_KEEPALIVE_TIME_MS", grpc_keep_alive_time)
    ∷ ("GRPC_ARG_KEEPALIVE_TIMEOUT_MS", grpc_keep_alive_timeout)
    ∷ ("GRPC_ARG_KEEPALIVE_PERMIT_WITHOUT_CALLS", grpc_keep_alive_permit_without_calls)
    ∷ ("GRPC_ARG_HTTP2_MAX_PINGS_WITHOUT_DATA", grpc_max_pings_without_data)
    ∷ (
      "GRPC_ARG_HTTP2_MIN_SENT_PING_INTERVAL_WITHOUT_DATA_MS",
      grpc_min_sent_ping_interval_without_data,
    )
    ∷ []

unfoldable pub create_channel_and_stub : TerminalType → Bool → Client → Client
unfolding address
create_channel_and_stub t need_to_change_port c =
    let port = if need_to_change_port then (c.port_index + 1) % 2 ^ 32 else c.port_index in
    record c {
      channel = some (record { target = address t port; args = get_channel_args });
      port_index = port;
    }

-- `msg_queue_` of the old stream is lost with it.
unfoldable pub create_and_init_stream : Client → Client
create_and_init_stream c = record c { st = some (Stream.init (get_suid c) (get_uid c)) }

abbrev pub channel_state_of : Connectivity → ChannelState
channel_state_of Connectivity.ready = ChannelState.ok
channel_state_of _ = ChannelState.no_ready

abbrev pub same_state : ChannelState → ChannelState → Bool
same_state ChannelState.unknow ChannelState.unknow = true
same_state ChannelState.ok ChannelState.ok = true
same_state ChannelState.no_ready ChannelState.no_ready = true
same_state _ _ = false

unfoldable pub check_and_notify_channel_state : Client → Connectivity → Client × List Callback
check_and_notify_channel_state c state =
    let new_state = channel_state_of state in
    if same_state new_state c.last_channel_state then (c, []) else (
      record c { last_channel_state = new_state },
      if c.channel_state_lis then notify_channel_state new_state ∷ [] else [],
    )

abbrev is_broken : Connectivity → Bool
is_broken Connectivity.shutdown = true
is_broken Connectivity.transient_failure = true
is_broken _ = false

unfoldable pub check_and_reconnect : TerminalType → Client → Connectivity → Client
check_and_reconnect t c state = if is_broken state then create_channel_and_stub t true c else c

abbrev pub ping_request : PushRegReq
ping_request = record { uri = StreamUri.ping; msg_data = [] }

-- A `now` behind the last heartbeat would be negative here, and no heartbeat is due then either.
unfoldable pub send_all_msgs : Client → Stream → ℕ → Client
send_all_msgs c st now =
    let due = leb heart_beat_interval (now - c.last_heartbeat_ts) in
    let st' = if due then send st ping_request else st in
    record c {
      st = some (send_msgs st' c.msg_queue);
      last_heartbeat_ts = if due then now else c.last_heartbeat_ts;
      msg_queue = [];
    }

unfoldable pub initialize : Client → ℕ → ℕ → Client × RetCode
initialize c uid suid = if c.init then (c, RetCode.already_init) else (
  record c { last_heartbeat_ts = 0; uid = uid; suid = suid; run = true; going_to_quit = false },
  RetCode.success,
)

-- The first statements of the thread.
unfoldable pub thread_start : TerminalType → Client → Client
thread_start t c = create_and_init_stream (create_channel_and_stub t false c)

abbrev report_callbacks : Client → PushData → Report → List Callback
report_callbacks c msg Report.nothing = []
report_callbacks c msg Report.connected = if c.stream_status_lis then on_connected ∷ [] else []
report_callbacks c msg Report.read_message = if c.msg_hdl then on_message msg ∷ [] else []

-- The stream after the messages of the round went out.
abbrev stream_from : Option Stream → Stream → Stream
stream_from none st = st
stream_from (some st') st = st'

abbrev stream_of : Client → Stream → Stream
stream_of c st = stream_from c.st st

-- The last lines of the case GOT_EVENT.
process_event : Client → Stream → Poll → ClientEvent → Bool → Client × List Callback
process_event c st p event ok =
    let c' = if ok && is_ready_to_send st then send_all_msgs c st p.now else c in
    let (st', report) = process (stream_of c' st) event ok in
    (record c' { st = some st' }, report_callbacks c' p.push_data report)

on_event : TerminalType → Client → Stream → Poll → ClientEvent → Bool → Client × List Callback
unfolding process_event
on_event t c st p ClientEvent.finished ok =
    if c.going_to_quit
    then (record c { run = false }, [])
    else (create_and_init_stream (check_and_reconnect t c p.reconnect_state), [])
on_event t c st p ClientEvent.half_close ok = (record c { st = some (finish_stream st) }, [])
on_event t c st p event ok =
    if not ok && is_connected st
    then (record c { st = some (finish_stream st) }, [])
    else process_event c st p event ok

on_timeout : Client → Stream → Poll → Client
on_timeout c st p =
    if not c.event_ok && is_connected st
    then record c { st = some (finish_stream st) }
    else if is_ready_to_send st
    then send_all_msgs c st p.now
    else c

abbrev also_calls : List Callback → Client × List Callback → Client × List Callback
also_calls before (c, after) = (c, before ++ after)

-- `assert(0)` answers a queue that was shut down.
on_next :
    TerminalType
    → Client × List Callback
    → Stream
    → Poll
    → NextStatus
    → Option (Client × List Callback)
unfolding on_event on_timeout
on_next t (c, calls) st p NextStatus.timeout = some (on_timeout c st p, calls)
on_next t (c, calls) st p (got_event event ok) =
    some (also_calls calls (on_event t (record c { event_ok = ok }) st p event ok))
on_next t (c, calls) st p NextStatus.shutdown = none

poll_stream : TerminalType → Client → Option Stream → Poll → Option (Client × List Callback)
unfolding on_next
poll_stream t c none p = some (thread_start t c, [])
poll_stream t c (some st) p = on_next t (check_and_notify_channel_state c p.state) st p p.next

-- One round of the thread; a thread that is not there or has ended does nothing.
unfoldable pub poll : TerminalType → Client → Poll → Option (Client × List Callback)
unfolding poll_stream
poll t c p = if c.run then poll_stream t c c.st p else some (c, [])

-- Client::Destroy up to the join: the thread is asked to stop.
unfoldable pub request_quit : Client → Client
request_quit c = elim c.st [
  | none ↦ record c { going_to_quit = true }
  | some st ↦ record c { going_to_quit = true; st = some (half_close st) }
]

-- The rest of Client::Destroy, after the join.
abbrev pub released : Client → Client
released c = record c {
  channel = none;
  st = none;
  init = false;
  channel_state_lis = false;
  stream_status_lis = false;
  msg_hdl = false;
  last_channel_state = ChannelState.unknow;
  last_heartbeat_ts = 0;
  uid = 0;
  suid = 0;
}
