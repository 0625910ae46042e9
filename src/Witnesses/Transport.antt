-- ===== src/Witnesses/Transport.antt =====
-- The theorems on the client, its stream, the uploader and the C functions, applied.
use grpc_push_sdk.Client.{
  Client, Poll, Callback, Connectivity, got_event, new_client, initialize, thread_start, poll,
  request_quit, create_and_init_stream, create_channel_and_stub, check_and_notify_channel_state,
  enqueue,
}
use grpc_push_sdk.Client.Order.{poll-outbound, outbound}
use grpc_push_sdk.Client.Healthy.{IsOpen}
use grpc_push_sdk.Client.Quit.{rounds, quit_while_connecting, finished-ends}
use grpc_push_sdk.Common.{false, suc, ◌≤◌, ◌≡◌, refl, ◌⊎◌, true, List, [], ◌∷◌, none, some, arith}
use grpc_push_sdk.Stream
use grpc_push_sdk.Stream.{Stream}
use grpc_push_sdk.Stream.Closing.{half_close-process}
use grpc_push_sdk.Stream.Delivered.{given, written-given}
use grpc_push_sdk.Stream.Order.{written}
use grpc_push_sdk.Stream.Writes.{Traffic, Reach, Step, issued, at_most_one_write, new_traffic}
use grpc_push_sdk.Types.{ClientEvent, StreamUri, StreamStatus, TerminalType}
use grpc_push_sdk.Witnesses.{req_to, data_of}

abbrev connected_traffic : Traffic
connected_traffic = record (new_traffic 6 5) {
  stream = (Stream.process (Stream.init 6 5) ClientEvent.connected true).0;
}

abbrev sending_traffic : Traffic
sending_traffic = record connected_traffic {
  stream = Stream.send connected_traffic.stream (req_to StreamUri.login);
}

sending : Reach (new_traffic 6 5) sending_traffic
unfolding Stream.init Stream.process Stream.is_ready_to_send
sending =
    Reach.next (Reach.next Reach.here (Step.connects true refl))
      (Step.sends (req_to StreamUri.login) refl)

at_most_one_write_example :
    (sending_traffic.completed ≤ issued sending_traffic)
    × (issued sending_traffic ≤ suc sending_traffic.completed)
    × ((sending_traffic.stream.pending ≡ [])
        ⊎ (issued sending_traffic ≡ suc sending_traffic.completed))
at_most_one_write_example = at_most_one_write 6 5 sending_traffic sending

-- Two requests, the second sent while the first is being written, and the report of both writes.
abbrev queued_traffic : Traffic
queued_traffic = record sending_traffic {
  stream = Stream.send sending_traffic.stream (req_to StreamUri.join_group);
}

abbrev one_reported : Traffic
one_reported = record queued_traffic {
  stream = (Stream.process queued_traffic.stream ClientEvent.write_done true).0;
  completed = 1;
}

abbrev all_reported : Traffic
all_reported = record one_reported {
  stream = (Stream.process one_reported.stream ClientEvent.write_done true).0;
  completed = 2;
}

reporting : Reach (new_traffic 6 5) all_reported
unfolding Stream.init Stream.process Stream.is_ready_to_send Stream.send Stream.start_write
    Stream.write_next written
reporting =
    Reach.next
      (Reach.next (Reach.next sending (Step.sends (req_to StreamUri.join_group) refl))
        (Step.completes true (omega arith)))
      (Step.completes true (omega arith))

written-given_example :
    (written all_reported.stream.rw ≡ given reporting) × (all_reported.stream.pending ≡ [])
unfolding Stream.init Stream.process Stream.is_ready_to_send Stream.send Stream.start_write
    Stream.write_next written
written-given_example = written-given 6 5 all_reported reporting refl

-- A client whose thread has started, with a request in its queue, and the round in which it connects.
abbrev started : Client
started =
    enqueue (thread_start TerminalType.linux (initialize (new_client 0 true) 5 6).0)
      (req_to StreamUri.login)

abbrev connects : Poll
connects = record {
  next = got_event ClientEvent.connected true;
  state = Connectivity.ready;
  reconnect_state = Connectivity.ready;
  now = 0;
  push_data = data_of StreamUri.pong [];
}

unfoldable polled : Client → Client × List Callback
polled c = elim (poll TerminalType.linux c connects) [ none ↦ (c, []) | some r ↦ r ]

poll-started :
    poll TerminalType.linux started connects ≡ some ((polled started).0, (polled started).1)
unfolding polled poll thread_start initialize new_client enqueue create_channel_and_stub
    create_and_init_stream check_and_notify_channel_state
poll-started = refl

started_stream :
    (started.run ≡ true) × (started.st ≡ some (Stream.init 6 5)) × (started.event_ok ≡ true)
unfolding thread_start initialize new_client enqueue create_channel_and_stub create_and_init_stream
started_stream = (refl, refl, refl)

poll-outbound_example :
    (st' : Stream) × ((polled started).0.st ≡ some st')
    × (outbound st' (polled started).0 ≡ outbound (Stream.init 6 5) started)
poll-outbound_example =
    poll-outbound TerminalType.linux started (polled started).0 (Stream.init 6 5) connects
      (polled started).1 started_stream.0 started_stream.1 refl poll-started

rounds-started :
    rounds TerminalType.linux (request_quit started) (connects ∷ [])
    ≡ some (polled (request_quit started)).0
unfolding rounds polled poll request_quit thread_start initialize new_client enqueue
    create_channel_and_stub create_and_init_stream check_and_notify_channel_state
rounds-started = refl

still_connecting :
    ((Stream.init 6 5).status ≡ StreamStatus.wait_connect) × ((Stream.init 6 5).rw ≡ [])
unfolding Stream.init
still_connecting = (refl, refl)

quit_while_connecting_example :
    ((polled (request_quit started)).0.run ≡ true)
    × ((st' : Stream) × ((polled (request_quit started)).0.st ≡ some st') × IsOpen st'.rw)
quit_while_connecting_example =
    quit_while_connecting TerminalType.linux started (polled (request_quit started)).0
      (Stream.init 6 5) (connects ∷ []) started_stream.0 started_stream.2 started_stream.1
      still_connecting.0 still_connecting.1 (refl, tt) rounds-started

-- A stream with one write under way and one request in its queue.
abbrev writing : Stream
writing = record {
  metadata = [];
  status = StreamStatus.wait_write_done;
  pending = req_to StreamUri.logout ∷ [];
  rw = Stream.read ∷ Stream.write (req_to StreamUri.login) ∷ [];
}

half_close-process_example :
    let st' = (Stream.process (Stream.half_close writing) ClientEvent.write_done true).0 in
    (st'.rw
      ≡ Stream.read
        ∷ Stream.write (req_to StreamUri.login)
        ∷ Stream.writes_done
        ∷ Stream.write (req_to StreamUri.logout)
        ∷ [])
    × (Stream.is_ready_to_send st' ≡ true)
half_close-process_example = half_close-process writing (req_to StreamUri.logout) [] true refl refl

-- The stream of a client that is asked to quit is half closed, and then finishes.
abbrev reports : ClientEvent → Poll
reports event = record connects { next = got_event event true }

abbrev closing : Client
closing = record started { st = some writing }

abbrev finishing : Stream
finishing = Stream.finish_stream (Stream.half_close writing)

unfoldable after_closing : Client
after_closing =
    elim (rounds TerminalType.linux (request_quit closing) (reports ClientEvent.half_close ∷ [])) [
      | none ↦ closing
      | some c ↦ c
    ]

rounds-closing :
    rounds TerminalType.linux (request_quit closing) (reports ClientEvent.half_close ∷ [])
    ≡ some after_closing
unfolding after_closing rounds poll request_quit thread_start initialize new_client enqueue
    create_channel_and_stub create_and_init_stream check_and_notify_channel_state
rounds-closing = refl

after_closing_stream : after_closing.st ≡ some finishing
unfolding after_closing rounds poll request_quit thread_start initialize new_client enqueue
    create_channel_and_stub create_and_init_stream check_and_notify_channel_state
after_closing_stream = refl

finished-ends_example :
    (c : Client) × (calls : List Callback) × (poll TerminalType.linux after_closing
        (reports ClientEvent.finished)
      ≡ some (c, calls))
    × (c.run ≡ false)
finished-ends_example =
    finished-ends TerminalType.linux closing after_closing finishing
      (reports ClientEvent.half_close ∷ []) (reports ClientEvent.finished) true rounds-closing
      after_closing_stream refl
