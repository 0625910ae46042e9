-- ===== src/Client/Quit.antt =====
-- The end of the client's thread: Client::Destroy asks for it, and the thread ends when gRPC reports
-- that the stream has finished.
use grpc_push_sdk.Client.{
  Client, Poll, Callback, NextStatus, got_event, poll, request_quit, send_all_msgs,
  check_and_notify_channel_state, on_next, on_event, on_timeout, process_event, Connectivity,
}
use grpc_push_sdk.Common.{
  ◌≡◌, refl, inl, inr, Bool, true, false, List, [], ◌∷◌, ◌++◌, Option, none, some, arith, ap,
  Bool-cases, Option-cases, if◌then◌else◌, subst, ◌∙◌,
}
use grpc_push_sdk.Client.Healthy.{IsHealthy, IsOpen, IsRunning, poll-IsRunning}
use grpc_push_sdk.Client.{
  thread_start, create_and_init_stream, create_channel_and_stub, check_and_reconnect, poll_stream,
}
use mathlib.Core.Option.{some-injective}
use grpc_push_sdk.Stream.{Stream, half_close}
use grpc_push_sdk.Types.{ClientEvent, StreamStatus, TerminalType}

-- Rounds of the thread, one after the other.
unfoldable pub rounds : TerminalType → Client → List Poll → Option Client
rounds t c [] = some c
rounds t c (p ∷ ps) = elim (poll t c p) [ none ↦ none | some (c', calls) ↦ rounds t c' ps ]

abbrev pub AllHealthy : List Poll → Type 0
AllHealthy [] = Unit {0}
AllHealthy (p ∷ ps) = IsHealthy p.next × AllHealthy ps

rounds-IsRunning :
    (t : TerminalType) (c c' : Client) (ps : List Poll)
    → AllHealthy ps
    → IsRunning c
    → rounds t c ps ≡ some c'
    → IsRunning c'
unfolding rounds
rounds-IsRunning t c c' [] g v h = subst IsRunning (some-injective c c' h) v
rounds-IsRunning t c c' (p ∷ ps) g v h = elim (Option-cases (poll t c p)) [
  | inl fault ↦ ground arith
  | inr ((d, calls), e) ↦
      rounds-IsRunning t d c' ps g.1 (poll-IsRunning t c d p calls g.0 v e) (ground (arith, e, h))
]

-- A client that is asked to quit while its stream is still connecting, and whose connection is then
-- made and stays healthy: after any rounds its thread still runs, and has called neither WritesDone
-- nor Finish on the stream, so that gRPC has no end to report. Destroy waits for that thread.
pub quit_while_connecting :
    (t : TerminalType) (c c' : Client) (st : Stream) (ps : List Poll)
    → c.run ≡ true
    → c.event_ok ≡ true
    → c.st ≡ some st
    → st.status ≡ StreamStatus.wait_connect
    → st.rw ≡ []
    → AllHealthy ps
    → rounds t (request_quit c) ps ≡ some c'
    → (c'.run ≡ true) × ((st' : Stream) × (c'.st ≡ some st') × IsOpen st'.rw)
unfolding request_quit half_close
quit_while_connecting t c c' st ps r k e wait fresh g h =
    let v = rounds-IsRunning t (request_quit c) c' ps g quitting h in
    (v.runs, (v.stream, v.has_stream, v.open_stream))
  where
    quitting : IsRunning (request_quit c)
    quitting = record {
      runs = ground arith;
      stream = st;
      has_stream = ground arith;
      open_stream = rw fresh tt;
      last_ok = ground arith;
    }

-- No round forgets that the client is asked to quit.
process_event-quits :
    (c : Client) (st : Stream) (p : Poll) (event : ClientEvent) (ok : Bool)
    → (process_event c st p event ok).0.going_to_quit ≡ c.going_to_quit
unfolding process_event send_all_msgs
process_event-quits c st p event ok = ground arith

on_timeout-quits :
    (c : Client) (st : Stream) (p : Poll) → (on_timeout c st p).going_to_quit ≡ c.going_to_quit
unfolding on_timeout send_all_msgs
on_timeout-quits c st p = ground arith

restart-quits :
    (t : TerminalType) (c : Client) (k : Connectivity)
    → (create_and_init_stream (check_and_reconnect t c k)).going_to_quit ≡ c.going_to_quit
unfolding create_and_init_stream check_and_reconnect create_channel_and_stub
restart-quits t c k = ground arith

on_event-quits :
    (t : TerminalType) (c : Client) (st : Stream) (p : Poll) (event : ClientEvent) (ok : Bool)
    → (on_event t c st p event ok).0.going_to_quit ≡ c.going_to_quit
unfolding on_event
on_event-quits t c st p ClientEvent.finished ok =
    ground (arith, restart-quits t c p.reconnect_state)
on_event-quits t c st p ClientEvent.half_close ok = refl
on_event-quits t c st p ClientEvent.connected ok =
    ground (arith, process_event-quits c st p ClientEvent.connected ok)
on_event-quits t c st p ClientEvent.read_done ok =
    ground (arith, process_event-quits c st p ClientEvent.read_done ok)
on_event-quits t c st p ClientEvent.write_done ok =
    ground (arith, process_event-quits c st p ClientEvent.write_done ok)

notify-quits :
    (c : Client) (k : Connectivity)
    → ((check_and_notify_channel_state c k).0.going_to_quit ≡ c.going_to_quit)
      × ((check_and_notify_channel_state c k).0.run ≡ c.run)
unfolding check_and_notify_channel_state
notify-quits c k = ground arith

on_next-quits :
    (t : TerminalType) (c : Client) (calls : List Callback) (st : Stream) (p : Poll)
    (n : NextStatus) (c' : Client) (calls' : List Callback)
    → on_next t (c, calls) st p n ≡ some (c', calls')
    → c'.going_to_quit ≡ c.going_to_quit
unfolding on_next
on_next-quits t c calls st p NextStatus.timeout c' calls' h =
    ground (arith, h, on_timeout-quits c st p)
on_next-quits t c calls st p (got_event event ok) c' calls' h =
    ground (arith, h, on_event-quits t (record c { event_ok = ok }) st p event ok)
on_next-quits t c calls st p NextStatus.shutdown c' calls' h = ground (arith, h)

poll_stream-quits :
    (t : TerminalType) (c c' : Client) (o : Option Stream) (p : Poll) (calls : List Callback)
    → poll_stream t c o p ≡ some (c', calls)
    → c'.going_to_quit ≡ c.going_to_quit
unfolding poll_stream thread_start create_and_init_stream create_channel_and_stub
poll_stream-quits t c c' none p calls h = ground (arith, h)
poll_stream-quits t c c' (some st) p calls h =
    let (n, before) = check_and_notify_channel_state c p.state in
    on_next-quits t n before st p p.next c' calls h ∙ (notify-quits c p.state).0

rounds-quits :
    (t : TerminalType) (c c' : Client) (ps : List Poll)
    → rounds t c ps ≡ some c'
    → c'.going_to_quit ≡ c.going_to_quit
unfolding rounds poll
rounds-quits t c c' [] h = ground (arith, h)
rounds-quits t c c' (p ∷ ps) h = elim (Option-cases (poll t c p)) [
  | inl fault ↦ ground arith
  | inr ((d, calls), e) ↦ rounds-quits t d c' ps (ground (arith, e, h)) ∙ elim (Bool-cases c.run) [
    | inl runs ↦ poll_stream-quits t c d c.st p calls (ground (arith, e, runs))
    | inr ended ↦ ground (arith, e, ended)
  ]
]

poll-on_next :
    (t : TerminalType) (c : Client) (st : Stream) (p : Poll) (n : NextStatus)
    → c.run ≡ true
    → c.st ≡ some st
    → p.next ≡ n
    → poll t c p ≡ on_next t (check_and_notify_channel_state c p.state) st p n
unfolding poll poll_stream
poll-on_next t c st p n runs e next =
    ap (λ b. if b then poll_stream t c c.st p else some (c, [])) runs
    ∙ ap (λ o. poll_stream t c o p) e
    ∙ ap (on_next t (check_and_notify_channel_state c p.state) st p) next

on_next-finished :
    (t : TerminalType) (n : Client) (before : List Callback) (st : Stream) (p : Poll) (ok : Bool)
    → n.going_to_quit ≡ true
    → on_next t (n, before) st p (got_event ClientEvent.finished ok)
      ≡ some (record n { event_ok = ok; run = false }, before ++ [])
unfolding on_next on_event
on_next-finished t n before st p ok quits = ground arith

-- After Client::Destroy has asked the thread to end, and after any rounds, the round in which gRPC
-- reports that the thread's stream has finished ends the thread, whatever else it reports.
pub finished-ends :
    (t : TerminalType) (c c' : Client) (st : Stream) (ps : List Poll) (p : Poll) (ok : Bool)
    → rounds t (request_quit c) ps ≡ some c'
    → c'.st ≡ some st
    → p.next ≡ got_event ClientEvent.finished ok
    → (c'' : Client) × (calls : List Callback) × (poll t c' p ≡ some (c'', calls))
      × (c''.run ≡ false)
unfolding poll request_quit
finished-ends t c c' st ps p ok h e last =
    let (n, before) = check_and_notify_channel_state c' p.state in
    let quits : n.going_to_quit ≡ true =
      (notify-quits c' p.state).0 ∙ rounds-quits t (request_quit c) c' ps h ∙ ground arith in
    elim (Bool-cases c'.run) [
      | inl runs ↦ (
        record n { event_ok = ok; run = false },
        before ++ [],
        poll-on_next t c' st p (got_event ClientEvent.finished ok) runs e last
            ∙ on_next-finished t n before st p ok quits,
        refl,
      )
      | inr ended ↦ (c', [], rw ended refl, ended)
    ]
