-- ===== src/Client/Round.antt =====
-- A round of the client's thread in which gRPC reports that a write is done, or nothing, with no
-- heartbeat due.
use grpc_push_sdk.Client.{
  Client, Poll, Callback, NextStatus, timeout, got_event, notify_channel_state, on_message, poll,
  send_all_msgs, check_and_notify_channel_state, stream_of, process_event, on_event, on_timeout,
  on_next, poll_stream, Connectivity, same_state, channel_state_of,
}
use grpc_push_sdk.Common.{
  ℕ, ◌-◌, ◌≡◌, refl, sym, ap, subst, ◌∙◌, Bool, true, false, List, [], ◌∷◌, ◌++◌, some, inl, inr,
  Bool-cases, leb, All, All-append, if◌then◌else◌,
}
use grpc_push_sdk.Config.{heart_beat_interval}
use grpc_push_sdk.Packet.{PushRegReq}
use grpc_push_sdk.Stream.{
  Stream, RwCall, write, send_msgs, process, start_write, write_next, is_ready_to_send,
}
use grpc_push_sdk.Types.{ClientEvent, StreamStatus, ChannelState, TerminalType}

-- A stream with a write under way, what waits behind it, and the calls so far; and one that is free.
abbrev pub busy : List (List ℕ × List ℕ) → List PushRegReq → List RwCall → Stream
busy m q l = record { metadata = m; status = StreamStatus.wait_write_done; pending = q; rw = l }

abbrev pub idle : List (List ℕ × List ℕ) → List RwCall → Stream
idle m l = record { metadata = m; status = StreamStatus.ready_to_write; pending = []; rw = l }

start_write-busy :
    (m : List (List ℕ × List ℕ)) (q q' : List PushRegReq) (l : List RwCall)
    → start_write (busy m q l) q' ≡ busy m q l
unfolding start_write
start_write-busy m q [] l = refl
start_write-busy m q (r ∷ rest) l = refl

abbrev with_state : Client → ChannelState → Client
with_state c k = record c { last_channel_state = k }

-- A call of the listener of the channel's state.
abbrev pub IsNotify : Callback → Type 0
IsNotify (notify_channel_state k) = Unit
IsNotify _ = ⊥

report_IsNotify :
    (b : Bool) (k : ChannelState) → All IsNotify (if b then notify_channel_state k ∷ [] else [])
report_IsNotify true k = (tt, tt)
report_IsNotify false k = tt

notified :
    (c : Client) (k : Connectivity)
    → (n : ChannelState) × (calls : List Callback) × (check_and_notify_channel_state c k
        ≡ (with_state c n, calls))
      × All IsNotify calls
unfolding check_and_notify_channel_state
notified c k = elim (Bool-cases (same_state (channel_state_of k) c.last_channel_state)) [
  | inl same ↦ (c.last_channel_state, [], rw same refl, tt)
  | inr other ↦ (
    channel_state_of k,
    if c.channel_state_lis then notify_channel_state (channel_state_of k) ∷ [] else [],
    rw other refl,
    report_IsNotify c.channel_state_lis (channel_state_of k),
  )
]

-- No heartbeat is due at the instant of a round.
abbrev pub IsQuiet : ℕ → Poll → Type 0
IsQuiet last p = leb heart_beat_interval (p.now - last) ≡ false

-- The client after a round that has handed its queue to the stream.
abbrev pub Handed : Client → Stream → Client → Type 0
Handed c st c' =
    (c'.run ≡ true)
    × (c'.msg_queue ≡ [])
    × (c'.last_heartbeat_ts ≡ c.last_heartbeat_ts)
    × (c'.st ≡ some st)
    × (c'.msg_hdl ≡ c.msg_hdl)

-- The client whose queue is with the stream.
abbrev handed : Client → Stream → Client
handed c st = record c { st = some st; msg_queue = [] }

send_all_msgs-quiet :
    (c : Client) (p : Poll) (st : Stream)
    → IsQuiet c.last_heartbeat_ts p
    → send_all_msgs c st p.now ≡ handed c (send_msgs st c.msg_queue)
unfolding send_all_msgs
send_all_msgs-quiet c p st quiet = rw quiet refl

send_all_msgs-busy :
    (c : Client) (p : Poll) (m : List (List ℕ × List ℕ)) (q : List PushRegReq) (l : List RwCall)
    → IsQuiet c.last_heartbeat_ts p
    → send_all_msgs c (busy m q l) p.now ≡ handed c (busy m (q ++ c.msg_queue) l)
unfolding send_msgs
send_all_msgs-busy c p m q l quiet =
    send_all_msgs-quiet c p (busy m q l) quiet
    ∙ ap (handed c) (start_write-busy m (q ++ c.msg_queue) (q ++ c.msg_queue) l)

write_done-process_event :
    (c : Client) (p : Poll) (m : List (List ℕ × List ℕ)) (q : List PushRegReq) (l : List RwCall)
    → c.run ≡ true
    → IsQuiet c.last_heartbeat_ts p
    → Handed c
        (write_next (busy m (q ++ c.msg_queue) l) (q ++ c.msg_queue))
        (process_event c (busy m q l) p ClientEvent.write_done true).0
unfolding process_event is_ready_to_send process
write_done-process_event c p m q l r quiet =
    subst
      (λ c'. Handed c (write_next (busy m (q ++ c.msg_queue) l) (q ++ c.msg_queue)) (record c' {
        st = some (process (stream_of c' (busy m q l)) ClientEvent.write_done true).0;
      }))
      (sym (send_all_msgs-busy c p m q l quiet)) (r, refl, refl, refl, refl)

-- A round as the answer of the completion queue, for a client with a stream.
on_next-poll :
    (t : TerminalType) (c : Client) (p : Poll) (st : Stream) (next : NextStatus)
    → c.run ≡ true
    → c.st ≡ some st
    → p.next ≡ next
    → (k : ChannelState) × (calls : List Callback) × (poll t c p
        ≡ on_next t (with_state c k, calls) st p next)
      × All IsNotify calls
unfolding poll poll_stream
on_next-poll t c p st next r e n =
    let (k, calls, noted, quiet) = notified c p.state in
    let runs : poll t c p ≡ poll_stream t c c.st p = rw r refl in
    (
      k,
      calls,
      runs
          ∙ ap (λ x. poll_stream t c x p) e
          ∙ ap (λ x. on_next t x st p p.next) noted
          ∙ ap (λ x. on_next t (with_state c k, calls) st p x) n,
      quiet,
    )

write_done_calls :
    (c : Client) (p : Poll) (m : List (List ℕ × List ℕ)) (q : List PushRegReq) (l : List RwCall)
    → IsQuiet c.last_heartbeat_ts p
    → All IsNotify (process_event c (busy m q l) p ClientEvent.write_done true).1
unfolding process_event process
write_done_calls c p m q l quiet = tt

pub write_done-poll :
    (t : TerminalType) (c : Client) (p : Poll) (m : List (List ℕ × List ℕ)) (q : List PushRegReq)
    (l : List RwCall)
    → c.run ≡ true
    → c.st ≡ some (busy m q l)
    → IsQuiet c.last_heartbeat_ts p
    → p.next ≡ got_event ClientEvent.write_done true
    → (c' : Client) × (calls : List Callback) × (poll t c p ≡ some (c', calls))
      × All IsNotify calls
      × Handed c (write_next (busy m (q ++ c.msg_queue) l) (q ++ c.msg_queue)) c'
unfolding on_next on_event
write_done-poll t c p m q l r e quiet n =
    let (k, calls, polled, notes) =
      on_next-poll t c p (busy m q l) (got_event ClientEvent.write_done true) r e n in
    let c1 : Client = record (with_state c k) { event_ok = true } in
    let (c', after) = process_event c1 (busy m q l) p ClientEvent.write_done true in
    (
      c',
      calls ++ after,
      polled,
      All-append IsNotify calls after notes (write_done_calls c1 p m q l quiet),
      write_done-process_event c1 p m q l r quiet,
    )

on_timeout-idle :
    (c : Client) (p : Poll) (m : List (List ℕ × List ℕ)) (l : List RwCall)
    → c.event_ok ≡ true
    → on_timeout c (idle m l) p ≡ send_all_msgs c (idle m l) p.now
unfolding on_timeout is_ready_to_send
on_timeout-idle c p m l ok = rw ok refl

-- The round that hands the queue to a stream that is free.
pub timeout-poll :
    (t : TerminalType) (c : Client) (p : Poll) (m : List (List ℕ × List ℕ)) (l : List RwCall)
    (x : PushRegReq) (w : List PushRegReq)
    → c.run ≡ true
    → c.event_ok ≡ true
    → c.st ≡ some (idle m l)
    → c.msg_queue ≡ x ∷ w
    → IsQuiet c.last_heartbeat_ts p
    → p.next ≡ timeout
    → (c' : Client) × (calls : List Callback) × (poll t c p ≡ some (c', calls))
      × All IsNotify calls
      × Handed c (busy m w (l ++ write x ∷ [])) c'
unfolding on_next send_msgs start_write
timeout-poll t c p m l x w r ok e waiting quiet n =
    let (k, calls, polled, notes) = on_next-poll t c p (idle m l) timeout r e n in
    let sent : send_all_msgs (with_state c k) (idle m l) p.now
        ≡ handed (with_state c k) (busy m w (l ++ write x ∷ [])) =
      send_all_msgs-quiet (with_state c k) p (idle m l) quiet
      ∙ ap (λ v. handed (with_state c k) (send_msgs (idle m l) v)) waiting in
    (
      handed (with_state c k) (busy m w (l ++ write x ∷ [])),
      calls,
      polled ∙ ap (λ v. some (v, calls)) (on_timeout-idle (with_state c k) p m l ok ∙ sent),
      notes,
      (r, refl, refl, refl, refl),
    )

-- A message that gRPC has read is handed to the listener, after the calls on the channel's state, and
-- the next read is begun.
pub read_done-poll :
    (t : TerminalType) (c : Client) (st : Stream) (p : Poll)
    → c.run ≡ true
    → c.msg_hdl ≡ true
    → c.st ≡ some st
    → p.next ≡ got_event ClientEvent.read_done true
    → (c' : Client) × (calls : List Callback) × (poll t c p
        ≡ some (c', calls ++ on_message p.push_data ∷ []))
      × All IsNotify calls
unfolding on_next on_event process_event process send_all_msgs
read_done-poll t c st p r hdl e n =
    let (k, calls, polled, notes) =
      on_next-poll t c p st (got_event ClientEvent.read_done true) r e n in
    let c1 : Client = record (with_state c k) { event_ok = true } in
    let (c', after) = process_event c1 st p ClientEvent.read_done true in
    let told : after ≡ on_message p.push_data ∷ [] = elim (Bool-cases (is_ready_to_send st)) [
      | inl ready ↦ rw (ready, hdl) refl
      | inr busy ↦ rw (busy, hdl) refl
    ] in
    (c', calls, polled ∙ ap (λ l. some (c', calls ++ l)) told, notes)
