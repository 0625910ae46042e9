-- ===== src/Client/Healthy.antt =====
-- Rounds of the client's thread in which gRPC reports neither a failure nor an end.
use grpc_push_sdk.Client.{
  Client, Poll, Callback, NextStatus, got_event, poll, send_all_msgs,
  check_and_notify_channel_state, on_next, on_event, on_timeout, process_event, stream_of,
  Connectivity, ping_request,
}
use grpc_push_sdk.Common.{
  ℕ, ◌≡◌, refl, inl, inr, Bool, true, false, not, ◌&&◌, List, [], ◌∷◌, ◌++◌, Option, some, arith,
  Bool-cases, if◌then◌else◌, subst, leb, ◌-◌, ◌∙◌,
}
use grpc_push_sdk.Config.{heart_beat_interval}
use grpc_push_sdk.Packet.{PushRegReq}
use grpc_push_sdk.Stream.{
  Stream, RwCall, read, write, writes_done, finish, start_write, write_next, send, send_msgs,
  process, is_ready_to_send, is_connected,
}
use grpc_push_sdk.Types.{ClientEvent, TerminalType}

-- A round in which gRPC reports no failure and no end: the connection, a message, a write done, or
-- nothing.
abbrev pub IsHealthy : NextStatus → Type 0
IsHealthy NextStatus.timeout = Unit {0}
IsHealthy (got_event ClientEvent.connected ok) = ok ≡ true
IsHealthy (got_event ClientEvent.read_done ok) = ok ≡ true
IsHealthy (got_event ClientEvent.write_done ok) = ok ≡ true
IsHealthy _ = ⊥

-- Neither WritesDone nor Finish was called.
abbrev pub IsOpen : List RwCall → Type 0
IsOpen [] = Unit {0}
IsOpen (read ∷ l) = IsOpen l
IsOpen (write r ∷ l) = IsOpen l
IsOpen (writes_done ∷ l) = ⊥
IsOpen (finish ∷ l) = ⊥

IsOpen-read : (l : List RwCall) → IsOpen l → IsOpen (l ++ read ∷ [])
IsOpen-read [] o = tt
IsOpen-read (read ∷ l) o = IsOpen-read l o
IsOpen-read (write r ∷ l) o = IsOpen-read l o
IsOpen-read (writes_done ∷ l) o = absurd o
IsOpen-read (finish ∷ l) o = absurd o

IsOpen-write : (l : List RwCall) (r : PushRegReq) → IsOpen l → IsOpen (l ++ write r ∷ [])
IsOpen-write [] r o = tt
IsOpen-write (read ∷ l) r o = IsOpen-write l r o
IsOpen-write (write q ∷ l) r o = IsOpen-write l r o
IsOpen-write (writes_done ∷ l) r o = absurd o
IsOpen-write (finish ∷ l) r o = absurd o

-- The thread runs, and its stream is open.
pub record IsRunning (c : Client) : Type 0 where
  pub runs : c.run ≡ true
  pub stream : Stream
  pub has_stream : c.st ≡ some stream
  pub open_stream : IsOpen stream.rw
  pub last_ok : c.event_ok ≡ true

-- A stream stays open through what the loop does with it.
start_write-IsOpen :
    (st : Stream) (q : List PushRegReq) → IsOpen st.rw → IsOpen (start_write st q).rw
unfolding start_write
start_write-IsOpen st [] o = o
start_write-IsOpen st (r ∷ rest) o = ground (arith, IsOpen-write st.rw r o)

write_next-IsOpen : (st : Stream) (q : List PushRegReq) → IsOpen st.rw → IsOpen (write_next st q).rw
unfolding write_next
write_next-IsOpen st [] o = o
write_next-IsOpen st (r ∷ rest) o = IsOpen-write st.rw r o

process-IsOpen :
    (st : Stream) (event : ClientEvent) (ok : Bool)
    → IsOpen st.rw
    → IsOpen (process st event ok).0.rw
unfolding process
process-IsOpen st ClientEvent.connected true o = IsOpen-read st.rw o
process-IsOpen st ClientEvent.connected false o = IsOpen-read st.rw o
process-IsOpen st ClientEvent.read_done ok o = IsOpen-read st.rw o
process-IsOpen st ClientEvent.write_done ok o = write_next-IsOpen st st.pending o
process-IsOpen st ClientEvent.half_close ok o = o
process-IsOpen st ClientEvent.finished ok o = o

send-IsOpen : (st : Stream) (req : PushRegReq) → IsOpen st.rw → IsOpen (send st req).rw
unfolding send
send-IsOpen st req o = start_write-IsOpen (record st { pending = st.pending ++ req ∷ [] }) _ o

send_msgs-IsOpen : (st : Stream) (l : List PushRegReq) → IsOpen st.rw → IsOpen (send_msgs st l).rw
unfolding send_msgs
send_msgs-IsOpen st l o = start_write-IsOpen (record st { pending = st.pending ++ l }) _ o

send_all_msgs-IsRunning :
    (c : Client) (st : Stream) (now : ℕ)
    → c.run ≡ true
    → c.event_ok ≡ true
    → IsOpen st.rw
    → IsRunning (send_all_msgs c st now)
unfolding send_all_msgs
send_all_msgs-IsRunning c st now r k o =
    let due = leb heart_beat_interval (now - c.last_heartbeat_ts) in
    let st' = if due then send st ping_request else st in
    record {
      runs = r;
      stream = send_msgs st' c.msg_queue;
      has_stream = refl;
      open_stream = send_msgs-IsOpen st' c.msg_queue (elim (Bool-cases due) [
        | inl yes' ↦ rw yes' (send-IsOpen st ping_request o)
        | inr no' ↦ rw no' o
      ]);
      last_ok = k;
    }

first_of_some :
    {A B : Type 0} (x y : A) (u v : B)
    → ◌≡◌ {A = Option (A × B)} (some (x, u)) (some (y, v))
    → x ≡ y
first_of_some x y u v e = ground arith

on_timeout-IsRunning :
    (c : Client) (st : Stream) (p : Poll)
    → c.run ≡ true
    → c.event_ok ≡ true
    → c.st ≡ some st
    → IsOpen st.rw
    → IsRunning (on_timeout c st p)
unfolding on_timeout
on_timeout-IsRunning c st p r k e o = elim (Bool-cases (is_ready_to_send st)) [
  | inl ready ↦
      let whole : (not c.event_ok && is_connected st) ≡ false = ground (arith, k) in
      rw (whole, ready) (send_all_msgs-IsRunning c st p.now r k o)
  | inr busy ↦
      let whole : (not c.event_ok && is_connected st) ≡ false = ground (arith, k) in
      rw (whole, busy)
        (record { runs = r; stream = st; has_stream = e; open_stream = o; last_ok = k })
]

with_processed :
    (c : Client) (st : Stream) (event : ClientEvent) (ok : Bool)
    → IsRunning c
    → IsRunning (record c { st = some (process (stream_of c st) event ok).0 })
with_processed c st event ok v = record {
  runs = v.runs;
  stream = (process (stream_of c st) event ok).0;
  has_stream = refl;
  open_stream = process-IsOpen (stream_of c st) event ok (rw v.has_stream v.open_stream);
  last_ok = v.last_ok;
}

process_event-IsRunning :
    (c : Client) (st : Stream) (p : Poll) (event : ClientEvent) (ok : Bool)
    → c.run ≡ true
    → c.event_ok ≡ true
    → c.st ≡ some st
    → IsOpen st.rw
    → IsRunning (process_event c st p event ok).0
unfolding process_event
process_event-IsRunning c st p event ok r k e o = elim (Bool-cases (ok && is_ready_to_send st)) [
  | inl ready ↦ rw ready (
      with_processed (send_all_msgs c st p.now) st event ok
        (send_all_msgs-IsRunning c st p.now r k o))
  | inr busy ↦ rw busy (
      with_processed c st event ok
        (record { runs = r; stream = st; has_stream = e; open_stream = o; last_ok = k }))
]

on_next-IsRunning :
    (t : TerminalType) (c : Client) (calls : List Callback) (st : Stream) (p : Poll)
    (n : NextStatus) (c' : Client) (calls' : List Callback)
    → IsHealthy n
    → c.run ≡ true
    → c.event_ok ≡ true
    → c.st ≡ some st
    → IsOpen st.rw
    → on_next t (c, calls) st p n ≡ some (c', calls')
    → IsRunning c'
unfolding on_next on_event
on_next-IsRunning t c calls st p NextStatus.timeout c' calls' g r k e o h =
    subst IsRunning (first_of_some _ _ _ _ h) (on_timeout-IsRunning c st p r k e o)
on_next-IsRunning t c calls st p (got_event ClientEvent.connected true) c' calls' g r k e o h =
    subst IsRunning (first_of_some _ _ _ _ h) (
      process_event-IsRunning (record c { event_ok = true }) st p ClientEvent.connected true r refl
        e o)
on_next-IsRunning t c calls st p (got_event ClientEvent.read_done true) c' calls' g r k e o h =
    subst IsRunning (first_of_some _ _ _ _ h) (
      process_event-IsRunning (record c { event_ok = true }) st p ClientEvent.read_done true r refl
        e o)
on_next-IsRunning t c calls st p (got_event ClientEvent.write_done true) c' calls' g r k e o h =
    subst IsRunning (first_of_some _ _ _ _ h) (
      process_event-IsRunning (record c { event_ok = true }) st p ClientEvent.write_done true r refl
        e o)
on_next-IsRunning t c calls st p (got_event ClientEvent.connected false) c' calls' g r k e o h = cc
on_next-IsRunning t c calls st p (got_event ClientEvent.read_done false) c' calls' g r k e o h = cc
on_next-IsRunning t c calls st p (got_event ClientEvent.write_done false) c' calls' g r k e o h = cc
on_next-IsRunning t c calls st p (got_event ClientEvent.half_close ok) c' calls' g r k e o h =
    absurd g
on_next-IsRunning t c calls st p (got_event ClientEvent.finished ok) c' calls' g r k e o h =
    absurd g
on_next-IsRunning t c calls st p NextStatus.shutdown c' calls' g r k e o h = absurd g

notify_frame :
    (c : Client) (k : Connectivity)
    → ((check_and_notify_channel_state c k).0.st ≡ c.st)
      × ((check_and_notify_channel_state c k).0.run ≡ c.run)
      × ((check_and_notify_channel_state c k).0.event_ok ≡ c.event_ok)
unfolding check_and_notify_channel_state
notify_frame c k = ground arith

pub poll-IsRunning :
    (t : TerminalType) (c c' : Client) (p : Poll) (calls : List Callback)
    → IsHealthy p.next
    → IsRunning c
    → poll t c p ≡ some (c', calls)
    → IsRunning c'
unfolding poll
poll-IsRunning t c c' p calls g v h =
    let (n1, calls1) = check_and_notify_channel_state c p.state in
    let (same_st, same_run, same_ok) = notify_frame c p.state in
    on_next-IsRunning t n1 calls1 v.stream p p.next c' calls g (same_run ∙ v.runs)
      (same_ok ∙ v.last_ok) (same_st ∙ v.has_stream) v.open_stream
      (ground (arith, h, v.runs, v.has_stream))
