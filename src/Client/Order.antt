-- ===== src/Client/Order.antt =====
-- From the queue of the client to the stream: no request is lost, doubled or overtaken in a round.
use grpc_push_sdk.Client.{
  Client, Poll, Callback, NextStatus, got_event, poll, send_all_msgs,
  check_and_notify_channel_state, ping_request, stream_of, stream_from, on_timeout, process_event,
  on_event, on_next, Connectivity,
}
use grpc_push_sdk.Common.{
  ℕ, ◌≡◌, refl, sym, ap, subst, ◌∙◌, not, ◌&&◌, Bool, true, false, List, [], ◌∷◌, ◌++◌, Option,
  some, inl, inr, arith, append-nil, Bool-cases, leb, ◌-◌, if◌then◌else◌,
}
use grpc_push_sdk.Config.{heart_beat_interval}
use grpc_push_sdk.Packet.{PushRegReq}
use grpc_push_sdk.Stream.{
  Stream, send, send_msgs, process, is_ready_to_send, is_connected, finish_stream,
}
use grpc_push_sdk.Stream.Order.{
  accepted, accepted-send, accepted-send_msgs, accepted-process, accepted-finish_stream,
}
use grpc_push_sdk.Types.{ClientEvent, StreamUri, TerminalType}

abbrev is_ping : PushRegReq → Bool
is_ping r = elim r.uri [ StreamUri.ping ↦ true | _ ↦ false ]

-- The requests other than heartbeats.
unfoldable pub proper : List PushRegReq → List PushRegReq
proper [] = []
proper (r ∷ l) = elim (is_ping r) [ true ↦ proper l | false ↦ r ∷ proper l ]

proper-append : (l m : List PushRegReq) → proper (l ++ m) ≡ proper l ++ proper m
unfolding proper
proper-append [] m = refl
proper-append (r ∷ l) m = ground (arith, proper-append l m)

-- The requests that the stream has written or holds, then those of the client's queue.
unfoldable pub outbound : Stream → Client → List PushRegReq
outbound st c = proper (accepted st) ++ proper c.msg_queue

-- The stream after `send_all_msgs`.
abbrev pub sent : Client → Stream → ℕ → Stream
sent c st now =
    send_msgs
      (if leb heart_beat_interval (now - c.last_heartbeat_ts) then send st ping_request else st)
      c.msg_queue

send_all_msgs_frame :
    (c : Client) (st : Stream) (now : ℕ)
    → ((send_all_msgs c st now).st ≡ some (sent c st now))
      × ((send_all_msgs c st now).msg_queue ≡ [])
unfolding send_all_msgs
send_all_msgs_frame c st now = (refl, refl)

proper-ping : (st : Stream) → proper (accepted (send st ping_request)) ≡ proper (accepted st)
unfolding proper
proper-ping st =
    ap proper (accepted-send st ping_request)
    ∙ proper-append (accepted st) (ping_request ∷ [])
    ∙ append-nil (proper (accepted st))

accepted-sent :
    (c : Client) (st : Stream) (now : ℕ)
    → proper (accepted (sent c st now)) ≡ proper (accepted st) ++ proper c.msg_queue
accepted-sent c st now = elim (Bool-cases (leb heart_beat_interval (now - c.last_heartbeat_ts))) [
  | inl due ↦ rw due (
      ap proper (accepted-send_msgs (send st ping_request) c.msg_queue)
      ∙ proper-append (accepted (send st ping_request)) c.msg_queue
      ∙ ap (λ l. l ++ proper c.msg_queue) (proper-ping st))
  | inr early ↦
      rw early
        (ap proper (accepted-send_msgs st c.msg_queue) ∙ proper-append (accepted st) c.msg_queue)
]

abbrev is_finished : NextStatus → Bool
is_finished (got_event ClientEvent.finished ok) = true
is_finished _ = false

-- What a round must not change.
abbrev pub Kept : Stream → Client → Client → Type 0
Kept st c c' = (st' : Stream) × (c'.st ≡ some st') × (outbound st' c' ≡ outbound st c)

kept :
    (st st' : Stream) (c c' : Client)
    → c'.st ≡ some st'
    → c'.msg_queue ≡ c.msg_queue
    → accepted st' ≡ accepted st
    → Kept st c c'
unfolding outbound
kept st st' c c' e q a = (st', e, rw (q, a))

sent-Kept : (c : Client) (st : Stream) (now : ℕ) → Kept st c (send_all_msgs c st now)
unfolding outbound proper
sent-Kept c st now =
    let (e, q) = send_all_msgs_frame c st now in
    (
      sent c st now,
      e,
      rw (q, accepted-sent c st now) (append-nil (proper (accepted st) ++ proper c.msg_queue)),
    )

on_timeout-Kept :
    (c : Client) (st : Stream) (p : Poll) → c.st ≡ some st → Kept st c (on_timeout c st p)
unfolding on_timeout
on_timeout-Kept c st p e = elim (Bool-cases (not c.event_ok && is_connected st)) [
  | inl broken ↦ rw broken (kept st (finish_stream st) c _ refl refl (accepted-finish_stream st))
  | inr fine ↦ rw fine (elim (Bool-cases (is_ready_to_send st)) [
    | inl ready ↦ rw ready (sent-Kept c st p.now)
    | inr busy ↦ rw busy (kept st st c c e refl refl)
  ])
]

process-Kept :
    (st : Stream) (c c' : Client) (event : ClientEvent) (ok : Bool)
    → Kept st c c'
    → Kept st c (record c' { st = some (process (stream_of c' st) event ok).0 })
unfolding outbound
process-Kept st c c' event ok (st', e, o) = (
  (process (stream_of c' st) event ok).0,
  refl,
  rw (accepted-process (stream_of c' st) event ok) (
      subst (λ x. proper (accepted (stream_from x st)) ++ proper c'.msg_queue ≡ outbound st c)
        (sym e) o),
)

process_event-Kept :
    (c : Client) (st : Stream) (p : Poll) (event : ClientEvent) (ok : Bool)
    → c.st ≡ some st
    → Kept st c (process_event c st p event ok).0
unfolding process_event
process_event-Kept c st p event ok e = elim (Bool-cases (ok && is_ready_to_send st)) [
  | inl ready ↦
      rw ready (process-Kept st c (send_all_msgs c st p.now) event ok (sent-Kept c st p.now))
  | inr busy ↦ rw busy (process-Kept st c c event ok (kept st st c c e refl refl))
]

on_event-Kept :
    (t : TerminalType) (c : Client) (st : Stream) (p : Poll) (event : ClientEvent) (ok : Bool)
    → is_finished (got_event event ok) ≡ false
    → c.st ≡ some st
    → Kept st c (on_event t c st p event ok).0
unfolding on_event
on_event-Kept t c st p ClientEvent.finished ok n e = cc
on_event-Kept t c st p ClientEvent.half_close ok n e =
    kept st (finish_stream st) c _ refl refl (accepted-finish_stream st)
on_event-Kept t c st p event ok n e = elim (Bool-cases (not ok && is_connected st)) [
  | inl broken ↦ rw broken (kept st (finish_stream st) c _ refl refl (accepted-finish_stream st))
  | inr fine ↦ rw fine (process_event-Kept c st p _ ok e)
]

first_of_some :
    {A B : Type 0} (x y : A) (u v : B)
    → ◌≡◌ {A = Option (A × B)} (some (x, u)) (some (y, v))
    → x ≡ y
first_of_some x y u v e = ground arith

on_next-Kept :
    (t : TerminalType) (c : Client) (calls : List Callback) (st : Stream) (p : Poll)
    (n : NextStatus) (c' : Client) (calls' : List Callback)
    → is_finished n ≡ false
    → c.st ≡ some st
    → on_next t (c, calls) st p n ≡ some (c', calls')
    → Kept st c c'
unfolding on_next outbound
on_next-Kept t c calls st p NextStatus.timeout c' calls' n e h =
    subst (Kept st c) (first_of_some _ _ _ _ h) (on_timeout-Kept c st p e)
on_next-Kept t c calls st p (got_event event ok) c' calls' n e h =
    subst (Kept st c) (first_of_some _ _ _ _ h)
      (on_event-Kept t (record c { event_ok = ok }) st p event ok n e)
on_next-Kept t c calls st p NextStatus.shutdown c' calls' n e h = cc

notify_frame :
    (c : Client) (k : Connectivity)
    → ((check_and_notify_channel_state c k).0.st ≡ c.st)
      × ((check_and_notify_channel_state c k).0.msg_queue ≡ c.msg_queue)
unfolding check_and_notify_channel_state
notify_frame c k = ground arith

-- A round of a running client that is not told of the stream's end: the requests that the stream
-- has written or holds, followed by those in the client's queue, are the same as before, in the
-- same order, heartbeats apart.
pub poll-outbound :
    (t : TerminalType) (c c' : Client) (st : Stream) (p : Poll) (calls : List Callback)
    → c.run ≡ true
    → c.st ≡ some st
    → is_finished p.next ≡ false
    → poll t c p ≡ some (c', calls)
    → (st' : Stream) × (c'.st ≡ some st') × (outbound st' c' ≡ outbound st c)
unfolding poll outbound
poll-outbound t c c' st p calls r e n h =
    let (n1, calls1) = check_and_notify_channel_state c p.state in
    let (same_st, same_queue) = notify_frame c p.state in
    let (st', e', o) =
      on_next-Kept t n1 calls1 st p p.next c' calls n (same_st ∙ e) (ground (arith, h)) in
    (st', e', o ∙ ap (λ q. proper (accepted st) ++ proper q) same_queue)
