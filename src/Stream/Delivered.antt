-- ===== src/Stream/Delivered.antt =====
-- What a stream that is not being closed has written once gRPC has reported its writes as done.
use grpc_push_sdk.Common.{
  ℕ, ◌≡◌, sym, ap, ◌∙◌, List, [], ◌∷◌, ◌++◌, arith, append-nil, append_assoc,
}
use grpc_push_sdk.Packet.{PushRegReq}
use grpc_push_sdk.Stream.{init}
use grpc_push_sdk.Stream.Order.{
  written, accepted, accepted-send, accepted-send_msgs, accepted-process,
}
use grpc_push_sdk.Stream.Writes.{
  Traffic, Step, Reach, connects, reads, completes, sends, sends_msgs, here, next, issued,
  new_traffic, at_most_one_write,
}
use grpc_push_sdk.Types.{ClientEvent}

-- The requests of one step, and of a run.
unfoldable pub given_by : {t u : Traffic} → Step t u → List PushRegReq
given_by (connects ok h) = []
given_by (reads ok) = []
given_by (completes ok h) = []
given_by (sends req h) = req ∷ []
given_by (sends_msgs msgs h) = msgs

unfoldable pub given : {s t : Traffic} → Reach s t → List PushRegReq
given here = []
given (next r st) = given r ++ given_by st

Step-accepted :
    {t u : Traffic} (st : Step t u) → accepted u.stream ≡ accepted t.stream ++ given_by st
unfolding given_by
Step-accepted {t} (connects ok h) =
    rw append-nil (accepted-process t.stream ClientEvent.connected ok)
Step-accepted {t} (reads ok) = rw append-nil (accepted-process t.stream ClientEvent.read_done ok)
Step-accepted {t} (completes ok h) =
    rw append-nil (accepted-process t.stream ClientEvent.write_done ok)
Step-accepted {t} (sends req h) = accepted-send t.stream req
Step-accepted {t} (sends_msgs msgs h) = accepted-send_msgs t.stream msgs

Reach-accepted : {s t : Traffic} (r : Reach s t) → accepted t.stream ≡ accepted s.stream ++ given r
unfolding given
Reach-accepted here = rw append-nil
Reach-accepted {s} (next r st) =
    Step-accepted st
    ∙ ap (λ l. l ++ given_by st) (Reach-accepted r)
    ∙ append_assoc (accepted s.stream) (given r) (given_by st)

Reach-split :
    (suid uid : ℕ) (t : Traffic) (r : Reach (new_traffic suid uid) t)
    → written t.stream.rw ++ t.stream.pending ≡ given r
unfolding accepted init written
Reach-split suid uid t r = Reach-accepted r

-- A stream that is not being closed, whose writes gRPC has all reported as done, has written exactly
-- the requests that it was given, each once and in the order given, and none is left in its queue.
pub written-given :
    (suid uid : ℕ) (t : Traffic) (r : Reach (new_traffic suid uid) t)
    → t.completed ≡ issued t
    → (written t.stream.rw ≡ given r) × (t.stream.pending ≡ [])
written-given suid uid t r done =
    let (few, most, free) = at_most_one_write suid uid t r in
    let empty : t.stream.pending ≡ [] = ground (arith, free) in
    (
      sym (append-nil (written t.stream.rw))
          ∙ sym (ap (λ q. written t.stream.rw ++ q) empty)
          ∙ Reach-split suid uid t r,
      empty,
    )
