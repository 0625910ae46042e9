-- ===== src/Stream/Writes.antt =====
-- At most one write is under way, as gRPC demands, as long as the stream is not being closed.
use grpc_push_sdk.Common.{
  ℕ, suc, ◌≤◌, ◌<◌, ◌≡◌, refl, ◌⊎◌, Bool, true, List, [], ◌∷◌, ◌++◌, arith, ap, ◌∙◌, append-nil,
  length, length-append,
}
use grpc_push_sdk.Packet.{PushRegReq}
use grpc_push_sdk.Stream.{
  Stream, RwCall, start_write, write_next, read, write, init, process, send, send_msgs,
  is_ready_to_send,
}
use grpc_push_sdk.Stream.Order.{written, written-append}
use grpc_push_sdk.Types.{ClientEvent, StreamStatus}

-- A stream with the number of its writes that gRPC has reported as done.
pub record Traffic : Type 0 where
  pub stream : Stream
  pub completed : ℕ

abbrev pub issued : Traffic → ℕ
issued t = length (written t.stream.rw)

abbrev IsWaiting : StreamStatus → Type 0
IsWaiting s = s ≡ StreamStatus.wait_connect

-- gRPC reports the connection once, and a write that it was given; the client sends on a stream
-- that is ready to send.
pub data Step (t : Traffic) : Traffic → Type 0 where
  connects :
      (ok : Bool)
      → IsWaiting t.stream.status
      → Step t (record t { stream = (process t.stream ClientEvent.connected ok).0 })
  reads : (ok : Bool) → Step t (record t { stream = (process t.stream ClientEvent.read_done ok).0 })
  completes :
      (ok : Bool)
      → t.completed < issued t
      → Step t (record {
        stream = (process t.stream ClientEvent.write_done ok).0;
        completed = suc t.completed;
      })
  sends :
      (req : PushRegReq)
      → is_ready_to_send t.stream ≡ true
      → Step t (record t { stream = send t.stream req })
  sends_msgs :
      (msgs : List PushRegReq)
      → is_ready_to_send t.stream ≡ true
      → Step t (record t { stream = send_msgs t.stream msgs })

pub data Reach (s : Traffic) : Traffic → Type 0 where
  here : Reach s s
  next : {t u : Traffic} → Reach s t → Step t u → Reach s u

-- What each status says of the writes and of the queue.
abbrev pub Matches : StreamStatus → List PushRegReq → ℕ → ℕ → Type 0
Matches StreamStatus.wait_connect q n done = (n ≡ done) × (q ≡ [])
Matches StreamStatus.ready_to_write q n done = (n ≡ done) × (q ≡ [])
Matches StreamStatus.wait_write_done q n done = n ≡ suc done
Matches _ q n done = ⊥

abbrev pub IsOrderly : Traffic → Type 0
IsOrderly t = Matches t.stream.status t.stream.pending (issued t) t.completed

count_write :
    (l : List RwCall) (r : PushRegReq)
    → length (written (l ++ write r ∷ [])) ≡ suc (length (written l))
unfolding written
count_write l r =
    omega (arith, ap length (written-append l (write r ∷ [])), length-append (written l) (r ∷ []))

count_read : (l : List RwCall) → length (written (l ++ read ∷ [])) ≡ length (written l)
unfolding written
count_read l = ap length (written-append l (read ∷ []) ∙ append-nil (written l))

write_next-orderly :
    (st : Stream) (done : ℕ) (q : List PushRegReq)
    → st.pending ≡ q
    → done < length (written st.rw)
    → Matches st.status st.pending (length (written st.rw)) done
    → let st' = write_next st q in
      Matches st'.status st'.pending (length (written st'.rw)) (suc done)
unfolding write_next
write_next-orderly st done [] e h m = ground arith
write_next-orderly st done (r ∷ rest) e h m = ground (arith, count_write st.rw r)

start_write-orderly :
    (st : Stream) (done : ℕ) (q : List PushRegReq)
    → st.pending ≡ q
    → is_ready_to_send st ≡ true
    → (st.status ≡ StreamStatus.ready_to_write → length (written st.rw) ≡ done)
    → (st.status ≡ StreamStatus.wait_write_done → length (written st.rw) ≡ suc done)
    → let st' = start_write st q in Matches st'.status st'.pending (length (written st'.rw)) done
unfolding start_write is_ready_to_send
start_write-orderly st done [] e h i j = ground arith
start_write-orderly st done (r ∷ rest) e h i j = ground (arith, count_write st.rw r)

ready_count :
    (st : Stream) (done : ℕ)
    → st.status ≡ StreamStatus.ready_to_write
    → Matches st.status st.pending (length (written st.rw)) done
    → length (written st.rw) ≡ done
ready_count st done e m = ground arith

busy_count :
    (st : Stream) (done : ℕ)
    → st.status ≡ StreamStatus.wait_write_done
    → Matches st.status st.pending (length (written st.rw)) done
    → length (written st.rw) ≡ suc done
busy_count st done e m = ground arith

bounds :
    (st : Stream) (done : ℕ)
    → Matches st.status st.pending (length (written st.rw)) done
    → (done ≤ length (written st.rw))
      × (length (written st.rw) ≤ suc done)
      × ((st.pending ≡ []) ⊎ (length (written st.rw) ≡ suc done))
bounds st done m = ground arith

Step-IsOrderly : {t u : Traffic} → Step t u → IsOrderly t → IsOrderly u
unfolding process send send_msgs is_ready_to_send
Step-IsOrderly {t} (connects ok wait) o = ground (arith, count_read t.stream.rw)
Step-IsOrderly {t} (reads ok) o = ground (arith, count_read t.stream.rw)
Step-IsOrderly {t} (completes ok h) o =
    write_next-orderly t.stream t.completed t.stream.pending refl h o
Step-IsOrderly {t} (sends req h) o =
    let q = t.stream.pending ++ req ∷ [] in
    start_write-orderly (record t.stream { pending = q }) t.completed q refl h
      (λ e. ready_count t.stream t.completed e o) (λ e. busy_count t.stream t.completed e o)
Step-IsOrderly {t} (sends_msgs msgs h) o =
    let q = t.stream.pending ++ msgs in
    start_write-orderly (record t.stream { pending = q }) t.completed q refl h
      (λ e. ready_count t.stream t.completed e o) (λ e. busy_count t.stream t.completed e o)

Reach-IsOrderly : {s t : Traffic} → IsOrderly s → Reach s t → IsOrderly t
Reach-IsOrderly o here = o
Reach-IsOrderly o (next r st) = Step-IsOrderly st (Reach-IsOrderly o r)

abbrev pub new_traffic : ℕ → ℕ → Traffic
new_traffic suid uid = record { stream = init suid uid; completed = 0 }

-- On every stream that is not being closed, at most one write is under way, and a request waits in
-- the queue only while one is: no two writes overlap, and none is forgotten.
pub at_most_one_write :
    (suid uid : ℕ) (t : Traffic)
    → Reach (new_traffic suid uid) t
    → (t.completed ≤ issued t)
      × (issued t ≤ suc t.completed)
      × ((t.stream.pending ≡ []) ⊎ (issued t ≡ suc t.completed))
at_most_one_write suid uid t r = bounds t.stream t.completed (Reach-IsOrderly start r)
  where
    start : IsOrderly (new_traffic suid uid)
    start = unfold init written in (refl, refl)
