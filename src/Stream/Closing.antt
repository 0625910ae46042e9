-- ===== src/Stream/Closing.antt =====
-- Stream::Process on a stream that is being closed.
use grpc_push_sdk.Common.{◌≡◌, refl, true, List, [], ◌∷◌, ◌++◌, arith, append_assoc, Bool}
use grpc_push_sdk.Packet.{PushRegReq}
use grpc_push_sdk.Stream.{
  Stream, write, writes_done, write_front, write_next, process, half_close, is_ready_to_send,
}
use grpc_push_sdk.Types.{ClientEvent, StreamStatus}

close_waiting :
    (st : Stream)
    → st.status ≡ StreamStatus.wait_write_done
    → half_close st ≡ record st { rw = st.rw ++ writes_done ∷ []; status = StreamStatus.half_close }
unfolding half_close
close_waiting st w = ground arith

write_queued :
    (st : Stream) (r : PushRegReq) (rest : List PushRegReq) (ok : Bool)
    → st.pending ≡ r ∷ rest
    → (process st ClientEvent.write_done ok).0 ≡ write_front st r rest
unfolding process write_next
write_queued st r rest ok q = ground arith

-- A stream that is half-closed while a write is under way and a request waits: the report of that
-- write makes it write the request after WritesDone, and it is then ready to be sent on again.
pub half_close-process :
    (st : Stream) (r : PushRegReq) (rest : List PushRegReq) (ok : Bool)
    → st.status ≡ StreamStatus.wait_write_done
    → st.pending ≡ r ∷ rest
    → let st' = (process (half_close st) ClientEvent.write_done ok).0 in
      (st'.rw ≡ st.rw ++ writes_done ∷ write r ∷ []) × (is_ready_to_send st' ≡ true)
unfolding is_ready_to_send
half_close-process st r rest ok w q =
    rw
      (
        close_waiting st w,
        write_queued
            (record st { rw = st.rw ++ writes_done ∷ []; status = StreamStatus.half_close }) r rest
            ok q,
      )
      (append_assoc st.rw (writes_done ∷ []) (write r ∷ []), refl)
