-- ===== src/Stream/Order.antt =====
-- The requests that a stream has written and those in its queue, and what each operation does to them.
use grpc_push_sdk.Common.{
  ◌≡◌, refl, sym, ◌∙◌, ap, Bool, true, false, inl, inr, Bool-cases, List, [], ◌∷◌, ◌++◌, arith,
  append-nil, append_assoc,
}
use grpc_push_sdk.Packet.{PushRegReq}
use grpc_push_sdk.Stream.{
  Stream, RwCall, read, write, writes_done, finish, process, send, send_msgs, half_close,
  finish_stream, start_write, write_next, is_ready_to_write,
}
use grpc_push_sdk.Types.{ClientEvent}

-- The requests among the calls on `rw_`.
unfoldable pub written : List RwCall → List PushRegReq
written [] = []
written (read ∷ l) = written l
written (write r ∷ l) = r ∷ written l
written (writes_done ∷ l) = written l
written (finish ∷ l) = written l

pub written-append : (l m : List RwCall) → written (l ++ m) ≡ written l ++ written m
unfolding written
written-append [] m = refl
written-append (read ∷ l) m = written-append l m
written-append (write r ∷ l) m = ap (◌∷◌ r) (written-append l m)
written-append (writes_done ∷ l) m = written-append l m
written-append (finish ∷ l) m = written-append l m

-- Written requests, and those still to be written.
unfoldable pub accepted : Stream → List PushRegReq
accepted st = written st.rw ++ st.pending

-- A write of the head of the queue moves it over.
shift :
    (l : List RwCall) (r : PushRegReq) (rest : List PushRegReq)
    → written (l ++ write r ∷ []) ++ rest ≡ written l ++ r ∷ rest
unfolding written
shift l r rest = rw (written-append l (write r ∷ [])) (append_assoc (written l) (r ∷ []) rest)

quiet :
    (l : List RwCall) (c : RwCall) (rest : List PushRegReq)
    → written (c ∷ []) ≡ []
    → written (l ++ c ∷ []) ++ rest ≡ written l ++ rest
quiet l c rest e = rw (written-append l (c ∷ []), e, append-nil)

accepted-start_write :
    (st : Stream) (q : List PushRegReq)
    → st.pending ≡ q
    → accepted (start_write st q) ≡ written st.rw ++ q
unfolding accepted start_write
accepted-start_write st [] e = rw e
accepted-start_write st (r ∷ rest) e = elim (Bool-cases (is_ready_to_write st.status)) [
  | inl free ↦ rw free (shift st.rw r rest)
  | inr busy ↦ rw (busy, e)
]

pub accepted-send_msgs :
    (st : Stream) (msgs : List PushRegReq) → accepted (send_msgs st msgs) ≡ accepted st ++ msgs
unfolding send_msgs accepted
accepted-send_msgs st msgs =
    accepted-start_write (record st { pending = st.pending ++ msgs }) (st.pending ++ msgs) refl
    ∙ sym (append_assoc (written st.rw) st.pending msgs)

pub accepted-send :
    (st : Stream) (req : PushRegReq) → accepted (send st req) ≡ accepted st ++ req ∷ []
unfolding send accepted
accepted-send st req =
    accepted-start_write (record st { pending = st.pending ++ req ∷ [] }) (st.pending ++ req ∷ [])
      refl
    ∙ sym (append_assoc (written st.rw) st.pending (req ∷ []))

accepted-write_next :
    (st : Stream) (q : List PushRegReq)
    → st.pending ≡ q
    → accepted (write_next st q) ≡ written st.rw ++ q
unfolding accepted write_next
accepted-write_next st [] e = rw e
accepted-write_next st (r ∷ rest) e = shift st.rw r rest

pub accepted-process :
    (st : Stream) (event : ClientEvent) (ok : Bool) → accepted (process st event ok).0 ≡ accepted st
unfolding accepted process
accepted-process st ClientEvent.connected true =
    quiet st.rw read st.pending (unfold written in refl)
accepted-process st ClientEvent.connected false =
    quiet st.rw read st.pending (unfold written in refl)
accepted-process st ClientEvent.read_done ok = quiet st.rw read st.pending (unfold written in refl)
accepted-process st ClientEvent.write_done ok = accepted-write_next st st.pending refl
accepted-process st ClientEvent.half_close ok = refl
accepted-process st ClientEvent.finished ok = refl

pub accepted-half_close : (st : Stream) → accepted (half_close st) ≡ accepted st
unfolding half_close accepted
accepted-half_close st = ground (arith, quiet st.rw writes_done st.pending (unfold written in refl))

pub accepted-finish_stream : (st : Stream) → accepted (finish_stream st) ≡ accepted st
unfolding finish_stream accepted
accepted-finish_stream st = ground (arith, quiet st.rw finish st.pending (unfold written in refl))
