-- ===== src/Client/Flush.antt =====
-- What the client's thread is handed goes out, as gRPC reports one write after the other.
use grpc_push_sdk.Client.{Client, Poll, Callback, timeout, got_event, poll, enqueue}
use grpc_push_sdk.Common.{
  ℕ, suc, ◌≡◌, refl, sym, ap, subst, ◌∙◌, true, List, [], ◌∷◌, ◌++◌, some, arith, append-nil,
  append_assoc, All, map, length, length-append,
}
use grpc_push_sdk.Packet.{PushRegReq}
use grpc_push_sdk.Stream.{RwCall, write, write_next}
use grpc_push_sdk.Types.{ClientEvent, TerminalType}
use grpc_push_sdk.Client.Round.{
  busy, idle, IsNotify, IsQuiet, Handed, write_done-poll, timeout-poll,
}

-- Rounds that call nothing but the listener of the channel's state.
pub data Rounds (t : TerminalType) : Client → List Poll → Client → Type 0 where
  no_rounds : {c : Client} → Rounds t c [] c
  round :
      {c c' : Client} {p : Poll} {ps : List Poll} (c1 : Client) (calls : List Callback)
      → poll t c p ≡ some (c1, calls)
      → All IsNotify calls
      → Rounds t c1 ps c'
      → Rounds t c (p ∷ ps) c'

-- A round in which gRPC reports that the write under way is done.
abbrev pub IsWriteDone : ℕ → Poll → Type 0
IsWriteDone last p = (p.next ≡ got_event ClientEvent.write_done true) × IsQuiet last p

-- As many reports as there are requests, with the one under way: all are written, in their order.
busy-polls :
    (t : TerminalType) (w : List PushRegReq) (ps : List Poll) (c : Client)
    (m : List (List ℕ × List ℕ)) (q : List PushRegReq) (l : List RwCall)
    → c.run ≡ true
    → c.st ≡ some (busy m q l)
    → q ++ c.msg_queue ≡ w
    → All (IsWriteDone c.last_heartbeat_ts) ps
    → length ps ≡ suc (length w)
    → (c' : Client) × Rounds t c ps c' × Handed c (idle m (l ++ map write w)) c'
unfolding write_next
busy-polls t w [] c m q l r e waiting all n = absurd (omega (arith, n))
busy-polls t [] (p ∷ p2 ∷ ps) c m q l r e waiting all n = absurd (omega (arith, n))
busy-polls t [] (p ∷ []) c m q l r e waiting all n =
    let (c1, calls, polled, notes, (run1, queue1, last1, st1, hdl1)) =
      write_done-poll t c p m q l r e all.0.1 all.0.0 in
    (
      c1,
      round c1 calls polled notes no_rounds,
      (
        run1,
        queue1,
        last1,
        st1
            ∙ ap (λ v. some (write_next (busy m v l) v)) waiting
            ∙ ap (λ v. some (idle m v)) (sym (append-nil l)),
        hdl1,
      ),
    )
busy-polls t (x ∷ w) (p ∷ ps) c m q l r e waiting all n =
    let (c1, calls, polled, notes, (run1, queue1, last1, st1, hdl1)) =
      write_done-poll t c p m q l r e all.0.1 all.0.0 in
    let st2 : c1.st ≡ some (busy m w (l ++ write x ∷ [])) =
      st1 ∙ ap (λ v. some (write_next (busy m v l) v)) waiting in
    let (c2, ran, (run2, queue2, last2, end, hdl2)) =
      busy-polls t w ps c1 m w (l ++ write x ∷ []) run1 st2 (ap (λ v. w ++ v) queue1 ∙ append-nil w)
        (subst (λ k. All (IsWriteDone k) ps) (sym last1) all.1) (omega (arith, n)) in
    (
      c2,
      round c1 calls polled notes ran,
      (
        run2,
        queue2,
        last2 ∙ last1,
        end ∙ ap (λ v. some (idle m v)) (append_assoc l (write x ∷ []) (map write w)),
        hdl2 ∙ hdl1,
      ),
    )

queue_split :
    (q : List PushRegReq) (req : PushRegReq)
    → (x : PushRegReq) × (w : List PushRegReq) × (q ++ req ∷ [] ≡ x ∷ w) × (length w ≡ length q)
queue_split [] req = (req, [], refl, refl)
queue_split (y ∷ q) req = (y, q ++ req ∷ [], refl, omega (arith, length-append q (req ∷ [])))

-- A request that is sent while the connection is free goes out with all that were queued before.
pub enqueue-Rounds :
    (t : TerminalType) (c : Client) (req : PushRegReq) (p : Poll) (ps : List Poll)
    (m : List (List ℕ × List ℕ)) (l : List RwCall)
    → c.run ≡ true
    → c.event_ok ≡ true
    → c.st ≡ some (idle m l)
    → IsQuiet c.last_heartbeat_ts p
    → p.next ≡ timeout
    → All (IsWriteDone c.last_heartbeat_ts) ps
    → length ps ≡ suc (length c.msg_queue)
    → (c' : Client) × Rounds t (enqueue c req) (p ∷ ps) c'
      × (c'.msg_queue ≡ [])
      × (c'.st ≡ some (idle m (l ++ map write (c.msg_queue ++ req ∷ []))))
      × (c'.run ≡ true)
      × (c'.msg_hdl ≡ c.msg_hdl)
unfolding enqueue
enqueue-Rounds t c req p ps m l r ok e quiet n all k =
    let (x, w, split, long) = queue_split c.msg_queue req in
    let (c1, calls, polled, notes, (run1, queue1, last1, st1, hdl1)) =
      timeout-poll t (enqueue c req) p m l x w r ok e split quiet n in
    let (c2, ran, (run2, queue2, last2, st2, hdl2)) =
      busy-polls t w ps c1 m w (l ++ write x ∷ []) run1 st1 (ap (λ v. w ++ v) queue1 ∙ append-nil w)
        (subst (λ k. All (IsWriteDone k) ps) (sym last1) all) (omega (arith, k, long)) in
    (
      c2,
      round c1 calls polled notes ran,
      queue2,
      st2
          ∙ ap (λ v. some (idle m v)) (append_assoc l (write x ∷ []) (map write w))
          ∙ ap (λ v. some (idle m (l ++ map write v))) (sym split),
      run2,
      hdl2 ∙ hdl1,
    )
