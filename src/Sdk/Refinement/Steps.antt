-- ===== src/Sdk/Refinement/Steps.antt =====
-- Every operation of PushSDK makes the move of the abstract session that it promises.
use grpc_push_sdk.Client.{Callback, notify_channel_state, on_connected, on_message}
use grpc_push_sdk.Common.{ℕ, ◌≡◌, refl, subst, false, List, some, arith, bytes}
use grpc_push_sdk.Int.{pos}
use grpc_push_sdk.Packet.{World}
use grpc_push_sdk.Sdk.Calls.{notify}
use grpc_push_sdk.Sdk.Handlers
use grpc_push_sdk.Sdk.Invariant.{Inv, Encodes, run-new_sdk-Inv}
use grpc_push_sdk.Sdk.Methods.{login, logout, join_group, leave_group}
use grpc_push_sdk.Sdk.Refinement.{
  view, Stays, SignsIn, SignsOut, Joins, Leaves, Made, Refines, SessionOp, logs_in, logs_out, joins,
  leaves, calls_back, expires, session_op, succeeds, EncodesJoins,
}
use grpc_push_sdk.Sdk.Refinement.Moves.{Kept, relogin-Kept, timeout-Kept, notify-Kept}
use grpc_push_sdk.Sdk.Run.{Op, run}
use grpc_push_sdk.Sdk.Session.{relogin, handle_timeout_response}
use grpc_push_sdk.Sdk.State.{PushSdk, CallContext, new_sdk}
use grpc_push_sdk.Sdk.Threads.{handle_callback, expire}
use grpc_push_sdk.Types.{CbEvent, res_etimeout}
use grpc_push_sdk.Sdk.Refinement.Methods.{
  Kept-trans, Kept-Stays, login-Made, logout-Made, join_group-Made, leave_group-Made,
}
use grpc_push_sdk.Sdk.Refinement.Messages.{on_message-Receives}

module _ (w : World) (e : Encodes w) (j : EncodesJoins w) where
  calls_back-Refines :
      (c : Callback) (s s' : PushSdk)
      → Inv s
      → handle_callback w c s ≡ some s'
      → Refines w (calls_back c) s (view s) (view s')
  unfolding handle_callback Handlers.notify_channel_state
  calls_back-Refines (notify_channel_state st) s s' v h = Kept-Stays s s' (ground (arith, h))
  calls_back-Refines on_connected s s' v h =
      let ends : relogin w false s ≡ s' = ground (arith, h) in
      subst (λ x. Stays (view s) (view x)) ends
        (Kept-Stays s (relogin w false s) (relogin-Kept w s e false))
  calls_back-Refines (on_message d) s s' v h = on_message-Receives w e j d.uri d s s' v refl h

  expire-Kept : (ts a : ℕ) (s : PushSdk) → Kept s (expire w ts a s)
  unfolding expire
  expire-Kept ts a s =
      let s1 = handle_timeout_response w (s.ctxs a) s in
      let s2 = notify a CbEvent.timeout (bytes "timeout") (pos res_etimeout) s1 in
      Kept-trans s s1 s2 (timeout-Kept w s e j (s.ctxs a))
        (notify-Kept w s1 a CbEvent.timeout (bytes "timeout") (pos res_etimeout))

  session_op-Refines :
      (op : SessionOp) (s s' : PushSdk)
      → Inv s
      → session_op w op s ≡ some s'
      → Refines w op s (view s) (view s')
  unfolding session_op
  session_op-Refines (logs_in u m) s s' v h =
      let ends : (login w u m s).0 ≡ s' = ground (arith, h) in
      subst (λ x. Made (succeeds (login w u m s).1) SignsIn (view s) (view x)) ends
        (login-Made w s v u m)
  session_op-Refines (logs_out m) s s' v h =
      let ends : (logout w m s).0 ≡ s' = ground (arith, h) in
      subst (λ x. Made (succeeds (logout w m s).1) SignsOut (view s) (view x)) ends
        (logout-Made w s v m)
  session_op-Refines (joins g m) s s' v h =
      let ends : (join_group w g m s).0 ≡ s' = ground (arith, h) in
      subst (λ x. Made (succeeds (join_group w g m s).1) (Joins g.gtype g.gid) (view s) (view x))
        ends (join_group-Made w s v g m)
  session_op-Refines (leaves g m) s s' v h =
      let ends : (leave_group w g m s).0 ≡ s' = ground (arith, h) in
      subst (λ x. Made (succeeds (leave_group w g m s).1) (Leaves g.gtype g.gid) (view s) (view x))
        ends (leave_group-Made w s v g m)
  session_op-Refines (calls_back c) s s' v h = calls_back-Refines c s s' v h
  session_op-Refines (expires ts a) s s' v h =
      let ends : expire w ts a s ≡ s' = ground (arith, h) in
      subst (λ x. Stays (view s) (view x)) ends
        (Kept-Stays s (expire w ts a s) (expire-Kept ts a s))

-- In every state that a new SDK reaches, where the login requests and the requests to join can be
-- serialized, each operation makes exactly its move of the abstract session. Login signs the user in,
-- Logout signs him out of all groups, JoinGroup adds the one group and LeaveGroup takes the one group
-- away, where they wait for the answer or return success, and where they return an error nothing
-- changes. Of the messages only these change the session: a refused Login signs the user out, a
-- refused JoinGroup takes its group away, or all groups where its type or id is 0, both only where the
-- response is for a call that waits, and the notice to close signs the user out. Everything else that
-- the client calls back, and the end of a call that has timed out, changes nothing.
pub run-session_op :
    (w : World) (heap : ℕ → CallContext) (ops : List Op) (op : SessionOp) (s s' : PushSdk)
    → Encodes w
    → EncodesJoins w
    → run w ops (new_sdk heap) ≡ some s
    → session_op w op s ≡ some s'
    → Refines w op s (view s) (view s')
run-session_op w heap ops op s s' e j h h' =
    session_op-Refines w e j op s s' (run-new_sdk-Inv w heap ops s e h) h'
