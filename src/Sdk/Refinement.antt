-- ===== src/Sdk/Refinement.antt =====
-- What PushSDK (src/core/core.cpp, core.h) promises of a session: who is logged in, and which groups
-- the user is in. The abstract view forgets requests, contexts, clocks, queues and the order of the
-- groups; for each operation there is one move that it makes.
pub mod Moves
pub mod Methods
pub mod Messages
pub mod Steps
use grpc_push_sdk.Client.{Callback, notify_channel_state, on_connected, on_message}
use grpc_push_sdk.Common.{
  ℕ, ◌≡◌, Bool, true, false, not, ◌&&◌, ◌||◌, Option, none, some, is_some, ◌==◌, if◌then◌else◌,
}
use grpc_push_sdk.Decimal.{stoll}
use grpc_push_sdk.Int.{ℤ, pos, negsuc}
use grpc_push_sdk.Packet.{World, PushData, Response, ResponseType, LoginRequest, GroupRequest}
use grpc_push_sdk.Sdk.CallMap
use grpc_push_sdk.Sdk.Groups.{is_group_info_exists}
use grpc_push_sdk.Sdk.Groups.Table.{same_group}
use grpc_push_sdk.Sdk.Methods.{
  Asynchronous, Outcome, returns, waits, login, logout, join_group, leave_group,
}
use grpc_push_sdk.Sdk.State.{PushSdk, CallContext}
use grpc_push_sdk.Sdk.Threads.{expire, handle_callback}
use grpc_push_sdk.Types.{UserInfo, GroupInfo, RetCode, StreamUri, res_success}

pub record Session : Type 0 where
  pub signed_in : Bool
  pub member : ℕ → ℕ → Bool

abbrev pub view : PushSdk → Session
view s = record { signed_in = is_some s.user; member = λ g i. is_group_info_exists g i s.groups }

-- The moves of a session.
abbrev pub HasNone : Session → Type 0
HasNone v = (k i : ℕ) → v.member k i ≡ false

abbrev pub Stays : Session → Session → Type 0
Stays v t = (t.signed_in ≡ v.signed_in) × ((k i : ℕ) → t.member k i ≡ v.member k i)

abbrev pub SignsIn : Session → Session → Type 0
SignsIn v t = (v.signed_in ≡ false) × (t.signed_in ≡ true) × HasNone v × HasNone t

abbrev pub SignsOut : Session → Session → Type 0
SignsOut v t = (t.signed_in ≡ false) × HasNone t

abbrev pub Joins : ℕ → ℕ → Session → Session → Type 0
Joins g j v t =
    (v.signed_in ≡ true)
    × (t.signed_in ≡ true)
    × (v.member g j ≡ false)
    × ((k i : ℕ) → t.member k i ≡ (same_group g j k i || v.member k i))

abbrev pub Leaves : ℕ → ℕ → Session → Session → Type 0
Leaves g j v t =
    (t.signed_in ≡ v.signed_in)
    × ((k i : ℕ) → t.member k i ≡ (not (same_group g j k i) && v.member k i))

abbrev pub LeavesAll : Session → Session → Type 0
LeavesAll v t = (t.signed_in ≡ v.signed_in) × HasNone t

-- What PushSDK does to a session: the four methods, what the client calls back, and the end of a
-- call that has timed out.
pub data SessionOp : Type 0 where
  logs_in : UserInfo → Asynchronous → SessionOp
  logs_out : Asynchronous → SessionOp
  joins : GroupInfo → Asynchronous → SessionOp
  leaves : GroupInfo → Asynchronous → SessionOp
  calls_back : Callback → SessionOp
  expires : ℕ → ℕ → SessionOp

module _ (w : World) where
  unfoldable pub session_op : SessionOp → PushSdk → Option PushSdk
  session_op (logs_in user mode) s = some (login w user mode s).0
  session_op (logs_out mode) s = some (logout w mode s).0
  session_op (joins g mode) s = some (join_group w g mode s).0
  session_op (leaves g mode) s = some (leave_group w g mode s).0
  session_op (calls_back c) s = handle_callback w c s
  session_op (expires ts a) s = some (expire w ts a s)

-- A method makes its move where it waits for the answer or returns success, and no move where it
-- returns an error.
abbrev pub succeeds : Outcome → Bool
succeeds (waits a) = true
succeeds (returns RetCode.success) = true
succeeds (returns _) = false

abbrev pub Made : Bool → (Session → Session → Type 0) → Session → Session → Type 0
Made true Does v t = Does v t
Made false Does v t = Stays v t

abbrev pub RefusedJoin : Bool → ℕ → ℕ → Session → Session → Type 0
RefusedJoin true g j v t = LeavesAll v t
RefusedJoin false g j v t = Leaves g j v t

-- A refusal of a login ends the session; one of JoinGroup takes the group of the call away, or all
-- groups where the type or the id of the call's group is 0, as for the SDK's own request to join all.
abbrev pub Refused : ResponseType → CallContext → Session → Session → Type 0
Refused ResponseType.login ctx v t = SignsOut v t
Refused ResponseType.join_group ctx v t =
    RefusedJoin (ctx.gtype == 0 || ctx.gid == 0) ctx.gtype ctx.gid v t
Refused _ ctx v t = Stays v t

-- Whether the answer is a success, and the call that it is for.
abbrev pub Answered : ResponseType → Bool → Option CallContext → Session → Session → Type 0
Answered t success none v u = Stays v u
Answered t true (some ctx) v u = Stays v u
Answered t false (some ctx) v u = Refused t ctx v u

-- The context of the call that waits under an instant.
abbrev pub call_at : PushSdk → Option ℤ → Option CallContext
call_at s (some (pos ts)) =
    if ts == 0
    then none
    else elim (CallMap.find ts s.cb_map) [ none ↦ none | some a ↦ some (s.ctxs a) ]
call_at s _ = none

abbrev pub Responds : ResponseType → Option Response → PushSdk → Session → Session → Type 0
Responds t none s v u = Stays v u
Responds t (some res) s v u =
    Answered t (res.res_code == res_success) (call_at s (stoll res.context)) v u

-- A serializer of protobuf's proto3 messages fails only past 2 GB.
abbrev pub EncodesJoins : World → Type 0
EncodesJoins w = (r : GroupRequest) → is_some (w.encode_join_group r) ≡ true

module _ (w : World) where
  -- What a message of the server does: only the answers and the notice to close change the session.
  abbrev pub Receives : StreamUri → PushData → PushSdk → Session → Session → Type 0
  Receives StreamUri.login_res d s =
      Responds ResponseType.login (w.decode ResponseType.login d.msg_data) s
  Receives StreamUri.logout_res d s =
      Responds ResponseType.logout (w.decode ResponseType.logout d.msg_data) s
  Receives StreamUri.join_group_res d s =
      Responds ResponseType.join_group (w.decode ResponseType.join_group d.msg_data) s
  Receives StreamUri.leave_group_res d s =
      Responds ResponseType.leave_group (w.decode ResponseType.leave_group d.msg_data) s
  Receives StreamUri.notify_to_close d s = SignsOut
  Receives _ d s = Stays

  -- The one move of each operation.
  abbrev pub Refines : SessionOp → PushSdk → Session → Session → Type 0
  Refines (logs_in user mode) s = Made (succeeds (login w user mode s).1) SignsIn
  Refines (logs_out mode) s = Made (succeeds (logout w mode s).1) SignsOut
  Refines (joins g mode) s = Made (succeeds (join_group w g mode s).1) (Joins g.gtype g.gid)
  Refines (leaves g mode) s = Made (succeeds (leave_group w g mode s).1) (Leaves g.gtype g.gid)
  Refines (calls_back (on_message d)) s = Receives d.uri d s
  Refines (calls_back _) s = Stays
  Refines (expires ts a) s = Stays
