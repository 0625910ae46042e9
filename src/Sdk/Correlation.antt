-- ===== src/Sdk/Correlation.antt =====
-- A response reaches the call that it answers, through the context that the request carried.
pub mod Join
pub mod Faults
pub mod Callback
pub mod Context
use grpc_push_sdk.Common.{
  update, ℕ, zero, suc, ◌+◌, ◌^◌, ◌≤◌, ◌<◌, ◌≡◌, ◌≢◌, refl, ap, Bool, true, false, not, ◌&&◌, List,
  [], ◌∷◌, Option, none, some, arith, ◌==◌, if◌then◌else◌, bytes, is_some, Bool-cases, Option-cases,
}
use grpc_push_sdk.Decimal.{to_string, stoll}
use grpc_push_sdk.Decimal.RoundTrip.{stoll-to_string}
use grpc_push_sdk.Int.{ℤ, pos, negsuc, int_of_u32}
use grpc_push_sdk.Packet.{
  World, PushData, PushRegReq, Response, ResponseType, make_join_group_packet,
}
use grpc_push_sdk.Sdk.CallMap
use grpc_push_sdk.Sdk.CallMap.Order.{Ascends, find-insert, find-erase, insert-Ascends}
use grpc_push_sdk.Sdk.Calls.{call, call_sync_begin, call_sync_end, notify}
use grpc_push_sdk.Sdk.Groups.{insert, is_group_info_exists, remove_group_info}
use grpc_push_sdk.Sdk.Messages.{c_str, answer, handle_response}
use grpc_push_sdk.Sdk.Pending.{IsPending}
use grpc_push_sdk.Sdk.Session.{
  handle_success_response, handle_failed_response, remove_all_group_info, rejoin_group, get_now,
}
use grpc_push_sdk.Sdk.State.{PushSdk, CallContext, new_context}
use grpc_push_sdk.Types.{CbType, CbEvent, RetCode, res_success}

-- The state in which a response that fits a waiting call is taken up.
module _ (w : World) (t : ResponseType) (d : PushData) (res : Response) (now : ℕ)
    (s : PushSdk) where
  -- A response with the context of a waiting call is answered as that call's.
  pub handle_response_known :
      (a : ℕ)
      → 0 < now
      → now < 2 ^ 63
      → w.decode t d.msg_data ≡ some res
      → res.context ≡ to_string now
      → CallMap.find now s.cb_map ≡ some a
      → handle_response w t d s
        ≡ some (answer w t res a (record s { cb_map = CallMap.erase now s.cb_map }))
  unfolding handle_response
  handle_response_known a p q e c f = ground (arith, ap stoll c, stoll-to_string now q)

  -- A response that no call waits for changes nothing.
  pub handle_response_unknown :
      now < 2 ^ 63
      → w.decode t d.msg_data ≡ some res
      → res.context ≡ to_string now
      → CallMap.find now s.cb_map ≡ none
      → handle_response w t d s ≡ some s
  unfolding handle_response
  handle_response_unknown q e c f = ground (arith, ap stoll c, stoll-to_string now q)

-- The outcome that a response stands for.
abbrev pub outcome : Response → RetCode
outcome res = if res.res_code == res_success then RetCode.success else RetCode.call_failed

-- What GetLastError then gives.
abbrev pub last_error : Response → List ℕ × ℤ
last_error res =
    if res.res_code == res_success
    then (bytes "ok", pos res_success)
    else (c_str res.err_msg, int_of_u32 res.res_code)

-- Which groups are left.
abbrev pub groups_after : ResponseType → Response → CallContext → PushSdk → List (ℕ × ℕ)
groups_after t res ctx s =
    if res.res_code == res_success then s.groups else (handle_failed_response t ctx s).groups

module _ (w : World) (t : ResponseType) (res : Response) (a : ℕ) (s : PushSdk) where
  -- The thread that waits on a context sees the outcome that is written to it.
  pub answer_sync :
      (s.ctxs a).cb_func ≡ none
      → (s.ctxs a).cb_args ≡ none
      → (s.ctxs a).is_retry ≡ false
      → let (s', ret) = call_sync_end a (answer w t res a s) in
        (ret ≡ outcome res)
        × (s'.desc ≡ (last_error res).0)
        × (s'.code ≡ (last_error res).1)
        × ((answer w t res a s).cb_map ≡ s.cb_map)
        × ((answer w t res a s).groups ≡ groups_after t res (s.ctxs a) s)
  unfolding answer call_sync_end notify handle_success_response handle_failed_response
      remove_all_group_info
  answer_sync f g r = ground arith

-- The groups that a failure leaves depend on the groups, the context and the kind alone.
failure-groups :
    (t : ResponseType) (ctx : CallContext) (s s' : PushSdk)
    → s.groups ≡ s'.groups
    → (handle_failed_response t ctx s).groups ≡ (handle_failed_response t ctx s').groups
unfolding handle_failed_response
failure-groups t ctx s s' e = ground arith

module _ (w : World) (t : ResponseType) (type : CbType) (msg : PushRegReq) (now gtype gid : ℕ)
    (s : PushSdk) where
  -- A synchronous call whose response comes while it waits returns success exactly for the code
  -- 200, and PS_RET_CALL_FAILED otherwise; the response's text, up to its first zero byte, and its
  -- code are then the last error; the groups are those that the response leaves, and a second copy of
  -- the response changes nothing.
  pub call_sync-answered :
      (d : PushData) (res : Response)
      → IsPending s
      → 0 < now
      → now < 2 ^ 63
      → w.decode t d.msg_data ≡ some res
      → res.context ≡ to_string now
      → let (s1, a) = call_sync_begin type msg now gtype gid s in
        (s2 : PushSdk) × (handle_response w t d s1 ≡ some s2)
        × ((call_sync_end a s2).1 ≡ outcome res)
        × ((call_sync_end a s2).0.desc ≡ (last_error res).0)
        × ((call_sync_end a s2).0.code ≡ (last_error res).1)
        × (s2.groups ≡ groups_after t res (new_context type none none gtype gid false) s)
        × (handle_response w t d s2 ≡ some s2)
  unfolding call_sync_begin
  call_sync-answered d res v p q e c =
      let s1 = (call_sync_begin type msg now gtype gid s).0 in
      let s1' = record s1 { cb_map = CallMap.erase now s1.cb_map } in
      let found =
        handle_response_known w t d res now s1 s.next_ctx p q e c
          (ground (arith, find-insert now now s.next_ctx s.cb_map)) in
      let (r, desc, code, m, gs) =
        answer_sync w t res s.next_ctx s1' (ground arith) (ground arith) (ground arith) in
      (
        answer w t res s.next_ctx s1',
        found,
        r,
        desc,
        code,
        ground
            (arith, gs, failure-groups t (new_context type none none gtype gid false) s1' s refl),
        handle_response_unknown w t d res now (answer w t res s.next_ctx s1') q e c (rw m gone),
      )
    where
      gone : CallMap.find now (CallMap.erase now (CallMap.insert now s.next_ctx s.cb_map)) ≡ none
      gone =
          let asc = insert-Ascends 0 now s.next_ctx s.cb_map (omega arith) v.ascends in
          ground (arith, find-erase 0 now now (CallMap.insert now s.next_ctx s.cb_map) asc)
