-- ===== src/Sdk/Calls.antt =====
-- PushSDK::call, call_sync and notify. `call_sync` has two halves, before and after its wait: what
-- the other threads do in between happens between the two. A wait may end by a notification, by the
-- time limit, or for no reason, so nothing is assumed of what has happened.
use grpc_push_sdk.Client.{Client, enqueue}
use grpc_push_sdk.Common.{
  update, ℕ, suc, Bool, true, false, not, ◌&&◌, List, [], ◌∷◌, ◌++◌, Option, none, some, ◌==◌,
  if◌then◌else◌, is_some, bytes,
}
use grpc_push_sdk.Int.{ℤ, pos}
use grpc_push_sdk.Packet.{PushRegReq}
use grpc_push_sdk.Sdk.CallMap
use grpc_push_sdk.Sdk.State.{PushSdk, CallContext, event_cb, new_context, push_event}
use grpc_push_sdk.Types.{CbType, CbEvent, RetCode, res_success}

-- client_->Send(msg), where `client_` is not null whenever a request is made.
abbrev pub send_to : Option Client → PushRegReq → Option Client
send_to none msg = none
send_to (some c) msg = some (enqueue c msg)

-- The statements that `call` and `call_sync` share: a fresh context, its entry, the request.
unfoldable pub register : CallContext → PushRegReq → ℕ → PushSdk → PushSdk
register ctx msg now s = record s {
  ctxs = update s.ctxs s.next_ctx ctx;
  next_ctx = suc s.next_ctx;
  cb_map = CallMap.insert now s.next_ctx s.cb_map;
  client = send_to s.client msg;
}

unfoldable pub call :
    CbType → PushRegReq → ℕ → Option ℕ → Option ℕ → ℕ → ℕ → Bool → PushSdk → PushSdk
unfolding register
call type msg now cb_func cb_args gtype gid is_retry s =
    register (new_context type cb_func cb_args gtype gid is_retry) msg now s

-- The address of the context is handed to the second half.
unfoldable pub call_sync_begin : CbType → PushRegReq → ℕ → ℕ → ℕ → PushSdk → PushSdk × ℕ
unfolding register
call_sync_begin type msg now gtype gid s =
    (register (new_context type none none gtype gid false) msg now s, s.next_ctx)

abbrev pub result_of : CbEvent → RetCode
result_of CbEvent.ok = RetCode.success
result_of CbEvent.timeout = RetCode.call_timeout
result_of _ = RetCode.call_failed

abbrev is_ok : CbEvent → Bool
is_ok CbEvent.ok = true
is_ok _ = false

unfoldable pub call_sync_end : ℕ → PushSdk → PushSdk × RetCode
call_sync_end a s =
    let ctx = s.ctxs a in
    if is_ok ctx.res
    then (record s { desc = bytes "ok"; code = pos res_success }, RetCode.success)
    else (record s { desc = ctx.desc; code = ctx.code }, result_of ctx.res)

abbrev pub same_func : Option ℕ → Option ℕ → Bool
same_func none none = true
same_func (some f) (some g) = f == g
same_func _ _ = false

-- The context is shared with the thread that waits for it, so the write is to the heap.
unfoldable pub notify : ℕ → CbEvent → List ℕ → ℤ → PushSdk → PushSdk
notify a res desc code s =
    let ctx = s.ctxs a in
    if not (is_some ctx.cb_func) && not (is_some ctx.cb_args)
    then record s {
      ctxs = update s.ctxs a (record ctx { res = res; desc = desc; code = code; call_done = true });
    }
    else if same_func ctx.cb_func s.event_cb
    then push_event ctx.type res desc s
    else record s { invoked = s.invoked ++ event_cb ctx.cb_func ctx.type res desc ctx.cb_args ∷ [] }

-- PushSDK::GetLastError.
abbrev pub get_last_error : PushSdk → List ℕ × ℤ
get_last_error s = (s.desc, s.code)
