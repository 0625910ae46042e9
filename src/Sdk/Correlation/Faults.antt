-- ===== src/Sdk/Correlation/Faults.antt =====
-- Waits that end without an answer, and logins that the server never answers.
use grpc_push_sdk.Common.{ℕ, ◌≡◌, true, false, none, some, arith}
use grpc_push_sdk.Int.{pos}
use grpc_push_sdk.Packet.{World, PushRegReq, make_login_packet}
use grpc_push_sdk.Sdk.Calls.{call_sync_begin, call_sync_end, notify}
use grpc_push_sdk.Sdk.Methods.{returns, waits, login, reject, issue}
use grpc_push_sdk.Sdk.Session.{relogin, handle_timeout_response, get_now}
use grpc_push_sdk.Sdk.State.{PushSdk}
use grpc_push_sdk.Sdk.Threads.{expire}
use grpc_push_sdk.Types.{CbType, RetCode, UserInfo}

-- A synchronous call whose context no thread has written to when its wait ends returns success,
-- and GetLastError gives no error.
pub call_sync-unanswered :
    (type : CbType) (msg : PushRegReq) (now gtype gid : ℕ) (s s' : PushSdk)
    → s'.ctxs s.next_ctx ≡ (call_sync_begin type msg now gtype gid s).0.ctxs s.next_ctx
    → let (s'', ret) = call_sync_end (call_sync_begin type msg now gtype gid s).1 s' in
      (ret ≡ RetCode.success) × (s''.code ≡ pos 200)
unfolding call_sync_begin call_sync_end
call_sync-unanswered type msg now gtype gid s s' e = ground arith

-- A synchronous login, on an initialized SDK with no user and a request that can be serialized, that
-- times out: it returns PS_RET_CALL_TIMEOUT; the user stays logged in all the same, so that another
-- login is refused; and when the connection comes back, the SDK does not log in again.
pub login_timed_out :
    (w : World) (user again : UserInfo) (s : PushSdk) (req : PushRegReq)
    → s.init ≡ true
    → s.user ≡ none
    → make_login_packet w s.uid s.appid s.appkey user (get_now w s) ≡ some req
    → let s1 = (login w user none s).0 in
      let s2 = expire w (get_now w s) s.next_ctx s1 in
      ((login w user none s).1 ≡ waits s.next_ctx)
      × ((call_sync_end s.next_ctx s2).1 ≡ RetCode.call_timeout)
      × (s2.user ≡ some user)
      × ((login w again none s2).1 ≡ returns RetCode.already_login)
      × (relogin w false s2 ≡ s2)
unfolding login reject issue call_sync_begin call_sync_end expire notify handle_timeout_response
    relogin
login_timed_out w user again s req i u e = ground arith
