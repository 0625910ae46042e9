-- ===== src/Sdk/Pending.antt =====
-- The calls that wait for a response, in every reachable state.
use grpc_push_sdk.Common.{ℕ, suc, ◌<◌, ◌≡◌, Bool, true, false, List, [], ◌∷◌, Option, some, arith}
use grpc_push_sdk.Int.{ℤ}
use grpc_push_sdk.Packet.{World, ResponseType}
use grpc_push_sdk.Sdk.CallMap
use grpc_push_sdk.Sdk.CallMap.Order.{Ascends, insert-Ascends, erase-Ascends}
use grpc_push_sdk.Sdk.Calls.{call, call_sync_begin, call_sync_end, notify}
use grpc_push_sdk.Sdk.Lifecycle.{initialize_sdk, destroy_begin, destroy_end}
use grpc_push_sdk.Sdk.Methods.{
  Asynchronous, login, logout, join_group, leave_group, finish_call, reject, issue,
}
use grpc_push_sdk.Sdk.Run.{Op, run}
use grpc_push_sdk.Sdk.Session.{
  relogin, rejoin_group, handle_timeout_response, handle_success_response, handle_failed_response,
  handle_notify_to_close, remove_all_group_info, get_now,
}
use grpc_push_sdk.Sdk.State.{PushSdk, CallContext, new_sdk, elk_upload}
use grpc_push_sdk.Sdk.Steps.{Preserves, run-kept}
use grpc_push_sdk.Sdk.Threads.{check_timeouts}
use grpc_push_sdk.Sdk.Threads.Timeouts.{IsSteady, Young, check_timeouts-Young}
use grpc_push_sdk.Types.{CbEvent, RetCode, UserInfo, GroupInfo}

-- Every context of the map is allocated.
abbrev pub Allocated : ℕ → List (ℕ × ℕ) → Type 0
Allocated next [] = Unit {0}
Allocated next ((ts, a) ∷ m) = (a < next) × Allocated next m

Allocated-suc : (next : ℕ) (m : List (ℕ × ℕ)) → Allocated next m → Allocated (suc next) m
Allocated-suc next [] h = tt
Allocated-suc next ((ts, a) ∷ m) h = (omega arith, Allocated-suc next m h.1)

insert-Allocated :
    (now next : ℕ) (m : List (ℕ × ℕ))
    → Allocated next m
    → Allocated (suc next) (CallMap.insert now next m)
unfolding CallMap.insert
insert-Allocated now next [] h = (omega arith, tt)
insert-Allocated now next ((ts, a) ∷ m) h =
    ground (arith, insert-Allocated now next m h.1, Allocated-suc next m h.1)

erase-Allocated :
    (ts next : ℕ) (m : List (ℕ × ℕ)) → Allocated next m → Allocated next (CallMap.erase ts m)
unfolding CallMap.erase
erase-Allocated ts next [] h = tt
erase-Allocated ts next ((k, a) ∷ m) h = ground (arith, erase-Allocated ts next m h.1)

pub record IsPending (s : PushSdk) : Type 0 where
  pub ascends : Ascends 0 s.cb_map
  pub allocated : Allocated s.next_ctx s.cb_map

module _ (w : World) (s : PushSdk) (v : IsPending s) where
  inserted : Ascends 0 (CallMap.insert (get_now w s) s.next_ctx s.cb_map)
  inserted = insert-Ascends 0 (get_now w s) s.next_ctx s.cb_map (omega arith) v.ascends

  covered : Allocated (suc s.next_ctx) (CallMap.insert (get_now w s) s.next_ctx s.cb_map)
  covered = insert-Allocated (get_now w s) s.next_ctx s.cb_map v.allocated

  relogin-IsPending : (b : Bool) → IsPending (relogin w b s)
  unfolding relogin call elk_upload
  relogin-IsPending b = ground (arith, inserted, covered)

  rejoin_group-IsPending : IsPending (rejoin_group w s)
  unfolding rejoin_group call elk_upload remove_all_group_info
  rejoin_group-IsPending = ground (arith, inserted, covered)

  login-IsPending : (u : UserInfo) (m : Asynchronous) → IsPending (login w u m s).0
  unfolding login issue reject elk_upload call call_sync_begin
  login-IsPending u m = ground (arith, inserted, covered)

  logout-IsPending : (m : Asynchronous) → IsPending (logout w m s).0
  unfolding logout issue reject elk_upload call call_sync_begin
  logout-IsPending m = ground (arith, inserted, covered)

  join_group-IsPending : (g : GroupInfo) (m : Asynchronous) → IsPending (join_group w g m s).0
  unfolding join_group issue reject elk_upload call call_sync_begin
  join_group-IsPending g m = ground (arith, inserted, covered)

  leave_group-IsPending : (g : GroupInfo) (m : Asynchronous) → IsPending (leave_group w g m s).0
  unfolding leave_group issue reject elk_upload call call_sync_begin
  leave_group-IsPending g m = ground (arith, inserted, covered)

  finish_call-IsPending :
      (info action : List ℕ) (a : ℕ) → IsPending (finish_call w info action a s).0
  unfolding finish_call call_sync_end elk_upload
  finish_call-IsPending info action a = ground arith

  initialize_sdk-IsPending :
      (uid appid appkey : ℕ) (cb arg : Option ℕ) (garbage : Bool)
      → IsPending (initialize_sdk w uid appid appkey cb arg garbage s).0
  unfolding initialize_sdk
  initialize_sdk-IsPending uid appid appkey cb arg garbage = ground arith

  notify-IsPending :
      (a : ℕ) (res : CbEvent) (desc : List ℕ) (code : ℤ) → IsPending (notify a res desc code s)
  unfolding notify
  notify-IsPending a res desc code = ground arith

  upload-IsPending :
      (info action : List ℕ) (code : RetCode) (msg : List ℕ)
      → IsPending (elk_upload w info action code msg s)
  unfolding elk_upload
  upload-IsPending info action code msg = ground arith

  failure-IsPending :
      (t : ResponseType) (ctx : CallContext) → IsPending (handle_failed_response t ctx s)
  unfolding handle_failed_response
  failure-IsPending t ctx = ground arith

  close-IsPending : IsPending (handle_notify_to_close s)
  unfolding handle_notify_to_close
  close-IsPending = ground arith

  erased-IsPending : (ts : ℕ) → IsPending (record s { cb_map = CallMap.erase ts s.cb_map })
  erased-IsPending ts = record {
    ascends = erase-Ascends 0 ts s.cb_map v.ascends;
    allocated = erase-Allocated ts s.next_ctx s.cb_map v.allocated;
  }

  end-IsPending : IsPending (destroy_end s)
  unfolding destroy_end
  end-IsPending = ground arith

  begin-IsPending : (b : Bool) (s' : PushSdk) → destroy_begin b s ≡ some s' → IsPending s'
  unfolding destroy_begin
  begin-IsPending b s' e = ground arith

module _ (w : World) where
  timeout-IsPending :
      (ctx : CallContext) (s : PushSdk) → IsPending s → IsPending (handle_timeout_response w ctx s)
  unfolding handle_timeout_response
  timeout-IsPending ctx s v =
      ground (arith, relogin-IsPending w s v true, rejoin_group-IsPending w s v)

  success-IsPending :
      (t : ResponseType) (ctx : CallContext) (s : PushSdk)
      → IsPending s
      → IsPending (handle_success_response w t ctx s)
  unfolding handle_success_response
  success-IsPending t ctx s v = ground (
    arith,
    rejoin_group-IsPending w (record s { logining = false })
        (record { ascends = v.ascends; allocated = v.allocated }),
  )

  IsPending-Preserves : Preserves w IsPending
  IsPending-Preserves = record {
    after_relogin = λ b s v. relogin-IsPending w s v b;
    after_timeout = timeout-IsPending;
    after_success = success-IsPending;
    after_failure = λ t ctx s v. failure-IsPending w s v t ctx;
    after_close = close-IsPending w;
    after_notify = λ a res desc code s v. notify-IsPending w s v a res desc code;
    after_upload = λ info action code msg s v. upload-IsPending w s v info action code msg;
    with_invoked = λ l s v. ground arith;
    with_pctxs = λ l s v. ground arith;
    with_elk = λ u s v. ground arith;
    with_reads = λ n s v. ground arith;
    with_handlers = λ l n s v. ground arith;
    with_erased = λ ts s v. erased-IsPending w s v ts;
    with_sent = λ req s v. ground arith;
    with_client = λ c c' s h v. ground arith;
    after_login = λ u m s v. login-IsPending w s v u m;
    after_logout = λ m s v. logout-IsPending w s v m;
    after_join = λ g m s v. join_group-IsPending w s v g m;
    after_leave = λ g m s v. leave_group-IsPending w s v g m;
    after_finish = λ info action a s v. finish_call-IsPending w s v info action a;
    after_initialize = λ uid appid appkey cb arg garbage s v.
        initialize_sdk-IsPending w s v uid appid appkey cb arg garbage;
    after_begin = λ b s s' v e. begin-IsPending w s v b s' e;
    after_end = end-IsPending w;
  }

  -- In every state that steps from a new SDK lead to, the keys of the map of waiting calls ascend,
  -- so that no two calls share one, and each of its contexts is allocated.
  pub run-new_sdk-IsPending :
      (heap : ℕ → CallContext) (ops : List Op) (s : PushSdk)
      → run w ops (new_sdk heap) ≡ some s
      → IsPending s
  run-new_sdk-IsPending heap ops s e =
      run-kept w IsPending IsPending-Preserves ops (new_sdk heap) s (start heap) e
    where
      start : (heap : ℕ → CallContext) → IsPending (new_sdk heap)
      start heap = unfold new_sdk in record { ascends = tt; allocated = tt }

  -- On a clock that never goes back, a round of the thread that times calls out ends in every
  -- reachable state, and leaves no call waiting that has expired at the time of the round.
  pub run-check_timeouts :
      (heap : ℕ → CallContext) (ops : List Op) (s : PushSdk)
      → IsSteady w
      → run w ops (new_sdk heap) ≡ some s
      → (s' : PushSdk) × (check_timeouts w s ≡ some s') × Young (get_now w s) s'.cb_map
  run-check_timeouts heap ops s steady e =
      check_timeouts-Young w steady s (run-new_sdk-IsPending heap ops s e).ascends
