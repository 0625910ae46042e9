-- ===== src/Locks/Bodies.antt =====
-- The functions of Locks.Methods and Locks.Rounds lock upwards.
use grpc_push_sdk.Common.{
  ℕ, ◌≤◌, Bool, true, false, not, ◌&&◌, ◌||◌, List, [], ◌∷◌, Option, none, some, arith, is_some,
}
use grpc_push_sdk.Locks.{Lock, rank, Act, locked, api, user, cb_map, event_cb, msg_queue, elk, ctx}
use grpc_push_sdk.Locks.Methods.{
  ApiCall, logs_in, logs_out, joins, leaves, gets_error, locked_wait, elk_locks, send_locks,
  call_locks, call_sync_locks, issue_locks, method_locks, login_locks, retry_locks,
  relogin_user_locks, relogin_locks, rejoin_group_locks, api_locks, app_locks, has_none,
}
use grpc_push_sdk.Locks.Order.{Runs, Runs-nil, Runs-append, Runs-if, Runs-locked}
use grpc_push_sdk.Packet.{World, PushRegReq}
use grpc_push_sdk.Sdk.Methods.{Asynchronous}
use grpc_push_sdk.Sdk.State.{PushSdk}
use grpc_push_sdk.Types.{UserInfo}

pub Runs-leaf : {r : ℕ} (m : Lock) → r ≤ rank m → Runs r (locked m [])
Runs-leaf m le = Runs-locked m le Runs-nil

pub Runs-locked_wait : {r : ℕ} (m : Lock) → r ≤ rank m → Runs r (locked_wait m)
Runs-locked_wait m le = Runs-append (Runs-leaf m le) (Runs-leaf m le)

pub Runs-elk_locks : {r : ℕ} (s : PushSdk) → r ≤ 7 → Runs r (elk_locks s)
Runs-elk_locks s le = Runs-if s.elk.run (Runs-leaf elk (omega arith)) Runs-nil

pub Runs-send_locks : {r : ℕ} → r ≤ 6 → Runs r send_locks
Runs-send_locks le = Runs-leaf msg_queue (omega arith)

Runs-call_locks : (need_to_lock : Bool) → Runs 4 (call_locks need_to_lock)
Runs-call_locks need_to_lock =
    Runs-append (Runs-if need_to_lock (Runs-leaf cb_map (omega arith)) Runs-nil)
      (Runs-send_locks (omega arith))

Runs-call_sync_locks : (a : ℕ) (done : Bool) → Runs 3 (call_sync_locks a done)
Runs-call_sync_locks a done =
    Runs-append (Runs-append (Runs-leaf cb_map (omega arith)) (Runs-send_locks (omega arith)))
      (Runs-if done (Runs-leaf (ctx a) (omega arith)) (Runs-locked_wait (ctx a) (omega arith)))

Runs-issue_locks :
    (mode : Asynchronous) (before : List Act) (done : Bool) (s : PushSdk)
    → Runs 4 before
    → Runs 3 (issue_locks mode before done s)
Runs-issue_locks none before done s h =
    Runs-append
      (Runs-append (Runs-locked user (omega arith) h) (Runs-call_sync_locks s.next_ctx done))
      (Runs-elk_locks s (omega arith))
Runs-issue_locks (some cb) before done s h =
    Runs-locked user (omega arith)
      (Runs-append (Runs-append h (Runs-call_locks true)) (Runs-elk_locks s (omega arith)))

Runs-method_locks :
    (refused : Bool) (req : Option PushRegReq) (mode : Asynchronous) (before : List Act)
    (done : Bool) (s : PushSdk)
    → Runs 4 before
    → Runs 3 (method_locks refused req mode before done s)
Runs-method_locks true req mode before done s h =
    Runs-locked user (omega arith) (Runs-append h (Runs-elk_locks s (omega arith)))
Runs-method_locks false none mode before done s h =
    Runs-locked user (omega arith) (Runs-append h (Runs-elk_locks s (omega arith)))
Runs-method_locks false (some req) mode before done s h = Runs-issue_locks mode before done s h

module _ (w : World) where
  Runs-login_locks :
      (u : UserInfo) (mode : Asynchronous) (done : Bool) (s : PushSdk)
      → Runs 3 (login_locks w u mode done s)
  Runs-login_locks u mode done s =
      Runs-if s.init
        (Runs-method_locks (is_some s.user) _ mode send_locks done s
          (Runs-send_locks (omega arith)))
        (Runs-elk_locks s (omega arith))

  -- A call of a C function, which may stand in a callback.
  pub Runs-api_locks : (c : ApiCall) → Runs 2 (api_locks w c)
  Runs-api_locks (logs_in initialized none done s) =
      Runs-locked api (omega arith) (Runs-if initialized Runs-nil Runs-nil)
  Runs-api_locks (logs_in initialized (some u) done s) =
      Runs-locked api (omega arith) (Runs-if initialized (Runs-login_locks u none done s) Runs-nil)
  Runs-api_locks (logs_out initialized done s) =
      Runs-locked api (omega arith)
        (Runs-if initialized (Runs-method_locks _ _ none [] done s Runs-nil) Runs-nil)
  Runs-api_locks (joins initialized g done s) =
      Runs-locked api (omega arith)
        (Runs-if initialized (Runs-method_locks _ _ none [] done s Runs-nil) Runs-nil)
  Runs-api_locks (leaves initialized g done s) =
      Runs-locked api (omega arith)
        (Runs-if initialized (Runs-method_locks _ _ none [] done s Runs-nil) Runs-nil)
  Runs-api_locks gets_error = Runs-leaf api (omega arith)

  pub Runs-app_locks : (cs : List ApiCall) → Runs 2 (app_locks w cs)
  Runs-app_locks [] = Runs-nil
  Runs-app_locks (c ∷ cs) = Runs-append (Runs-api_locks c) (Runs-app_locks cs)

  Runs-retry_locks :
      (req : Option PushRegReq) (need_to_lock : Bool) (s : PushSdk)
      → Runs 3 (retry_locks req need_to_lock s)
  Runs-retry_locks none need_to_lock s =
      Runs-append (Runs-append (Runs-leaf user (omega arith)) (Runs-elk_locks s (omega arith)))
        (Runs-leaf event_cb (omega arith))
  Runs-retry_locks (some req) need_to_lock s =
      Runs-locked user (omega arith) (Runs-call_locks need_to_lock)

  Runs-relogin_user_locks :
      (u : Option UserInfo) (need_to_lock is_timeout : Bool) (s : PushSdk)
      → Runs 3 (relogin_user_locks w u need_to_lock is_timeout s)
  Runs-relogin_user_locks none need_to_lock is_timeout s = Runs-leaf user (omega arith)
  Runs-relogin_user_locks (some u) need_to_lock is_timeout s =
      Runs-if (s.logining && not is_timeout) (Runs-leaf user (omega arith))
        (Runs-retry_locks _ need_to_lock s)

  pub Runs-relogin_locks :
      (need_to_lock is_timeout : Bool) (s : PushSdk)
      → Runs 3 (relogin_locks w need_to_lock is_timeout s)
  Runs-relogin_locks need_to_lock is_timeout s =
      Runs-relogin_user_locks s.user need_to_lock is_timeout s

  pub Runs-rejoin_group_locks :
      (need_to_lock : Bool) (s : PushSdk) → Runs 3 (rejoin_group_locks w need_to_lock s)
  Runs-rejoin_group_locks need_to_lock s =
      Runs-if (not (is_some s.user) || has_none s.groups) (Runs-leaf user (omega arith))
        (Runs-retry_locks _ need_to_lock s)
