-- ===== src/Locks/Safe.antt =====
-- The threads of the SDK and of the application never block each other for good.
use grpc_push_sdk.Common.{
  ℕ, zero, suc, ◌≤◌, ◌≡◌, Bool, true, false, List, [], ◌∷◌, ◌++◌, Option, none, some, arith,
  if◌then◌else◌,
}
use grpc_push_sdk.Locks.{
  Lock, locked, stream, hdls, user, cb_map, event_cb, msg_queue, elk, http, ctx, Thread, turns,
}
use grpc_push_sdk.Locks.Bodies.{
  Runs-leaf, Runs-locked_wait, Runs-elk_locks, Runs-send_locks, Runs-api_locks, Runs-app_locks,
  Runs-relogin_locks, Runs-rejoin_group_locks,
}
use grpc_push_sdk.Locks.Finish.{AllDone, turns-finish}
use grpc_push_sdk.Locks.Order.{
  Runs, Runs-weaken, Runs-nil, Runs-append, Runs-if, Runs-locked, Runs-Ordered,
}
use grpc_push_sdk.Locks.Progress.{AllOrdered}
use grpc_push_sdk.Locks.Methods.{ApiCall, app_locks, locked_wait}
use grpc_push_sdk.Locks.Rounds.{
  Found, Reported, nothing, connected, response, notify_to_close, group_message, user_message, Turn,
  finishes, restarts, handles, apps_locks, notify_locks, failed_locks, success_locks, found_locks,
  response_locks, reported_locks, turn_locks, again_locks, expired_locks, item_locks,
  delivered_locks, posts_locks, Activity, calls, sets_handler, destroys, polls, times_out, delivers,
  uploads, locks_of, all_locks, started,
}
use grpc_push_sdk.Packet.{World, Response, ResponseType}
use grpc_push_sdk.Sdk.State.{PushSdk, CallContext}
use grpc_push_sdk.Types.{CbType}

Runs-failed_locks : (t : ResponseType) → Runs 1 (failed_locks t)
Runs-failed_locks ResponseType.login = Runs-leaf user (omega arith)
Runs-failed_locks ResponseType.logout = Runs-nil
Runs-failed_locks ResponseType.join_group = Runs-leaf user (omega arith)
Runs-failed_locks ResponseType.leave_group = Runs-nil

Runs-item_locks : (t : CbType) (s : PushSdk) → Runs 0 (item_locks t s)
Runs-item_locks CbType.login s = Runs-elk_locks s (omega arith)
Runs-item_locks CbType.logout s = Runs-nil
Runs-item_locks CbType.join_group s =
    Runs-append (Runs-leaf user (omega arith)) (Runs-elk_locks s (omega arith))
Runs-item_locks CbType.leave_group s = Runs-nil
Runs-item_locks CbType.inner_err s = Runs-nil

Runs-posts_locks : {r : ℕ} (n : ℕ) → r ≤ 8 → Runs r (posts_locks n)
Runs-posts_locks zero le = Runs-nil
Runs-posts_locks (suc n) le = Runs-append (Runs-leaf http (omega arith)) (Runs-posts_locks n le)

module _ (w : World) where
  Runs-apps_locks : (fs : List (List ApiCall)) → Runs 2 (apps_locks (app_locks w) fs)
  Runs-apps_locks [] = Runs-nil
  Runs-apps_locks (f ∷ fs) = Runs-append (Runs-app_locks w f) (Runs-apps_locks fs)

  Runs-notify_locks :
      (a : ℕ) (c : CallContext) (own : List ApiCall) (s : PushSdk)
      → Runs 1 (notify_locks w a c own s)
  Runs-notify_locks a c own s = Runs-if _ (Runs-leaf (ctx a) (omega arith)) (
      Runs-if _ (Runs-leaf event_cb (omega arith))
        (Runs-weaken (omega arith) (Runs-app_locks w own)))

  Runs-success_locks :
      (t : ResponseType) (c : CallContext) (s : PushSdk) → Runs 1 (success_locks w t c s)
  Runs-success_locks ResponseType.login c s =
      Runs-if c.is_retry (Runs-weaken (omega arith) (Runs-rejoin_group_locks w true s)) Runs-nil
  Runs-success_locks ResponseType.logout c s = Runs-nil
  Runs-success_locks ResponseType.join_group c s = Runs-nil
  Runs-success_locks ResponseType.leave_group c s = Runs-nil

  Runs-found_locks :
      (t : ResponseType) (res : Response) (f : Option Found) (s : PushSdk)
      → Runs 1 (found_locks w t res f s)
  Runs-found_locks t res none s = Runs-nil
  Runs-found_locks t res (some f) s =
      Runs-append (Runs-if _ (Runs-success_locks t (s.ctxs f.address) s) (Runs-failed_locks t))
        (Runs-notify_locks f.address (s.ctxs f.address) f.calls s)

  Runs-response_locks :
      (t : ResponseType) (res : Option Response) (f : Option Found) (s : PushSdk)
      → Runs 1 (response_locks w t res f s)
  Runs-response_locks t none f s = Runs-leaf event_cb (omega arith)
  Runs-response_locks t (some res) f s =
      Runs-append (Runs-leaf cb_map (omega arith)) (Runs-found_locks t res f s)

  Runs-handed :
      (fs : List (List ApiCall))
      → Runs 1 (locked user [] ++ locked hdls (apps_locks (app_locks w) fs))
  Runs-handed fs =
      Runs-append (Runs-leaf user (omega arith))
        (Runs-locked hdls (omega arith) (Runs-apps_locks fs))

  -- The client's thread reports under stream_mux_.
  Runs-reported_locks :
      (r : Reported (List ApiCall)) (s : PushSdk) → Runs 1 (reported_locks w (app_locks w) r s)
  Runs-reported_locks nothing s = Runs-nil
  Runs-reported_locks connected s = Runs-weaken (omega arith) (Runs-relogin_locks w true false s)
  Runs-reported_locks (response t res f) s = Runs-response_locks t res f s
  Runs-reported_locks notify_to_close s =
      Runs-append (Runs-leaf user (omega arith))
        (Runs-if _ (Runs-leaf event_cb (omega arith)) Runs-nil)
  Runs-reported_locks (group_message m apps) s =
      Runs-if _ (Runs-handed apps) (Runs-locked user (omega arith) (Runs-send_locks (omega arith)))
  Runs-reported_locks (user_message apps) s =
      Runs-if _ (Runs-handed apps) (Runs-locked user (omega arith) (Runs-send_locks (omega arith)))

  Runs-turn_locks :
      (t : Turn (List ApiCall)) (s : PushSdk) → Runs 0 (turn_locks w (app_locks w) t s)
  Runs-turn_locks finishes s = Runs-leaf stream (omega arith)
  Runs-turn_locks restarts s = Runs-locked_wait stream (omega arith)
  Runs-turn_locks (handles sends r) s = Runs-locked stream (omega arith) (
      Runs-append (Runs-if sends (Runs-leaf msg_queue (omega arith)) Runs-nil)
        (Runs-reported_locks r s))

  Runs-again_locks : (t : CbType) (s : PushSdk) → Runs 0 (again_locks w t s)
  Runs-again_locks CbType.login s = Runs-weaken (omega arith) (Runs-relogin_locks w false true s)
  Runs-again_locks CbType.logout s = Runs-nil
  Runs-again_locks CbType.join_group s =
      Runs-weaken (omega arith) (Runs-rejoin_group_locks w false s)
  Runs-again_locks CbType.leave_group s = Runs-nil
  Runs-again_locks CbType.inner_err s = Runs-nil

  Runs-expired_locks : (fs : List (Found × PushSdk)) → Runs 0 (expired_locks w fs)
  Runs-expired_locks [] = Runs-nil
  Runs-expired_locks ((f, s) ∷ fs) =
      Runs-append
        (Runs-append (Runs-if _ (Runs-again_locks _ s) Runs-nil)
          (Runs-weaken (omega arith) (Runs-notify_locks f.address (s.ctxs f.address) f.calls s)))
        (Runs-expired_locks fs)

  Runs-delivered_locks :
      (es : List (CbType × List ApiCall × PushSdk)) → Runs 0 (delivered_locks w es)
  Runs-delivered_locks [] = Runs-nil
  Runs-delivered_locks ((type, app, s) ∷ es) =
      Runs-append
        (Runs-append (Runs-weaken (omega arith) (Runs-app_locks w app)) (Runs-item_locks type s))
        (Runs-delivered_locks es)

  Runs-waited : (waits : Bool) (m : Lock) → Runs 0 (if waits then locked_wait m else locked m [])
  Runs-waited waits m = Runs-if waits (Runs-locked_wait m (omega arith)) (Runs-leaf m (omega arith))

  Runs-locks_of : (a : Activity) → Runs 0 (locks_of w a)
  Runs-locks_of (calls c) = Runs-weaken (omega arith) (Runs-api_locks w c)
  Runs-locks_of sets_handler = Runs-leaf hdls (omega arith)
  Runs-locks_of destroys =
      Runs-append (Runs-append (Runs-leaf event_cb (omega arith)) (Runs-leaf cb_map (omega arith)))
        (Runs-leaf stream (omega arith))
  Runs-locks_of (polls apps t s) =
      Runs-append (Runs-weaken (omega arith) (Runs-apps_locks apps)) (Runs-turn_locks t s)
  Runs-locks_of (times_out waits fs) =
      Runs-append (Runs-waited waits cb_map) (Runs-expired_locks fs)
  Runs-locks_of (delivers waits es) =
      Runs-append (Runs-waited waits event_cb) (Runs-delivered_locks es)
  Runs-locks_of (uploads waits n) =
      Runs-append (Runs-waited waits elk) (Runs-posts_locks n (omega arith))

  Runs-all_locks : (xs : List Activity) → Runs 0 (all_locks w xs)
  Runs-all_locks [] = Runs-nil
  Runs-all_locks (a ∷ rest) = Runs-append (Runs-locks_of a) (Runs-all_locks rest)

  started-AllOrdered : (programs : List (List Activity)) → AllOrdered (started w programs)
  started-AllOrdered [] = tt
  started-AllOrdered (xs ∷ programs) =
      (Runs-Ordered (Runs-all_locks xs), started-AllOrdered programs)

  -- Threads that call the functions of the API and run the rounds of the SDK's threads, each any number
  -- of times and in any order, where callbacks make only calls of the functions that lock `_mux`: after
  -- any schedule there is a schedule that brings all of them to their end, with no mutex held. Joins with
  -- threads are not in it.
  pub no_deadlock :
      (programs : List (List Activity)) (is : List ℕ) (mid : List Thread)
      → turns is (started w programs) ≡ some mid
      → (js : List ℕ) × (all' : List Thread) × (turns js mid ≡ some all') × AllDone all'
  no_deadlock programs is mid e =
      turns-finish is (started w programs) mid (started-AllOrdered programs) e
