-- ===== src/Sdk/Threads.antt =====
-- The three threads of an initialized PushSDK: the one that times calls out, the one that serves the
-- global callback, and the client's, whose callbacks PushSDK handles.
pub mod Timeouts
use grpc_push_sdk.Client.{
  Client, Poll, Callback, notify_channel_state, on_connected, on_message, poll,
}
use grpc_push_sdk.Common.{
  ℕ, zero, suc, ◌-◌, Bool, true, false, List, [], ◌∷◌, ◌++◌, Option, none, some, leb, if◌then◌else◌,
  length, bytes,
}
use grpc_push_sdk.Config.{call_timeout_interval}
use grpc_push_sdk.Int.{pos}
use grpc_push_sdk.Packet.{World}
use grpc_push_sdk.Sdk.CallMap
use grpc_push_sdk.Sdk.Calls.{notify}
use grpc_push_sdk.Sdk.Groups.{dump_all_group_info}
use grpc_push_sdk.Sdk.Handlers
use grpc_push_sdk.Sdk.Messages
use grpc_push_sdk.Sdk.Session.{relogin, handle_timeout_response, get_now, after_reading}
use grpc_push_sdk.Sdk.State.{PushSdk, EventCbContext, event_cb, elk_upload}
use grpc_push_sdk.Types.{CbType, CbEvent, RetCode, res_etimeout}
use grpc_push_sdk.Utils.{nano_seconds_to_milli_seconds}

-- `now - call_time` stops at 0 here; a negative difference is no timeout in the source either.
abbrev pub is_expired : ℕ → ℕ → Bool
is_expired now call_time =
    leb call_timeout_interval (nano_seconds_to_milli_seconds (now - call_time))

-- The code that goes with a log item of the event thread.
abbrev pub upload_code : CbEvent → RetCode
upload_code CbEvent.timeout = RetCode.call_timeout
upload_code CbEvent.ok = RetCode.success
upload_code _ = RetCode.call_failed

module _ (w : World) where
  -- The body of the inner loop for an entry that is too old.
  unfoldable pub expire : ℕ → ℕ → PushSdk → PushSdk
  expire call_time a s =
      let s' =
        notify a CbEvent.timeout (bytes "timeout") (pos res_etimeout)
          (handle_timeout_response w (s.ctxs a) s) in
      record s' { cb_map = CallMap.erase call_time s'.cb_map }

  -- The inner loop, from the oldest entry on. `none` says that the fuel ran out.
  unfoldable pub sweep : ℕ → ℕ → List (ℕ × ℕ) → PushSdk → Option PushSdk
  sweep fuel now [] s = some s
  sweep zero now ((call_time, a) ∷ m) s = none
  sweep (suc fuel) now ((call_time, a) ∷ m) s =
      let s' = expire call_time a s in
      let rest = sweep fuel now s'.cb_map s' in if is_expired now call_time then rest else some s

  -- A round of the thread. Each expired entry is erased, and a retry adds none that has expired, so
  -- one unit of fuel for each entry, and one for the test that ends the loop, are enough.
  unfoldable pub check_timeouts : PushSdk → Option PushSdk
  unfolding sweep
  check_timeouts s = sweep (suc (length s.cb_map)) (get_now w s) s.cb_map (after_reading w s)

  unfoldable pub deliver : EventCbContext → PushSdk → PushSdk
  deliver ctx s =
      let s' = record s {
        invoked = s.invoked ++ event_cb s.event_cb ctx.type ctx.res ctx.desc s.event_cb_arg ∷ [];
      } in
      elim ctx.type [
        | CbType.login ↦ elk_upload w [] (bytes "ReLogin") (upload_code ctx.res) ctx.desc s'
        | CbType.join_group ↦
            elk_upload w (dump_all_group_info s.groups) (bytes "ReJoinGroup") (upload_code ctx.res)
              ctx.desc s'
        | _ ↦ s'
      ]

  unfoldable pub deliver_all : List EventCbContext → PushSdk → PushSdk
  unfolding deliver
  deliver_all [] s = s
  deliver_all (ctx ∷ ctxs) s = deliver_all ctxs (deliver ctx s)

  -- A round of the thread: the queue is swapped out, and then served.
  unfoldable pub deliver_events : PushSdk → PushSdk
  unfolding deliver_all
  deliver_events s = deliver_all s.event_cb_pctxs (record s { event_cb_pctxs = [] })

  unfoldable pub handle_callback : Callback → PushSdk → Option PushSdk
  handle_callback (notify_channel_state state) s = some (Handlers.notify_channel_state state s)
  handle_callback on_connected s = some (relogin w false s)
  handle_callback (on_message msg) s = Messages.on_message w msg s

  infixl 5 ◌>>=◌
  abbrev ◌>>=◌ : {A B : Type 0} → Option A → (A → Option B) → Option B
  none >>= f = none
  some a >>= f = f a

  unfoldable pub handle_callbacks : List Callback → PushSdk → Option PushSdk
  unfolding handle_callback
  handle_callbacks [] s = some s
  handle_callbacks (c ∷ cs) s = do s' ← handle_callback c s; handle_callbacks cs s'

  unfoldable pub poll_of : Option Client → Poll → PushSdk → Option PushSdk
  unfolding handle_callbacks
  poll_of none p s = some s
  poll_of (some c) p s = do
    (c', calls) ← poll w.terminal_type c p
    handle_callbacks calls (record s { client = some c' })

  -- A round of the client's thread. The client does nothing after a callback in its round, so the
  -- callbacks run on the client that the round has left.
  unfoldable pub poll_client : Poll → PushSdk → Option PushSdk
  unfolding poll_of
  poll_client p s = poll_of s.client p s
