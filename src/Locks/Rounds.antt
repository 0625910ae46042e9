-- ===== src/Locks/Rounds.antt =====
-- What a round of each thread of the SDK locks, and the functions of the application that it calls, as
-- lists of the calls that each makes.
use grpc_push_sdk.Common.{
  ℕ, zero, suc, Bool, true, false, List, [], ◌∷◌, ◌++◌, Option, none, some, ◌==◌, if◌then◌else◌,
  is_some, not, ◌&&◌,
}
use grpc_push_sdk.Locks.{
  Act, Thread, locked, stream, hdls, user, cb_map, event_cb, msg_queue, elk, http, ctx,
}
use grpc_push_sdk.Locks.Methods.{
  ApiCall, app_locks, locked_wait, elk_locks, send_locks, relogin_locks, rejoin_group_locks,
  api_locks,
}
use grpc_push_sdk.Packet.{World, PushData, Response, ResponseType}
use grpc_push_sdk.Sdk.Calls.{same_func}
use grpc_push_sdk.Sdk.Groups.{is_group_info_exists}
use grpc_push_sdk.Sdk.State.{PushSdk, CallContext}
use grpc_push_sdk.Types.{CbType, res_success}

-- CreateHandler, DestroyHandler and the three functions that add a callback.
abbrev pub handler_locks : List Act
handler_locks = locked hdls []

-- An answer to the call at an address: the address, and the calls of its own function, if it has one.
pub record Found : Type 0 where
  pub address : ℕ
  pub calls : List ApiCall

-- What Stream::Process makes the client's thread report; `F` stands for the functions that the
-- application has given the handlers.
pub data Reported (F : Type 0) : Type 0 where
  nothing connected : Reported F
  response : ResponseType → Option Response → Option Found → Reported F
  notify_to_close : Reported F
  group_message : PushData → List F → Reported F
  user_message : List F → Reported F

-- What a round of the client's thread does under stream_mux_: it ends the stream's life or its own, sends
-- what is queued if the stream is ready, or also processes an event.
pub data Turn (F : Type 0) : Type 0 where
  finishes restarts : Turn F
  handles : Bool → Reported F → Turn F

abbrev pub failed_locks : ResponseType → List Act
failed_locks ResponseType.login = locked user []
failed_locks ResponseType.join_group = locked user []
failed_locks _ = []

abbrev pub item_locks : CbType → PushSdk → List Act
item_locks CbType.login s = elk_locks s
item_locks CbType.join_group s = locked user [] ++ elk_locks s
item_locks _ s = []

-- One function of the application after the other, each with what it locks.
abbrev pub apps_locks : {F : Type 0} → (F → List Act) → List F → List Act
apps_locks f_locks [] = []
apps_locks f_locks (f ∷ fs) = f_locks f ++ apps_locks f_locks fs

module _ (w : World) where
  -- notify, for a context that a call waits on, one with the global function, or one with its own.
  abbrev pub notify_locks : ℕ → CallContext → List ApiCall → PushSdk → List Act
  notify_locks a c own s =
      if not (is_some c.cb_func) && not (is_some c.cb_args)
      then locked (ctx a) []
      else if same_func c.cb_func s.event_cb
      then locked event_cb []
      else app_locks w own

  abbrev pub success_locks : ResponseType → CallContext → PushSdk → List Act
  success_locks ResponseType.login c s = if c.is_retry then rejoin_group_locks w true s else []
  success_locks _ c s = []

  abbrev pub found_locks : ResponseType → Response → Option Found → PushSdk → List Act
  found_locks t res none s = []
  found_locks t res (some f) s =
      (if res.res_code == res_success then success_locks t (s.ctxs f.address) s else failed_locks t)
      ++ notify_locks f.address (s.ctxs f.address) f.calls s

  -- handle_response<T>.
  abbrev pub response_locks : ResponseType → Option Response → Option Found → PushSdk → List Act
  response_locks t none f s = locked event_cb []
  response_locks t (some res) f s = locked cb_map [] ++ found_locks t res f s

  -- OnConnected and OnMessage.
  abbrev pub reported_locks : {F : Type 0} → (F → List Act) → Reported F → PushSdk → List Act
  reported_locks f_locks nothing s = []
  reported_locks f_locks connected s = relogin_locks w true false s
  reported_locks f_locks (response t res f) s = response_locks t res f s
  reported_locks f_locks notify_to_close s =
      locked user [] ++ (if is_some s.user then locked event_cb [] else [])
  reported_locks f_locks (group_message m apps) s =
      if is_group_info_exists m.group_type m.group_id s.groups
      then locked user [] ++ locked hdls (apps_locks f_locks apps)
      else locked user send_locks
  reported_locks f_locks (user_message apps) s =
      if is_some s.user
      then locked user [] ++ locked hdls (apps_locks f_locks apps)
      else locked user send_locks

  abbrev pub turn_locks : {F : Type 0} → (F → List Act) → Turn F → PushSdk → List Act
  turn_locks f_locks finishes s = locked stream []
  turn_locks f_locks restarts s = locked stream [] ++ locked stream []
  turn_locks f_locks (handles sends r) s =
      locked stream ((if sends then locked msg_queue [] else []) ++ reported_locks f_locks r s)

  -- A round of the client's thread; NotifyChannelState calls the application with no lock.
  abbrev pub client_locks : {F : Type 0} → (F → List Act) → List F → Turn F → PushSdk → List Act
  client_locks f_locks apps t s = apps_locks f_locks apps ++ turn_locks f_locks t s

  abbrev pub again_locks : CbType → PushSdk → List Act
  again_locks CbType.login s = relogin_locks w false true s
  again_locks CbType.join_group s = rejoin_group_locks w false s
  again_locks _ s = []

  -- handle_timeout_response.
  abbrev pub timeout_locks : CallContext → PushSdk → List Act
  timeout_locks c s = if c.is_retry then again_locks c.type s else []

  -- The calls that a round of the timeout thread ends, each with the state that it finds.
  abbrev pub expired_locks : List (Found × PushSdk) → List Act
  expired_locks [] = []
  expired_locks ((f, s) ∷ fs) =
      timeout_locks (s.ctxs f.address) s
      ++ notify_locks f.address (s.ctxs f.address) f.calls s
      ++ expired_locks fs

  -- A round of the event thread: for each event the global function, and the log item.
  abbrev pub delivered_locks : List (CbType × List ApiCall × PushSdk) → List Act
  delivered_locks [] = []
  delivered_locks ((type, app, s) ∷ es) = app_locks w app ++ item_locks type s ++ delivered_locks es

-- The posts of a round of the uploader, at most `n`.
abbrev pub posts_locks : ℕ → List Act
posts_locks zero = []
posts_locks (suc n) = locked http [] ++ posts_locks n

-- Client::Destroy, before it joins with the thread.
abbrev pub client_destroy_locks : List Act
client_destroy_locks = locked stream []

-- PushSDK::Destroy, which also joins with the threads in between.
abbrev pub destroy_locks : List Act
destroy_locks = locked event_cb [] ++ locked cb_map [] ++ client_destroy_locks

-- What a thread, of the SDK or of the application, does from time to time.
pub data Activity : Type 0 where
  calls : ApiCall → Activity
  sets_handler destroys : Activity
  polls : List (List ApiCall) → Turn (List ApiCall) → PushSdk → Activity
  times_out : Bool → List (Found × PushSdk) → Activity
  delivers : Bool → List (CbType × List ApiCall × PushSdk) → Activity
  uploads : Bool → ℕ → Activity

module _ (w : World) where
  abbrev pub locks_of : Activity → List Act
  locks_of (calls c) = api_locks w c
  locks_of sets_handler = handler_locks
  locks_of destroys = destroy_locks
  locks_of (polls apps t s) = client_locks w (app_locks w) apps t s
  locks_of (times_out waits fs) =
      (if waits then locked_wait cb_map else locked cb_map []) ++ expired_locks w fs
  locks_of (delivers waits es) =
      (if waits then locked_wait event_cb else locked event_cb []) ++ delivered_locks w es
  locks_of (uploads waits n) = (if waits then locked_wait elk else locked elk []) ++ posts_locks n

  -- A thread with a sequence of activities before it.
  abbrev pub all_locks : List Activity → List Act
  all_locks [] = []
  all_locks (a ∷ rest) = locks_of a ++ all_locks rest

  -- The threads before their first act; the joins with threads are not in their sequences.
  abbrev pub started : List (List Activity) → List Thread
  started [] = []
  started (xs ∷ programs) = record { held = []; todo = all_locks xs } ∷ started programs
