-- ===== src/Sdk/Steps.antt =====
-- A rule for the steps of PushSDK: what each function that changes the state keeps, every step and
-- every sequence of steps keeps.
mod Rule
mod Timers
mod Messages
pub use Rule.{Preserves}
use grpc_push_sdk.Client.{
  Client, Poll, Callback, notify_channel_state, on_connected, on_message, poll,
}
use grpc_push_sdk.Common.{
  ℕ, zero, suc, ◌≡◌, inl, inr, Bool, false, List, [], ◌∷◌, ◌++◌, Option, some, arith, Bool-cases,
  Option-cases, length, ◌==◌, bytes,
}
use grpc_push_sdk.Elk
use grpc_push_sdk.Elk.{Uploader}
use grpc_push_sdk.Decimal.{stoll}
use grpc_push_sdk.Int.{ℤ, pos, negsuc}
use grpc_push_sdk.Packet.{
  World, PushData, PushRegReq, Response, ResponseType, make_leave_group_packet, make_logout_packet,
}
use grpc_push_sdk.Sdk.CallMap
use grpc_push_sdk.Sdk.Calls.{notify, send_to}
use grpc_push_sdk.Sdk.Groups.{dump_all_group_info}
use grpc_push_sdk.Sdk.Handlers
use grpc_push_sdk.Sdk.Lifecycle.{initialize_sdk, destroy_begin, destroy_end}
use grpc_push_sdk.Sdk.Methods.{Asynchronous, login, logout, join_group, leave_group, finish_call}
use grpc_push_sdk.Sdk.Run.{
  Op, initializes, begins_destroy, ends_destroy, logs_in, logs_out, joins, leaves, finishes, polls,
  times_out, delivers, creates_handler, starts_elk, uploads, destroys_handler, sets_user_msg_cb,
  sets_group_msg_cb, sets_conn_state_cb, step, run,
}
use grpc_push_sdk.Sdk.Session.{
  relogin, handle_timeout_response, handle_success_response, handle_failed_response,
  handle_notify_to_close, get_now, after_reading,
}
use grpc_push_sdk.Sdk.State.{
  PushSdk, CallContext, EventCbContext, Handler, Invocation, event_cb, elk_upload,
}
use grpc_push_sdk.Sdk.Threads.{
  expire, sweep, check_timeouts, deliver, deliver_all, deliver_events, handle_callback,
  handle_callbacks, poll_of, poll_client, upload_code,
}
use grpc_push_sdk.Types.{CbType, CbEvent, UserInfo, GroupInfo, RetCode, res_success}
use grpc_push_sdk.Sdk.Steps.Timers.{check_timeouts-kept, deliver_events-kept}
use grpc_push_sdk.Sdk.Steps.Messages.{poll_client-kept}

module _ (w : World) (P : PushSdk → Type 0) (k : Preserves w P) where
  -- A property that each function keeps is kept by every step.
  pub step-kept : (op : Op) (s s' : PushSdk) → P s → step w op s ≡ some s' → P s'
  unfolding step Handlers.create_handler Handlers.destroy_handler
      Handlers.add_user_msg_cb_to_handler Handlers.add_group_msg_cb_to_handler
      Handlers.add_conn_state_cb_to_handler
  step-kept (initializes uid appid appkey cb arg garbage) s s' p e =
      ground (arith, k.after_initialize uid appid appkey cb arg garbage s p)
  step-kept (begins_destroy b) s s' p e = k.after_begin b s s' p e
  step-kept ends_destroy s s' p e = ground (arith, k.after_end s p)
  step-kept (logs_in u m) s s' p e = ground (arith, k.after_login u m s p)
  step-kept (logs_out m) s s' p e = ground (arith, k.after_logout m s p)
  step-kept (joins g m) s s' p e = ground (arith, k.after_join g m s p)
  step-kept (leaves g m) s s' p e = ground (arith, k.after_leave g m s p)
  step-kept (finishes info action a) s s' p e = ground (arith, k.after_finish info action a s p)
  step-kept (polls r) s s' p e = poll_client-kept w P k r s s' p e
  step-kept times_out s s' p e = ground (arith, check_timeouts-kept w P k s s' p)
  step-kept delivers s s' p e = ground (arith, deliver_events-kept w P k s p)
  step-kept creates_handler s s' p e = ground (
    arith,
    k.with_handlers (s.hdls ++ (s.next_hdl, Handlers.new_handler) ∷ []) (suc s.next_hdl) s p,
  )
  step-kept (destroys_handler h) s s' p e =
      ground (arith, k.with_handlers (Handlers.erase_handler h s.hdls) s.next_hdl s p)
  step-kept starts_elk s s' p e = ground (arith, k.with_elk (Elk.initialize s.elk) s p)
  step-kept (uploads attempts) s s' p e = elim (Option-cases (Elk.upload_round s.elk attempts)) [
    | inl busy ↦ ground arith
    | inr ((u, items, ok), ended) ↦ ground (arith, k.with_elk u s p)
  ]
  step-kept (sets_user_msg_cb h cb) s s' p e = ground (
    arith,
    k.with_handlers
        (Handlers.change_handler (λ (x : Handler). record x { user_msg_cb = some cb }) h s.hdls)
        s.next_hdl s p,
  )
  step-kept (sets_group_msg_cb h cb) s s' p e = ground (
    arith,
    k.with_handlers
        (Handlers.change_handler (λ (x : Handler). record x { group_msg_cb = some cb }) h s.hdls)
        s.next_hdl s p,
  )
  step-kept (sets_conn_state_cb h cb) s s' p e = ground (
    arith,
    k.with_handlers
        (Handlers.change_handler (λ (x : Handler). record x { conn_state_cb = some cb }) h s.hdls)
        s.next_hdl s p,
  )

  pub run-kept : (ops : List Op) (s s' : PushSdk) → P s → run w ops s ≡ some s' → P s'
  unfolding run
  run-kept [] s s' p e = ground arith
  run-kept (op ∷ ops) s s' p e = elim (Option-cases (step w op s)) [
    | inl fault ↦ ground arith
    | inr (t, e') ↦ run-kept ops t s' (step-kept op s t p e') (ground arith)
  ]
