-- ===== src/Sdk/Steps/Rule.antt =====
-- What a property has to be kept by, to be kept by every step of PushSDK: the functions that change
-- the session, and the changes of single fields.
use grpc_push_sdk.Client.{Client}
use grpc_push_sdk.Common.{ℕ, ◌≡◌, Bool, List, Option, some}
use grpc_push_sdk.Elk.{Uploader}
use grpc_push_sdk.Int.{ℤ}
use grpc_push_sdk.Packet.{World, PushRegReq, ResponseType}
use grpc_push_sdk.Sdk.CallMap
use grpc_push_sdk.Sdk.Calls.{notify, send_to}
use grpc_push_sdk.Sdk.Lifecycle.{initialize_sdk, destroy_begin, destroy_end}
use grpc_push_sdk.Sdk.Methods.{Asynchronous, login, logout, join_group, leave_group, finish_call}
use grpc_push_sdk.Sdk.Session.{
  relogin, handle_timeout_response, handle_success_response, handle_failed_response,
  handle_notify_to_close,
}
use grpc_push_sdk.Sdk.State.{PushSdk, CallContext, EventCbContext, Handler, Invocation, elk_upload}
use grpc_push_sdk.Types.{CbEvent, UserInfo, GroupInfo, RetCode}

pub record Preserves (w : World) (P : PushSdk → Type 0) : Type 0 where
  pub after_relogin : (b : Bool) (s : PushSdk) → P s → P (relogin w b s)
  pub after_timeout : (ctx : CallContext) (s : PushSdk) → P s → P (handle_timeout_response w ctx s)
  pub after_success :
      (t : ResponseType) (ctx : CallContext) (s : PushSdk)
      → P s
      → P (handle_success_response w t ctx s)
  pub after_failure :
      (t : ResponseType) (ctx : CallContext) (s : PushSdk)
      → P s
      → P (handle_failed_response t ctx s)
  pub after_close : (s : PushSdk) → P s → P (handle_notify_to_close s)
  pub after_notify :
      (a : ℕ) (res : CbEvent) (desc : List ℕ) (code : ℤ) (s : PushSdk)
      → P s
      → P (notify a res desc code s)
  pub after_upload :
      (info action : List ℕ) (code : RetCode) (msg : List ℕ) (s : PushSdk)
      → P s
      → P (elk_upload w info action code msg s)
  pub with_invoked : (l : List Invocation) (s : PushSdk) → P s → P (record s { invoked = l })
  pub with_pctxs :
      (l : List EventCbContext) (s : PushSdk) → P s → P (record s { event_cb_pctxs = l })
  pub with_elk : (u : Uploader) (s : PushSdk) → P s → P (record s { elk = u })
  pub with_reads : (n : ℕ) (s : PushSdk) → P s → P (record s { reads = n })
  pub with_handlers :
      (l : List (ℕ × Handler)) (n : ℕ) (s : PushSdk) → P s → P (record s { hdls = l; next_hdl = n })
  pub with_erased :
      (ts : ℕ) (s : PushSdk) → P s → P (record s { cb_map = CallMap.erase ts s.cb_map })
  pub with_sent :
      (req : PushRegReq) (s : PushSdk) → P s → P (record s { client = send_to s.client req })
  pub with_client :
      (c c' : Client) (s : PushSdk) → s.client ≡ some c → P s → P (record s { client = some c' })
  pub after_login : (u : UserInfo) (m : Asynchronous) (s : PushSdk) → P s → P (login w u m s).0
  pub after_logout : (m : Asynchronous) (s : PushSdk) → P s → P (logout w m s).0
  pub after_join : (g : GroupInfo) (m : Asynchronous) (s : PushSdk) → P s → P (join_group w g m s).0
  pub after_leave :
      (g : GroupInfo) (m : Asynchronous) (s : PushSdk) → P s → P (leave_group w g m s).0
  pub after_finish :
      (info action : List ℕ) (a : ℕ) (s : PushSdk) → P s → P (finish_call w info action a s).0
  pub after_initialize :
      (uid appid appkey : ℕ) (cb arg : Option ℕ) (garbage : Bool) (s : PushSdk)
      → P s
      → P (initialize_sdk w uid appid appkey cb arg garbage s).0
  pub after_begin : (b : Bool) (s s' : PushSdk) → P s → destroy_begin b s ≡ some s' → P s'
  pub after_end : (s : PushSdk) → P s → P (destroy_end s)
