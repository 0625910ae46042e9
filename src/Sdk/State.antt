-- ===== src/Sdk/State.antt =====
-- The state of PushSDK, of the contexts of its calls, and what it calls in the application.
use grpc_push_sdk.Client.{Client}
use grpc_push_sdk.Common.{ℕ, suc, Bool, false, List, [], ◌∷◌, ◌++◌, Option, none, bytes}
use grpc_push_sdk.Elk.{Uploader, Item, new_uploader, push}
use grpc_push_sdk.Int.{ℤ, pos}
use grpc_push_sdk.Packet.{World}
use grpc_push_sdk.Types.{CbType, CbEvent, ConnState, RetCode, UserInfo, res_success, res_etimeout}

-- A pointer to a function or to its arguments is a number, a null pointer is `none`.
pub record CallContext : Type 0 where
  pub type : CbType
  pub cb_func : Option ℕ
  pub cb_args : Option ℕ
  pub gtype : ℕ
  pub gid : ℕ
  pub is_retry : Bool
  pub call_done : Bool
  pub res : CbEvent
  pub desc : List ℕ
  pub code : ℤ

-- struct EventCBContext.
pub record EventCbContext : Type 0 where
  pub type : CbType
  pub res : CbEvent
  pub desc : List ℕ

-- struct Handler.
pub record Handler : Type 0 where
  pub user_msg_cb : Option ℕ
  pub group_msg_cb : Option ℕ
  pub conn_state_cb : Option ℕ

-- A call of a function of the application.
pub data Invocation : Type 0 where
  event_cb : Option ℕ → CbType → CbEvent → List ℕ → Option ℕ → Invocation
  user_msg_cb : ℕ → List ℕ → Invocation
  group_msg_cb : ℕ → ℕ → ℕ → List ℕ → Invocation
  conn_state_cb : ℕ → ConnState → Invocation

-- `ctxs` is the heap of the contexts, allocated below `next_ctx`; `hdls` has each handler behind its
-- address; `invoked` is the list of calls of the application so far, `reads` the number of readings
-- of a clock, `port_index` the counter that outlives a client.
pub record PushSdk : Type 0 where
  pub init : Bool
  pub uid : ℕ
  pub suid : ℕ
  pub appid : ℕ
  pub appkey : ℕ
  pub event_cb : Option ℕ
  pub event_cb_arg : Option ℕ
  pub client : Option Client
  pub logining : Bool
  pub desc : List ℕ
  pub code : ℤ
  pub hdls : List (ℕ × Handler)
  pub next_hdl : ℕ
  pub user : Option UserInfo
  pub groups : List (ℕ × ℕ)
  pub cb_map : List (ℕ × ℕ)
  pub ctxs : ℕ → CallContext
  pub next_ctx : ℕ
  pub event_cb_pctxs : List EventCbContext
  pub threads : Bool
  pub elk : Uploader
  pub invoked : List Invocation
  pub reads : ℕ
  pub port_index : ℕ

-- The constructor of CallContext, with what `call` and `call_sync` set at once.
abbrev pub new_context : CbType → Option ℕ → Option ℕ → ℕ → ℕ → Bool → CallContext
new_context type cb_func cb_args gtype gid is_retry = record {
  type = type;
  cb_func = cb_func;
  cb_args = cb_args;
  gtype = gtype;
  gid = gid;
  is_retry = is_retry;
  call_done = false;
  res = CbEvent.ok;
  desc = bytes "timeout";
  code = pos res_etimeout;
}

-- The constructor of PushSDK. `heap` is memory that nothing has been written to.
unfoldable pub new_sdk : (ℕ → CallContext) → PushSdk
new_sdk heap = record {
  init = false;
  uid = 0;
  suid = 0;
  appid = 0;
  appkey = 0;
  event_cb = none;
  event_cb_arg = none;
  client = none;
  logining = false;
  desc = bytes "ok";
  code = pos res_success;
  hdls = [];
  next_hdl = 1;
  user = none;
  groups = [];
  cb_map = [];
  ctxs = heap;
  next_ctx = 0;
  event_cb_pctxs = [];
  threads = false;
  elk = new_uploader;
  invoked = [];
  reads = 0;
  port_index = 0;
}

-- An event for the thread of the global callback, at the end of its queue.
abbrev pub push_event : CbType → CbEvent → List ℕ → PushSdk → PushSdk
push_event type res desc s = record s {
  event_cb_pctxs = s.event_cb_pctxs ++ record { type = type; res = res; desc = desc } ∷ [];
}

module _ (w : World) where
  -- ELK_UPLOAD with the arguments that all its uses share.
  unfoldable pub elk_upload : List ℕ → List ℕ → RetCode → List ℕ → PushSdk → PushSdk
  elk_upload group_info action code msg s =
      let item : Item = record {
        system_time = w.system_time s.reads;
        appid = s.appid;
        uid = s.uid;
        suid = s.suid;
        group_info = group_info;
        action = action;
        code = code;
        msg = msg;
      } in
      record s { elk = (push s.elk item).uploader; reads = suc s.reads }
