-- ===== src/Sdk/Run.antt =====
-- The interleavings: each operation of PushSDK that some thread runs, as one step, and sequences of
-- steps. A synchronous call is two steps, and any steps may stand in between.
use grpc_push_sdk.Client.{Poll}
use grpc_push_sdk.Common.{ℕ, Bool, List, [], ◌∷◌, Option, none, some, if◌then◌else◌}
use grpc_push_sdk.Elk
use grpc_push_sdk.Elk.{Uploader, Item}
use grpc_push_sdk.Http.{Exchange}
use grpc_push_sdk.Packet.{World}
use grpc_push_sdk.Sdk.Handlers
use grpc_push_sdk.Sdk.Lifecycle.{initialize_sdk, destroy_begin, destroy_end}
use grpc_push_sdk.Sdk.Methods.{Asynchronous, login, logout, join_group, leave_group, finish_call}
use grpc_push_sdk.Sdk.State.{PushSdk}
use grpc_push_sdk.Sdk.Threads.{check_timeouts, deliver_events, poll_client}
use grpc_push_sdk.Types.{UserInfo, GroupInfo}

pub data Op : Type 0 where
  initializes : ℕ → ℕ → ℕ → Option ℕ → Option ℕ → Bool → Op
  begins_destroy : Bool → Op
  ends_destroy : Op
  logs_in : UserInfo → Asynchronous → Op
  logs_out : Asynchronous → Op
  joins : GroupInfo → Asynchronous → Op
  leaves : GroupInfo → Asynchronous → Op
  finishes : List ℕ → List ℕ → ℕ → Op
  polls : Poll → Op
  times_out : Op
  delivers : Op
  starts_elk : Op
  uploads : List (Exchange × Bool) → Op
  creates_handler : Op
  destroys_handler : ℕ → Op
  sets_user_msg_cb : ℕ → ℕ → Op
  sets_group_msg_cb : ℕ → ℕ → Op
  sets_conn_state_cb : ℕ → ℕ → Op

-- A round of the uploader's thread; it takes the queue at its beginning, so what is pushed meanwhile
-- stands after it.
abbrev uploaded : Option (Uploader × List Item × Bool) → PushSdk → Option PushSdk
uploaded none s = none
uploaded (some (u, items, ok)) s = some (record s { elk = u })

module _ (w : World) where
  unfoldable pub step : Op → PushSdk → Option PushSdk
  step (initializes uid appid appkey cb arg garbage) s =
      some (initialize_sdk w uid appid appkey cb arg garbage s).0
  step (begins_destroy in_event_thread) s = destroy_begin in_event_thread s
  step ends_destroy s = some (destroy_end s)
  step (logs_in user mode) s = some (login w user mode s).0
  step (logs_out mode) s = some (logout w mode s).0
  step (joins g mode) s = some (join_group w g mode s).0
  step (leaves g mode) s = some (leave_group w g mode s).0
  step (finishes group_info action a) s = some (finish_call w group_info action a s).0
  step (polls p) s = poll_client w p s
  step times_out s = if s.threads then check_timeouts w s else some s
  step delivers s = some (if s.threads then deliver_events w s else s)
  step starts_elk s = some (record s { elk = Elk.initialize s.elk })
  step (uploads attempts) s = uploaded (Elk.upload_round s.elk attempts) s
  step creates_handler s = some (Handlers.create_handler s).0
  step (destroys_handler hdl) s = some (Handlers.destroy_handler hdl s)
  step (sets_user_msg_cb hdl cb) s = some (Handlers.add_user_msg_cb_to_handler hdl cb s)
  step (sets_group_msg_cb hdl cb) s = some (Handlers.add_group_msg_cb_to_handler hdl cb s)
  step (sets_conn_state_cb hdl cb) s = some (Handlers.add_conn_state_cb_to_handler hdl cb s)

  -- `none` where a step ends the process, or where a round of the uploader has not ended.
  unfoldable pub run : List Op → PushSdk → Option PushSdk
  run [] s = some s
  run (op ∷ ops) s = elim (step op s) [ none ↦ none | some s' ↦ run ops s' ]
