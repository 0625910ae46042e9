-- ===== src/Sdk/Lifecycle.antt =====
-- PushSDK::Initialize and Destroy. `Destroy` has two halves, around the join with the client's
-- thread; `garbage` is the value of a local of that thread that it does not initialize.
use grpc_push_sdk.Client.{
  released, Client, new_client, initialize, request_quit, set_channel_state_listener,
  set_client_status_listener, set_message_handler,
}
use grpc_push_sdk.Common.{ℕ, Bool, true, false, [], Option, none, some, if◌then◌else◌}
use grpc_push_sdk.Packet.{World, session_suid}
use grpc_push_sdk.Sdk.State.{PushSdk}
use grpc_push_sdk.Types.{RetCode}

-- The three calls before Client::Initialize.
abbrev with_listeners : Client → Client
with_listeners c = set_message_handler (set_client_status_listener (set_channel_state_listener c))

unfoldable pub initialized : Client × RetCode → PushSdk → PushSdk × RetCode
initialized (c, RetCode.success) s =
    (record s { client = some c; threads = true; init = true }, RetCode.success)
initialized (c, ret) s = (record s { client = some c }, ret)

module _ (w : World) where
  unfoldable pub initialize_sdk :
      ℕ → ℕ → ℕ → Option ℕ → Option ℕ → Bool → PushSdk → PushSdk × RetCode
  unfolding initialized
  initialize_sdk uid appid appkey cb_func cb_args garbage s =
      if s.init
      then (s, RetCode.already_init)
      else initialized
          (initialize (with_listeners (new_client s.port_index garbage)) uid (session_suid w uid))
          (record s {
            uid = uid;
            suid = session_suid w uid;
            appid = appid;
            appkey = appkey;
            event_cb = cb_func;
            event_cb_arg = cb_args;
          })

abbrev quit_client : Option Client → Option Client
quit_client none = none
quit_client (some c) = some (request_quit c)

-- `none` is the exception that is thrown to the thread of the global callback.
unfoldable pub destroy_begin : Bool → PushSdk → Option PushSdk
destroy_begin in_event_thread s =
    if s.init
    then if in_event_thread
      then none
      else some (record s { threads = false; event_cb_pctxs = []; client = quit_client s.client })
    else some s

-- The counter that outlives the client.
abbrev port_of : Option Client → ℕ → ℕ
port_of none old = old
port_of (some c) old = (released c).port_index

abbrev pub has_ended : Option Client → Bool
has_ended none = true
has_ended (some c) = if c.run then false else true

-- The join returns once the client's thread has ended.
unfoldable pub destroy_end : PushSdk → PushSdk
destroy_end s =
    if s.init
    then if has_ended s.client
      then record s {
        port_index = port_of s.client s.port_index;
        client = none;
        init = false;
        cb_map = [];
        user = none;
        groups = [];
      }
      else s
    else s
