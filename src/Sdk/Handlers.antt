-- ===== src/Sdk/Handlers.antt =====
-- The handlers of the application: PushSDK::CreateHandler, DestroyHandler, the three functions that
-- add a callback, and NotifyChannelState.
use grpc_push_sdk.Common.{ℕ, suc, List, [], ◌∷◌, ◌++◌, none, some, ◌==◌, if◌then◌else◌}
use grpc_push_sdk.Sdk.State.{PushSdk, Handler, Invocation, conn_state_cb}
use grpc_push_sdk.Types.{ChannelState, ConnState}

-- The constructor of Handler.
abbrev pub new_handler : Handler
new_handler = record { user_msg_cb = none; group_msg_cb = none; conn_state_cb = none }

unfoldable pub create_handler : PushSdk → PushSdk × ℕ
create_handler s = (
  record s { hdls = s.hdls ++ (s.next_hdl, new_handler) ∷ []; next_hdl = suc s.next_hdl },
  s.next_hdl,
)

unfoldable pub erase_handler : ℕ → List (ℕ × Handler) → List (ℕ × Handler)
erase_handler hdl [] = []
erase_handler hdl ((a, h) ∷ hdls) = if a == hdl then hdls else (a, h) ∷ erase_handler hdl hdls

unfoldable pub destroy_handler : ℕ → PushSdk → PushSdk
unfolding erase_handler
destroy_handler hdl s = record s { hdls = erase_handler hdl s.hdls }

-- The loop of the three `Add…CBToHandler`: the first handler at the address is changed.
unfoldable pub change_handler : (Handler → Handler) → ℕ → List (ℕ × Handler) → List (ℕ × Handler)
change_handler f hdl [] = []
change_handler f hdl ((a, h) ∷ hdls) =
    if a == hdl then (a, f h) ∷ hdls else (a, h) ∷ change_handler f hdl hdls

unfoldable pub add_user_msg_cb_to_handler : ℕ → ℕ → PushSdk → PushSdk
unfolding change_handler
add_user_msg_cb_to_handler hdl cb s = record s {
  hdls = change_handler (λ h. record h { user_msg_cb = some cb }) hdl s.hdls;
}

unfoldable pub add_group_msg_cb_to_handler : ℕ → ℕ → PushSdk → PushSdk
unfolding change_handler
add_group_msg_cb_to_handler hdl cb s = record s {
  hdls = change_handler (λ h. record h { group_msg_cb = some cb }) hdl s.hdls;
}

unfoldable pub add_conn_state_cb_to_handler : ℕ → ℕ → PushSdk → PushSdk
unfolding change_handler
add_conn_state_cb_to_handler hdl cb s = record s {
  hdls = change_handler (λ h. record h { conn_state_cb = some cb }) hdl s.hdls;
}

abbrev pub conn_state_of : ChannelState → ConnState
conn_state_of ChannelState.ok = ConnState.ok
conn_state_of _ = ConnState.no_ready

unfoldable pub call_conn_state_cbs : ConnState → List (ℕ × Handler) → List Invocation
call_conn_state_cbs state [] = []
call_conn_state_cbs state ((a, h) ∷ hdls) =
    let rest = call_conn_state_cbs state hdls in
    elim h.conn_state_cb [ none ↦ rest | some f ↦ conn_state_cb f state ∷ rest ]

unfoldable pub notify_channel_state : ChannelState → PushSdk → PushSdk
unfolding call_conn_state_cbs
notify_channel_state state s = record s {
  invoked = s.invoked ++ call_conn_state_cbs (conn_state_of state) s.hdls;
}
