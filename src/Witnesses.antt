-- ===== src/Witnesses.antt =====
-- Concrete inputs for the theorems: a world whose requests are empty texts and whose server answers
-- 200, a user, a group, and the states that a few steps reach.
mod Session
mod Calls
mod Exchange
mod Reconnect
mod Repeats
mod Retries
mod Transport
mod Uploads
mod Texts
mod Interface
mod Locks
mod Outgoing
mod Singleton
use grpc_push_sdk.Api.{Api}
use grpc_push_sdk.Client.{Poll, NextStatus, Connectivity}
use grpc_push_sdk.Common.{ℕ, ◌+◌, ◌*◌, true, false, List, [], ◌∷◌, ◌++◌, none, some}
use grpc_push_sdk.Packet.{World, UserGroup, PushRegReq, PushData, Response}
use grpc_push_sdk.Sdk.Run.{Op, initializes, logs_in, joins, run}
use grpc_push_sdk.Sdk.State.{PushSdk, CallContext, new_context, new_sdk}
use grpc_push_sdk.Types.{CbType, UserInfo, GroupInfo, StreamUri, TerminalType}

-- The clock starts at 7 and advances by 20 seconds at each reading; a response is a context.
abbrev pub world : World
world = record {
  steady_nano_seconds = λ i. 7 + i * 20000000000;
  system_time = λ i. [];
  terminal_type = TerminalType.linux;
  encode_login = λ r. some [];
  encode_logout = λ r. some [];
  encode_join_group = λ r. some [];
  encode_leave_group = λ r. some [];
  decode = λ t d. some (record { res_code = 200; context = d; err_msg = [] });
}

-- The same, with a server that refuses.
abbrev pub refusing : World
refusing = record world {
  decode = λ t d. some (record { res_code = 500; context = d; err_msg = 110 ∷ 111 ∷ [] });
}

abbrev pub heap : ℕ → CallContext
heap a = new_context CbType.login none none 0 0 false

abbrev pub somebody : UserInfo
somebody = record {
  token = 1 ∷ 2 ∷ [];
  token_size = 2;
  account = 3 ∷ [];
  account_size = 1;
  passwd = 4 ∷ [];
  passwd_size = 1;
}

abbrev pub room : GroupInfo
room = record { gtype = 2; gid = 9 }

abbrev pub req_to : StreamUri → PushRegReq
req_to uri = record { uri = uri; msg_data = [] }

abbrev pub data_of : StreamUri → List ℕ → PushData
data_of uri msg = record { uri = uri; group_type = 2; group_id = 9; msg_data = msg }

abbrev pub init_ops : List Op
init_ops = initializes 5 6 7 (some 1) none false ∷ []

abbrev pub login_ops : List Op
login_ops = initializes 5 6 7 (some 1) none false ∷ logs_in somebody none ∷ []

abbrev pub join_ops : List Op
join_ops = login_ops ++ joins room none ∷ []

-- The state that steps reach from a new SDK.
unfoldable pub after : List Op → PushSdk
after ops = elim (run world ops (new_sdk heap)) [ none ↦ new_sdk heap | some s ↦ s ]
