-- ===== src/Sdk/Correlation/Context.antt =====
-- The context that make_login_packet and the others (src/core/packet.cpp) put into a request, and the
-- call that a response with that context ends (src/core/core.h).
use grpc_push_sdk.Common.{ℕ, ◌<◌, ◌^◌, ◌≡◌, refl, ◌∙◌, List, some}
use grpc_push_sdk.Decimal.{to_string}
use grpc_push_sdk.Packet.{
  World, PushData, Response, ResponseType, login_request, logout_request, group_request,
}
use grpc_push_sdk.Sdk.CallMap
use grpc_push_sdk.Sdk.Correlation.{handle_response_known}
use grpc_push_sdk.Sdk.Messages.{answer, handle_response}
use grpc_push_sdk.Sdk.State.{PushSdk}
use grpc_push_sdk.Types.{UserInfo}

module _ (w : World) where
  -- The context of the request that a response of the type answers, where `groups` are the groups
  -- that are joined or left.
  abbrev pub request_context : ResponseType → ℕ → ℕ → ℕ → UserInfo → List (ℕ × ℕ) → ℕ → List ℕ
  request_context ResponseType.login uid appid appkey user groups now =
      (login_request w uid appid appkey user now).context
  request_context ResponseType.logout uid appid appkey user groups now =
      (logout_request w uid appid appkey now).context
  request_context ResponseType.join_group uid appid appkey user groups now =
      (group_request w uid groups now).context
  request_context ResponseType.leave_group uid appid appkey user groups now =
      (group_request w uid groups now).context

  request_context-to_string :
      (t : ResponseType) (uid appid appkey : ℕ) (user : UserInfo) (groups : List (ℕ × ℕ)) (now : ℕ)
      → request_context t uid appid appkey user groups now ≡ to_string now
  unfolding login_request logout_request group_request
  request_context-to_string ResponseType.login uid appid appkey user groups now = refl
  request_context-to_string ResponseType.logout uid appid appkey user groups now = refl
  request_context-to_string ResponseType.join_group uid appid appkey user groups now = refl
  request_context-to_string ResponseType.leave_group uid appid appkey user groups now = refl

  -- A response of any of the four types that echoes the context of the request made at the instant
  -- `now`, any from 1 to the largest of int64_t, is taken as the answer to the call that waits under
  -- that instant, and to no other: the call leaves the map and is answered with the response.
  pub request_context-handle_response :
      (t : ResponseType) (uid appid appkey : ℕ) (user : UserInfo) (groups : List (ℕ × ℕ))
      (now a : ℕ) (d : PushData) (res : Response) (s : PushSdk)
      → 0 < now
      → now < 2 ^ 63
      → w.decode t d.msg_data ≡ some res
      → res.context ≡ request_context t uid appid appkey user groups now
      → CallMap.find now s.cb_map ≡ some a
      → handle_response w t d s
        ≡ some (answer w t res a (record s { cb_map = CallMap.erase now s.cb_map }))
  request_context-handle_response t uid appid appkey user groups now a d res s p q e echoed waits =
      handle_response_known w t d res now s a p q e
        (echoed ∙ request_context-to_string t uid appid appkey user groups now) waits
