-- ===== src/Witnesses/Calls.antt =====
-- The theorems on the calls of PushSDK, applied.
use grpc_push_sdk.Client.{initialize, new_client}
use grpc_push_sdk.Common.{
  ◌++◌, ℕ, ◌^◌, ◌<◌, ◌≡◌, refl, ap, true, false, ◌&&◌, ◌||◌, [], ◌∷◌, none, some, arith, ◌==◌,
  is_some, inl,
}
use grpc_push_sdk.Decimal.{to_string, stoll}
use grpc_push_sdk.Int.{pos}
use grpc_push_sdk.Packet.{
  World, PushData, Response, ResponseType, make_login_packet, make_join_group_packet,
  make_leave_group_packet, make_logout_packet, logout_request,
}
use grpc_push_sdk.Sdk.Calls.{call, call_sync_begin, call_sync_end, send_to}
use grpc_push_sdk.Sdk.Correlation.{outcome, last_error, groups_after, call_sync-answered}
use grpc_push_sdk.Sdk.CallMap
use grpc_push_sdk.Sdk.Correlation.Context.{request_context-handle_response}
use grpc_push_sdk.Sdk.Correlation.Faults.{call_sync-unanswered, login_timed_out}
use grpc_push_sdk.Sdk.Correlation.Join.{join_group-answered, join_group-zero}
use grpc_push_sdk.Sdk.Delivery.{leave_group-handle_group_message, logout-on_message}
use grpc_push_sdk.Sdk.Groups.{is_group_info_exists, insert}
use grpc_push_sdk.Sdk.Groups.Table.{Distinct, same_group}
use grpc_push_sdk.Sdk.Lifecycle.{initialize_sdk}
use grpc_push_sdk.Sdk.Messages.{answer, handle_response, handle_group_message, on_message}
use grpc_push_sdk.Sdk.Methods.{login, join_group, leave_group, logout, issue, returns, waits}
use grpc_push_sdk.Sdk.Run.{run, step}
use grpc_push_sdk.Sdk.Session.{relogin, get_now}
use grpc_push_sdk.Sdk.State.{PushSdk, new_sdk, new_context}
use grpc_push_sdk.Sdk.Threads.{expire, deliver_events}
use grpc_push_sdk.Sdk.Correlation.Callback.{seen, call-answered}
use grpc_push_sdk.Types.{CbType, GroupInfo, RetCode, StreamUri, res_success}
use grpc_push_sdk.Witnesses.{
  world, refusing, room, somebody, init_ops, login_ops, join_ops, after, req_to, data_of,
}
use grpc_push_sdk.Witnesses.Session.{is_pending}

abbrev answer_of : ℕ → Response
answer_of code = record { res_code = code; context = to_string 7; err_msg = 110 ∷ 111 ∷ [] }

abbrev reply : ℕ → PushData
reply now = data_of StreamUri.join_group_res (to_string now)

call_sync-answered_example :
    let (s1, a) =
      call_sync_begin CbType.join_group (req_to StreamUri.join_group) 7 2 9 (after login_ops) in
    (s2 : PushSdk) × (handle_response refusing ResponseType.join_group (reply 7) s1 ≡ some s2)
    × ((call_sync_end a s2).1 ≡ outcome (answer_of 500))
    × ((call_sync_end a s2).0.desc ≡ (last_error (answer_of 500)).0)
    × ((call_sync_end a s2).0.code ≡ (last_error (answer_of 500)).1)
    × (s2.groups
        ≡ groups_after ResponseType.join_group
            (answer_of 500)
            (new_context CbType.join_group none none 2 9 false)
            (after login_ops))
    × (handle_response refusing ResponseType.join_group (reply 7) s2 ≡ some s2)
call_sync-answered_example =
    call_sync-answered refusing ResponseType.join_group CbType.join_group
      (req_to StreamUri.join_group) 7 2 9 (after login_ops) (reply 7) (answer_of 500) is_pending
      (omega arith) (omega arith) refl refl

call-answered_example :
    let s1 =
      call CbType.join_group
        (req_to StreamUri.join_group)
        7
        (some 8)
        (some 3)
        2
        9
        false
        (after login_ops) in
    (s2 : PushSdk) × (handle_response refusing ResponseType.join_group (reply 7) s1 ≡ some s2)
    × ((deliver_events refusing s2).invoked
        ≡ (after login_ops).invoked
          ++ seen CbType.join_group (answer_of 500) 8 (some 3) (after login_ops))
    × ((deliver_events refusing s2).event_cb_pctxs ≡ [])
call-answered_example =
    call-answered refusing ResponseType.join_group CbType.join_group (req_to StreamUri.join_group) 7
      2 9 8 (some 3) (after login_ops) (reply 7) (answer_of 500) (omega arith) (omega arith) refl
      refl

-- The state after the login: a user, no groups, and a clock that has been read once.
logged_in :
    (is_some (after login_ops).user ≡ true)
    × ((after login_ops).groups ≡ [])
    × ((after login_ops).reads ≡ 1)
unfolding after run step login issue initialize_sdk new_sdk initialize make_login_packet
    call_sync_begin new_client
logged_in = (refl, refl, refl)

outside : (g : GroupInfo) → is_group_info_exists g.gtype g.gid (after login_ops).groups ≡ false
unfolding is_group_info_exists
outside g = rw logged_in.1 refl

abbrev instant : ℕ
instant = get_now world (after login_ops)

in_range : instant < 2 ^ 63
in_range = rw logged_in.2 (omega arith)

join_made :
    (w : World) (g : GroupInfo) (uid now : ℕ)
    → ((r : _) → w.encode_join_group r ≡ some [])
    → make_join_group_packet w uid g.gtype g.gid now ≡ some (req_to StreamUri.join_group)
unfolding make_join_group_packet
join_made w g uid now h = rw h refl

abbrev answer_at : ℕ → ℕ → Response
answer_at code now = record { res_code = code; context = to_string now; err_msg = [] }

join_group-answered_example :
    (s2 : PushSdk) × (handle_response world ResponseType.join_group
        (reply instant)
        (join_group world room none (after login_ops)).0
      ≡ some s2)
    × ((call_sync_end (after login_ops).next_ctx s2).1 ≡ outcome (answer_at 200 instant))
    × ((k i : ℕ)
        → is_group_info_exists k i s2.groups ≡ (
            ((200 == res_success) && same_group 2 9 k i)
            || is_group_info_exists k i (after login_ops).groups))
join_group-answered_example =
    join_group-answered world room (after login_ops) (req_to StreamUri.join_group) (reply instant)
      (answer_at 200 instant) is_pending logged_in.0 (outside room)
      (join_made world room (after login_ops).uid instant (λ r. refl)) (omega arith) in_range refl
      refl (ground arith, ground arith) (rw logged_in.1 tt)

abbrev lobby : GroupInfo
lobby = record { gtype = 0; gid = 9 }

join_group-zero_example :
    (s2 : PushSdk) × (handle_response refusing ResponseType.join_group
        (reply instant)
        (join_group refusing lobby none (after login_ops)).0
      ≡ some s2)
    × (s2.groups ≡ [])
join_group-zero_example =
    join_group-zero refusing lobby (after login_ops) (req_to StreamUri.join_group) (reply instant)
      (record (answer_at 500 instant) { err_msg = 110 ∷ 111 ∷ [] }) is_pending logged_in.0
      (outside lobby) (join_made refusing lobby (after login_ops).uid instant (λ r. refl))
      (omega arith) in_range refl refl (inl refl) refl

call_sync-unanswered_example :
    let s = after login_ops in
    let (s1, a) = call_sync_begin CbType.join_group (req_to StreamUri.join_group) 7 2 9 s in
    let (s'', ret) = call_sync_end a s1 in (ret ≡ RetCode.success) × (s''.code ≡ pos 200)
call_sync-unanswered_example =
    call_sync-unanswered CbType.join_group (req_to StreamUri.join_group) 7 2 9 (after login_ops)
      (call_sync_begin CbType.join_group (req_to StreamUri.join_group) 7 2 9 (after login_ops)).0
      refl

-- A new SDK that was initialized.
fresh : ((after init_ops).init ≡ true) × ((after init_ops).user ≡ none)
unfolding after run step initialize_sdk new_sdk initialize new_client
fresh = (refl, refl)

login_made :
    (uid appid appkey now : ℕ)
    → make_login_packet world uid appid appkey somebody now ≡ some (req_to StreamUri.login)
unfolding make_login_packet
login_made uid appid appkey now = refl

login_timed_out_example :
    let s = after init_ops in
    let s1 = (login world somebody none s).0 in
    let s2 = expire world (get_now world s) s.next_ctx s1 in
    ((login world somebody none s).1 ≡ waits s.next_ctx)
    × ((call_sync_end s.next_ctx s2).1 ≡ RetCode.call_timeout)
    × (s2.user ≡ some somebody)
    × ((login world somebody none s2).1 ≡ returns RetCode.already_login)
    × (relogin world false s2 ≡ s2)
login_timed_out_example =
    login_timed_out world somebody somebody (after init_ops) (req_to StreamUri.login) fresh.0
      fresh.1
      (login_made (after init_ops).uid (after init_ops).appid (after init_ops).appkey
        (get_now world (after init_ops)))

-- The state in which the user has joined the room.
joined : (is_some (after join_ops).user ≡ true) × ((after join_ops).groups ≡ (2, 9) ∷ [])
unfolding after run step login issue initialize_sdk new_sdk initialize make_login_packet
    call_sync_begin new_client join_group is_group_info_exists make_join_group_packet insert
joined = (refl, refl)

inside : is_group_info_exists 2 9 (after join_ops).groups ≡ true
unfolding is_group_info_exists
inside = rw joined.1 refl

distinct : Distinct (after join_ops).groups
unfolding is_group_info_exists
distinct = rw joined.1 (refl, tt)

leave_made :
    (uid g i now : ℕ)
    → make_leave_group_packet world uid g i now ≡ some (req_to StreamUri.leave_group)
unfolding make_leave_group_packet
leave_made uid g i now = refl

logout_made :
    (uid appid appkey now : ℕ)
    → make_logout_packet world uid appid appkey now ≡ some (req_to StreamUri.logout)
unfolding make_logout_packet
logout_made uid appid appkey now = refl

abbrev group_message : PushData
group_message = data_of StreamUri.push_data_by_group (104 ∷ [])

-- The server refuses to let the user leave.
abbrev left : PushSdk
left = (leave_group refusing room none (after join_ops)).0

abbrev refusal : PushData
refusal = data_of StreamUri.leave_group_res (to_string (get_now refusing (after join_ops)))

abbrev refused : PushSdk
refused = elim (handle_response refusing ResponseType.leave_group refusal left) [
  | none ↦ left
  | some s2 ↦ s2
]

is_refused : handle_response refusing ResponseType.leave_group refusal left ≡ some refused
unfolding handle_response after run step login issue initialize_sdk new_sdk initialize new_client
    make_login_packet call_sync_begin join_group leave_group is_group_info_exists
    make_join_group_packet make_leave_group_packet insert stoll to_string CallMap.find
    CallMap.insert CallMap.erase
is_refused = refl

refusing_made :
    (uid g i now : ℕ)
    → make_leave_group_packet refusing uid g i now ≡ some (req_to StreamUri.leave_group)
unfolding make_leave_group_packet
refusing_made uid g i now = refl

leave_group-handle_group_message_example :
    (handle_group_message refusing group_message left
      ≡ some (record left { client = send_to left.client (req_to StreamUri.leave_group) }))
    × (handle_group_message refusing group_message refused
        ≡ some (record refused { client = send_to refused.client (req_to StreamUri.leave_group) }))
leave_group-handle_group_message_example =
    leave_group-handle_group_message refusing room none (after join_ops) refused
      (req_to StreamUri.leave_group) (req_to StreamUri.leave_group) group_message refusal joined.0
      inside distinct (refusing_made (after join_ops).uid 2 9 (get_now refusing (after join_ops)))
      (refusing_made (after join_ops).uid 2 9 0) refl refl is_refused

logout-on_message_example :
    (s2 : PushSdk) × (on_message world group_message (logout world none (after join_ops)).0
      ≡ some s2)
    × (s2.invoked ≡ (logout world none (after join_ops)).0.invoked)
logout-on_message_example =
    logout-on_message world none (after join_ops) (req_to StreamUri.logout) group_message joined.0
      (logout_made (after join_ops).uid (after join_ops).appid (after join_ops).appkey
        (get_now world (after join_ops)))
      (λ uid appid appkey. ap is_some (logout_made uid appid appkey 0))
      (λ uid g i. ap is_some (leave_made uid g i 0)) (inl refl)

-- Two calls wait, and the answer is one to the second.
abbrev second_answer : Response
second_answer = record { res_code = 200; context = to_string 9; err_msg = [] }

abbrev waiting_calls : PushSdk
waiting_calls = record (after join_ops) { cb_map = (7, 0) ∷ (9, 1) ∷ [] }

request_context-handle_response_example :
    handle_response world ResponseType.logout
      (data_of StreamUri.logout_res (to_string 9))
      waiting_calls
    ≡ some (
        answer world ResponseType.logout second_answer 1
          (record waiting_calls { cb_map = CallMap.erase 9 waiting_calls.cb_map }))
unfolding logout_request CallMap.find
request_context-handle_response_example =
    request_context-handle_response world ResponseType.logout 5 6 7 somebody [] 9 1
      (data_of StreamUri.logout_res (to_string 9)) second_answer waiting_calls (omega arith)
      (omega arith) refl refl refl
