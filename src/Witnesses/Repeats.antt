-- ===== src/Witnesses/Repeats.antt =====
-- The theorem on repeated calls, applied.
use grpc_push_sdk.Client.{initialize, new_client}
use grpc_push_sdk.Common.{◌<◌, ◌^◌, ◌≡◌, refl, none, some, [], arith}
use grpc_push_sdk.Decimal.{to_string}
use grpc_push_sdk.Packet.{Response, ResponseType, make_login_packet, make_join_group_packet}
use grpc_push_sdk.Sdk.Calls.{call_sync_begin, call_sync_end}
use grpc_push_sdk.Sdk.Groups.{is_group_info_exists}
use grpc_push_sdk.Sdk.Groups.Table.{Distinct}
use grpc_push_sdk.Sdk.Lifecycle.{initialize_sdk}
use grpc_push_sdk.Sdk.Messages.{handle_response}
use grpc_push_sdk.Sdk.Methods.{login, join_group, issue, returns, waits}
use grpc_push_sdk.Sdk.Methods.Repeats.{repeated_calls}
use grpc_push_sdk.Sdk.Run.{run, step}
use grpc_push_sdk.Sdk.Session.{get_now}
use grpc_push_sdk.Sdk.State.{PushSdk, new_sdk}
use grpc_push_sdk.Types.{RetCode, StreamUri}
use grpc_push_sdk.Witnesses.{world, somebody, room, login_ops, after, data_of}

first_join : (join_group world room none (after login_ops)).1 ≡ waits 1
unfolding after run step login join_group issue initialize_sdk new_sdk initialize new_client
    make_login_packet make_join_group_packet is_group_info_exists call_sync_begin
first_join = refl

no_groups : Distinct (after login_ops).groups
unfolding after run step login issue initialize_sdk new_sdk initialize new_client make_login_packet
    call_sync_begin
no_groups = tt

in_time : (0 < get_now world (after login_ops)) × (get_now world (after login_ops) < 2 ^ 63)
unfolding after run step login issue initialize_sdk new_sdk initialize new_client make_login_packet
    call_sync_begin
in_time = (omega arith, omega arith)

abbrev accepted : Response
accepted = record {
  res_code = 200;
  context = to_string (get_now world (after login_ops));
  err_msg = [];
}

repeated_calls_example :
    (s2 : PushSdk) × (handle_response world ResponseType.join_group
        (data_of StreamUri.join_group_res accepted.context)
        (join_group world room none (after login_ops)).0
      ≡ some s2)
    × ((call_sync_end 1 s2).1 ≡ RetCode.success)
    × ((join_group world room none (call_sync_end 1 s2).0).1 ≡ returns RetCode.already_join_group)
repeated_calls_example =
    repeated_calls world ResponseType.join_group somebody somebody room (after login_ops) 1
      (data_of StreamUri.join_group_res accepted.context) accepted first_join no_groups in_time.0
      in_time.1 refl refl refl
