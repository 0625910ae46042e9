-- ===== src/Witnesses/Session.antt =====
-- The theorems on PushSDK's session, applied.
use grpc_push_sdk.Common.{◌≡◌, refl, none, some, arith}
use grpc_push_sdk.Sdk.Invariant.{Inv, run-new_sdk-Inv}
use grpc_push_sdk.Sdk.Lifecycle.{initialize_sdk}
use grpc_push_sdk.Sdk.Methods.{login, join_group, issue}
use grpc_push_sdk.Sdk.Groups.{is_group_info_exists}
use grpc_push_sdk.Packet.{make_login_packet, make_join_group_packet}
use grpc_push_sdk.Client.{initialize}
use grpc_push_sdk.Sdk.Pending.{IsPending, run-new_sdk-IsPending, run-check_timeouts}
use grpc_push_sdk.Sdk.Session.{get_now}
use grpc_push_sdk.Sdk.State.{PushSdk}
use grpc_push_sdk.Sdk.Threads.{check_timeouts}
use grpc_push_sdk.Sdk.Threads.Timeouts.{IsSteady, Young}
use grpc_push_sdk.Sdk.Refinement
use grpc_push_sdk.Sdk.Refinement.{Refines, view, session_op}
use grpc_push_sdk.Sdk.Refinement.Steps.{run-session_op}
use grpc_push_sdk.Sdk.Run.{run, step}
use grpc_push_sdk.Sdk.State.{new_sdk}
use grpc_push_sdk.Witnesses.{world, heap, room, login_ops, join_ops, after}

pub run-login : run world login_ops (new_sdk heap) ≡ some (after login_ops)
unfolding after run step login issue initialize_sdk new_sdk initialize
run-login = refl

step-join : session_op world (Refinement.joins room none) (after login_ops) ≡ some (after join_ops)
unfolding session_op after run step login issue initialize_sdk new_sdk initialize join_group
    is_group_info_exists make_join_group_packet make_login_packet
step-join = refl

run-session_op_example :
    Refines world
      (Refinement.joins room none)
      (after login_ops)
      (view (after login_ops))
      (view (after join_ops))
run-session_op_example =
    run-session_op world heap login_ops (Refinement.joins room none) (after login_ops)
      (after join_ops) (λ r. refl) (λ r. refl) run-login step-join

run-new_sdk-Inv_example : Inv (after login_ops)
run-new_sdk-Inv_example =
    run-new_sdk-Inv world heap login_ops (after login_ops) (λ r. refl) run-login

pub is_pending : IsPending (after login_ops)
is_pending = run-new_sdk-IsPending world heap login_ops (after login_ops) run-login

is_steady : IsSteady world
is_steady i = omega arith

run-check_timeouts_example :
    (s' : PushSdk) × (check_timeouts world (after login_ops) ≡ some s')
    × Young (get_now world (after login_ops)) s'.cb_map
run-check_timeouts_example =
    run-check_timeouts world heap login_ops (after login_ops) is_steady run-login
