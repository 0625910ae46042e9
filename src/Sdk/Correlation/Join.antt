-- ===== src/Sdk/Correlation/Join.antt =====
-- PushSDK::JoinGroup from its call to its return, when the server answers.
use grpc_push_sdk.Common.{
  ℕ, suc, ◌^◌, ◌<◌, ◌≡◌, ◌≢◌, refl, ◌⊎◌, true, false, ◌&&◌, ◌||◌, [], none, some, arith, ◌==◌,
  is_some,
}
use grpc_push_sdk.Decimal.{to_string}
use grpc_push_sdk.Packet.{
  World, PushData, PushRegReq, Response, ResponseType, make_join_group_packet,
}
use grpc_push_sdk.Sdk.Calls.{call_sync_begin, call_sync_end}
use grpc_push_sdk.Sdk.Correlation.{outcome, groups_after, call_sync-answered}
use grpc_push_sdk.Sdk.Groups.{insert, is_group_info_exists}
use grpc_push_sdk.Sdk.Groups.Table.{
  Distinct, same_group, is_group_info_exists-insert, is_group_info_exists-remove_group_info,
  insert-Distinct,
}
use grpc_push_sdk.Sdk.Messages.{handle_response}
use grpc_push_sdk.Sdk.Methods.{waits, join_group, issue}
use grpc_push_sdk.Sdk.Pending.{IsPending}
use grpc_push_sdk.Sdk.Session.{handle_failed_response, remove_all_group_info, get_now}
use grpc_push_sdk.Sdk.State.{PushSdk, new_context}
use grpc_push_sdk.Types.{CbType, GroupInfo, res_success}

-- The state in which JoinGroup makes its call.
abbrev joining : World → GroupInfo → PushSdk → PushSdk
joining w g s = record s { groups = insert g.gtype g.gid s.groups; reads = suc s.reads }

join_group-waits :
    (w : World) (g : GroupInfo) (s : PushSdk) (req : PushRegReq)
    → is_some s.user ≡ true
    → is_group_info_exists g.gtype g.gid s.groups ≡ false
    → make_join_group_packet w s.uid g.gtype g.gid (get_now w s) ≡ some req
    → join_group w g none s ≡ (
      (call_sync_begin CbType.join_group req (get_now w s) g.gtype g.gid (joining w g s)).0,
      waits s.next_ctx,
    )
unfolding join_group issue call_sync_begin
join_group-waits w g s req u n e = ground arith

-- What JoinGroup and the response make of the table, seen as a set.
joined_groups :
    (w : World) (g : GroupInfo) (res : Response) (s : PushSdk) (k i : ℕ)
    → (g.gtype ≢ 0) × (g.gid ≢ 0)
    → Distinct s.groups
    → is_group_info_exists g.gtype g.gid s.groups ≡ false
    → is_group_info_exists k i (
        groups_after ResponseType.join_group res
          (new_context CbType.join_group none none g.gtype g.gid false)
          (joining w g s))
      ≡ (((res.res_code == res_success) && same_group g.gtype g.gid k i)
          || is_group_info_exists k i s.groups)
unfolding handle_failed_response
joined_groups w g res s k i z d n = ground (
  arith,
  is_group_info_exists-insert g.gtype g.gid k i s.groups,
  insert-Distinct g.gtype g.gid s.groups n d,
  is_group_info_exists-remove_group_info g.gtype g.gid k i (insert g.gtype g.gid s.groups),
)

no_groups :
    (g : GroupInfo) (res : Response) (s : PushSdk)
    → (g.gtype ≡ 0) ⊎ (g.gid ≡ 0)
    → (res.res_code == res_success) ≡ false
    → groups_after ResponseType.join_group res
        (new_context CbType.join_group none none g.gtype g.gid false)
        s
      ≡ []
unfolding handle_failed_response remove_all_group_info
no_groups g res s z refused = ground arith

module _ (w : World) (g : GroupInfo) (s : PushSdk) (req : PushRegReq) (d : PushData)
    (res : Response) (pending : IsPending s) (logged_in : is_some s.user ≡ true)
    (outside : is_group_info_exists g.gtype g.gid s.groups ≡ false)
    (made : make_join_group_packet w s.uid g.gtype g.gid (get_now w s) ≡ some req)
    (started : 0 < get_now w s) (in_range : get_now w s < 2 ^ 63)
    (decoded : w.decode ResponseType.join_group d.msg_data ≡ some res)
    (echoed : res.context ≡ to_string (get_now w s)) where
  -- The call and the response, with the groups that they leave.
  join_group_response :
      (s2 : PushSdk) × ((join_group w g none s).1 ≡ waits s.next_ctx)
      × (handle_response w ResponseType.join_group d (join_group w g none s).0 ≡ some s2)
      × ((call_sync_end s.next_ctx s2).1 ≡ outcome res)
      × (s2.groups
          ≡ groups_after ResponseType.join_group res
              (new_context CbType.join_group none none g.gtype g.gid false)
              (joining w g s))
  unfolding call_sync_begin
  join_group_response =
      let pending' : IsPending (joining w g s) = record {
        ascends = pending.ascends;
        allocated = pending.allocated;
      } in
      let (s2, found, ret, desc, code, gs, again) =
        call_sync-answered w ResponseType.join_group CbType.join_group req (get_now w s) g.gtype
          g.gid (joining w g s) d res pending' started in_range decoded echoed in
      rw (join_group-waits w g s req logged_in outside made) (s2, refl, found, ret, gs)

  -- A synchronous JoinGroup of a group whose type and id are not 0, by a user who is logged in and
  -- not in the group, whose request can be serialized and is answered while it waits: it returns
  -- success exactly for the code 200, and afterwards the user is in the groups that he was in, and
  -- in the new one exactly if the call succeeded.
  pub join_group-answered :
      (g.gtype ≢ 0) × (g.gid ≢ 0)
      → Distinct s.groups
      → (s2 : PushSdk) × (handle_response w ResponseType.join_group d (join_group w g none s).0
          ≡ some s2)
        × ((call_sync_end s.next_ctx s2).1 ≡ outcome res)
        × ((k i : ℕ)
            → is_group_info_exists k i s2.groups ≡ (
                ((res.res_code == res_success) && same_group g.gtype g.gid k i)
                || is_group_info_exists k i s.groups))
  join_group-answered z distinct =
      let (s2, out, found, ret, gs) = join_group_response in
      (s2, found, ret, λ k i. rw gs (joined_groups w g res s k i z distinct outside))

  -- A synchronous JoinGroup of a group whose type or id is 0, by a user who is logged in and not in the
  -- group, whose request can be serialized and is answered while it waits: where the server refuses
  -- it, the user is in none of his groups afterwards.
  pub join_group-zero :
      (g.gtype ≡ 0) ⊎ (g.gid ≡ 0)
      → (res.res_code == res_success) ≡ false
      → (s2 : PushSdk) × (handle_response w ResponseType.join_group d (join_group w g none s).0
          ≡ some s2)
        × (s2.groups ≡ [])
  join_group-zero z refused =
      let (s2, out, found, ret, gs) = join_group_response in
      (s2, found, rw gs (no_groups g res (joining w g s) z refused))
