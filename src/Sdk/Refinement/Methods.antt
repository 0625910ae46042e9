-- ===== src/Sdk/Refinement/Methods.antt =====
-- The four methods and a refused response (src/core/core.cpp, core.h) against the abstract session.
use grpc_push_sdk.Common.{
  ℕ, ◌≡◌, refl, ◌∙◌, inl, inr, Bool, true, false, not, ◌&&◌, ◌||◌, List, [], ◌∷◌, arith, is_some,
  ◌==◌, Bool-cases,
}
use grpc_push_sdk.Packet.{World, ResponseType}
use grpc_push_sdk.Sdk.Groups.{is_group_info_exists, remove_group_info}
use grpc_push_sdk.Sdk.Groups.Table.{
  same_group, is_group_info_exists-insert, is_group_info_exists-remove_group_info,
}
use grpc_push_sdk.Sdk.Invariant.{Inv}
use grpc_push_sdk.Sdk.Methods.{Asynchronous, login, logout, join_group, leave_group}
use grpc_push_sdk.Sdk.Refinement.{
  Session, view, Stays, SignsIn, SignsOut, Joins, Leaves, Made, Refused, succeeds,
}
use grpc_push_sdk.Sdk.Refinement.Moves.{
  Kept, login_made, login-Kept, logout_made, logout-Kept, join_made, join-Kept, leave_made,
  leave-Kept,
}
use grpc_push_sdk.Sdk.Session.{handle_failed_response}
use grpc_push_sdk.Sdk.State.{PushSdk, CallContext}
use grpc_push_sdk.Types.{UserInfo, GroupInfo}

pub no_group : (k i : ℕ) (m : List (ℕ × ℕ)) → m ≡ [] → is_group_info_exists k i m ≡ false
unfolding is_group_info_exists
no_group k i [] e = refl
no_group k i (x ∷ m) e = cc

pub Kept-trans : (s t u : PushSdk) → Kept s t → Kept t u → Kept s u
Kept-trans s t u (a, b) (c, d) = (c ∙ a, d ∙ b)

pub Kept-Stays : (s s' : PushSdk) → Kept s s' → Stays (view s) (view s')
Kept-Stays s s' (u, g) = (u, λ k i. rw g)

pub Kept-view : (s s' : PushSdk) → Kept s s' → view s' ≡ view s
Kept-view s s' (u, g) = rw (u, g) refl

made :
    (b : Bool) (Does : Session → Session → Type 0) (v t : Session)
    → (b ≡ true → Does v t)
    → (b ≡ false → Stays v t)
    → Made b Does v t
made true Does v t moves stays = moves refl
made false Does v t moves stays = stays refl

-- A table without the group is as after its removal.
absent :
    (g j k i : ℕ) (m : List (ℕ × ℕ))
    → is_group_info_exists g j m ≡ false
    → is_group_info_exists k i m ≡ (not (same_group g j k i) && is_group_info_exists k i m)
absent g j k i m h = elim (Bool-cases (same_group g j k i)) [
  | inl same ↦ ground (arith, same, h)
  | inr other ↦ rw other refl
]

module _ (w : World) (s : PushSdk) (v : Inv s) where
  pub login-Made :
      (u : UserInfo) (m : Asynchronous)
      → Made (succeeds (login w u m s).1) SignsIn (view s) (view (login w u m s).0)
  login-Made u m =
      made (succeeds (login w u m s).1) SignsIn (view s) (view (login w u m s).0)
        (λ h.
          let (out, logged, gs) = login_made w s u m h in
          let empty = v.groups_user out in
          (
            out,
            logged,
            λ k i. no_group k i s.groups empty,
            λ k i. no_group k i (login w u m s).0.groups (gs ∙ empty),
          ))
        (λ h. Kept-Stays s (login w u m s).0 (login-Kept w s u m h))

  pub logout-Made :
      (m : Asynchronous)
      → Made (succeeds (logout w m s).1) SignsOut (view s) (view (logout w m s).0)
  logout-Made m =
      made (succeeds (logout w m s).1) SignsOut (view s) (view (logout w m s).0)
        (λ h.
          let (out, empty) = logout_made w s m v h in
          (out, λ k i. no_group k i (logout w m s).0.groups empty))
        (λ h. Kept-Stays s (logout w m s).0 (logout-Kept w s m h))

  pub join_group-Made :
      (g : GroupInfo) (m : Asynchronous)
      → Made
          (succeeds (join_group w g m s).1)
          (Joins g.gtype g.gid)
          (view s)
          (view (join_group w g m s).0)
  join_group-Made g m =
      made (succeeds (join_group w g m s).1) (Joins g.gtype g.gid) (view s)
        (view (join_group w g m s).0)
        (λ h.
          let (logged, still, outside, gs) = join_made w s g m h in
          (
            logged,
            still,
            outside,
            λ k i. rw gs (is_group_info_exists-insert g.gtype g.gid k i s.groups),
          ))
        (λ h. Kept-Stays s (join_group w g m s).0 (join-Kept w s g m h))

  pub leave_group-Made :
      (g : GroupInfo) (m : Asynchronous)
      → Made
          (succeeds (leave_group w g m s).1)
          (Leaves g.gtype g.gid)
          (view s)
          (view (leave_group w g m s).0)
  leave_group-Made g m =
      made (succeeds (leave_group w g m s).1) (Leaves g.gtype g.gid) (view s)
        (view (leave_group w g m s).0)
        (λ h.
          let (user, groups) = leave_made w s g m h in
          elim groups [
            | inl gs ↦ (
              user,
              λ k i.
                  rw gs
                    (is_group_info_exists-remove_group_info g.gtype g.gid k i s.groups v.distinct),
            )
            | inr (outside, gs) ↦ (user, λ k i. rw gs (absent g.gtype g.gid k i s.groups outside))
          ])
        (λ h. Kept-Stays s (leave_group w g m s).0 (leave-Kept w s g m h))

  pub failure-Refused :
      (t : ResponseType) (ctx : CallContext)
      → Refused t ctx (view s) (view (handle_failed_response t ctx s))
  unfolding handle_failed_response
  failure-Refused ResponseType.login ctx = (refl, λ k i. no_group k i [] refl)
  failure-Refused ResponseType.logout ctx = Kept-Stays s s (refl, refl)
  failure-Refused ResponseType.leave_group ctx = Kept-Stays s s (refl, refl)
  failure-Refused ResponseType.join_group ctx =
      let s' = handle_failed_response ResponseType.join_group ctx s in
      elim (Bool-cases (ctx.gtype == 0 || ctx.gid == 0)) [
        | inl all ↦
            let (u, gs) : (is_some s'.user ≡ is_some s.user) × (s'.groups ≡ []) =
              ground (arith, all) in
            rw all (u, λ k i. no_group k i s'.groups gs)
        | inr one ↦
            let (u, gs) : (is_some s'.user ≡ is_some s.user)
                × (s'.groups ≡ remove_group_info ctx.gtype ctx.gid s.groups) =
              ground (arith, one) in
            rw one (
              u,
              λ k i. rw gs (
                  is_group_info_exists-remove_group_info ctx.gtype ctx.gid k i s.groups v.distinct),
            )
      ]
