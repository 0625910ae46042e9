-- ===== src/Sdk/Steps/Timers.antt =====
-- A round of the timeout thread and of the event thread keeps what its functions keep.
use grpc_push_sdk.Common.{ℕ, zero, suc, ◌≡◌, List, [], ◌∷◌, ◌++◌, some, arith, length, bytes}
use grpc_push_sdk.Packet.{World}
use grpc_push_sdk.Sdk.Groups.{dump_all_group_info}
use grpc_push_sdk.Sdk.Session.{get_now, after_reading}
use grpc_push_sdk.Sdk.State.{PushSdk, EventCbContext, event_cb}
use grpc_push_sdk.Sdk.Threads.{
  expire, sweep, check_timeouts, deliver, deliver_all, deliver_events, upload_code,
}
use grpc_push_sdk.Sdk.Steps.Rule.{Preserves}

module _ (w : World) (P : PushSdk → Type 0) (k : Preserves w P) where
  pub expire-kept : (ts a : ℕ) (s : PushSdk) → P s → P (expire w ts a s)
  unfolding expire
  expire-kept ts a s p =
      k.with_erased ts _ (k.after_notify a _ _ _ _ (k.after_timeout (s.ctxs a) s p))

  pub sweep-kept :
      (fuel now : ℕ) (m : List (ℕ × ℕ)) (s s' : PushSdk)
      → P s
      → sweep w fuel now m s ≡ some s'
      → P s'
  unfolding sweep
  sweep-kept fuel now [] s s' p e = ground arith
  sweep-kept zero now ((ts, a) ∷ m) s s' p e = cc
  sweep-kept (suc fuel) now ((ts, a) ∷ m) s s' p e = ground (
    arith,
    sweep-kept fuel now (expire w ts a s).cb_map (expire w ts a s) s' (expire-kept ts a s p),
  )

  pub check_timeouts-kept : (s s' : PushSdk) → P s → check_timeouts w s ≡ some s' → P s'
  unfolding check_timeouts
  check_timeouts-kept s s' p e =
      sweep-kept (suc (length s.cb_map)) (get_now w s) s.cb_map (after_reading w s) s'
        (k.with_reads (suc s.reads) s p) e

  pub deliver-kept : (ctx : EventCbContext) (s : PushSdk) → P s → P (deliver w ctx s)
  unfolding deliver
  deliver-kept ctx s p =
      let q =
        k.with_invoked
          (s.invoked ++ event_cb s.event_cb ctx.type ctx.res ctx.desc s.event_cb_arg ∷ []) s p in
      ground (
        arith,
        q,
        k.after_upload [] (bytes "ReLogin") (upload_code ctx.res) ctx.desc _ q,
        k.after_upload (dump_all_group_info s.groups) (bytes "ReJoinGroup") (upload_code ctx.res)
            ctx.desc _ q,
      )

  pub deliver_all-kept : (l : List EventCbContext) (s : PushSdk) → P s → P (deliver_all w l s)
  unfolding deliver_all
  deliver_all-kept [] s p = p
  deliver_all-kept (ctx ∷ l) s p = deliver_all-kept l (deliver w ctx s) (deliver-kept ctx s p)

  pub deliver_events-kept : (s : PushSdk) → P s → P (deliver_events w s)
  unfolding deliver_events
  deliver_events-kept s p = deliver_all-kept s.event_cb_pctxs _ (k.with_pctxs [] s p)
