-- ===== src/Sdk/Session/Retry.antt =====
-- A login of the SDK's own that the server does not answer.
use grpc_push_sdk.Common.{
  ℕ, suc, ◌≤◌, ◌<◌, ◌≡◌, refl, ap, ◌∙◌, false, true, List, [], ◌∷◌, Option, some, arith, bytes,
  ◌==◌, if◌then◌else◌, length, ==_refl,
}
use grpc_push_sdk.Int.{ℤ, pos}
use grpc_push_sdk.Packet.{World, PushRegReq, make_login_packet}
use grpc_push_sdk.Sdk.CallMap
use grpc_push_sdk.Sdk.Calls.{call, notify, register}
use grpc_push_sdk.Sdk.Session.{handle_timeout_response, get_now, after_reading}
use grpc_push_sdk.Sdk.Session.Reconnect.{relogged, relogin-call}
use grpc_push_sdk.Sdk.State.{PushSdk, CallContext, new_context, push_event}
use grpc_push_sdk.Sdk.Threads.{is_expired, expire, sweep, check_timeouts}
use grpc_push_sdk.Sdk.Threads.Timeouts.{IsSteady, erase-insert_head}
use grpc_push_sdk.Types.{CbType, CbEvent, UserInfo, res_etimeout}

-- A call that has the global function as its own puts its end into the queue of the event thread.
notify-push_event :
    (a f : ℕ) (c : CallContext) (res : CbEvent) (desc : List ℕ) (code : ℤ) (s : PushSdk)
    → s.ctxs a ≡ c
    → c.cb_func ≡ some f
    → s.event_cb ≡ some f
    → notify a res desc code s ≡ push_event c.type res desc s
unfolding notify
notify-push_event a f c res desc code s at own global = ground (arith, at, own, global)

module _ (w : World) (f : ℕ) (arg : Option ℕ) (user : UserInfo) (req : ℕ → PushRegReq) where
  -- The only waiting call is a login of the SDK's own, at the instant `t` with the context `a`.
  pub record Retrying (t a : ℕ) (s : PushSdk) : Type 0 where
    pub waiting : s.cb_map ≡ (t, a) ∷ []
    pub context : s.ctxs a ≡ new_context CbType.login (some f) arg 0 0 true
    pub allocated : a < s.next_ctx
    pub logged_in : s.user ≡ some user
    pub global : s.event_cb ≡ some f
    pub global_arg : s.event_cb_arg ≡ arg

  -- The state after the expired login: the next one waits instead of it.
  unfoldable pub retried : PushSdk → PushSdk
  retried s =
      let s' =
        push_event CbType.login CbEvent.timeout (bytes "timeout")
          (relogged w (req (get_now w s)) s) in
      record s' { cb_map = (get_now w s, s.next_ctx) ∷ [] }

  handle_timeout_response-relogged :
      (t a : ℕ) (s : PushSdk)
      → Retrying t a s
      → ((now : ℕ) → make_login_packet w s.uid s.appid s.appkey user now ≡ some (req now))
      → handle_timeout_response w (s.ctxs a) s ≡ relogged w (req (get_now w s)) s
  unfolding handle_timeout_response
  handle_timeout_response-relogged t a s h made =
      ap (λ c. handle_timeout_response w c s) h.context
      ∙ relogin-call w true s user (req (get_now w s)) h.logged_in (ground arith)
          (made (get_now w s))

  -- The context of the expired login is another one than the new one's.
  relogged_context :
      (t a : ℕ) (s : PushSdk)
      → Retrying t a s
      → (relogged w (req (get_now w s)) s).ctxs a ≡ new_context CbType.login (some f) arg 0 0 true
  unfolding call register
  relogged_context t a s h =
      let apart : (a == s.next_ctx) ≡ false = ground (arith, h.allocated) in rw apart h.context

  relogged_event_cb :
      (t a : ℕ) (s : PushSdk)
      → Retrying t a s
      → (relogged w (req (get_now w s)) s).event_cb ≡ some f
  unfolding call register
  relogged_event_cb t a s h = h.global

  relogged_cb_map :
      (t a : ℕ) (s : PushSdk)
      → Retrying t a s
      → t < get_now w s
      → CallMap.erase t (relogged w (req (get_now w s)) s).cb_map ≡ (get_now w s, s.next_ctx) ∷ []
  unfolding call register CallMap.insert
  relogged_cb_map t a s h late =
      ap (λ m. CallMap.erase t (CallMap.insert (get_now w s) s.next_ctx m)) h.waiting
      ∙ erase-insert_head t a (get_now w s) s.next_ctx [] late

  abbrev without_call : ℕ → PushSdk → PushSdk
  without_call t s = record s { cb_map = CallMap.erase t s.cb_map }

  expire-retried :
      (t a : ℕ) (s : PushSdk)
      → Retrying t a s
      → ((now : ℕ) → make_login_packet w s.uid s.appid s.appkey user now ≡ some (req now))
      → t < get_now w s
      → expire w t a s ≡ retried s
  unfolding expire retried
  expire-retried t a s h made late =
      let txt = bytes "timeout" in
      let s1 = relogged w (req (get_now w s)) s in
      ap (λ x. without_call t (notify a CbEvent.timeout txt (pos res_etimeout) x))
        (handle_timeout_response-relogged t a s h made)
      ∙ ap (without_call t) (
          notify-push_event a f (new_context CbType.login (some f) arg 0 0 true) CbEvent.timeout txt
            (pos res_etimeout) s1 (relogged_context t a s h) refl (relogged_event_cb t a s h))
      ∙ ap (λ m. record (push_event CbType.login CbEvent.timeout txt s1) { cb_map = m })
          (relogged_cb_map t a s h late)

  pub retried-Retrying :
      (t a : ℕ) (s : PushSdk) → Retrying t a s → Retrying (get_now w s) s.next_ctx (retried s)
  unfolding retried call register
  retried-Retrying t a s h = record {
    waiting = refl;
    context = rw (==_refl s.next_ctx, h.global, h.global_arg) refl;
    allocated = omega arith;
    logged_in = h.logged_in;
    global = h.global;
    global_arg = h.global_arg;
  }

  pub after_reading-Retrying :
      (t a : ℕ) (s : PushSdk) → Retrying t a s → Retrying t a (after_reading w s)
  after_reading-Retrying t a s h = record {
    waiting = h.waiting;
    context = h.context;
    allocated = h.allocated;
    logged_in = h.logged_in;
    global = h.global;
    global_arg = h.global_arg;
  }

  is_expired_lt : (now t : ℕ) → is_expired now t ≡ true → t < now
  is_expired_lt now t h = ground (arith, h)

  is_expired_young : (now t : ℕ) → now ≤ t → is_expired now t ≡ false
  is_expired_young now t h = ground (arith, h)

  -- A round of the timeout thread that finds the login expired.
  pub check_timeouts-retried :
      (t a : ℕ) (s : PushSdk)
      → Retrying t a s
      → ((now : ℕ) → make_login_packet w s.uid s.appid s.appkey user now ≡ some (req now))
      → IsSteady w
      → is_expired (get_now w s) t ≡ true
      → check_timeouts w s ≡ some (retried (after_reading w s))
  unfolding check_timeouts sweep retried
  check_timeouts-retried t a s h made steady late =
      let now = get_now w s in
      let s0 = after_reading w s in
      let over : t < get_now w s0 = omega (arith, is_expired_lt now t late, steady s.reads) in
      ap (λ m. sweep w (suc (length m)) now m s0) h.waiting
      ∙ ap (λ b. if b then sweep w 1 now (expire w t a s0).cb_map (expire w t a s0) else some s0)
          late
      ∙ ap (λ x. sweep w 1 now x.cb_map x)
          (expire-retried t a s0 (after_reading-Retrying t a s h) made over)
      ∙ ap
          (λ b.
            if b
            then sweep w 0 now (expire w (get_now w s0) s0.next_ctx (retried s0)).cb_map
                (expire w (get_now w s0) s0.next_ctx (retried s0))
            else some (retried s0))
          (is_expired_young now (get_now w s0) (steady s.reads))
