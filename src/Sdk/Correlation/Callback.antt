-- ===== src/Sdk/Correlation/Callback.antt =====
-- The asynchronous calls: the function of the application that an answer calls.
use grpc_push_sdk.Common.{
  ℕ, ◌^◌, ◌<◌, ◌≡◌, refl, ap, ◌∙◌, Bool-cases, inl, inr, List, [], ◌∷◌, ◌++◌, map, Option, some,
  arith, ◌==◌, if◌then◌else◌, bytes, append-nil, append_assoc, false, true, ==_refl,
}
use grpc_push_sdk.Decimal.{to_string}
use grpc_push_sdk.Packet.{World, PushData, PushRegReq, Response, ResponseType}
use grpc_push_sdk.Sdk.CallMap
use grpc_push_sdk.Sdk.CallMap.Order.{find-insert}
use grpc_push_sdk.Sdk.Calls.{call, notify, same_func, register}
use grpc_push_sdk.Sdk.Correlation.{handle_response_known}
use grpc_push_sdk.Sdk.Messages.{c_str, answer, handle_response}
use grpc_push_sdk.Sdk.Session.{
  handle_success_response, handle_failed_response, remove_all_group_info,
}
use grpc_push_sdk.Sdk.State.{PushSdk, EventCbContext, Invocation, event_cb, elk_upload, new_context}
use grpc_push_sdk.Sdk.Threads.{deliver, deliver_all, deliver_events}
use grpc_push_sdk.Types.{CbType, CbEvent, res_success}

-- A call of the function `f` for an event of the queue.
abbrev pub called : Option ℕ → Option ℕ → EventCbContext → Invocation
called f arg ctx = event_cb f ctx.type ctx.res ctx.desc arg

module _ (w : World) where
  deliver_frame :
      (ctx : EventCbContext) (s : PushSdk)
      → ((deliver w ctx s).event_cb ≡ s.event_cb)
        × ((deliver w ctx s).event_cb_arg ≡ s.event_cb_arg)
        × ((deliver w ctx s).event_cb_pctxs ≡ s.event_cb_pctxs)
        × ((deliver w ctx s).invoked ≡ s.invoked ++ called s.event_cb s.event_cb_arg ctx ∷ [])
  unfolding deliver elk_upload
  deliver_frame ctx s = ground arith

  deliver_all-called :
      (ctxs : List EventCbContext) (s : PushSdk)
      → ((deliver_all w ctxs s).invoked ≡ s.invoked ++ map (called s.event_cb s.event_cb_arg) ctxs)
        × ((deliver_all w ctxs s).event_cb_pctxs ≡ s.event_cb_pctxs)
  unfolding deliver_all
  deliver_all-called [] s = (rw append-nil refl, refl)
  deliver_all-called (ctx ∷ ctxs) s =
      let d = deliver w ctx s in
      let (func, arg, queue, more) = deliver_frame ctx s in
      let (rest, kept) = deliver_all-called ctxs d in
      let first = called s.event_cb s.event_cb_arg ctx in
      (
        rest
            ∙ ap (λ l. l ++ map (called d.event_cb d.event_cb_arg) ctxs) more
            ∙ ap (λ f. (s.invoked ++ first ∷ []) ++ map (called f d.event_cb_arg) ctxs) func
            ∙ ap (λ a. (s.invoked ++ first ∷ []) ++ map (called s.event_cb a) ctxs) arg
            ∙ append_assoc s.invoked (first ∷ []) (map (called s.event_cb s.event_cb_arg) ctxs),
        kept ∙ queue,
      )

  -- A round of the event thread calls the function of PushSDKInitialize once for each event of the
  -- queue, in the order of the queue and with the argument of PushSDKInitialize, and empties the queue.
  pub deliver_events-called :
      (s : PushSdk)
      → ((deliver_events w s).invoked
          ≡ s.invoked ++ map (called s.event_cb s.event_cb_arg) s.event_cb_pctxs)
        × ((deliver_events w s).event_cb_pctxs ≡ [])
  unfolding deliver_events
  deliver_events-called s = deliver_all-called s.event_cb_pctxs (record s { event_cb_pctxs = [] })

-- What an answer reports.
abbrev pub event_of : Response → CbEvent
event_of res = if res.res_code == res_success then CbEvent.ok else CbEvent.failed

abbrev pub event_text : Response → List ℕ
event_text res = if res.res_code == res_success then bytes "ok" else c_str res.err_msg

module _ (w : World) (t : ResponseType) (res : Response) (a f : ℕ) (s : PushSdk) where
  answer_own :
      (s.ctxs a).cb_func ≡ some f
      → (s.ctxs a).is_retry ≡ false
      → same_func (some f) s.event_cb ≡ false
      → ((answer w t res a s).invoked
          ≡ s.invoked
            ++ event_cb (some f) (s.ctxs a).type (event_of res) (event_text res) (s.ctxs a).cb_args
              ∷ [])
        × ((answer w t res a s).event_cb_pctxs ≡ s.event_cb_pctxs)
        × ((answer w t res a s).event_cb ≡ s.event_cb)
        × ((answer w t res a s).event_cb_arg ≡ s.event_cb_arg)
  unfolding answer notify handle_success_response handle_failed_response remove_all_group_info
  answer_own e r own = ground arith

  answer_global :
      (s.ctxs a).cb_func ≡ some f
      → (s.ctxs a).is_retry ≡ false
      → same_func (some f) s.event_cb ≡ true
      → ((answer w t res a s).invoked ≡ s.invoked)
        × ((answer w t res a s).event_cb_pctxs
            ≡ s.event_cb_pctxs
              ++ record { type = (s.ctxs a).type; res = event_of res; desc = event_text res } ∷ [])
        × ((answer w t res a s).event_cb ≡ s.event_cb)
        × ((answer w t res a s).event_cb_arg ≡ s.event_cb_arg)
  unfolding answer notify handle_success_response handle_failed_response remove_all_group_info
  answer_global e r own = ground arith

-- What the application sees of an answer to a call with the function `f` and the argument `arg`, up to
-- the end of the event thread's next round.
abbrev pub seen : CbType → Response → ℕ → Option ℕ → PushSdk → List Invocation
seen type res f arg s =
    let event : EventCbContext = record {
      type = type;
      res = event_of res;
      desc = event_text res;
    } in
    let globally = called s.event_cb s.event_cb_arg in
    if same_func (some f) s.event_cb
    then map globally (s.event_cb_pctxs ++ event ∷ [])
    else called (some f) arg event ∷ map globally s.event_cb_pctxs

assembled :
    (i i' : List Invocation) (f f' arg arg' : Option ℕ) (q q' : List EventCbContext)
    → i ≡ i'
    → f ≡ f'
    → arg ≡ arg'
    → q ≡ q'
    → i ++ map (called f arg) q ≡ i' ++ map (called f' arg') q'
assembled i i' f f' arg arg' q q' e1 e2 e3 e4 =
    ap (λ x. x ++ map (called f arg) q) e1
    ∙ ap (λ x. i' ++ map (called x arg) q) e2
    ∙ ap (λ x. i' ++ map (called f' x) q) e3
    ∙ ap (λ x. i' ++ map (called f' arg') x) e4

answer-seen :
    (w : World) (t : ResponseType) (res : Response) (a f : ℕ) (s : PushSdk)
    → (s.ctxs a).cb_func ≡ some f
    → (s.ctxs a).is_retry ≡ false
    → let s2 = answer w t res a s in
      s2.invoked ++ map (called s2.event_cb s2.event_cb_arg) s2.event_cb_pctxs
      ≡ s.invoked ++ seen (s.ctxs a).type res f (s.ctxs a).cb_args s
answer-seen w t res a f s e r =
    let s2 = answer w t res a s in
    elim (Bool-cases (same_func (some f) s.event_cb)) [
      | inl global ↦
          let (calls, queue, func, arg) = answer_global w t res a f s e r global in
          assembled s2.invoked _ s2.event_cb _ s2.event_cb_arg _ s2.event_cb_pctxs _ calls func arg
            queue
          ∙ rw global refl
      | inr own ↦
          let (calls, queue, func, arg) = answer_own w t res a f s e r own in
          assembled s2.invoked _ s2.event_cb _ s2.event_cb_arg _ s2.event_cb_pctxs _ calls func arg
            queue
          ∙ append_assoc s.invoked _ (map (called s.event_cb s.event_cb_arg) s.event_cb_pctxs)
          ∙ rw own refl
    ]

module _ (w : World) (t : ResponseType) (type : CbType) (msg : PushRegReq) (now gtype gid f : ℕ)
    (arg : Option ℕ) (s : PushSdk) where
  -- An asynchronous call whose response comes calls the application once, with success exactly for the
  -- code 200 and the response's text otherwise: its own function at once, with its own argument, or,
  -- where its function is that of PushSDKInitialize, in the next round of the event thread, after the
  -- events that were queued before, with the argument of PushSDKInitialize.
  pub call-answered :
      (d : PushData) (res : Response)
      → 0 < now
      → now < 2 ^ 63
      → w.decode t d.msg_data ≡ some res
      → res.context ≡ to_string now
      → let s1 = call type msg now (some f) arg gtype gid false s in
        (s2 : PushSdk) × (handle_response w t d s1 ≡ some s2)
        × ((deliver_events w s2).invoked ≡ s.invoked ++ seen type res f arg s)
        × ((deliver_events w s2).event_cb_pctxs ≡ [])
  unfolding call register
  call-answered d res p q e c =
      let s1 = call type msg now (some f) arg gtype gid false s in
      let s1' = record s1 { cb_map = CallMap.erase now s1.cb_map } in
      let s2 = answer w t res s.next_ctx s1' in
      let found =
        handle_response_known w t d res now s1 s.next_ctx p q e c
          (ground (arith, find-insert now now s.next_ctx s.cb_map)) in
      let (round, empty) = deliver_events-called w s2 in
      let same : s1'.ctxs s.next_ctx ≡ new_context type (some f) arg gtype gid false =
        rw (==_refl s.next_ctx) refl in
      let ours =
        answer-seen w t res s.next_ctx f s1' (ap (λ x. x.cb_func) same)
          (ap (λ x. x.is_retry) same) in
      (s2, found, round ∙ ours ∙ ap (λ x. s.invoked ++ seen x.type res f x.cb_args s) same, empty)
