-- ===== src/Api/Runs/Follows.antt =====
-- The C functions of src/push_sdk.cpp as steps of PushSDK: whatever the application and the threads do,
-- PushSDK goes through a run of its own steps.
use grpc_push_sdk.Api.{
  Api, push_sdk_initialize, push_sdk_login, push_sdk_logout, push_sdk_join_group,
  push_sdk_leave_group, push_sdk_destroy_begin, push_sdk_destroy_end, push_sdk_create_handler,
  push_sdk_destroy_handler, push_sdk_set_conn_state_cb, push_sdk_set_user_msg_cb,
  push_sdk_set_group_msg_cb, initialize_core, initialize_with, initialize_logged, login_checked,
  destroyed,
}
use grpc_push_sdk.Common.{
  ℕ, ◌≡◌, refl, Bool, true, ◌&&◌, List, [], ◌∷◌, ◌++◌, Option, none, some, arith, ap, ◌∙◌, sym,
  Bool-cases, Option-cases, inl, inr, subst, if◌then◌else◌,
}
use grpc_push_sdk.Elk
use grpc_push_sdk.Log.{Loggers, Spdlog, init_logger}
use grpc_push_sdk.Packet.{World}
use grpc_push_sdk.Sdk.Lifecycle.{initialize_sdk, destroy_begin, has_ended}
use grpc_push_sdk.Sdk.Invariant.{Inv, Encodes, run-new_sdk-Inv}
use grpc_push_sdk.Sdk.Methods.{login, logout, join_group, leave_group}
use mathlib.Core.Option.{some-injective}
use grpc_push_sdk.Sdk.Run.{Op, step, run}
use grpc_push_sdk.Sdk.State.{PushSdk, CallContext, new_sdk}
use grpc_push_sdk.Types.{RetCode}
use grpc_push_sdk.Utils.{os_segment}
use grpc_push_sdk.Api.Runs.{
  ApiOp, Background, op_of, with_core, new_api, api_step, api_run, initializes, begins_destroy,
  ends_destroy, logs_in, logs_out, joins, leaves, creates_handler, destroys_handler,
  sets_conn_state_cb, sets_user_msg_cb, sets_group_msg_cb, background,
}

module _ (w : World) where
  -- The steps that lead from one state of PushSDK to another.
  abbrev Follows : PushSdk → PushSdk → Type 0
  Follows s s' = (ops : List Op) × (run w ops s ≡ some s')

  stay : (s s' : PushSdk) → s ≡ s' → Follows s s'
  unfolding run
  stay s s' e = ([], ap some e)

  by_step : (op : Op) (s s' : PushSdk) → step w op s ≡ some s' → Follows s s'
  unfolding run
  by_step op s s' e = (op ∷ [], ground (arith, e))

  run-append :
      (ops more : List Op) (s t u : PushSdk)
      → run w ops s ≡ some t
      → run w more t ≡ some u
      → run w (ops ++ more) s ≡ some u
  unfolding run
  run-append [] more s t u e f = ground (arith, e, f)
  run-append (op ∷ ops) more s t u e f = elim (Option-cases (step w op s)) [
    | inl fault ↦ ground (arith, fault, e)
    | inr (v, first) ↦ ground (arith, first, run-append ops more v t u (ground (arith, first, e)) f)
  ]

  then' : (s t u : PushSdk) → Follows s t → Follows t u → Follows s u
  then' s t u (ops, e) (more, f) = (ops ++ more, run-append ops more s t u e f)

  no_core : (api : Api) (i : PushSdk × RetCode) → api.sdk ≡ (initialize_core api none i).0.sdk
  unfolding initialize_core
  no_core api (s, ret) = refl

  initialize_core-sdk :
      (api : Api) (cb : ℕ) (s : PushSdk) (ret : RetCode)
      → (initialize_core api (some cb) (s, ret)).0.sdk ≡ s
  unfolding initialize_core
  initialize_core-sdk api cb s ret = ground arith

  initialize_with-Follows :
      (uid appid appkey : ℕ) (cb arg : Option ℕ) (garbage : Bool) (api : Api)
      → Follows api.sdk (initialize_with w uid appid appkey cb arg garbage api).0.sdk
  unfolding initialize_with step
  initialize_with-Follows uid appid appkey none arg garbage api =
      stay api.sdk _ (no_core api (initialize_sdk w uid appid appkey none arg garbage api.sdk))
  initialize_with-Follows uid appid appkey (some cb) arg garbage api =
      let (s, ret) = initialize_sdk w uid appid appkey (some cb) arg garbage api.sdk in
      by_step (Op.initializes uid appid appkey (some cb) arg garbage) api.sdk _
        (ap some (sym (initialize_core-sdk api cb s ret)))

  initialize_logged-Follows :
      (uid appid appkey : ℕ) (cb arg : Option ℕ) (garbage : Bool) (api : Api) (g : Loggers)
      (ret : RetCode)
      → Follows api.sdk (initialize_logged w uid appid appkey cb arg garbage api (g, ret)).0.sdk
  unfolding initialize_logged step
  initialize_logged-Follows uid appid appkey cb arg garbage api g RetCode.success =
      let started = record api.sdk { elk = Elk.initialize api.sdk.elk } in
      let api' = record api { sdk = started; log_initialized = true; loggers = g } in
      then' api.sdk started _ (by_step Op.starts_elk api.sdk started refl)
        (initialize_with-Follows uid appid appkey cb arg garbage api')
  initialize_logged-Follows uid appid appkey cb arg garbage api g _ = stay api.sdk _ refl

  initialize-Follows :
      (sp : Spdlog) (dir : List ℕ) (uid appid appkey : ℕ) (cb arg : Option ℕ) (garbage : Bool)
      (api : Api)
      → Follows api.sdk (push_sdk_initialize w sp dir uid appid appkey cb arg garbage api).0.sdk
  unfolding push_sdk_initialize
  initialize-Follows sp dir uid appid appkey cb arg garbage api =
      elim (Bool-cases api.initialized) [
        | inl yes' ↦ stay api.sdk _ (ground arith)
        | inr no' ↦ elim (Bool-cases api.log_initialized) [
          | inl logged ↦
              subst (Follows api.sdk) (ground arith)
                (initialize_with-Follows uid appid appkey cb arg garbage api)
          | inr unlogged ↦
              let (g, ret) =
                init_logger sp (os_segment w.terminal_type) w.terminal_type dir api.loggers in
              subst (Follows api.sdk) (ground arith)
                (initialize_logged-Follows uid appid appkey cb arg garbage api g ret)
        ]
      ]

  -- A call guarded by `_initialized` that makes one step of PushSDK.
  guarded :
      (op : Op) (api api' : Api) (s : PushSdk)
      → step w op api.sdk ≡ some s
      → api' ≡ (if api.initialized then record api { sdk = s } else api)
      → Follows api.sdk api'.sdk
  guarded op api api' s e h = elim (Bool-cases api.initialized) [
    | inl yes' ↦ by_step op api.sdk api'.sdk (ground arith)
    | inr no' ↦ stay api.sdk api'.sdk (ground arith)
  ]

  destroy_begin-Follows :
      (b : Bool) (api api' : Api)
      → push_sdk_destroy_begin b api ≡ some api'
      → Follows api.sdk api'.sdk
  unfolding push_sdk_destroy_begin destroyed step
  destroy_begin-Follows b api api' h = elim (Bool-cases api.initialized) [
    | inl yes' ↦ elim (Option-cases (destroy_begin b api.sdk)) [
      | inl fault ↦ absurd (ground (arith, h, yes', fault))
      | inr (s, e) ↦
          let result : s ≡ api'.sdk = ground (arith, h, yes', e) in
          by_step (Op.begins_destroy b) api.sdk api'.sdk (e ∙ ap some result)
    ]
    | inr no' ↦ stay api.sdk api'.sdk (ground (arith, h, no'))
  ]

  destroy_end-Follows : (api : Api) → Follows api.sdk (push_sdk_destroy_end api).sdk
  unfolding push_sdk_destroy_end step
  destroy_end-Follows api = elim (Bool-cases (api.initialized && has_ended api.sdk.client)) [
    | inl yes' ↦
        by_step Op.ends_destroy api.sdk (push_sdk_destroy_end api).sdk (ground (arith, yes'))
    | inr no' ↦ stay api.sdk (push_sdk_destroy_end api).sdk (ground (arith, no'))
  ]

  background-Follows :
      (b : Background) (api api' : Api)
      → with_core api (step w (op_of b) api.sdk) ≡ some api'
      → Follows api.sdk api'.sdk
  background-Follows b api api' h = elim (Option-cases (step w (op_of b) api.sdk)) [
    | inl fault ↦ absurd (ground (arith, h, fault))
    | inr (s, e) ↦
        let result : s ≡ api'.sdk = ground (arith, h, e) in
        by_step (op_of b) api.sdk api'.sdk (e ∙ ap some result)
  ]

  result :
      (x y : Api) (s : PushSdk)
      → ◌≡◌ {A = Option Api} (some x) (some y)
      → Follows s x.sdk
      → Follows s y.sdk
  result x y s e = subst (λ (a : Api). Follows s a.sdk) (some-injective x y e)

  -- Every call of a C function, and every round of a thread, is a run of steps of PushSDK.
  api_step-Follows :
      (op : ApiOp) (api api' : Api) → api_step w op api ≡ some api' → Follows api.sdk api'.sdk
  unfolding api_step step push_sdk_login login_checked push_sdk_logout push_sdk_join_group
      push_sdk_leave_group push_sdk_create_handler push_sdk_destroy_handler
      push_sdk_set_conn_state_cb push_sdk_set_user_msg_cb push_sdk_set_group_msg_cb
  api_step-Follows (initializes sp dir uid appid appkey cb arg garbage) api api' h =
      result _ api' api.sdk h (initialize-Follows sp dir uid appid appkey cb arg garbage api)
  api_step-Follows (begins_destroy b) api api' h = destroy_begin-Follows b api api' h
  api_step-Follows ends_destroy api api' h = result _ api' api.sdk h (destroy_end-Follows api)
  api_step-Follows (logs_in none) api api' h = stay api.sdk api'.sdk (ground arith)
  api_step-Follows (logs_in (some user)) api api' h =
      guarded (Op.logs_in user none) api api' (login w user none api.sdk).0 refl (ground arith)
  api_step-Follows logs_out api api' h =
      guarded (Op.logs_out none) api api' (logout w none api.sdk).0 refl (ground arith)
  api_step-Follows (joins g) api api' h =
      guarded (Op.joins g none) api api' (join_group w g none api.sdk).0 refl (ground arith)
  api_step-Follows (leaves g) api api' h =
      guarded (Op.leaves g none) api api' (leave_group w g none api.sdk).0 refl (ground arith)
  api_step-Follows creates_handler api api' h =
      result _ api' api.sdk h (by_step Op.creates_handler api.sdk _ refl)
  api_step-Follows (destroys_handler none) api api' h =
      result _ api' api.sdk h (stay api.sdk _ refl)
  api_step-Follows (destroys_handler (some hdl)) api api' h =
      result _ api' api.sdk h (by_step (Op.destroys_handler hdl) api.sdk _ refl)
  api_step-Follows (sets_conn_state_cb (some hdl) (some cb)) api api' h =
      result _ api' api.sdk h (by_step (Op.sets_conn_state_cb hdl cb) api.sdk _ refl)
  api_step-Follows (sets_conn_state_cb _ _) api api' h =
      result _ api' api.sdk h (stay api.sdk _ refl)
  api_step-Follows (sets_user_msg_cb (some hdl) (some cb)) api api' h =
      result _ api' api.sdk h (by_step (Op.sets_user_msg_cb hdl cb) api.sdk _ refl)
  api_step-Follows (sets_user_msg_cb _ _) api api' h = result _ api' api.sdk h (stay api.sdk _ refl)
  api_step-Follows (sets_group_msg_cb (some hdl) (some cb)) api api' h =
      result _ api' api.sdk h (by_step (Op.sets_group_msg_cb hdl cb) api.sdk _ refl)
  api_step-Follows (sets_group_msg_cb _ _) api api' h =
      result _ api' api.sdk h (stay api.sdk _ refl)
  api_step-Follows (background b) api api' h = background-Follows b api api' h

  api_run-Follows :
      (ops : List ApiOp) (api api' : Api) → api_run w ops api ≡ some api' → Follows api.sdk api'.sdk
  unfolding api_run
  api_run-Follows [] api api' h = stay api.sdk api'.sdk (ground arith)
  api_run-Follows (op ∷ ops) api api' h = elim (Option-cases (api_step w op api)) [
    | inl fault ↦ absurd (ground (arith, h, fault))
    | inr (t, e) ↦
        then' api.sdk t.sdk api'.sdk (api_step-Follows op api t e)
          (api_run-Follows ops t api' (ground (arith, h, e)))
  ]

-- The state of PushSDK under the C functions is one that a run of its own steps reaches, so that what
-- holds in each state that such a run reaches holds behind the C functions, in any order of calls.
pub api_run-new_api :
    (w : World) (heap : ℕ → CallContext) (ops : List ApiOp) (api : Api)
    → api_run w ops (new_api heap) ≡ some api
    → (core : List Op) × (run w core (new_sdk heap) ≡ some api.sdk)
api_run-new_api w heap ops api h = api_run-Follows w ops (new_api heap) api h

-- With the invariant of PushSDK: behind the C functions a user is logged in only on an initialized SDK, which
-- has a client, and is in groups only while logged in, each once; where the login request can be
-- serialized.
pub api_run-Inv :
    (w : World) (heap : ℕ → CallContext) (ops : List ApiOp) (api : Api)
    → Encodes w
    → api_run w ops (new_api heap) ≡ some api
    → Inv api.sdk
api_run-Inv w heap ops api e h =
    let (core, reached) = api_run-new_api w heap ops api h in
    run-new_sdk-Inv w heap core api.sdk e reached
