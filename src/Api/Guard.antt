-- ===== src/Api/Guard.antt =====
-- The guards of src/push_sdk.cpp.
use grpc_push_sdk.Api.{
  Api, push_sdk_initialize, initialize_core, initialize_with, initialize_logged,
}
use grpc_push_sdk.Client.{initialize, new_client}
use grpc_push_sdk.Common.{
  ℕ, ◌≡◌, inl, inr, Bool-cases, refl, Bool, true, false, List, [], ◌∷◌, Option, some,
}
use grpc_push_sdk.Config.{is_linux}
use grpc_push_sdk.Log.{Spdlog, init_logger, made}
use grpc_push_sdk.Log.Registry.{
  Has, IsUnique, sdk_name, init_logger-taken, init_logger-Has, init_logger-made,
}
use grpc_push_sdk.Packet.{World}
use grpc_push_sdk.Utils.{os_segment}
use grpc_push_sdk.Sdk.Lifecycle.{initialize_sdk, initialized}
use grpc_push_sdk.Types.{RetCode}

-- A PushSDKInitialize with a function to call back, on an SDK that is not initialized, once the
-- loggers start, succeeds, and the next one, whatever its arguments, returns PS_RET_ALREADY_INIT and
-- changes nothing.
pub initialize_once :
    (w : World) (sp : Spdlog) (dir : List ℕ) (uid appid appkey cb : ℕ) (arg : Option ℕ)
    (garbage : Bool) (api : Api) (sp' : Spdlog) (dir' : List ℕ) (uid' appid' appkey' : ℕ)
    (cb' arg' : Option ℕ) (garbage' : Bool)
    → api.initialized ≡ false
    → api.sdk.init ≡ false
    → (init_logger sp (os_segment w.terminal_type) w.terminal_type dir api.loggers).1
      ≡ RetCode.success
    → let (api1, ret) = push_sdk_initialize w sp dir uid appid appkey (some cb) arg garbage api in
      (ret ≡ RetCode.success)
      × (push_sdk_initialize w sp' dir' uid' appid' appkey' cb' arg' garbage' api1
          ≡ (api1, RetCode.already_init))
unfolding push_sdk_initialize initialize_logged initialize_with initialize_core initialize_sdk
    initialized initialize new_client
initialize_once w sp dir uid appid appkey cb arg garbage api sp' dir' uid' appid' appkey' cb' arg'
      garbage' closed fresh logs =
    elim (Bool-cases api.log_initialized) [
      | inl logged ↦ rw (closed, logged, fresh) (refl, refl)
      | inr unlogged ↦ rw (closed, unlogged, logs, fresh) (refl, refl)
    ]

-- Not initialized, and without a name for the SDK's logger that spdlog would take.
abbrev pub IsStuck : Api → Type 0
IsStuck api =
    (api.initialized ≡ false) × (api.log_initialized ≡ false) × Has sdk_name api.loggers.registered

module _ (w : World) (sp : Spdlog) (linux : is_linux w.terminal_type ≡ true)
    (unique : IsUnique sp) where
  refused_again :
      (dir : List ℕ) (uid appid appkey : ℕ) (cb arg : Option ℕ) (garbage : Bool) (api : Api)
      → IsStuck api
      → let (api', ret) = push_sdk_initialize w sp dir uid appid appkey cb arg garbage api in
        (ret ≡ RetCode.init_log_failed) × IsStuck api'
  unfolding push_sdk_initialize initialize_logged
  refused_again dir uid appid appkey cb arg garbage api (closed, unlogged, taken) =
      let segment = os_segment w.terminal_type in
      let refused =
        init_logger-taken sp segment w.terminal_type dir api.loggers linux unique taken in
      let kept = init_logger-Has sp segment w.terminal_type sdk_name dir api.loggers taken in
      rw (closed, unlogged, refused) (refl, (refl, refl, kept))

  first_refused :
      (dir : List ℕ) (uid appid appkey : ℕ) (cb arg : Option ℕ) (garbage : Bool) (api : Api)
      → api.initialized ≡ false
      → api.log_initialized ≡ false
      → sp.stdout_color_mt api.loggers.registered sdk_name ≡ made
      → (init_logger sp (os_segment w.terminal_type) w.terminal_type dir api.loggers).1
        ≡ RetCode.init_log_failed
      → let (api', ret) = push_sdk_initialize w sp dir uid appid appkey cb arg garbage api in
        (ret ≡ RetCode.init_log_failed) × IsStuck api'
  unfolding push_sdk_initialize initialize_logged
  first_refused dir uid appid appkey cb arg garbage api closed unlogged m failed =
      let segment = os_segment w.terminal_type in
      let kept = init_logger-made sp segment w.terminal_type dir api.loggers linux m in
      rw (closed, unlogged, failed) (refl, (refl, refl, kept))

  -- Calls of PushSDKInitialize, one after the other, each with its own directory.
  abbrev pub retried : ℕ → ℕ → ℕ → Option ℕ → Option ℕ → Bool → List (List ℕ) → Api → Api
  retried uid appid appkey cb arg garbage [] api = api
  retried uid appid appkey cb arg garbage (dir ∷ dirs) api =
      retried uid appid appkey cb arg garbage dirs
        (push_sdk_initialize w sp dir uid appid appkey cb arg garbage api).0

  retried-IsStuck :
      (uid appid appkey : ℕ) (cb arg : Option ℕ) (garbage : Bool) (dirs : List (List ℕ)) (api : Api)
      → IsStuck api
      → IsStuck (retried uid appid appkey cb arg garbage dirs api)
  retried-IsStuck uid appid appkey cb arg garbage [] api h = h
  retried-IsStuck uid appid appkey cb arg garbage (dir ∷ dirs) api h =
      retried-IsStuck uid appid appkey cb arg garbage dirs
        (push_sdk_initialize w sp dir uid appid appkey cb arg garbage api).0
        (refused_again dir uid appid appkey cb arg garbage api h).1

  -- On Linux, with a spdlog that keeps names registered: where the first PushSDKInitialize makes the
  -- console's logger but not the rest, it fails, and so does each further one after any number of
  -- others, whatever directories they are given.
  pub initialize_stuck :
      (first dir : List ℕ) (dirs : List (List ℕ)) (uid appid appkey : ℕ) (cb arg : Option ℕ)
      (garbage : Bool) (api : Api)
      → api.initialized ≡ false
      → api.log_initialized ≡ false
      → sp.stdout_color_mt api.loggers.registered sdk_name ≡ made
      → (init_logger sp (os_segment w.terminal_type) w.terminal_type first api.loggers).1
        ≡ RetCode.init_log_failed
      → let (api1, ret) = push_sdk_initialize w sp first uid appid appkey cb arg garbage api in
        (ret ≡ RetCode.init_log_failed)
        × ((push_sdk_initialize w sp dir uid appid appkey cb arg garbage
              (retried uid appid appkey cb arg garbage dirs api1)).1
            ≡ RetCode.init_log_failed)
  initialize_stuck first dir dirs uid appid appkey cb arg garbage api closed unlogged m failed =
      let (ret, stuck) =
        first_refused first uid appid appkey cb arg garbage api closed unlogged m failed in
      let api1 = (push_sdk_initialize w sp first uid appid appkey cb arg garbage api).0 in
      (
        ret,
        (refused_again dir uid appid appkey cb arg garbage
            (retried uid appid appkey cb arg garbage dirs api1)
            (retried-IsStuck uid appid appkey cb arg garbage dirs api1 stuck)).0,
      )
