-- ===== src/Sdk/Session/Retries.antt =====
-- Rounds of the timeout thread while a login of the SDK's own is not answered.
use grpc_push_sdk.Client.{Client}
use grpc_push_sdk.Common.{
  ℕ, zero, suc, ◌≡◌, List, [], ◌∷◌, ◌++◌, Option, none, some, bytes, length, All, if◌then◌else◌,
}
use grpc_push_sdk.Packet.{World, PushRegReq}
use grpc_push_sdk.Sdk.State.{PushSdk, EventCbContext}
use grpc_push_sdk.Sdk.Threads.{is_expired, check_timeouts}
use grpc_push_sdk.Types.{CbType, CbEvent, UserInfo}
use grpc_push_sdk.Sdk.Session.Retry.{Retrying}

-- The timeouts that the event thread is told of.
abbrev pub timeouts : ℕ → List EventCbContext
timeouts zero = []
timeouts (suc n) =
    record { type = CbType.login; res = CbEvent.timeout; desc = bytes "timeout" } ∷ timeouts n

module _ (w : World) where
  -- Rounds of the timeout thread.
  unfoldable pub rounds : ℕ → PushSdk → Option PushSdk
  rounds zero s = some s
  rounds (suc n) s = elim (check_timeouts w s) [ none ↦ none | some s' ↦ rounds n s' ]

  -- How many of `n` rounds find the waiting login expired, by the readings of the clock from the
  -- `reads`-th on, where the login was sent at `t`. Such a round reads the clock twice, for the round
  -- and for the new login; any other round reads it once.
  unfoldable pub expiries : ℕ → ℕ → ℕ → ℕ
  expiries zero reads t = 0
  expiries (suc n) reads t =
      let again = expiries n (suc (suc reads)) (w.steady_nano_seconds (suc reads)) in
      let quiet = expiries n (suc reads) t in
      if is_expired (w.steady_nano_seconds reads) t then suc again else quiet

module _ (w : World) (f : ℕ) (arg : Option ℕ) (user : UserInfo) (req : ℕ → PushRegReq) where
  -- What is left after `n` rounds.
  pub record Retried (n : ℕ) (events : List EventCbContext) (c : Client) (s' : PushSdk)
      (c' : Client) : Type 0 where
    pub still_logged_in : s'.user ≡ some user
    pub told : s'.event_cb_pctxs ≡ events ++ timeouts n
    pub connected : s'.client ≡ some c'
    pub queued :
        (reqs : List PushRegReq) × (c'.msg_queue ≡ c.msg_queue ++ reqs)
        × (length reqs ≡ n)
        × All (λ r. (now : ℕ) × (r ≡ req now)) reqs
    pub waits : (t a : ℕ) × Retrying w f arg user req t a s'
