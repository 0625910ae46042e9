-- ===== src/Sdk/Threads/Timeouts.antt =====
-- The thread that times calls out: its loop ends, and leaves no call that has expired.
use grpc_push_sdk.Common.{
  ℕ, zero, suc, ◌≤◌, ◌<◌, ◌≡◌, refl, ◌⊎◌, inl, inr, Bool, true, false, List, [], ◌∷◌, some, arith,
  Bool-cases, bytes, leb, length, All, if◌then◌else◌,
}
use grpc_push_sdk.Int.{ℤ, pos}
use grpc_push_sdk.Packet.{World}
use grpc_push_sdk.Sdk.CallMap
use grpc_push_sdk.Sdk.CallMap.Order.{Ascends, insert-Ascends}
use grpc_push_sdk.Sdk.Calls.{call, notify}
use grpc_push_sdk.Sdk.Session.{
  relogin, rejoin_group, handle_timeout_response, remove_all_group_info, get_now, after_reading,
}
use grpc_push_sdk.Sdk.State.{PushSdk, CallContext, elk_upload}
use grpc_push_sdk.Sdk.Threads.{is_expired, expire, sweep, check_timeouts}
use grpc_push_sdk.Types.{CbEvent, res_etimeout}

-- std::chrono::steady_clock never goes back.
abbrev pub IsSteady : World → Type 0
IsSteady w = (i : ℕ) → w.steady_nano_seconds i ≤ w.steady_nano_seconds (suc i)

-- What a timeout does to the map: at most one new call, at the next reading of the clock.
abbrev Retried : World → PushSdk → List (ℕ × ℕ) → Type 0
Retried w s m = (m ≡ s.cb_map) ⊎ (m ≡ CallMap.insert (get_now w s) s.next_ctx s.cb_map)

module _ (w : World) where
  relogin-Retried :
      (b : Bool) (s : PushSdk)
      → Retried w s (relogin w b s).cb_map × (s.reads ≤ (relogin w b s).reads)
  unfolding relogin call elk_upload
  relogin-Retried b s = ground arith

  rejoin_group-Retried :
      (s : PushSdk) → Retried w s (rejoin_group w s).cb_map × (s.reads ≤ (rejoin_group w s).reads)
  unfolding rejoin_group call elk_upload remove_all_group_info
  rejoin_group-Retried s = ground arith

  timeout-Retried :
      (ctx : CallContext) (s : PushSdk)
      → Retried w s (handle_timeout_response w ctx s).cb_map
        × (s.reads ≤ (handle_timeout_response w ctx s).reads)
  unfolding handle_timeout_response
  timeout-Retried ctx s = ground (arith, relogin-Retried true s, rejoin_group-Retried s)

  notify_frame :
      (a : ℕ) (res : CbEvent) (desc : List ℕ) (code : ℤ) (s : PushSdk)
      → ((notify a res desc code s).cb_map ≡ s.cb_map)
        × ((notify a res desc code s).reads ≡ s.reads)
  unfolding notify
  notify_frame a res desc code s = ground arith

erase_head : (ts a : ℕ) (m : List (ℕ × ℕ)) → CallMap.erase ts ((ts, a) ∷ m) ≡ m
unfolding CallMap.erase
erase_head ts a m = ground arith

pub erase-insert_head :
    (ts a k c : ℕ) (m : List (ℕ × ℕ))
    → ts < k
    → CallMap.erase ts (CallMap.insert k c ((ts, a) ∷ m)) ≡ CallMap.insert k c m
unfolding CallMap.erase CallMap.insert
erase-insert_head ts a k c m h = ground arith

-- How many calls have expired.
expired_count : ℕ → List (ℕ × ℕ) → ℕ
expired_count now [] = 0
expired_count now ((ts, a) ∷ m) =
    if is_expired now ts then suc (expired_count now m) else expired_count now m

expired_count-insert :
    (now k c : ℕ) (m : List (ℕ × ℕ))
    → now ≤ k
    → expired_count now (CallMap.insert k c m) ≡ expired_count now m
unfolding expired_count CallMap.insert
expired_count-insert now k c [] h = ground arith
expired_count-insert now k c ((ts, a) ∷ m) h = ground (arith, expired_count-insert now k c m)

expired_count-le : (now : ℕ) (m : List (ℕ × ℕ)) → expired_count now m ≤ length m
unfolding expired_count
expired_count-le now [] = omega arith
expired_count-le now ((ts, a) ∷ m) = ground (arith, expired_count-le now m)

module _ (w : World) where
  -- An expired head goes, and what comes in its place is young.
  expire_lem :
      (now ts a : ℕ) (m : List (ℕ × ℕ)) (s : PushSdk)
      → s.cb_map ≡ (ts, a) ∷ m
      → is_expired now ts ≡ true
      → now ≤ get_now w s
      → (((expire w ts a s).cb_map ≡ m)
          ⊎ ((expire w ts a s).cb_map ≡ CallMap.insert (get_now w s) s.next_ctx m))
        × (s.reads ≤ (expire w ts a s).reads)
  unfolding expire
  expire_lem now ts a m s e h n = ground (
    arith,
    timeout-Retried w (s.ctxs a) s,
    notify_frame w a CbEvent.timeout (bytes "timeout") (pos res_etimeout)
        (handle_timeout_response w (s.ctxs a) s),
    erase_head ts a m,
    erase-insert_head ts a (get_now w s) s.next_ctx m,
  )

-- Every key is too young to have expired.
abbrev pub Young : ℕ → List (ℕ × ℕ) → Type 0
Young now = All (λ (p : ℕ × ℕ). is_expired now p.0 ≡ false)

head-Young :
    (now low ts : ℕ) (m : List (ℕ × ℕ)) → is_expired now low ≡ false → Ascends low m → Young now m
head-Young now low ts [] h a = tt
head-Young now low ts ((k, v) ∷ m) h a =
    (ground arith, head-Young now (suc k) ts m (ground arith) a.1)

weaken : (ts : ℕ) (m : List (ℕ × ℕ)) → Ascends (suc ts) m → Ascends 0 m
weaken ts [] h = tt
weaken ts ((k, v) ∷ m) h = (omega arith, h.1)

module _ (w : World) (steady : IsSteady w) where
  steady_mono : (i j : ℕ) → i ≤ j → w.steady_nano_seconds i ≤ w.steady_nano_seconds j
  steady_mono i zero h = ground arith
  steady_mono i (suc j) h = elim (Bool-cases (leb i j)) [
    | inl below ↦ omega (arith, steady_mono i j (ground arith), steady j)
    | inr last ↦ ground arith
  ]

  next_map :
      (now ts a fuel : ℕ) (m : List (ℕ × ℕ)) (s : PushSdk)
      → s.cb_map ≡ (ts, a) ∷ m
      → is_expired now ts ≡ true
      → now ≤ get_now w s
      → Ascends 0 ((ts, a) ∷ m)
      → expired_count now ((ts, a) ∷ m) < suc fuel
      → let s' = expire w ts a s in
        Ascends 0 s'.cb_map × (expired_count now s'.cb_map < fuel) × (now ≤ get_now w s')
  unfolding expired_count
  next_map now ts a fuel m s e h n asc c = ground (
    arith,
    expire_lem w now ts a m s e h n,
    insert-Ascends 0 (get_now w s) s.next_ctx m,
    weaken ts m asc.1,
    expired_count-insert now (get_now w s) s.next_ctx m n,
    steady_mono s.reads (expire w ts a s).reads,
  )

  sweep_ends :
      (fuel now : ℕ) (m : List (ℕ × ℕ)) (s : PushSdk)
      → s.cb_map ≡ m
      → now ≤ get_now w s
      → Ascends 0 m
      → expired_count now m < fuel
      → (s' : PushSdk) × (sweep w fuel now m s ≡ some s') × Young now s'.cb_map
  unfolding sweep
  sweep_ends fuel now [] s e n asc c = (s, refl, rw e tt)
  sweep_ends zero now ((ts, a) ∷ m) s e n asc c = absurd (omega arith)
  sweep_ends (suc fuel) now ((ts, a) ∷ m) s e n asc c = elim (Bool-cases (is_expired now ts)) [
    | inl old ↦
        let (asc', c', n') = next_map now ts a fuel m s e old n asc c in
        rw old (sweep_ends fuel now (expire w ts a s).cb_map (expire w ts a s) refl n' asc' c')
    | inr young ↦
        rw young (s, refl, rw e (young, head-Young now (suc ts) ts m (ground arith) asc.1))
  ]

  -- On a clock that never goes back and a map whose keys ascend, a round of the thread ends with the
  -- fuel that it is given, and leaves no call that has expired at the time of the round.
  pub check_timeouts-Young :
      (s : PushSdk)
      → Ascends 0 s.cb_map
      → (s' : PushSdk) × (check_timeouts w s ≡ some s') × Young (get_now w s) s'.cb_map
  unfolding check_timeouts
  check_timeouts-Young s asc =
      sweep_ends (suc (length s.cb_map)) (get_now w s) s.cb_map (after_reading w s) refl
        (steady s.reads) asc (omega (arith, expired_count-le (get_now w s) s.cb_map))
