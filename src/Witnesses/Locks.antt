-- ===== src/Witnesses/Locks.antt =====
-- The theorems on locks, applied to the first acts of threads.
use grpc_push_sdk.Common.{ℕ, ◌≡◌, refl, List, [], ◌∷◌, none, some, true, false, inl}
use grpc_push_sdk.Locks.{
  Act, Thread, hdls, locked, holds, is_free, without, act, thread_at, with_thread, turn, turns,
}
use grpc_push_sdk.Locks.Finish.{AllDone}
use grpc_push_sdk.Locks.Methods.{gets_error, joins}
use grpc_push_sdk.Locks.Rounds.{
  Activity, calls, sets_handler, polls, handles, user_message, started, handler_locks,
}
use grpc_push_sdk.Locks.Safe.{no_deadlock}
use grpc_push_sdk.Locks.Stuck.{receiver, DoomedAt, callback-stuck}
use grpc_push_sdk.Sdk.State.{PushSdk, new_sdk}
use grpc_push_sdk.Witnesses.{world, heap, room, somebody}

abbrev session : PushSdk
session = record (new_sdk heap) { user = some somebody }

-- A caller of PushSDKGetLastError, one of a handler function, and the client's thread, which hands a
-- message to a callback that joins a group.
abbrev programs : List (List Activity)
programs =
    (calls gets_error ∷ [])
    ∷ (sets_handler ∷ [])
    ∷ (polls [] (handles true (user_message ((joins true room false session ∷ []) ∷ []))) session
        ∷ [])
    ∷ []

-- The client's thread holds stream_mux_ and is past the mutexes of the queue and of the user, the first
-- caller holds _mux and the second hdls_mux_.
abbrev schedule : List ℕ
schedule = 0 ∷ 2 ∷ 2 ∷ 2 ∷ 2 ∷ 2 ∷ 1 ∷ []

unfoldable reached : List Thread
reached = elim (turns schedule (started world programs)) [ none ↦ [] | some all ↦ all ]

no_deadlock_example :
    (js : List ℕ) × (all' : List Thread) × (turns js reached ≡ some all') × AllDone all'
unfolding turns turn thread_at with_thread act without is_free holds locked reached new_sdk
no_deadlock_example = no_deadlock world programs schedule reached refl

-- The client's thread, before it hands a message to a function that creates a handler, and a thread that
-- sets one.
abbrev creating : Thread
creating = receiver world session refl [] [] [] true handler_locks

abbrev both : List Thread
both = creating ∷ record { held = []; todo = handler_locks } ∷ []

-- It has locked stream_mux_ and come to the mutex of the queue.
unfoldable both_later : List Thread
both_later = elim (turns (0 ∷ 0 ∷ 1 ∷ []) both) [ none ↦ [] | some all ↦ all ]

callback-stuck_example : (rest : List Act) × DoomedAt hdls rest 0 both_later
unfolding both_later turns turn thread_at with_thread act without is_free holds locked new_sdk
callback-stuck_example =
    callback-stuck world session refl [] [] [] true 0 (0 ∷ 0 ∷ 1 ∷ []) handler_locks hdls both
      both_later (inl (refl, refl)) refl refl
