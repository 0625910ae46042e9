-- ===== src/Witnesses/Singleton.antt =====
-- The theorems on Instance, applied to two calls whose turns interleave. The object is a number.
use grpc_push_sdk.Common.{ℕ, ◌≡◌, ◌≢◌, ◌≤◌, refl, List, [], ◌∷◌, Option, none, some, true, is_some}
use grpc_push_sdk.Singleton.{advance, turn, turns, constructions, no_calls, returned}
use grpc_push_sdk.Singleton.Once.{one_object, thrown-unreturned}
use grpc_push_sdk.Singleton.Returns.{calls-return}

-- The object of the first call.
abbrev made : Option ℕ
made = some 7

-- The second call comes while the first constructs, and would make another object.
abbrev schedule : List (ℕ × Option ℕ)
schedule =
    (0, none)
    ∷ (1, some 8)
    ∷ (1, some 8)
    ∷ (0, some 7)
    ∷ (0, none)
    ∷ (1, some 8)
    ∷ (0, none)
    ∷ (1, none)
    ∷ (1, none)
    ∷ (0, none)
    ∷ (0, none)
    ∷ []

one_object_example :
    (made ≡ made) × (is_some made ≡ true) × (constructions schedule (no_calls {A = ℕ}) ≤ 1)
unfolding turns turn advance
one_object_example = one_object schedule 0 1 made made refl refl

-- The constructor throws in the first call.
abbrev throwing : List (ℕ × Option ℕ)
throwing = (1, none) ∷ (0, none) ∷ (1, none) ∷ []

thrown-unreturned_example : (turns schedule (turns throwing no_calls)).pc 0 ≢ returned (some 7)
unfolding turns turn advance
thrown-unreturned_example = thrown-unreturned throwing schedule 0 1 (some 7) refl

-- The second call waits in its loop.
abbrev waiting : List (ℕ × Option ℕ)
waiting = (0, some 7) ∷ (1, some 8) ∷ (1, some 8) ∷ (0, some 7) ∷ []

calls-return_example :
    (us : List (ℕ × Option ℕ)) × (b : ℕ) × ((turns us (turns waiting no_calls)).pc 1
      ≡ returned (some b))
calls-return_example = calls-return waiting 1 9 (refl, (refl, (refl, (refl, tt))))
