-- ===== src/Sdk/CallMap.antt =====
-- std::map<int64_t, std::shared_ptr<CallContext>> cb_map_: the calls that wait for a response, by
-- the time of the call. A value is the address of its context. The keys are readings of the steady
-- clock, from 0 up.
pub mod Order
use grpc_push_sdk.Common.{ℕ, List, [], ◌∷◌, Option, none, some, ltb, ◌==◌, if◌then◌else◌}

-- cb_map_[now] = ctx.
unfoldable pub insert : ℕ → ℕ → List (ℕ × ℕ) → List (ℕ × ℕ)
insert now ctx [] = (now, ctx) ∷ []
insert now ctx ((k, v) ∷ m) =
    if ltb now k
    then (now, ctx) ∷ (k, v) ∷ m
    else if k == now
    then (now, ctx) ∷ m
    else (k, v) ∷ insert now ctx m

unfoldable pub find : ℕ → List (ℕ × ℕ) → Option ℕ
find ts [] = none
find ts ((k, v) ∷ m) = if k == ts then some v else find ts m

unfoldable pub erase : ℕ → List (ℕ × ℕ) → List (ℕ × ℕ)
erase ts [] = []
erase ts ((k, v) ∷ m) = if k == ts then m else (k, v) ∷ erase ts m
