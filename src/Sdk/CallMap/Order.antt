-- ===== src/Sdk/CallMap/Order.antt =====
-- The map of the waiting calls: its keys ascend, and its three operations are those of a map.
use grpc_push_sdk.Common.{
  ℕ, suc, ◌≤◌, ◌<◌, ◌≡◌, refl, List, [], ◌∷◌, none, some, arith, ◌==◌, if◌then◌else◌,
}
use grpc_push_sdk.Sdk.CallMap.{insert, find, erase}

-- The keys ascend strictly, from `low` on.
abbrev pub Ascends : ℕ → List (ℕ × ℕ) → Type 0
Ascends low [] = Unit {0}
Ascends low ((k, v) ∷ m) = (low ≤ k) × Ascends (suc k) m

-- After an insertion the new call is found under its instant, and every other instant as before.
pub find-insert :
    (ts now ctx : ℕ) (m : List (ℕ × ℕ))
    → find ts (insert now ctx m) ≡ (if now == ts then some ctx else find ts m)
unfolding find insert
find-insert ts now ctx [] = ground arith
find-insert ts now ctx ((k, v) ∷ m) = ground (arith, find-insert ts now ctx m)

find_below : (ts low : ℕ) (m : List (ℕ × ℕ)) → ts < low → Ascends low m → find ts m ≡ none
unfolding find
find_below ts low [] h a = refl
find_below ts low ((k, v) ∷ m) h a = ground (arith, find_below ts (suc k) m)

-- After an erasure nothing is found under its instant, and every other instant as before, where the
-- keys ascend.
pub find-erase :
    (low ts now : ℕ) (m : List (ℕ × ℕ))
    → Ascends low m
    → find ts (erase now m) ≡ (if now == ts then none else find ts m)
unfolding find erase
find-erase low ts now [] a = ground arith
find-erase low ts now ((k, v) ∷ m) a =
    ground (arith, find-erase (suc k) ts now m a.1, find_below ts (suc k) m)

Ascends-mono : (low high : ℕ) (m : List (ℕ × ℕ)) → low ≤ high → Ascends high m → Ascends low m
Ascends-mono low high [] h a = tt
Ascends-mono low high ((k, v) ∷ m) h a = (omega arith, a.1)

pub insert-Ascends :
    (low now ctx : ℕ) (m : List (ℕ × ℕ))
    → low ≤ now
    → Ascends low m
    → Ascends low (insert now ctx m)
unfolding insert
insert-Ascends low now ctx [] h a = (h, tt)
insert-Ascends low now ctx ((k, v) ∷ m) h a = ground (arith, insert-Ascends (suc k) now ctx m)

pub erase-Ascends : (low ts : ℕ) (m : List (ℕ × ℕ)) → Ascends low m → Ascends low (erase ts m)
unfolding erase
erase-Ascends low ts [] a = tt
erase-Ascends low ts ((k, v) ∷ m) a =
    ground (arith, erase-Ascends (suc k) ts m a.1, Ascends-mono low (suc k) m)
