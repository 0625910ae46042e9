-- ===== src/Sdk/Groups/Table.antt =====
-- The group table as a set of groups, kept in order.
use grpc_push_sdk.Common.{
  ℕ, ◌≤◌, ◌≡◌, refl, Bool, false, not, ◌&&◌, ◌||◌, List, [], ◌∷◌, arith, ◌==◌,
}
use grpc_push_sdk.Sdk.Groups.{insert, is_group_info_exists, remove_group_info}

-- No group stands in the table twice.
abbrev pub Distinct : List (ℕ × ℕ) → Type 0
Distinct [] = Unit {0}
Distinct ((k, v) ∷ m) = (is_group_info_exists k v m ≡ false) × Distinct m

-- The types ascend from `low` on.
abbrev pub Ascends : ℕ → List (ℕ × ℕ) → Type 0
Ascends low [] = Unit {0}
Ascends low ((k, v) ∷ m) = (low ≤ k) × Ascends k m

abbrev pub same_group : ℕ → ℕ → ℕ → ℕ → Bool
same_group g i k v = k == g && v == i

-- An insertion adds its group to the set, and no other.
pub is_group_info_exists-insert :
    (g i k v : ℕ) (m : List (ℕ × ℕ))
    → is_group_info_exists k v (insert g i m) ≡ (same_group g i k v || is_group_info_exists k v m)
unfolding insert is_group_info_exists
is_group_info_exists-insert g i k v [] = ground arith
is_group_info_exists-insert g i k v ((a, b) ∷ m) =
    ground (arith, is_group_info_exists-insert g i k v m)

-- A removal takes its group out of a table without duplicates, and no other.
pub is_group_info_exists-remove_group_info :
    (g i k v : ℕ) (m : List (ℕ × ℕ))
    → Distinct m
    → is_group_info_exists k v (remove_group_info g i m)
      ≡ (not (same_group g i k v) && is_group_info_exists k v m)
unfolding remove_group_info is_group_info_exists
is_group_info_exists-remove_group_info g i k v [] d = ground arith
is_group_info_exists-remove_group_info g i k v ((a, b) ∷ m) d =
    ground (arith, is_group_info_exists-remove_group_info g i k v m)

pub insert-Distinct :
    (g i : ℕ) (m : List (ℕ × ℕ))
    → is_group_info_exists g i m ≡ false
    → Distinct m
    → Distinct (insert g i m)
unfolding insert is_group_info_exists
insert-Distinct g i [] h d = (refl, tt)
insert-Distinct g i ((a, b) ∷ m) h d =
    ground (arith, insert-Distinct g i m, is_group_info_exists-insert g i a b m)

pub remove_group_info-Distinct :
    (g i : ℕ) (m : List (ℕ × ℕ)) → Distinct m → Distinct (remove_group_info g i m)
unfolding remove_group_info
remove_group_info-Distinct g i [] d = tt
remove_group_info-Distinct g i ((a, b) ∷ m) d = ground (
  arith,
  remove_group_info-Distinct g i m d.1,
  is_group_info_exists-remove_group_info g i a b m d.1,
)

pub insert-Ascends :
    (low g i : ℕ) (m : List (ℕ × ℕ)) → low ≤ g → Ascends low m → Ascends low (insert g i m)
unfolding insert
insert-Ascends low g i [] h a = (h, tt)
insert-Ascends low g i ((k, v) ∷ m) h a = ground (arith, insert-Ascends k g i m)

Ascends-mono : (low high : ℕ) (m : List (ℕ × ℕ)) → low ≤ high → Ascends high m → Ascends low m
Ascends-mono low high [] h a = tt
Ascends-mono low high ((k, v) ∷ m) h a = (omega arith, a.1)

pub remove_group_info-Ascends :
    (low g i : ℕ) (m : List (ℕ × ℕ)) → Ascends low m → Ascends low (remove_group_info g i m)
unfolding remove_group_info
remove_group_info-Ascends low g i [] a = tt
remove_group_info-Ascends low g i ((k, v) ∷ m) a =
    ground (arith, remove_group_info-Ascends k g i m a.1, Ascends-mono low k m)
