-- ===== src/Sdk/Groups.antt =====
-- The group table of PushSDK, std::multimap<uint64_t, uint64_t> groups_: pairs of a group type and
-- a group id, by ascending type, those of one type in the order of their insertion.
pub mod Table
use grpc_push_sdk.Common.{
  ℕ, ◌-◌, Bool, true, false, ◌&&◌, ◌||◌, List, [], ◌∷◌, ◌++◌, ltb, ◌==◌, if◌then◌else◌, length,
  take, bytes,
}
use grpc_push_sdk.Decimal.{to_string}
use grpc_push_sdk.Types.{GroupInfo}

-- groups_.insert(std::make_pair(gtype, gid)).
unfoldable pub insert : ℕ → ℕ → List (ℕ × ℕ) → List (ℕ × ℕ)
insert gtype gid [] = (gtype, gid) ∷ []
insert gtype gid ((k, v) ∷ m) =
    if ltb gtype k then (gtype, gid) ∷ (k, v) ∷ m else (k, v) ∷ insert gtype gid m

-- The loops over equal_range(gtype) look at the entries whose key is `gtype`.
unfoldable pub is_group_info_exists : ℕ → ℕ → List (ℕ × ℕ) → Bool
is_group_info_exists gtype gid [] = false
is_group_info_exists gtype gid ((k, v) ∷ m) =
    if k == gtype && v == gid then true else is_group_info_exists gtype gid m

unfoldable pub remove_group_info : ℕ → ℕ → List (ℕ × ℕ) → List (ℕ × ℕ)
remove_group_info gtype gid [] = []
remove_group_info gtype gid ((k, v) ∷ m) =
    if k == gtype && v == gid then m else (k, v) ∷ remove_group_info gtype gid m

unfoldable pub dump_group_info : ℕ → ℕ → List ℕ
dump_group_info gtype gid = bytes "<" ++ to_string gtype ++ bytes "," ++ to_string gid ++ bytes ">"

dump_entries : List (ℕ × ℕ) → List ℕ
dump_entries [] = []
dump_entries ((k, v) ∷ m) = (dump_group_info k v ++ bytes " ") ++ dump_entries m

-- The last blank is cut off.
unfoldable pub dump_all_group_info : List (ℕ × ℕ) → List ℕ
unfolding dump_entries dump_group_info
dump_all_group_info [] = []
dump_all_group_info (g ∷ m) = let str = dump_entries (g ∷ m) in take (length str - 1) str
