-- ===== src/Utils/Url.antt =====
-- Utils::URLEncode of src/common/utils.cpp, with its two helpers.
pub mod RoundTrip
use grpc_push_sdk.Common.{
  ℕ, ◌+◌, ◌-◌, ◌/◌, ◌%◌, Bool, ◌&&◌, ◌||◌, List, [], ◌∷◌, ◌++◌, Option, none, some, ◌==◌, leb, ltb,
  if◌then◌else◌,
}

-- isalnum of the C locale.
abbrev pub is_alnum : ℕ → Bool
is_alnum c = (leb 48 c && leb c 57) || (leb 65 c && leb c 90) || (leb 97 c && leb c 122)

-- to_hex, in uint8_t.
unfoldable pub to_hex : ℕ → ℕ
to_hex x = if ltb 9 x then (x + 55) % 256 else (x + 48) % 256

-- from_hex; `none` is its assertion.
unfoldable pub from_hex : ℕ → Option ℕ
from_hex x =
    if leb 65 x && leb x 90
    then some (x - 65 + 10)
    else if leb 97 x && leb x 122
    then some (x - 97 + 10)
    else if leb 48 x && leb x 57
    then some (x - 48)
    else none

-- The bytes that stand for themselves.
abbrev pub is_unreserved : ℕ → Bool
is_unreserved c = is_alnum c || c == b'-' || c == b'_' || c == b'.' || c == b'~'

-- What a turn of the loop appends.
unfoldable pub encode_byte : ℕ → List ℕ
encode_byte c =
    if is_unreserved c
    then c ∷ []
    else if c == b' '
    then b'+' ∷ []
    else b'%' ∷ to_hex (c / 16) ∷ to_hex (c % 16) ∷ []

unfoldable pub url_encode : List ℕ → List ℕ
unfolding encode_byte
url_encode [] = []
url_encode (c ∷ s) = encode_byte c ++ url_encode s
