-- ===== src/Decimal.antt =====
-- std::to_string of an unsigned value and std::stoll, as src/core/packet.cpp and src/core/core.h
-- use them to write a request's context and to read it back from the response.
pub mod RoundTrip
use grpc_push_sdk.Common.{
  ℕ, zero, suc, ◌+◌, ◌-◌, ◌*◌, ◌/◌, ◌%◌, ◌^◌, Bool, ◌&&◌, ◌||◌, List, [], ◌∷◌, ◌++◌, Option, none,
  some, ltb, leb, ◌==◌, if◌then◌else◌,
}
use grpc_push_sdk.Int.{ℤ, pos, neg}

-- Most significant digit first. `to_string` gives more fuel than the number has digits.
decimal : ℕ → ℕ → List ℕ
decimal zero n = []
decimal (suc f) n =
    let front = decimal f (n / 10) in
    if ltb n 10 then (b'0' + n) ∷ [] else front ++ (b'0' + n % 10) ∷ []

unfoldable pub to_string : ℕ → List ℕ
unfolding decimal
to_string n = decimal (suc n) n

abbrev is_digit : ℕ → Bool
is_digit c = leb b'0' c && leb c b'9'

abbrev is_space : ℕ → Bool
is_space c = c == b' ' || (leb 9 c && leb c 13)

skip_spaces : List ℕ → List ℕ
skip_spaces [] = []
skip_spaces (c ∷ s) = let rest = skip_spaces s in if is_space c then rest else c ∷ s

-- The digits up to the first other byte.
scan : List ℕ → ℕ → ℕ
scan [] n = n
scan (c ∷ s) n = if is_digit c then scan s (n * 10 + (c - b'0')) else n

-- `none` where the text has no digit at its start.
magnitude : List ℕ → Option ℕ
unfolding scan
magnitude [] = none
magnitude (c ∷ s) = if is_digit c then some (scan (c ∷ s) 0) else none

in_range : ℕ → (ℕ → ℤ) → Option ℕ → Option ℤ
in_range limit sign none = none
in_range limit sign (some n) = if leb n limit then some (sign n) else none

signed : List ℕ → Option ℤ
unfolding magnitude in_range
signed [] = none
signed (c ∷ s) =
    if c == b'-'
    then in_range (2 ^ 63) neg (magnitude s)
    else if c == b'+'
    then in_range (2 ^ 63 - 1) pos (magnitude s)
    else in_range (2 ^ 63 - 1) pos (magnitude (c ∷ s))

-- `none` stands for the exceptions std::invalid_argument and std::out_of_range.
unfoldable pub stoll : List ℕ → Option ℤ
unfolding skip_spaces signed
stoll s = signed (skip_spaces s)
