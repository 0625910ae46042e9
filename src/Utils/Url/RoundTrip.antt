-- ===== src/Utils/Url/RoundTrip.antt =====
-- What URLEncode writes can be read back, and holds no byte that a URL reserves.
use grpc_push_sdk.Common.{
  ℕ, ◌+◌, ◌*◌, ◌/◌, ◌%◌, ◌<◌, ◌≡◌, refl, true, ◌||◌, List, [], ◌∷◌, ◌++◌, Option, none, some, ◌==◌,
  if◌then◌else◌, arith, ap, ◌∙◌, All, All-append, Bool-cases, inl, inr,
}
use mathlib.Core.Option
use grpc_push_sdk.Utils.Url.{to_hex, from_hex, is_unreserved, encode_byte, url_encode}

-- What a reader of an encoded text waits for.
pub data Pending : Type 0 where
  nothing : Pending
  high : Pending
  low : ℕ → Pending

after_high : (ℕ → Option (List ℕ)) → Option ℕ → Option (List ℕ)
after_high k none = none
after_high k (some d) = k d

-- A reader of the form encoding, with from_hex for the digits.
unfoldable pub url_decode : Pending → List ℕ → Option (List ℕ)
unfolding after_high
url_decode Pending.nothing [] = some []
url_decode Pending.high [] = none
url_decode (Pending.low h) [] = none
url_decode Pending.nothing (c ∷ s) =
    let quoted = url_decode Pending.high s in
    let rest = url_decode Pending.nothing s in
    if c == b'%'
    then quoted
    else if c == b'+'
    then Option.map (λ l. b' ' ∷ l) rest
    else Option.map (λ l. c ∷ l) rest
url_decode Pending.high (c ∷ s) = after_high (λ h. url_decode (Pending.low h) s) (from_hex c)
url_decode (Pending.low h) (c ∷ s) =
    after_high (λ l. Option.map (λ r. (h * 16 + l) ∷ r) (url_decode Pending.nothing s)) (from_hex c)

from_hex-to_hex : (x : ℕ) → x < 16 → from_hex (to_hex x) ≡ some x
unfolding from_hex to_hex
from_hex-to_hex x h = ground arith

decode-encode_byte :
    (c : ℕ) (s : List ℕ)
    → c < 256
    → url_decode Pending.nothing (encode_byte c ++ s)
      ≡ Option.map (λ l. c ∷ l) (url_decode Pending.nothing s)
unfolding url_decode encode_byte
decode-encode_byte c s h = elim (Bool-cases (is_unreserved c)) [
  | inl plain ↦ rw plain (ground arith)
  | inr other ↦ elim (Bool-cases (c == b' ')) [
    | inl blank ↦ let is_32 : c ≡ b' ' = ground (arith, blank) in rw (other, blank, is_32) refl
    | inr quoted ↦
        let digits : c / 16 * 16 + c % 16 ≡ c = omega arith in
        rw
          (
            other,
            quoted,
            from_hex-to_hex (c / 16) (omega arith),
            from_hex-to_hex (c % 16) (omega arith),
            digits,
          )
          refl
  ]
]

-- Every text of bytes is read back from its encoding.
pub url_decode-url_encode :
    (s : List ℕ) → All (λ c. c < 256) s → url_decode Pending.nothing (url_encode s) ≡ some s
unfolding url_encode url_decode
url_decode-url_encode [] h = refl
url_decode-url_encode (c ∷ s) h =
    decode-encode_byte c (url_encode s) h.0
    ∙ ap (Option.map (λ l. c ∷ l)) (url_decode-url_encode s h.1)

-- A byte of an encoding: one that stands for itself, the sign for a blank or the one for a byte.
abbrev pub IsEncoded : ℕ → Type 0
IsEncoded c = (is_unreserved c || c == b'+' || c == b'%') ≡ true

to_hex-IsEncoded : (x : ℕ) → x < 16 → IsEncoded (to_hex x)
unfolding to_hex
to_hex-IsEncoded x h = ground arith

encode_byte-IsEncoded : (c : ℕ) → c < 256 → All IsEncoded (encode_byte c)
unfolding encode_byte
encode_byte-IsEncoded c h = elim (Bool-cases (is_unreserved c)) [
  | inl plain ↦ rw plain (rw plain refl, tt)
  | inr other ↦ elim (Bool-cases (c == b' ')) [
    | inl blank ↦ rw (other, blank) (refl, tt)
    | inr quoted ↦
        rw (other, quoted)
          (
            refl,
            (
              to_hex-IsEncoded (c / 16) (omega arith),
              (to_hex-IsEncoded (c % 16) (omega arith), tt),
            ),
          )
  ]
]

-- An encoding holds only letters, digits and `-_.~+%`.
pub url_encode-IsEncoded : (s : List ℕ) → All (λ c. c < 256) s → All IsEncoded (url_encode s)
unfolding url_encode
url_encode-IsEncoded [] h = tt
url_encode-IsEncoded (c ∷ s) h =
    All-append IsEncoded (encode_byte c) (url_encode s) (encode_byte-IsEncoded c h.0)
      (url_encode-IsEncoded s h.1)
