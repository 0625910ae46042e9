-- ===== src/Decimal/RoundTrip.antt =====
-- Reading back a printed number.
use grpc_push_sdk.Common.{
  ℕ, zero, suc, ◌+◌, ◌-◌, ◌*◌, ◌/◌, ◌%◌, ◌^◌, ◌<◌, ◌≡◌, ◌≢◌, refl, inl, inr, true, List, [], ◌∷◌,
  ◌++◌, some, arith, ltb, Bool-cases, All, All-append,
}
use grpc_push_sdk.Decimal.{decimal, to_string, is_digit, scan, stoll}
use grpc_push_sdk.Int.{pos}

abbrev IsDigit : ℕ → Type 0
IsDigit c = is_digit c ≡ true

scan-append :
    (xs : List ℕ) (c n : ℕ)
    → All IsDigit xs
    → IsDigit c
    → scan (xs ++ c ∷ []) n ≡ scan xs n * 10 + (c - b'0')
unfolding scan
scan-append [] c n d e = ground arith
scan-append (x ∷ xs) c n d e = rw d.0 (scan-append xs c (n * 10 + (x - b'0')) d.1 e)

decimal-IsDigit : (f n : ℕ) → All IsDigit (decimal f n)
unfolding decimal
decimal-IsDigit zero n = tt
decimal-IsDigit (suc f) n = elim (Bool-cases (ltb n 10)) [
  | inl small ↦ rw small (ground arith, tt)
  | inr large ↦
      rw large
        (All-append IsDigit (decimal f (n / 10)) _ (decimal-IsDigit f (n / 10)) (ground arith, tt))
]

scan-decimal : (f n : ℕ) → n < f → scan (decimal f n) 0 ≡ n
unfolding decimal
scan-decimal zero n h = absurd (omega arith)
scan-decimal (suc f) n h = elim (Bool-cases (ltb n 10)) [
  | inl small ↦ rw small (unfold scan in ground arith)
  | inr large ↦ rw large (
      ground (
        arith,
        scan-append (decimal f (n / 10)) (b'0' + n % 10) 0 (decimal-IsDigit f (n / 10)),
        scan-decimal f (n / 10),
      ))
]

append-ne-nil : (xs : List ℕ) (c : ℕ) → xs ++ c ∷ [] ≢ []
append-ne-nil [] c e = cc
append-ne-nil (x ∷ xs) c e = cc

-- A text that starts with a digit is read as it stands.
stoll-digits :
    (c : ℕ) (s : List ℕ)
    → IsDigit c
    → scan (c ∷ s) 0 < 2 ^ 63
    → stoll (c ∷ s) ≡ some (pos (scan (c ∷ s) 0))
unfolding stoll
stoll-digits c s d h = ground arith

stoll-scan :
    (s : List ℕ) (n : ℕ)
    → s ≢ []
    → All IsDigit s
    → scan s 0 ≡ n
    → n < 2 ^ 63
    → stoll s ≡ some (pos n)
stoll-scan [] n k d e h = absurd (k refl)
stoll-scan (c ∷ s) n k d e h = rw (stoll-digits c s d.0 (omega arith), e)

decimal-ne-nil : (f n : ℕ) → decimal (suc f) n ≢ []
unfolding decimal
decimal-ne-nil f n = elim (Bool-cases (ltb n 10)) [
  | inl small ↦ rw small (λ e. cc)
  | inr large ↦ rw large (append-ne-nil (decimal f (n / 10)) _)
]

-- The text that std::to_string makes of any value of int64_t from 0 up is read back by std::stoll
-- as that value.
pub stoll-to_string : (n : ℕ) → n < 2 ^ 63 → stoll (to_string n) ≡ some (pos n)
unfolding to_string
stoll-to_string n h =
    stoll-scan (decimal (suc n) n) n (decimal-ne-nil n n) (decimal-IsDigit (suc n) n)
      (scan-decimal (suc n) n (omega arith)) h
