-- ===== src/Utils/Bits.antt =====
-- `bit_and` with a mask of ones and `bit_or` of separate digits, as arithmetic: each by induction along
-- the digits that the native operation stands for, whose fuel is the first number.
use Prim.Native.Nat.{min, max, bit_and, bit_or, digits, bit_and-bitwise, bit_or-bitwise}
use native.Mathlib.Nat.{mul_assoc}
use grpc_push_sdk.Common.{
  ℕ, zero, suc, ◌+◌, ◌-◌, ◌*◌, ◌/◌, ◌%◌, ◌^◌, ◌≤◌, ◌<◌, ◌≡◌, refl, ap, sym, ◌∙◌, arith,
}

-- Nothing is masked off a number that is below the mask.
masked : (fuel k x : ℕ) → x ≤ fuel → x < 2 ^ k → digits (λ y. 0) min fuel x (2 ^ k - 1) ≡ x
masked zero k zero enough small = refl
masked (suc fuel) k zero enough small = refl
masked zero k (suc x) none_left small = absurd (omega arith)
masked (suc fuel) zero (suc x) enough small = absurd (omega arith)
masked (suc fuel) (suc k) (suc x) enough small =
    let half : (2 ^ suc k - 1) / 2 ≡ 2 ^ k - 1 = omega arith in
    let odd : (2 ^ suc k - 1) % 2 ≡ 1 = omega arith in
    let upper = masked fuel k (suc x / 2) (omega arith) (omega arith) in
    rw (half, odd, upper) (omega arith)

-- A number of at most k digits is its own part under a mask of k ones.
pub bit_and-mask : (k a : ℕ) → a < 2 ^ k → bit_and a (2 ^ k - 1) ≡ a
bit_and-mask k a small = bit_and-bitwise a (2 ^ k - 1) ∙ masked a k a (omega arith) small

joined_zero : (fuel x : ℕ) → x ≤ fuel → digits (λ y. y) max fuel x 0 ≡ x
joined_zero zero zero enough = refl
joined_zero (suc fuel) zero enough = refl
joined_zero zero (suc x) none_left = absurd (omega arith)
joined_zero (suc fuel) (suc x) enough =
    let upper = joined_zero fuel (suc x / 2) (omega arith) in rw upper (omega arith)

joined :
    (fuel k a b x : ℕ) → x ≡ a * 2 ^ k → x ≤ fuel → b < 2 ^ k → digits (λ y. y) max fuel x b ≡ x + b
joined zero k a b zero e enough small = omega arith
joined (suc fuel) k a b zero e enough small = omega arith
joined zero k a b (suc x) e none_left small = absurd (omega arith)
joined (suc fuel) zero a zero (suc x) e enough small =
    joined_zero (suc fuel) (suc x) enough ∙ omega arith
joined (suc fuel) zero a (suc b) (suc x) e enough small = absurd (omega arith)
joined (suc fuel) (suc k) a b (suc x) e enough small =
    let twice : a * 2 ^ suc k ≡ a * 2 ^ k * 2 =
      ap (λ y. a * y) (omega arith) ∙ sym (mul_assoc a (2 ^ k) 2) in
    let upper =
      joined fuel k a (b / 2) (suc x / 2) (omega (arith, e, twice)) (omega arith) (omega arith) in
    rw upper (omega (arith, e, twice))

-- Where one number has its digits from the k-th on, and the other below it, `bit_or` adds.
pub bit_or-add : (k a b : ℕ) → b < 2 ^ k → bit_or (a * 2 ^ k) b ≡ a * 2 ^ k + b
bit_or-add k a b small =
    bit_or-bitwise (a * 2 ^ k) b ∙ joined (a * 2 ^ k) k a b (a * 2 ^ k) refl (omega arith) small

pub zero-bit_or : (b : ℕ) → bit_or 0 b ≡ b
zero-bit_or b = bit_or-bitwise 0 b
