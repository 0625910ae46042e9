-- ===== src/Int.antt =====
-- Signed results: the value of std::stoll (core/core.h) and the int that holds a result code.
use grpc_push_sdk.Common.{ℕ, zero, suc, ◌-◌, ◌^◌, ltb, if◌then◌else◌}

-- `negsuc n` is -(n + 1).
pub data ℤ : Type 0 where
  pos : ℕ → ℤ
  negsuc : ℕ → ℤ

abbrev pub neg : ℕ → ℤ
neg zero = pos 0
neg (suc n) = negsuc n

-- The conversion of a uint32_t to int, in two's complement.
abbrev pub int_of_u32 : ℕ → ℤ
int_of_u32 n = if ltb n (2 ^ 31) then pos n else negsuc (2 ^ 32 - n - 1)
