-- ===== src/Utils/Suid.antt =====
-- The fields of the id that Utils::GetSUID makes.
use Prim.Native.Nat.{bit_or}
use grpc_push_sdk.Common.{ℕ, ◌+◌, ◌*◌, ◌%◌, ◌^◌, ◌<◌, ◌≡◌, arith, ap, ◌∙◌}
use grpc_push_sdk.Utils.{get_suid}
use grpc_push_sdk.Utils.Bits.{bit_and-mask, bit_or-add, zero-bit_or}

no_wrap : (t : ℕ) → t < 2 ^ 24 → t * 2 ^ 40 % 2 ^ 64 ≡ t * 2 ^ 40
no_wrap t small = omega arith

-- For a uid of 32 bits and a type of at most 24, GetSUID is the sum of the uid and the type shifted by
-- 40 bits: neither the shift nor the masks lose anything.
pub get_suid-add :
    (uid terminal_type : ℕ)
    → uid < 2 ^ 32
    → terminal_type < 2 ^ 24
    → get_suid uid terminal_type ≡ terminal_type * 2 ^ 40 + uid
unfolding get_suid
get_suid-add uid t u small =
    ap (bit_or (bit_or 0 (t * 2 ^ 40 % 2 ^ 64))) (bit_and-mask 32 uid u)
    ∙ ap (λ x. bit_or x uid) (zero-bit_or (t * 2 ^ 40 % 2 ^ 64) ∙ no_wrap t small)
    ∙ bit_or-add 40 t uid (omega arith)
