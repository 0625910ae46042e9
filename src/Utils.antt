-- ===== src/Utils.antt =====
-- src/common/utils.cpp.
pub mod Bits
pub mod Suid
pub mod Path
pub mod Url
pub mod Platform
use Prim.Native.Nat.{bit_and, bit_or}
use grpc_push_sdk.Common.{ℕ, ◌+◌, ◌*◌, ◌/◌, ◌%◌, ◌^◌, List, [], ◌∷◌, String, ◌==◌, if◌then◌else◌}
use grpc_push_sdk.Types.{TerminalType}

-- Utils::GetSUID. The shift is in uint64_t.
unfoldable pub get_suid : ℕ → ℕ → ℕ
get_suid uid terminal_type =
    bit_or (bit_or 0 (terminal_type * 2 ^ (32 + 8) % 2 ^ 64)) (bit_and uid 0x00000000FFFFFFFF)

-- Utils::NanoSecondsToMilliSeconds. The source divides a difference of int64_t, which a negative
-- one rounds to 0 or below; the difference here stops at 0.
abbrev pub nano_seconds_to_milli_seconds : ℕ → ℕ
nano_seconds_to_milli_seconds t = t / 1000000

-- Utils::GetPlatformName.
abbrev pub get_platform_name : TerminalType → String
get_platform_name TerminalType.windows_32 = "pc"
get_platform_name TerminalType.windows_64 = "pc"
get_platform_name TerminalType.ios = "ios"
get_platform_name TerminalType.ios_simulator = "ios"
get_platform_name TerminalType.mac = "ios"
get_platform_name TerminalType.apple_unknown = "ios"
get_platform_name TerminalType.android = "android"
get_platform_name TerminalType.linux = "linux"
get_platform_name _ = "unknow"

-- OS_SEGMENT of utils.h.
abbrev pub os_segment : TerminalType → ℕ
os_segment TerminalType.windows_32 = b'\\'
os_segment TerminalType.windows_64 = b'\\'
os_segment _ = b'/'

-- Utils::CutFilePath: what stands behind the last separator, or the whole path.
cut_from : ℕ → List ℕ → List ℕ → List ℕ
cut_from segment best [] = best
cut_from segment best (c ∷ s) = cut_from segment (if c == segment then s else best) s

unfoldable pub cut_file_path : ℕ → List ℕ → List ℕ
unfolding cut_from
cut_file_path segment filepath = cut_from segment filepath filepath
