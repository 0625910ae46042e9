-- ===== src/Utils/Platform.antt =====
-- What Utils::GetTerminalType, Utils::GetPlatformName and the sections of utils.h and config.h choose by
-- the macros of the compiler.
use grpc_push_sdk.Common.{ℕ, Bool, false, not, ◌&&◌, ◌||◌, ◌≡◌, String, arith, if◌then◌else◌}
use grpc_push_sdk.Config.{is_linux}
use grpc_push_sdk.Types.{TerminalType}
use grpc_push_sdk.Utils.{get_platform_name, os_segment}

-- _WIN32, _WIN64, __APPLE__, TARGET_IPHONE_SIMULATOR, TARGET_OS_IPHONE, TARGET_OS_MAC, __ANDROID__,
-- __linux__, __unix__ and _POSIX_VERSION.
pub record Macros : Type 0 where
  pub win32 : Bool
  pub win64 : Bool
  pub apple : Bool
  pub iphone_simulator : Bool
  pub iphone : Bool
  pub mac : Bool
  pub android : Bool
  pub linux : Bool
  pub unix : Bool
  pub posix : Bool

-- Utils::GetTerminalType.
unfoldable pub get_terminal_type : Macros → TerminalType
get_terminal_type m =
    if m.win32
    then if m.win64 then TerminalType.windows_64 else TerminalType.windows_32
    else if m.apple
    then if m.iphone_simulator
      then TerminalType.ios_simulator
      else if m.iphone
      then TerminalType.ios
      else if m.mac
      then TerminalType.mac
      else TerminalType.apple_unknown
    else if m.android
    then TerminalType.android
    else if m.linux
    then TerminalType.linux
    else if m.unix
    then TerminalType.unix
    else if m.posix
    then TerminalType.posix_unknown
    else TerminalType.unknown

-- Utils::GetPlatformName.
unfoldable pub platform_name : Macros → String
platform_name m =
    if m.win32
    then "pc"
    else if m.apple
    then "ios"
    else if m.android
    then "android"
    else if m.linux
    then "linux"
    else "unknow"

-- OS_SEGMENT.
unfoldable pub segment : Macros → ℕ
segment m = if m.win32 then b'\\' else b'/'

-- Where __linux__ is not defined with _WIN32 or __APPLE__, and is defined with __ANDROID__, the kind of
-- the terminal decides the name of the platform, the separator of paths, and which section of
-- config.h is compiled.
pub get_terminal_type-decides :
    (m : Macros)
    → m.linux && (m.win32 || m.apple) ≡ false
    → m.android && not m.linux ≡ false
    → (platform_name m ≡ get_platform_name (get_terminal_type m))
      × (segment m ≡ os_segment (get_terminal_type m))
      × (m.linux ≡ is_linux (get_terminal_type m))
unfolding get_terminal_type platform_name segment
get_terminal_type-decides m h k = (ground arith, ground arith, ground arith)
