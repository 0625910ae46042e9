-- ===== src/Witnesses/Texts.antt =====
-- The theorems on texts and numbers, applied.
use grpc_push_sdk.Common.{
  ℕ, ◌*◌, ◌+◌, ◌^◌, ◌<◌, ◌≡◌, refl, List, [], ◌∷◌, ◌++◌, some, bytes, arith, All,
}
use grpc_push_sdk.Utils.{get_suid}
use grpc_push_sdk.Types.{TerminalType, RetCode}
use grpc_push_sdk.Elk.{Item}
use grpc_push_sdk.Elk.Request.{
  Json, Items, Members, Versions, number, array, object, nil, cons, end, member, request_text,
}
use grpc_push_sdk.Elk.Request.Reader.{IsRequestFor, request_text-IsRequestFor}
use grpc_push_sdk.Utils.Suid.{get_suid-add}
use grpc_push_sdk.Utils.Url.{url_encode}
use grpc_push_sdk.Utils.Url.RoundTrip.{Pending, url_decode, url_decode-url_encode}

get_suid-add_example : get_suid 5 65535 ≡ 65535 * 2 ^ 40 + 5
get_suid-add_example = get_suid-add 5 65535 (omega arith) (omega arith)

abbrev text : List ℕ
text = b'a' ∷ b' ' ∷ b'&' ∷ 200 ∷ []

text_bytes : All (λ c. c < 256) text
text_bytes = (omega arith, (omega arith, (omega arith, (omega arith, tt))))

url_decode-url_encode_example : url_decode Pending.nothing (url_encode text) ≡ some text
url_decode-url_encode_example = url_decode-url_encode text text_bytes

-- A writer that puts the texts of a tree one after another.
unfoldable mutual
  written : Json → List ℕ
  written (Json.text s) = s
  written (number n) = n ∷ []
  written (array xs) = written_items xs
  written (object ms) = written_members ms

  written_items : Items → List ℕ
  written_items nil = []
  written_items (cons j xs) = written j ++ written_items xs

  written_members : Members → List ℕ
  written_members end = []
  written_members (member s j ms) = bytes s ++ written j ++ written_members ms

abbrev write_line : Json → List ℕ
write_line j = written j ++ 10 ∷ []

abbrev versions : Versions
versions = record { push_sdk_version = b'1' ∷ []; repo_version = b'2' ∷ [] }

abbrev log_item : Item
log_item = record {
  system_time = b'3' ∷ [];
  appid = 1;
  uid = 2;
  suid = 3;
  group_info = [];
  action = b'a' ∷ [];
  code = RetCode.success;
  msg = [];
}

request_text-IsRequestFor_example :
    (root : Json) × (write_line root
      ≡ request_text versions TerminalType.linux write_line (log_item ∷ log_item ∷ []) ++ 10 ∷ [])
    × IsRequestFor versions TerminalType.linux (log_item ∷ log_item ∷ []) root
request_text-IsRequestFor_example =
    request_text-IsRequestFor versions TerminalType.linux write_line log_item (log_item ∷ [])
      (λ j. (written j, refl))
