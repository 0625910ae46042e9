-- ===== src/Elk/Request.antt =====
-- src/elk/upload_request.h over JsonCpp, which is not part of the repository: Json::Value is a tree whose
-- objects hold their members in the order of their assignment (JsonCpp sorts them by name, which is left
-- to the writer), and the writer is an argument.
pub mod Reader
use grpc_push_sdk.Common.{
  ℕ, ◌-◌, ◌≡◌, refl, List, [], ◌∷◌, ◌++◌, Option, none, some, map, bytes, length, take, String,
  arith, ap, ◌∙◌, length-append, append-nil, append_assoc,
}
use grpc_push_sdk.Config.{
  elk_project_name, elk_region, elk_log_store, elk_source, elk_encode, elk_upload_host,
  elk_upload_path, elk_upload_headers,
}
use grpc_push_sdk.Http
use grpc_push_sdk.Elk.{Item}
use grpc_push_sdk.Types.{TerminalType, ret_number}
use grpc_push_sdk.Utils.{get_platform_name}

last_length : (s : List ℕ) (c : ℕ) → length (s ++ c ∷ []) - 1 ≡ length s
last_length s c = omega (arith, length-append s (c ∷ []))

take_all : (s r : List ℕ) → take (length s) (s ++ r) ≡ s
take_all [] r = refl
take_all (x ∷ s) r = rw (take_all s r) refl

mutual
  pub data Json : Type 0 where
    text : List ℕ → Json
    number : ℕ → Json
    array : Items → Json
    object : Members → Json

  pub data Items : Type 0 where
    nil : Items
    cons : Json → Items → Items

  pub data Members : Type 0 where
    end : Members
    member : String → Json → Members → Members

-- The two macros of the generated header repo_version.h.
pub record Versions : Type 0 where
  pub push_sdk_version : List ℕ
  pub repo_version : List ℕ

module _ (v : Versions) (t : TerminalType) where
  -- ELKUploadItem's operator Json::Value.
  unfoldable pub item_json : Item → Json
  item_json i = object (
      member "sdk_version" (text v.push_sdk_version) (
        member "repo_version" (text v.repo_version) (
          member "system_time" (text i.system_time) (
            member "appid" (number i.appid) (
              member "group_info" (text i.group_info) (
                member "uid" (number i.uid) (
                  member "suid" (number i.suid) (
                    member "action" (text i.action) (
                      member "code" (number (ret_number i.code)) (
                        member "msg" (text i.msg)
                          (member "platform" (text (bytes (get_platform_name t))) end)))))))))))

  -- root["content"].append, which makes an array of a member that is not there.
  append : Items → Json → Items
  append nil j = cons j nil
  append (cons x xs) j = cons x (append xs j)

  append_content : Option Items → Json → Option Items
  unfolding append
  append_content none j = some (cons j nil)
  append_content (some xs) j = some (append xs j)

  -- The loop over `contents`.
  content : Option Items → List Item → Option Items
  unfolding append_content
  content acc [] = acc
  content acc (i ∷ is) = content (append_content acc (item_json i)) is

  abbrev pub content_member : Option Items → Members
  content_member none = end
  content_member (some xs) = member "content" (array xs) end

  abbrev pub request_with : Members → Json
  request_with rest = object (
      member "project" (text (bytes elk_project_name)) (
        member "region" (text (bytes elk_region)) (
          member "logStore" (text (bytes elk_log_store)) (
            member "encode" (number elk_encode) (member "source" (text (bytes elk_source)) rest)))))

  -- ELKUploadRequest's operator std::string; FastWriter ends what it writes with a newline, which
  -- the last statement cuts off.
  unfoldable pub request_text : (Json → List ℕ) → List Item → List ℕ
  unfolding content
  request_text write is =
      let str = write (request_with (content_member (content none is))) in take (length str - 1) str

  -- ELKUploadItem's operator std::string, which Push logs an item by that it drops.
  unfoldable pub item_text : (Json → List ℕ) → Item → List ℕ
  item_text write i = let str = write (item_json i) in take (length str - 1) str

  -- A request, as one expression.
  abbrev pub items_of : List Json → Items
  items_of [] = nil
  items_of (j ∷ js) = cons j (items_of js)

  append_items : (xs : List Json) (j : Json) → append (items_of xs) j ≡ items_of (xs ++ j ∷ [])
  unfolding append
  append_items [] j = refl
  append_items (x ∷ xs) j = ap (cons x) (append_items xs j)

  content-map :
      (xs : List Json) (is : List Item)
      → content (some (items_of xs)) is ≡ some (items_of (xs ++ map item_json is))
  unfolding content
  content-map xs [] = rw append-nil refl
  content-map xs (i ∷ is) =
      ap (λ x. content (some x) is) (append_items xs (item_json i))
      ∙ content-map (xs ++ item_json i ∷ []) is
      ∙ ap (λ l. some (items_of l)) (append_assoc xs (item_json i ∷ []) (map item_json is))

  take-snoc : (s : List ℕ) (c : ℕ) → take (length (s ++ c ∷ []) - 1) (s ++ c ∷ []) ≡ s
  take-snoc s c = rw (last_length s c) (take_all s (c ∷ []))

  -- The text of a request with items is what the writer makes, less its last byte, of one object,
  -- whose content is the array of the objects of all items in their order.
  pub request_text-items_of :
      (write : Json → List ℕ) (i : Item) (is : List Item) (body : List ℕ) (newline : ℕ)
      → write (request_with (member "content" (array (items_of (map item_json (i ∷ is)))) end))
        ≡ body ++ newline ∷ []
      → request_text write (i ∷ is) ≡ body
  unfolding request_text content append_content
  request_text-items_of write i is body newline h =
      let str = λ (c : Option Items). write (request_with (content_member c)) in
      let whole = ap str (content-map (item_json i ∷ []) is) ∙ h in
      ap (λ (x : List ℕ). take (length x - 1) x) whole ∙ take-snoc body newline

  -- The text of an item is what the writer makes of its object, less its last byte.
  item_text-write :
      (write : Json → List ℕ) (i : Item) (body : List ℕ) (newline : ℕ)
      → write (item_json i) ≡ body ++ newline ∷ []
      → item_text write i ≡ body
  unfolding item_text
  item_text-write write i body newline h = rw h (take-snoc body newline)

-- The request that the thread of the uploader posts.
abbrev pub upload_request : List ℕ → Http.Request
upload_request body =
    Http.post_request (bytes elk_upload_host) 80 (bytes elk_upload_path) elk_upload_headers body
