-- ===== src/Elk/Request/Reader.antt =====
-- What a reader of the request of src/elk/upload_request.h finds under the names of its members.
use grpc_push_sdk.Common.{
  ℕ, ◌≡◌, refl, sym, ap, ◌∙◌, Bool, true, false, ◌&&◌, List, [], ◌∷◌, ◌++◌, Option, none, some, map,
  bytes, ◌==◌, if◌then◌else◌,
}
use grpc_push_sdk.Elk.{Item}
use grpc_push_sdk.Elk.Request.{
  Json, Items, Members, text, number, array, object, nil, cons, end, member, Versions, item_json,
  request_with, items_of, request_text, request_text-items_of,
}
use grpc_push_sdk.Types.{TerminalType, ret_number}
use grpc_push_sdk.Utils.{get_platform_name}

same_name : List ℕ → List ℕ → Bool
same_name [] [] = true
same_name (c ∷ s) (d ∷ t) = c == d && same_name s t
same_name _ _ = false

-- The member of a name, the first of them if there are several.
find_member : List ℕ → Members → Option Json
unfolding same_name
find_member key end = none
find_member key (member name j rest) =
    let later = find_member key rest in if same_name (bytes name) key then some j else later

abbrev as_text : Option Json → Option (List ℕ)
as_text (some (text s)) = some s
as_text _ = none

abbrev as_number : Option Json → Option ℕ
as_number (some (number n)) = some n
as_number _ = none

abbrev as_array : Option Json → Option Items
as_array (some (array xs)) = some xs
as_array _ = none

member_at : List ℕ → Json → Option Json
unfolding find_member
member_at key (object members) = find_member key members
member_at key _ = none

unfoldable pub text_at : List ℕ → Json → Option (List ℕ)
unfolding member_at
text_at key j = as_text (member_at key j)

unfoldable pub number_at : List ℕ → Json → Option ℕ
unfolding member_at
number_at key j = as_number (member_at key j)

unfoldable pub array_at : List ℕ → Json → Option Items
unfolding member_at
array_at key j = as_array (member_at key j)

module _ (v : Versions) (t : TerminalType) where
  -- The object holds the values of the item, each under its own name.
  pub record Reports (i : Item) (j : Json) : Type 0 where
    pub sdk_version : text_at (bytes "sdk_version") j ≡ some v.push_sdk_version
    pub repo_version : text_at (bytes "repo_version") j ≡ some v.repo_version
    pub system_time : text_at (bytes "system_time") j ≡ some i.system_time
    pub appid : number_at (bytes "appid") j ≡ some i.appid
    pub group_info : text_at (bytes "group_info") j ≡ some i.group_info
    pub uid : number_at (bytes "uid") j ≡ some i.uid
    pub suid : number_at (bytes "suid") j ≡ some i.suid
    pub action : text_at (bytes "action") j ≡ some i.action
    pub code : number_at (bytes "code") j ≡ some (ret_number i.code)
    pub msg : text_at (bytes "msg") j ≡ some i.msg
    pub platform : text_at (bytes "platform") j ≡ some (bytes (get_platform_name t))

  -- One object for each item, in their order.
  abbrev pub AllReport : List Item → Items → Type 0
  AllReport [] nil = Unit {0}
  AllReport (i ∷ is) (cons j js) = Reports i j × AllReport is js
  AllReport _ _ = ⊥

  item_json-Reports : (i : Item) → Reports i (item_json v t i)
  unfolding item_json text_at number_at bytes
  item_json-Reports i = record {
    sdk_version = refl;
    repo_version = refl;
    system_time = refl;
    appid = refl;
    group_info = refl;
    uid = refl;
    suid = refl;
    action = refl;
    code = refl;
    msg = refl;
    platform = refl;
  }

  items-AllReport : (is : List Item) → AllReport is (items_of v t (map (item_json v t) is))
  items-AllReport [] = tt
  items-AllReport (i ∷ is) = (item_json-Reports i, items-AllReport is)

  -- What the log service expects to read in a request for the items.
  pub record IsRequestFor (is : List Item) (root : Json) : Type 0 where
    pub project : text_at (bytes "project") root ≡ some (bytes "100edu-signal-platform")
    pub region : text_at (bytes "region") root ≡ some (bytes "cn-shenzhen")
    pub log_store : text_at (bytes "logStore") root ≡ some (bytes "edu_sp_push_sdk_test")
    pub encode : number_at (bytes "encode") root ≡ some 2
    pub source : text_at (bytes "source") root ≡ some (bytes "localhost")
    pub content :
        (items : Items) × (array_at (bytes "content") root ≡ some items) × AllReport is items

  root-IsRequestFor :
      (is : List Item)
      → IsRequestFor is
          (request_with v t (member "content" (array (items_of v t (map (item_json v t) is))) end))
  unfolding text_at number_at array_at bytes
  root-IsRequestFor is = record {
    project = refl;
    region = refl;
    log_store = refl;
    encode = refl;
    source = refl;
    content = (items_of v t (map (item_json v t) is), refl, items-AllReport is);
  }

  -- The text of a request for some items, with the newline that the writer ends each text with, is what
  -- the writer makes of one object, in which a reader finds the project, the region, the store, the
  -- encoding and the source of the log service under their names, and as the content an array with one
  -- object for each item, in their order, that holds every value of its item under its own name.
  pub request_text-IsRequestFor :
      (write : Json → List ℕ) (i : Item) (is : List Item)
      → ((j : Json) → (body : List ℕ) × (write j ≡ body ++ 10 ∷ []))
      → (root : Json) × (write root ≡ request_text v t write (i ∷ is) ++ 10 ∷ [])
        × IsRequestFor (i ∷ is) root
  request_text-IsRequestFor write i is ends =
      let root =
        request_with v t
          (member "content" (array (items_of v t (map (item_json v t) (i ∷ is)))) end) in
      let (body, written) = ends root in
      (
        root,
        written
            ∙ ap (λ x. x ++ 10 ∷ []) (sym (request_text-items_of v t write i is body 10 written)),
        root-IsRequestFor (i ∷ is),
      )
