-- ===== src/Elk.antt =====
-- src/elk/async_upload.h and async_upload.cpp: the queue of log items and the thread that posts it.
pub mod Fifo
pub mod Thread
pub mod Request
use grpc_push_sdk.Common.{
  ℕ, Bool, true, false, not, ◌&&◌, List, [], ◌∷◌, ◌++◌, Option, none, some, ltb, if◌then◌else◌,
  length,
}
use grpc_push_sdk.Config.{elk_upload_min_size, elk_upload_max_size}
use grpc_push_sdk.Http
use grpc_push_sdk.Http.{HttpClient, Exchange}
use grpc_push_sdk.Types.{RetCode}

-- ELKUploadItem; `code` is the int that its callers pass, always a PushSDKRetCode.
pub record Item : Type 0 where
  pub system_time : List ℕ
  pub appid : ℕ
  pub uid : ℕ
  pub suid : ℕ
  pub group_info : List ℕ
  pub action : List ℕ
  pub code : RetCode
  pub msg : List ℕ

-- `http_client` is a pointer, null until Initialize.
pub record Uploader : Type 0 where
  pub http_client : Option HttpClient
  pub run : Bool
  pub queue : List Item

-- What Push does besides: the item that it drops, and whether it wakes the thread.
pub record Pushed : Type 0 where
  pub uploader : Uploader
  pub dropped : Option Item
  pub notified : Bool

-- A queue above its maximal size loses its head.
trim : List Item → List Item × Option Item
trim [] = ([], none)
trim (i ∷ is) = if ltb elk_upload_max_size (length (i ∷ is)) then (is, some i) else (i ∷ is, none)

unfoldable pub push : Uploader → Item → Pushed
unfolding trim
push u item =
    let (queue, dropped) = trim (u.queue ++ item ∷ []) in
    if u.run
    then record {
      uploader = record u { queue = queue };
      dropped = dropped;
      notified = ltb elk_upload_min_size (length queue);
    }
    else record { uploader = u; dropped = none; notified = false }

-- The constructor, Initialize and the destructor, which returns once the thread has ended.
abbrev pub new_uploader : Uploader
new_uploader = record { http_client = none; run = false; queue = [] }

unfoldable pub initialize : Uploader → Uploader
initialize u =
    if u.run
    then u
    else record u { http_client = some (Http.initialize Http.new_http_client); run = true }

unfoldable pub destroy : Uploader → Uploader
destroy u = if u.run then record u { run = false; http_client = none } else u

-- The loop of the thread's body: it posts the request again and again until a post succeeds or
-- `run_` is reset. Each attempt is what libevent does in it and the value of `run_` that the loop then
-- reads; `none` where the attempts end before the loop does.
unfoldable pub post_loop : HttpClient → List (Exchange × Bool) → Option (HttpClient × Bool)
post_loop h [] = none
post_loop h ((x, run) ∷ attempts) =
    let (h', ok) = Http.post x h in
    let rest = post_loop h' attempts in if not ok && run then rest else some (h', ok)

-- The new state, the contents of the request, and whether the last Post returned true; the contents
-- are cleared either way.
posted : Uploader → Option (HttpClient × Bool) → Option (Uploader × List Item × Bool)
posted u none = none
posted u (some (h, ok)) = some (record u { http_client = some h; queue = [] }, u.queue, ok)

round_with :
    Option HttpClient → Uploader → List (Exchange × Bool) → Option (Uploader × List Item × Bool)
unfolding posted
round_with none u attempts = none
round_with (some h) u attempts = posted u (post_loop h attempts)

-- A turn of the thread's loop, which takes the whole queue.
unfoldable pub upload_round :
    Uploader → List (Exchange × Bool) → Option (Uploader × List Item × Bool)
unfolding round_with
upload_round u attempts = elim u.queue [
  | [] ↦ some (u, [], true)
  | i ∷ is ↦ round_with u.http_client u attempts
]
