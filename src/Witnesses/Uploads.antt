-- ===== src/Witnesses/Uploads.antt =====
-- The theorems on the uploader and its HTTP client, applied.
use grpc_push_sdk.Common.{
  is_some, ℕ, ◌≤◌, ◌≡◌, refl, true, false, List, [], ◌∷◌, ◌++◌, some, arith, length,
}
use grpc_push_sdk.Config.{elk_upload_max_size}
use grpc_push_sdk.Http
use grpc_push_sdk.Http.{Exchange}
use grpc_push_sdk.Elk
use grpc_push_sdk.Elk.{Item, Uploader, push, upload_round, post_loop}
use grpc_push_sdk.Elk.Thread.{upload_round-ends, refused_items}
use grpc_push_sdk.Http.{HttpClient}
use grpc_push_sdk.Http.Sticky.{post_all, last_verdict, post-last_verdict}
use grpc_push_sdk.Elk.Fifo.{
  Event, pushes, uploads, after_events, after_event, pushed_by, after_events-Fifo, push-length,
}
use grpc_push_sdk.Types.{RetCode}

abbrev item : ℕ → Item
item n = record {
  system_time = [];
  appid = 1;
  uid = n;
  suid = n;
  group_info = [];
  action = [];
  code = RetCode.success;
  msg = [];
}

abbrev uploader : Uploader
uploader = Elk.initialize Elk.new_uploader

push-length_example : length (push uploader (item 1)).uploader.queue ≤ elk_upload_max_size
unfolding Elk.initialize
push-length_example = push-length uploader (item 1) (omega arith)

-- A Post that goes out, and what libevent then calls back with.
abbrev answered : Http.Called → Exchange
answered c = record {
  connection = true;
  request = true;
  buffered = true;
  made = true;
  called = some c;
}

abbrev events : List Event
events =
    pushes (item 1)
    ∷ pushes (item 2)
    ∷ uploads ((answered Http.null_request, true) ∷ (answered (Http.response 200), true) ∷ [])
    ∷ pushes (item 3)
    ∷ []

abbrev holding : Uploader
holding = record {
  http_client = some (record { ok = true; init = true });
  run = true;
  queue = item 3 ∷ [];
}

events-run : after_events uploader events ≡ some (holding, item 1 ∷ item 2 ∷ [])
unfolding after_events after_event push upload_round post_loop Elk.initialize Http.post
    Http.initialize Http.new_http_client
events-run = refl

after_events-Fifo_example :
    (holding.run ≡ true)
    × ((item 1 ∷ item 2 ∷ []) ++ holding.queue ≡ uploader.queue ++ pushed_by events)
unfolding Elk.initialize
after_events-Fifo_example =
    after_events-Fifo uploader holding events (item 1 ∷ item 2 ∷ []) refl events-run

abbrev waiting : Uploader
waiting = record uploader { queue = item 1 ∷ [] }

upload_round-ends_example :
    is_some (
      upload_round waiting
        (((answered Http.null_request, true) ∷ []) ++ (answered Http.null_request, false) ∷ []))
    ≡ true
unfolding Elk.initialize
upload_round-ends_example =
    upload_round-ends waiting ((answered Http.null_request, true) ∷ []) []
      (answered Http.null_request) refl

refused_items_example :
    (u' : Uploader) × (upload_round waiting ((answered (Http.response 503), true) ∷ [])
      ≡ some (u', item 1 ∷ [], true))
    × (u'.queue ≡ [])
unfolding Elk.initialize
refused_items_example =
    refused_items waiting (item 1) [] (answered (Http.response 503)) true [] 503 refl refl refl refl
      (ground arith)

abbrev open_client : HttpClient
open_client = record { ok = true; init = true }

post-last_verdict_example :
    (Http.post
      (answered (Http.response 500))
      (post_all (answered Http.null_request ∷ []) open_client)).1
    ≡ last_verdict ((answered Http.null_request ∷ []) ++ answered (Http.response 500) ∷ []) true
post-last_verdict_example =
    post-last_verdict (answered Http.null_request ∷ []) (answered (Http.response 500)) open_client
      refl refl
