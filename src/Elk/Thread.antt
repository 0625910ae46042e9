-- ===== src/Elk/Thread.antt =====
-- The thread of src/elk/async_upload.cpp: that its loop ends, and what it loses.
use grpc_push_sdk.Common.{
  ℕ, ◌≡◌, ◌≢◌, refl, Bool, true, false, List, [], ◌∷◌, ◌++◌, some, arith, is_some, Option-cases,
  inl, inr,
}
use grpc_push_sdk.Elk.{Item, Uploader, post_loop, upload_round, round_with, posted}
use grpc_push_sdk.Http
use grpc_push_sdk.Http.{HttpClient, Exchange, response}
use grpc_push_sdk.Http.Sticky.{is_sent, post_refused}
use grpc_push_sdk.Types.{res_success}

post_loop-ends :
    (h : HttpClient) (before after : List (Exchange × Bool)) (x : Exchange)
    → is_some (post_loop h (before ++ (x, false) ∷ after)) ≡ true
unfolding post_loop
post_loop-ends h [] after x = ground arith
post_loop-ends h ((y, run) ∷ before) after x =
    ground (arith, post_loop-ends (Http.post y h).0 before after x)

-- With an HTTP client, once `run_` is reset, which the destructor does before it waits for the thread,
-- the round that the thread is in ends with its next attempt at the latest, however the server answers.
pub upload_round-ends :
    (u : Uploader) (before after : List (Exchange × Bool)) (x : Exchange)
    → is_some u.http_client ≡ true
    → is_some (upload_round u (before ++ (x, false) ∷ after)) ≡ true
unfolding upload_round round_with posted
upload_round-ends u before after x open_client = elim (Option-cases u.http_client) [
  | inl closed ↦ absurd (ground arith)
  | inr (h, e) ↦ ground (arith, post_loop-ends h before after x)
]

-- The first request of an uploader that is answered with an error code: the round ends, and its
-- items leave the queue as if they had been delivered.
pub refused_items :
    (u : Uploader) (i : Item) (is : List Item) (x : Exchange) (run : Bool)
    (attempts : List (Exchange × Bool)) (code : ℕ)
    → u.http_client ≡ some (Http.initialize Http.new_http_client)
    → u.queue ≡ i ∷ is
    → is_sent x ≡ true
    → x.called ≡ some (response code)
    → code ≢ res_success
    → (u' : Uploader) × (upload_round u ((x, run) ∷ attempts) ≡ some (u', i ∷ is, true))
      × (u'.queue ≡ [])
unfolding upload_round round_with posted post_loop
refused_items u i is x run attempts code fresh queued sent called bad =
    let (h, ok) = Http.post x (Http.initialize Http.new_http_client) in
    let accepted = post_refused x code sent called bad in
    (record u { http_client = some h; queue = [] }, rw (queued, fresh, accepted) refl, refl)
