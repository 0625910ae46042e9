-- ===== src/Http/Sticky.antt =====
-- What the result of HttpClient::Post says of its request.
use grpc_push_sdk.Common.{
  ℕ, ◌≡◌, ◌≢◌, Bool, true, false, ◌&&◌, List, [], ◌∷◌, ◌++◌, Option, none, some, ◌==◌, arith, ap,
  ◌∙◌, if◌then◌else◌,
}
use grpc_push_sdk.Http.{
  HttpClient, Exchange, Called, null_request, response, new_http_client, initialize, post,
  handle_request_callback,
}
use grpc_push_sdk.Types.{res_success}

-- libevent took the request.
abbrev pub is_sent : Exchange → Bool
is_sent x = x.connection && x.request && x.buffered && x.made

-- The answer of a Post that was sent, where it has one that decides: a response with the code 200,
-- or no response.
abbrev pub verdict : Option Called → Option Bool
verdict (some null_request) = some false
verdict (some (response code)) = if code == res_success then some true else none
verdict none = none

-- What a Post makes of the verdict so far.
abbrev decide : Exchange → Bool → Bool
decide x ok = if is_sent x then elim (verdict x.called) [ none ↦ ok | some b ↦ b ] else ok

-- The last verdict of a sequence of posts, before which there was `ok`.
abbrev pub last_verdict : List Exchange → Bool → Bool
last_verdict [] ok = ok
last_verdict (x ∷ xs) ok = last_verdict xs (decide x ok)

-- The posts in their order, whatever they return.
abbrev pub post_all : List Exchange → HttpClient → HttpClient
post_all [] h = h
post_all (x ∷ xs) h = post_all xs (post x h).0

post_frame :
    (x : Exchange) (h : HttpClient)
    → h.init ≡ true
    → ((post x h).0.init ≡ true) × ((post x h).0.ok ≡ decide x h.ok)
unfolding post handle_request_callback
post_frame x h i = ground arith

post_sent :
    (x : Exchange) (h : HttpClient)
    → h.init ≡ true
    → is_sent x ≡ true
    → (post x h).1 ≡ (post x h).0.ok
unfolding post
post_sent x h i sent = ground arith

-- On an open client, the result of a Post that goes out is the last verdict of all posts up to it:
-- a response with another code than 200 is none, and the result of an earlier post stands.
pub post-last_verdict :
    (xs : List Exchange) (x : Exchange) (h : HttpClient)
    → h.init ≡ true
    → is_sent x ≡ true
    → (post x (post_all xs h)).1 ≡ last_verdict (xs ++ x ∷ []) h.ok
post-last_verdict [] x h i sent = post_sent x h i sent ∙ (post_frame x h i).1
post-last_verdict (y ∷ ys) x h i sent =
    let (open_client, before) = post_frame y h i in
    post-last_verdict ys x (post y h).0 open_client sent ∙ ap (last_verdict (ys ++ x ∷ [])) before

-- A new client whose first Post goes out and is answered with an error code returns true.
pub post_refused :
    (x : Exchange) (code : ℕ)
    → is_sent x ≡ true
    → x.called ≡ some (response code)
    → code ≢ res_success
    → (post x (initialize new_http_client)).1 ≡ true
unfolding post handle_request_callback initialize new_http_client
post_refused x code sent c bad = ground arith
