-- ===== src/Http.antt =====
-- src/common/http_client.cpp over libevent, which is not part of the repository: what libevent does in
-- one Post is an `Exchange`, the argument of `post`.
pub mod Sticky
use grpc_push_sdk.Common.{
  ℕ, List, [], ◌∷◌, String, bytes, Bool, true, false, Option, none, some, ◌==◌, if◌then◌else◌,
}
use grpc_push_sdk.Types.{res_success}

-- `base_` is not read but by libevent.
pub record HttpClient : Type 0 where
  pub ok : Bool
  pub init : Bool

-- HttpClient::HttpClient, Initialize and Close.
unfoldable pub new_http_client : HttpClient
new_http_client = record { ok = true; init = false }

unfoldable pub initialize : HttpClient → HttpClient
initialize h = if h.init then h else record h { init = true }

unfoldable pub close : HttpClient → HttpClient
close h = if h.init then record h { init = false } else h

-- What libevent answers: whether evhttp_connection_base_new and evhttp_request_new give an object,
-- whether evbuffer_add and evhttp_make_request return 0, and, while event_base_dispatch runs, the
-- argument of the callback: a null pointer, or a request with its response code. `none` is a
-- dispatch that ends without the callback.
pub data Called : Type 0 where
  null_request : Called
  response : ℕ → Called

pub record Exchange : Type 0 where
  pub connection : Bool
  pub request : Bool
  pub buffered : Bool
  pub made : Bool
  pub called : Option Called

-- HandleRequestCallBack.
unfoldable pub handle_request_callback : Called → HttpClient → HttpClient
handle_request_callback null_request h = record h { ok = false }
handle_request_callback (response code) h =
    if code == res_success then record h { ok = true } else h

dispatch : Option Called → HttpClient → HttpClient
unfolding handle_request_callback
dispatch none h = h
dispatch (some c) h = handle_request_callback c h

-- Post, with its early returns. What it hands to libevent is `post_request`.
unfoldable pub post : Exchange → HttpClient → HttpClient × Bool
unfolding dispatch
post x h =
    let h' = dispatch x.called h in
    if h.init
    then if x.connection
      then if x.request
        then if x.buffered then if x.made then (h', h'.ok) else (h, false) else (h, false)
        else (h, false)
      else (h, false)
    else (h, false)

-- The request of Post, as libevent is handed it: the connection, the headers in the order of their
-- addition, and the body. The map of the further headers is a list with ascending names.
pub record Request : Type 0 where
  pub host : List ℕ
  pub port : ℕ
  pub path : List ℕ
  pub headers : List (List ℕ × List ℕ)
  pub body : List ℕ

abbrev pub further_headers : List (String × String) → List (List ℕ × List ℕ)
further_headers [] = []
further_headers ((name, value) ∷ hs) = (bytes name, bytes value) ∷ further_headers hs

unfoldable pub post_request : List ℕ → ℕ → List ℕ → List (String × String) → List ℕ → Request
post_request ip port path headers text = record {
  host = ip;
  port = port;
  path = path;
  headers =
      (bytes "Content-Type", bytes "text/json;charset=UTF-8")
      ∷ (bytes "Host", ip)
      ∷ (bytes "Connection", bytes "close")
      ∷ further_headers headers;
  body = text;
}
