-- ===== src/Platform/Http.antt =====
-- Requests and responses, and the response helpers `json` and `err` (shard/worker.js,
-- combined/worker.js) and `jsonOk` and `jsonErr` (router/router.js).
use nex_talk_relay.Base.{Text, codes, same, ℕ, Option, none, some, List, [], ◌∷◌, if◌then◌else◌}
use nex_talk_relay.Js.{Json, str, object}

abbrev pub Headers : Type 0
Headers = List (Text × Text)

pub record Request : Type 0 where
  pub method : Text
  pub path : Text
  -- `request.json()`; `none` is its exception
  pub body : Option Json
  pub query : List (Text × Text)
  -- the headers CF-Connecting-IP and Authorization
  pub connecting_ip : Option Text
  pub authorization : Option Text

pub record Response : Type 0 where
  pub status : ℕ
  pub body : Json
  pub headers : Headers

-- `url.searchParams.get`
abbrev pub lookup_text : Text → List (Text × Text) → Option Text
lookup_text k [] = none
lookup_text k ((j, v) ∷ kvs) = if same j k then some v else lookup_text k kvs

unfoldable pub search_param : Text → Request → Option Text
search_param k request = lookup_text k request.query

-- A later header of an object literal takes the place of an earlier one.
abbrev pub set_header : Text × Text → Headers → Headers
set_header h [] = h ∷ []
set_header (k, v) ((j, u) ∷ hs) = if same j k then (k, v) ∷ hs else (j, u) ∷ set_header (k, v) hs

unfoldable pub set_headers : Headers → Headers → Headers
set_headers [] hs = hs
set_headers (h ∷ extra) hs = set_headers extra (set_header h hs)

abbrev pub cors_headers : Headers
cors_headers =
    (codes "Access-Control-Allow-Origin", codes "*")
    ∷ (codes "Access-Control-Allow-Methods", codes "GET, POST, OPTIONS")
    ∷ (codes "Access-Control-Allow-Headers", codes "Content-Type, Authorization")
    ∷ []

unfoldable pub json_response : Json → ℕ → Headers → Response
json_response data_ status extra = record {
  status = status;
  body = data_;
  headers = set_headers ((codes "Cache-Control", codes "no-store") ∷ extra) cors_headers;
}

abbrev pub json : Json → Response
json data_ = json_response data_ 200 []

unfoldable pub error_body : Text → Json
error_body message = object ((codes "error", str message) ∷ [])

abbrev pub err_with : Text → ℕ → Headers → Response
err_with message status extra = json_response (error_body message) status extra

abbrev pub err : Text → ℕ → Response
err message status = err_with message status []

abbrev pub bad_request : Text → Response
bad_request message = err message 400

abbrev pub retry_after : Text → Headers
retry_after seconds = (codes "Retry-After", seconds) ∷ []

-- The Router's helpers set no `Cache-Control` of their own.
unfoldable pub json_ok : Json → Headers → Response
json_ok data_ extra = record {
  status = 200;
  body = data_;
  headers = set_headers extra cors_headers;
}

unfoldable pub json_err : Text → ℕ → Response
json_err message status = record {
  status = status;
  body = error_body message;
  headers = cors_headers;
}
