-- ===== src/Http.antt =====
-- What the HTTP handlers of the backend read of a request and write in a response. Go's server
-- parses requests, and its JSON package reads and writes bodies.
use banana_talk.Prelude.{ℕ, String, Bool, List}

-- `token_query` is the query parameter `token`, `authorization` the header; "" is a missing one.
pub record Request : Type 0 where
  pub method : String
  pub token_query : String
  pub authorization : String

-- An error has a status, a code and a message.
pub data Response : Type 0 where
  error : ℕ → String → String → Response
  blocked : Response
  blocked_ids : List String → Response
  reported : Bool → Response

abbrev pub method_not_allowed : Response
method_not_allowed = error 405 "method_not_allowed" "method not allowed"

abbrev pub invalid_token : Response
invalid_token = error 401 "invalid_token" "token invalid or expired"

abbrev pub internal_error : Response
internal_error = error 500 "internal_error" "internal error"

-- A plain text, as `http.Error` and the probes write it.
pub record Plain : Type 0 where
  pub status : ℕ
  pub body : String
