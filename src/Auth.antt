-- ===== src/Auth.antt =====
-- backend/auth.go: the token of a request, its verification, and the messages for its errors; and
-- `authenticate` of backend/report.go. Google's validator is a parameter. Times are seconds.
pub mod Verified
mod Tests
use text.Mathlib.Text.{starts_with}
use banana_talk.Prelude.{ℕ, String, Option, none, some, ◌==◌, ltb, if◌then◌else◌}
use banana_talk.Http.{Request}
use banana_talk.Strings.{trim_prefix}

abbrev pub token_err_missing : String
token_err_missing = "missing_token"

abbrev pub token_err_invalid : String
token_err_invalid = "invalid_token"

abbrev pub token_err_expired : String
token_err_expired = "token_expired"

abbrev pub token_err_no_sub : String
token_err_no_sub = "invalid_token_claims"

-- The claims that the validator returns, as far as they are read.
pub record Payload : Type 0 where
  pub expires : ℕ
  pub subject : String

unfoldable pub bearer_token : Request → String
bearer_token r =
    if r.token_query == ""
    then (if starts_with r.authorization "Bearer "
        then trim_prefix r.authorization "Bearer "
        else "")
    else r.token_query

unfoldable pub token_err_message : String → String
token_err_message code =
    if code == token_err_missing
    then "authentication token required"
    else if code == token_err_invalid
    then "token invalid or expired"
    else if code == token_err_expired
    then "token expired"
    else if code == token_err_no_sub
    then "token missing subject"
    else "unauthorized"

-- `validate` is `tokenValidate`, whose error is only logged; `now` is the time in seconds.
module _ (validate : String → Option Payload) (now : ℕ) where
  check_payload : Option Payload → String × String
  check_payload none = ("", token_err_invalid)
  check_payload (some payload) =
      if ltb now payload.expires
      then (if payload.subject == "" then ("", token_err_no_sub) else (payload.subject, ""))
      else ("", token_err_expired)

  -- The subject and the error code.
  unfoldable pub verify_token : String → String × String
  unfolding check_payload
  verify_token token =
      if token == "" then ("", token_err_missing) else check_payload (validate token)

  -- The user, if there is no error.
  unfoldable pub authenticate : Request → Option String
  authenticate r =
      let (sub, code) = verify_token (bearer_token r) in if code == "" then some sub else none
