-- ===== src/Auth/Tests.antt =====
-- Runs of backend/auth.go with a validator that knows one token.
use banana_talk.Prelude.{String, ◌≡◌, refl, Option, none, some, ◌==◌, if◌then◌else◌}
use banana_talk.Http.{Request}
use banana_talk.Auth.{
  Payload, bearer_token, check_payload, verify_token, token_err_message, authenticate,
}
use banana_talk.Auth.Verified.{Vouches, authenticate-Vouches}

abbrev knows : String → Option Payload
knows token = if token == "t1" then some (record { expires = 100; subject = "alice" }) else none

abbrev with_header : Request
with_header = record { method = "POST"; token_query = ""; authorization = "Bearer t1" }

runs_auth : Unit {0}
unfolding bearer_token check_payload verify_token token_err_message authenticate
runs_auth = tt

header_accepted : authenticate knows 99 with_header ≡ some "alice"
unfolding runs_auth
header_accepted = refl

header_expired : authenticate knows 100 with_header ≡ none
unfolding runs_auth
header_expired = refl

expired_message : token_err_message (verify_token knows 100 "t1").1 ≡ "token expired"
unfolding runs_auth
expired_message = refl

authenticate-Vouches_example : Vouches knows 99 (bearer_token with_header) "alice"
authenticate-Vouches_example = (authenticate-Vouches knows 99 with_header "alice").0 header_accepted
