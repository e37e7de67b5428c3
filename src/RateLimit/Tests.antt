-- ===== src/RateLimit/Tests.antt =====
-- Runs of backend/ratelimit.go with a token bucket.
use banana_talk.Prelude.{String, ◌≡◌, refl, true, false, none, some, List, [], ◌∷◌, arith}
use banana_talk.RateLimit.{Origin, split_host_port, client_ip, allow_ip, allow, collect}
use banana_talk.RateLimit.Bucket.{bucket}
use banana_talk.RateLimit.Collection.{Event, asks, ticks, without, answers, answers-without}

abbrev from : String → Origin
from addr = record { forwarded_for = ""; real_ip = ""; remote_addr = addr }

runs_limits : Unit {0}
unfolding client_ip allow_ip allow collect
runs_limits = tt

behind_proxy :
    client_ip
      (record { forwarded_for = " 10.0.0.1 , 10.0.0.2"; real_ip = "x"; remote_addr = "y:1" })
      true
    ≡ "10.0.0.1"
unfolding runs_limits
behind_proxy = refl

bracketed_host : split_host_port "[::1]:8080" ≡ some "::1"
bracketed_host = refl

no_port : client_ip (from "::1") false ≡ "::1"
unfolding runs_limits
no_port = refl

-- Six requests at once, and one after eleven minutes and a collection.
abbrev six : List Event
six =
    asks (from "a:1") 1
    ∷ asks (from "a:2") 1
    ∷ asks (from "a:3") 1
    ∷ asks (from "a:4") 1
    ∷ asks (from "a:5") 1
    ∷ asks (from "a:6") 1
    ∷ ticks 660000000001
    ∷ asks (from "a:7") 660000000002
    ∷ []

sixth_refused :
    answers bucket false six (λ ip. none) ≡ true ∷ true ∷ true ∷ true ∷ true ∷ false ∷ true ∷ []
unfolding runs_limits
sixth_refused = refl

answers-without_example :
    answers bucket false six (λ ip. none) ≡ answers bucket false (without six) (λ ip. none)
answers-without_example = answers-without bucket false six (omega arith) (
  omega arith,
  (
    omega arith,
    (omega arith, (omega arith, (omega arith, (omega arith, (omega arith, (omega arith, tt)))))),
  ),
)
