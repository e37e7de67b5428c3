-- ===== src/Live/Tests.antt =====
-- A connection of backend/main.go that lasts two minutes.
use banana_talk.Prelude.{ℕ, ◌+◌, ◌*◌, ◌≡◌, refl, true, List, [], ◌∷◌, arith}
use banana_talk.Relay.{Message, go_string}
use banana_talk.Live.Alive.{Answers, messages, last_pong, pings, all_sent, listen-Answers}
use banana_talk.Live.{pong_wait, ping_period, heartbeat, Arrival, pong, message, timed_out, listen}

abbrev hello : Message ℕ
hello = record { kind = "offer"; payload = go_string "hello"; to = "bob"; from = "" }

abbrev seconds : ℕ → ℕ
seconds n = n * 1000000000

-- A message after a minute and a half, which only the first pong makes possible.
abbrev arrivals : List (ℕ × Arrival ℕ)
arrivals =
    (seconds 10, message 100 hello ("bob" ∷ []))
    ∷ (seconds 55, pong true)
    ∷ (seconds 90, message 200 hello [])
    ∷ (seconds 109, pong true)
    ∷ []

answered : Answers ℕ 0 1 arrivals
answered = (
  omega arith,
  omega arith,
  (
    refl,
    omega arith,
    omega arith,
    (omega arith, omega arith, (refl, omega arith, omega arith, tt)),
  ),
)

listen-Answers_example :
    (heartbeat (0 + ping_period) (all_sent 2) ≡ pings 0 1 2)
    × (listen ℕ (0 + pong_wait) arrivals
        ≡ (messages ℕ arrivals, timed_out (last_pong ℕ 0 arrivals + pong_wait)))
listen-Answers_example = listen-Answers ℕ 0 2 arrivals answered
