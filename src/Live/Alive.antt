-- ===== src/Live/Alive.antt =====
-- How long the loop of `handleConnections` (backend/main.go) reads a connection.
use banana_talk.Prelude.{
  ℕ, String, zero, suc, ◌+◌, ◌*◌, ◌-◌, ◌≤◌, ◌<◌, ◌≡◌, refl, ap, Bool, true, false, List, [], ◌∷◌,
  arith,
}
use banana_talk.Relay.{Message}
use banana_talk.Live.{
  write_wait, pong_wait, ping_period, read_limit, heartbeat, Arrival, pong, message, unreadable,
  timed_out, listen,
}

-- The time of the ping with a number, the first being 1.
abbrev pub ping_time : ℕ → ℕ → ℕ
ping_time start k = start + k * ping_period

-- How long the peer has for a pong: 6 s
abbrev pub patience : ℕ
patience = pong_wait - ping_period

module _ (Float : Type 0) where
  -- The peer answers the pings from number k on, each in time, and sends nothing too large and nothing
  -- later than the pong that is due. The arrivals end anywhere.
  abbrev pub Answers : ℕ → ℕ → List (ℕ × Arrival Float) → Type 0
  Answers start k [] = Unit
  Answers start k ((t, pong sets) ∷ rest) =
      (sets ≡ true)
      × (ping_time start k ≤ t)
      × (t < ping_time start k + patience)
      × Answers start (suc k) rest
  Answers start k ((t, message size msg clients) ∷ rest) =
      (size ≤ read_limit) × (t < ping_time start k + patience) × Answers start k rest
  Answers start k ((t, unreadable) ∷ rest) = ⊥

  -- The messages of the peer.
  abbrev pub messages : List (ℕ × Arrival Float) → List (Message Float × List String)
  messages [] = []
  messages ((t, pong sets) ∷ rest) = messages rest
  messages ((t, message size msg clients) ∷ rest) = (msg, clients) ∷ messages rest
  messages ((t, unreadable) ∷ rest) = messages rest

  -- The time of the last pong, or that of the start.
  abbrev pub last_pong : ℕ → List (ℕ × Arrival Float) → ℕ
  last_pong since [] = since
  last_pong since ((t, pong sets) ∷ rest) = last_pong t rest
  last_pong since ((t, message size msg clients) ∷ rest) = last_pong since rest
  last_pong since ((t, unreadable) ∷ rest) = last_pong since rest

  listen-since :
      (start k since : ℕ) (arrivals : List (ℕ × Arrival Float))
      → ping_time start k + patience ≤ since + pong_wait
      → Answers start k arrivals
      → listen Float (since + pong_wait) arrivals
        ≡ (messages arrivals, timed_out (last_pong since arrivals + pong_wait))
  unfolding listen
  listen-since start k since [] le h = refl
  listen-since start k since ((t, pong true) ∷ rest) le (e, from, before, h) =
      ground (arith, listen-since start (suc k) t rest (omega arith) h)
  listen-since start k since ((t, pong false) ∷ rest) le (e, from, before, h) = absurd (cc e)
  listen-since start k since ((t, message size msg clients) ∷ rest) le (small, before, h) =
      ground (arith, listen-since start k since rest le h)
  listen-since start k since ((t, unreadable) ∷ rest) le h = absurd h

-- The first `n` pings from number `k` on, each with its deadline.
abbrev pub pings : ℕ → ℕ → ℕ → List (ℕ × ℕ)
pings start k zero = []
pings start k (suc n) = (ping_time start k, ping_time start k + write_wait) ∷ pings start (suc k) n

abbrev pub all_sent : ℕ → List Bool
all_sent zero = []
all_sent (suc n) = true ∷ all_sent n

heartbeat-pings : (start k n : ℕ) → heartbeat (ping_time start k) (all_sent n) ≡ pings start k n
unfolding heartbeat
heartbeat-pings start k zero = refl
heartbeat-pings start k (suc n) =
    let next : ping_time start k + ping_period ≡ ping_time start (suc k) = omega arith in
    rw next (
      ap (λ ps. (ping_time start k, ping_time start k + write_wait) ∷ ps)
        (heartbeat-pings start (suc k) n))

-- While the pings can be sent, they go out every 54 s. If the peer answers each of them within 6 s, by
-- pongs whose handler sets the deadline, sends no message over 8192 bytes, nothing that cannot be
-- read, and nothing between the time by which a pong is due and that pong: every message that the
-- peer sends is read, in order, with the table of clients at its time, and the loop ends one minute
-- after the last pong, or after the start if there was none.
pub listen-Answers :
    (Float : Type 0) (start n : ℕ) (arrivals : List (ℕ × Arrival Float))
    → Answers Float start 1 arrivals
    → (heartbeat (start + ping_period) (all_sent n) ≡ pings start 1 n)
      × (listen Float (start + pong_wait) arrivals
          ≡ (messages Float arrivals, timed_out (last_pong Float start arrivals + pong_wait)))
listen-Answers Float start n arrivals h =
    let first : start + ping_period ≡ ping_time start 1 = omega arith in
    (
      rw first (heartbeat-pings start 1 n),
      listen-since Float start 1 start arrivals (omega arith) h,
    )
