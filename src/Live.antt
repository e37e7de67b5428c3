-- ===== src/Live.antt =====
-- The goroutines of an open connection in `handleConnections` of backend/main.go: the one that pings,
-- the one that passes notifications on, and the reader with its deadline. The connection itself is
-- Go's and gorilla's: whether a call on it succeeds, and what arrives when, are arguments. Times are
-- nanoseconds.
pub mod Alive
pub mod Delivered
mod Tests
use banana_talk.Prelude.{
  ℕ, ℤ, ◌+◌, ◌*◌, ◌/◌, String, Bool, true, false, List, [], ◌∷◌, Option, none, some, ltb, leb,
  if◌then◌else◌,
}
use banana_talk.Redis.Commands.{Key, notify, key_eq}
use banana_talk.Relay.{Message, Timings, go_string, read_loop}

-- 10 s
abbrev pub write_wait : ℕ
write_wait = 10000000000

-- 60 s
abbrev pub pong_wait : ℕ
pong_wait = 60000000000

abbrev pub ping_period : ℕ
ping_period = pong_wait * 9 / 10

abbrev pub read_limit : ℕ
read_limit = 8192

-- What a subscription to the user's channel gives of what is published after it.
abbrev pub received : String → List (Key × String) → List String
received user [] = []
received user ((channel, peer) ∷ rest) =
    let later = received user rest in if key_eq channel (notify user) then peer ∷ later else later

-- Whether the two calls of `WriteJSON` on a `Client` succeed.
pub record Write : Type 0 where
  pub sets_deadline : Bool
  pub writes : Bool

-- `WriteJSON` of `Client`.
pub write_json : Write → Bool
write_json w = if w.sets_deadline then w.writes else false

-- The pings of the heartbeat: the time of each, and its deadline. A tick at `now` pings; `calls` says
-- which pings succeed, and the first that fails ends the loop.
pub heartbeat : ℕ → List Bool → List (ℕ × ℕ)
heartbeat now [] = []
heartbeat now (false ∷ calls) = []
heartbeat now (true ∷ calls) = (now, now + write_wait) ∷ heartbeat (now + ping_period) calls

module _ (Float : Type 0) where
  -- The message of the source's `match` with a peer.
  abbrev pub match_message : String → Message Float
  match_message peer = record { kind = "match"; payload = go_string peer; to = ""; from = "" }

  -- The loop over the notifications, with the writes: what is written to the client. An error is only logged.
  pub forward_matches : List (String × Write) → List (Message Float)
  unfolding write_json
  forward_matches [] = []
  forward_matches ((peer, w) ∷ rest) =
      let later = forward_matches rest in if write_json w then match_message peer ∷ later else later

  -- What arrives at the socket: a pong, whose handler sets the deadline or fails to; a message with its
  -- size, as it is decoded, and the table of clients when it is handled; a frame that cannot be read,
  -- such as a close.
  pub data Arrival : Type 0 where
    pong : (sets_deadline : Bool) → Arrival
    message : (size : ℕ) → Message Float → (clients : List String) → Arrival
    unreadable : Arrival

  -- Why and when the loop ends.
  pub data End : Type 0 where
    timed_out refused : ℕ → End

  -- The reads of the loop, from the deadline and what arrives at which time, oldest first: the messages
  -- that are read, and its end. A read that has nothing before the deadline fails then.
  pub listen : ℕ → List (ℕ × Arrival) → List (Message Float × List String) × End
  listen deadline [] = ([], timed_out deadline)
  listen deadline ((t, pong true) ∷ rest) =
      let later = listen (t + pong_wait) rest in
      if ltb t deadline then later else ([], timed_out deadline)
  listen deadline ((t, pong false) ∷ rest) =
      ([], if ltb t deadline then refused t else timed_out deadline)
  listen deadline ((t, message size msg clients) ∷ rest) =
      let later = listen deadline rest in
      if ltb t deadline
      then (if leb size read_limit then ((msg, clients) ∷ later.0, later.1) else ([], refused t))
      else ([], timed_out deadline)
  listen deadline ((t, unreadable) ∷ rest) =
      ([], if ltb t deadline then refused t else timed_out deadline)

  -- The results of `ReadJSON`; the last is an error.
  pub results : List (Message Float × List String) → List (Option (Message Float) × List String)
  results [] = (none, []) ∷ []
  results ((msg, clients) ∷ rest) = (some msg, clients) ∷ results rest

  -- From the first deadline on; `sets` says whether it can be set.
  pub converse :
      (of_int : ℤ → Float)
      → (per_thousand : Float → Float) → Bool
      → String
      → ℕ
      → List (ℕ × Arrival)
      → Timings Float
      → List (String × Message Float) × Timings Float
  unfolding listen results
  converse of_int per_thousand false user start arrivals t = ([], t)
  converse of_int per_thousand true user start arrivals t =
      read_loop Float of_int per_thousand user (results (listen (start + pong_wait) arrivals).0) t
