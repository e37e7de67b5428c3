-- ===== src/Connection.antt =====
-- `handleConnections` of backend/main.go: which requests to /ws are admitted, what a connection sets
-- up, and its cleanup, `leave`, whatever the reason of its end.
pub mod Admitted
pub mod Left
pub mod Loaded
pub mod Kept
pub mod Restored
mod Tests
use banana_talk.Prelude.{
  ℕ, ◌+◌, ◌-◌, String, Bool, true, false, not, Option, none, some, List, [], ◌∷◌, ◌==◌,
  if◌then◌else◌, has,
}
use banana_talk.Redis.{Redis}
use banana_talk.Matchmaker.{add, remove, hydrate_blocks, clear_blocks, delete_session}
use banana_talk.Sql.{Environment, Conn, Result, ok, err}
use banana_talk.Db.{upsert_user, is_user_banned, load_user_blocks}
use banana_talk.Http.{Request, Response, error}
use banana_talk.Auth.{Payload, bearer_token, verify_token, token_err_message}
use banana_talk.RateLimit.{Limits, Limiters, Origin, allow}
use banana_talk.Backend.{Backend}

-- How a request to /ws ends: with an error, without an upgrade, with a connection whose first
-- message could not be sent, or with a connection of a user.
pub data Outcome : Type 0 where
  refused : Response → Outcome
  not_upgraded : Outcome
  not_greeted opened : String → Outcome

-- What happens outside the handler: the upgrade succeeds, the first message is sent, and the times,
-- in seconds for tokens and in nanoseconds for limiters and the queue.
pub record Moment : Type 0 where
  pub upgrades : Bool
  pub greets : Bool
  pub seconds : ℕ
  pub nanoseconds : ℕ

-- The keys of a map of clients after a deletion.
abbrev pub delete_key : String → List String → List String
delete_key user [] = []
delete_key user (x ∷ xs) = let rest = delete_key user xs in if x == user then rest else x ∷ rest

abbrev server_error : Response
server_error = error 500 "internal_error" "internal server error"

module _ (r : Redis) where
  -- The deferred cleanup, whichever connection of the user ends.
  unfoldable pub leave : String → Backend r → Backend r
  leave user b = record b {
    clients = delete_key user b.clients;
    metrics = record b.metrics { active_connections = b.metrics.active_connections - 1 };
    store = clear_blocks r user (delete_session r user (remove r user b.store));
  }

  -- The entry in the map, which replaces that of an earlier connection.
  unfoldable pub register : String → Backend r → Backend r
  register user b = record b {
    clients = if has b.clients user then b.clients else user ∷ b.clients;
    metrics = record b.metrics { active_connections = b.metrics.active_connections + 1 };
  }

  -- From the upgrade on.
  start : Moment → String → Backend r → Outcome × Backend r
  unfolding register
  start at user b =
      if at.upgrades
      then (if at.greets
          then (opened user, record (register user b) { store = add r at.nanoseconds user b.store })
          else (not_greeted user, leave user (register user b)))
      else (not_upgraded, b)

  pub hydrate : String → Backend r → Result (List String) × Conn → Backend r
  hydrate user b (err e, c) = record b { conn = c }
  hydrate user b (ok subs, c) = record b { conn = c; store = hydrate_blocks r user subs b.store }

  module _ (env : Environment) (at : Moment) where
    admit_unbanned : String → ℕ → Backend r → Result Bool × Conn → Outcome × Backend r
    unfolding start hydrate
    admit_unbanned user id b (err e, c) = (refused server_error, record b { conn = c })
    admit_unbanned user id b (ok true, c) =
        (refused (error 403 "account_suspended" "account suspended"), record b { conn = c })
    admit_unbanned user id b (ok false, c) =
        start at user (hydrate user b (load_user_blocks env id c))

    admit_known : String → Backend r → Result (ℕ × Bool) × Conn → Outcome × Backend r
    unfolding admit_unbanned
    admit_known user b (err e, c) = (refused server_error, record b { conn = c })
    admit_known user b (ok row, c) = admit_unbanned user row.0 b (is_user_banned env user c)

    admit : String × String → Backend r → Outcome × Backend r
    unfolding admit_known
    admit (user, code) b =
        if code == ""
        then admit_known user b (upsert_user env user b.conn)
        else (refused (error 401 code (token_err_message code)), b)

    -- `draining` is `shuttingDown`.
    module _ {interval burst : ℕ} (l : Limits interval burst) (trust_xff : Bool)
        (validate : String → Option Payload) (draining : Bool) where
      unlimited : Request → Bool × Limiters l → Backend r → Outcome × Backend r × Limiters l
      unfolding admit
      unlimited req (false, m) b =
          (refused (error 429 "rate_limited" "too many connection attempts, retry shortly"), b, m)
      unlimited req (true, m) b =
          let (outcome, b') = admit (verify_token validate at.seconds (bearer_token req)) b in
          (outcome, b', m)

      unfoldable pub handle_connections :
          Request → Origin → Backend r → Limiters l → Outcome × Backend r × Limiters l
      unfolding unlimited
      handle_connections req from b m =
          if draining
          then (refused (error 503 "shutting_down" "server is shutting down"), b, m)
          else unlimited req (allow l from trust_xff at.nanoseconds m) b
