-- ===== src/Backend.antt =====
-- The state that the HTTP handlers of the backend share, and the database calls that
-- backend/block.go and backend/report.go have in common.
pub mod Known
pub mod Sound
pub mod Samples
use banana_talk.Prelude.{ℕ, String, List}
use banana_talk.Metrics.{Metrics}
use banana_talk.Redis.{Redis}
use banana_talk.Sql.{
  Environment, Conn, Query, Result, ok, err, no_rows, failed, ◌>>=◌, pure, raise, attempt,
}
use banana_talk.Db.{upsert_user, get_user_id_by_google_sub}

-- The database, Redis and the collectors; the users that have an entry in the table of clients of
-- backend/main.go, and those whose connection the server has closed, newest first.
pub record Backend (r : Redis) : Type 0 where
  pub conn : Conn
  pub store : r.Store
  pub metrics : Metrics
  pub clients : List String
  pub closed : List String

module _ (env : Environment) where
  stub_id : String → Query ℕ
  stub_id sub = do found ← upsert_user env sub; pure found.0

  -- The stub for a user who is not known.
  stub : String → Result ℕ → Query ℕ
  unfolding stub_id
  stub sub (ok id) = pure id
  stub sub (err no_rows) = stub_id sub
  stub sub (err failed) = raise failed

  -- The id of the user that a request names, who gets a row if there is none.
  unfoldable pub known_or_stub : String → Query ℕ
  unfolding stub
  known_or_stub sub = do found ← attempt (get_user_id_by_google_sub env sub); stub sub found
