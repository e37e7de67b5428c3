-- ===== src/Db.antt =====
-- backend/db.go: the users, the reports with the automatic ban, and the blocks, in PostgreSQL.
-- Ids and times are natural numbers without an upper limit; times are nanoseconds. The wrapping of
-- errors in texts is left out: it keeps whether an error is pgx.ErrNoRows.
pub mod Statements
pub mod Reports
pub mod Answers
pub mod Rows
pub mod Invariant
pub mod Calls
pub mod Lookups
pub mod Listing
pub mod Bans
pub mod Toggles
pub mod ReportRows
pub mod References
pub mod Extends
pub mod Grows
mod Tests
use banana_talk.Prelude.{ℕ, ◌-◌, String, Bool, true, false, Option, List, ltb, if◌then◌else◌, ◌==ℕ◌}
use banana_talk.Sql.{
  User, Environment, Conn, Query, Result, ok, err, no_rows, failed, ◌>>=◌, ◌>>◌, pure, raise,
  attempt, statement, transaction,
}
use Statements.{
  is_set, upsert_sql, insert_report_sql, insert_blocks_sql, bump_sql, count_recent_sql, ban_sql,
  ban_returning_sql, unban_returning_sql, select_sub_sql, select_user_sql, load_blocks_sql,
}

abbrev pub auto_ban_threshold : ℕ
auto_ban_threshold = 5

-- 24 hours
abbrev pub auto_ban_window : ℕ
auto_ban_window = 86400000000000

module _ (env : Environment) where
  unfoldable pub local_time : Query ℕ
  local_time c = (ok (env.local_now c.step), c)

  -- The id of the user, and whether the row is new.
  unfoldable pub upsert_user : String → Query (ℕ × Bool)
  upsert_user google_sub = statement env (upsert_sql google_sub)

  unfoldable pub get_user_id_by_google_sub : String → Query ℕ
  unfolding select_user_sql
  get_user_id_by_google_sub google_sub = do
    user ← statement env (λ _. select_user_sql google_sub)
    pure user.id

  unfoldable pub is_user_banned : String → Query Bool
  unfolding select_user_sql
  is_user_banned google_sub = do
    found ← attempt (statement env (λ _. select_user_sql google_sub))
    elim found [
      | ok user ↦ pure (is_set user.banned_at)
      | err no_rows ↦ pure false
      | err failed ↦ raise failed
    ]

  -- The end of the transaction in `recordReport`, from the count on; `now` is its NOW().
  unfoldable pub ban_if_over : ℕ → ℕ → ℕ → Query Bool
  ban_if_over reported now recent =
      if ltb auto_ban_threshold recent
      then statement env (λ _. ban_sql reported now)
      else pure false

  unfoldable pub count_and_ban : ℕ → ℕ → Query Bool
  count_and_ban reported now = do
    at ← local_time
    recent ← statement env (λ _. count_recent_sql reported (at - auto_ban_window))
    ban_if_over reported now recent

  -- The statements of the transaction.
  unfoldable pub report_statements : ℕ → ℕ → String → String → String → ℕ → Query Bool
  report_statements reporter reported reason url key now = do
    statement env (λ _. insert_report_sql reporter reported reason url key now)
    statement env (λ _. insert_blocks_sql reporter reported now)
    statement env (λ _. bump_sql reported)
    count_and_ban reported now

  -- Whether the reported user was banned by this call.
  unfoldable pub record_report : ℕ → ℕ → String → String → String → Query Bool
  record_report reporter reported reason url key =
      transaction env (report_statements reporter reported reason url key)

  -- The second query of `banUser` and `unbanUser`, which tells an unknown user from one in whom
  -- nothing had to change.
  unfoldable pub look_up_sub : ℕ → Query (String × Bool)
  unfolding select_sub_sql
  look_up_sub id = do sub ← statement env (λ _. select_sub_sql id); pure (sub, false)

  -- What follows the UPDATE in `banUser` and `unbanUser`.
  unfoldable pub settle : ℕ → Result String → Query (String × Bool)
  unfolding look_up_sub
  settle id (ok sub) = pure (sub, true)
  settle id (err no_rows) = look_up_sub id
  settle id (err failed) = raise failed

  -- The google_sub, and whether the user was not banned before.
  unfoldable pub ban_user : ℕ → Query (String × Bool)
  ban_user id = do changed ← attempt (statement env (ban_returning_sql id)); settle id changed

  -- The google_sub, and whether the user was banned before.
  pub unban_user : ℕ → Query (String × Bool)
  unban_user id = do
    changed ← attempt (statement env (λ _. unban_returning_sql id))
    settle id changed

  unfoldable pub insert_block : ℕ → ℕ → Query (Unit {0})
  insert_block blocker blocked =
      if blocker ==ℕ blocked
      then raise failed
      else statement env (insert_blocks_sql blocker blocked)

  unfoldable pub load_user_blocks : ℕ → Query (List String)
  unfolding load_blocks_sql
  load_user_blocks blocker = statement env (λ _. load_blocks_sql blocker)
