-- ===== src/Blocking.antt =====
-- backend/block.go: POST /block, which blocks a user, and GET /blocks, which lists the users
-- blocked. The body is given as the field `blocked_user_id` that Go's JSON package decodes from at
-- most 1 KiB, or nothing if that fails.
pub mod Stored
pub mod Listed
pub mod Kept
mod Tests
use banana_talk.Prelude.{
  ℕ, String, true, false, not, Option, none, some, List, [], ◌==◌, if◌then◌else◌,
}
use banana_talk.Redis.{Redis}
use banana_talk.Matchmaker.{add_block}
use banana_talk.Sql.{
  Environment, Conn, Query, Result, ok, err, no_rows, failed, ◌>>=◌, pure, raise, attempt,
}
use banana_talk.Db.{upsert_user, get_user_id_by_google_sub, insert_block, load_user_blocks}
use banana_talk.Http.{
  Request, Response, error, blocked, blocked_ids, method_not_allowed, invalid_token, internal_error,
}
use banana_talk.Auth.{Payload, authenticate}
use banana_talk.Strings.{trim_space}
use banana_talk.Backend.{Backend, known_or_stub}

module _ (env : Environment) where
  -- The database calls of `blockHandler`.
  unfoldable pub block_queries : String → String → Query (Unit {0})
  block_queries blocker_sub blocked_sub = do
    blocker ← upsert_user env blocker_sub
    blocked_id ← known_or_stub env blocked_sub
    insert_block env blocker.0 blocked_id

  list_of : Result ℕ → Query (List String)
  list_of (ok id) = load_user_blocks env id
  list_of (err no_rows) = pure []
  list_of (err failed) = raise failed

  -- The database calls of `blocksHandler`.
  pub block_list : String → Query (List String)
  unfolding list_of
  block_list sub = do found ← attempt (get_user_id_by_google_sub env sub); list_of found

module _ (r : Redis) (env : Environment) (validate : String → Option Payload) (now : ℕ) where
  record_block : String → String → Backend r → Result (Unit {0}) × Conn → Response × Backend r
  record_block blocker_sub blocked_sub b (err e, c) = (internal_error, record b { conn = c })
  record_block blocker_sub blocked_sub b (ok done, c) = (
    blocked,
    record b {
      conn = c;
      store = add_block r blocked_sub blocker_sub (add_block r blocker_sub blocked_sub b.store);
    },
  )

  block_user : String → String → Backend r → Response × Backend r
  unfolding record_block
  block_user blocker_sub blocked_sub b =
      if blocked_sub == ""
      then (error 400 "missing_blocked_user" "blocked_user_id is required", b)
      else if blocked_sub == blocker_sub
      then (error 400 "self_block" "cannot block yourself", b)
      else record_block blocker_sub blocked_sub b (block_queries env blocker_sub blocked_sub b.conn)

  block_body : String → Option String → Backend r → Response × Backend r
  unfolding block_user
  block_body blocker_sub none b = (error 400 "invalid_body" "invalid JSON body", b)
  block_body blocker_sub (some text) b = block_user blocker_sub (trim_space text) b

  block_by : Option String → Option String → Backend r → Response × Backend r
  unfolding block_body
  block_by none body b = (invalid_token, b)
  block_by (some blocker_sub) body b = block_body blocker_sub body b

  unfoldable pub block_handler : Request → Option String → Backend r → Response × Backend r
  unfolding block_by
  block_handler req body b =
      if req.method == "POST"
      then block_by (authenticate validate now req) body b
      else (method_not_allowed, b)

  write_blocks : Backend r → Result (List String) × Conn → Response × Backend r
  write_blocks b (ok subs, c) = (blocked_ids subs, record b { conn = c })
  write_blocks b (err e, c) = (internal_error, record b { conn = c })

  list_by : Option String → Backend r → Response × Backend r
  unfolding write_blocks
  list_by none b = (invalid_token, b)
  list_by (some sub) b = write_blocks b (block_list env sub b.conn)

  pub blocks_handler : Request → Backend r → Response × Backend r
  unfolding list_by
  blocks_handler req b =
      if req.method == "GET"
      then list_by (authenticate validate now req) b
      else (method_not_allowed, b)
