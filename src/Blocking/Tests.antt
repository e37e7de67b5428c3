-- ===== src/Blocking/Tests.antt =====
-- Runs of backend/block.go on empty tables and an in-memory store.
use banana_talk.Prelude.{String, ◌≡◌, refl, some}
use banana_talk.Redis.Memory.{memory}
use banana_talk.Matchmaker.{add_block}
use banana_talk.Db.Statements.{
  upsert_sql, insert_block_row, insert_blocks_sql, select_user_sql, load_blocks_sql,
}
use banana_talk.Db.{upsert_user, get_user_id_by_google_sub, insert_block, load_user_blocks}
use banana_talk.Http.{error, blocked}
use banana_talk.Auth.{bearer_token, verify_token, authenticate}
use banana_talk.Strings.{trim_space}
use banana_talk.Backend.{Backend, known_or_stub}
use banana_talk.Backend.Samples.{calm, knows, post, new_backend, new_backend-Valid}
use banana_talk.Blocking.Stored.{Accepted, block_handler-Linked}
use banana_talk.Blocking.Listed.{Lists, block_handler-listed}
use banana_talk.Blocking.{
  block_queries, list_of, block_list, record_block, block_user, block_body, block_by, block_handler,
  write_blocks, list_by, blocks_handler,
}

runs_blocking : Unit {0}
unfolding block_queries list_of block_list record_block block_user block_body block_by block_handler
    write_blocks list_by blocks_handler known_or_stub bearer_token verify_token authenticate
    upsert_user get_user_id_by_google_sub insert_block load_user_blocks upsert_sql insert_block_row
    insert_blocks_sql select_user_sql load_blocks_sql add_block
runs_blocking = tt

after_block : Backend memory
after_block = (block_handler memory calm knows 99 post (some " bob ") new_backend).1

block_succeeds :
    block_handler memory calm knows 99 post (some " bob ") new_backend ≡ (blocked, after_block)
unfolding after_block runs_blocking
block_succeeds = refl

self_refused :
    (block_handler memory calm knows 99 post (some "alice") new_backend).0
    ≡ error 400 "self_block" "cannot block yourself"
unfolding runs_blocking
self_refused = refl

block_handler-Linked_example :
    (blocker : String) × (authenticate knows 99 post ≡ some blocker)
    × Accepted memory calm knows 99 blocker (some " bob ") new_backend after_block
block_handler-Linked_example =
    block_handler-Linked memory calm knows 99 post (some " bob ") new_backend block_succeeds

block_handler-listed_example :
    (blocker : String) × (text : String) × (authenticate knows 99 post ≡ some blocker)
    × (some " bob " ≡ some text)
    × Lists calm blocker (trim_space text) after_block.conn
    × Lists calm (trim_space text) blocker after_block.conn
block_handler-listed_example =
    block_handler-listed memory calm knows 99 post (some " bob ") new_backend new_backend-Valid
      block_succeeds refl refl
