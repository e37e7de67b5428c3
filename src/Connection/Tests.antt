-- ===== src/Connection/Tests.antt =====
-- Runs of `handleConnections` of backend/main.go on empty tables and an in-memory store.
use banana_talk.Prelude.{String, ◌≡◌, ◌≢◌, refl, Bool, true, false, none, [], has}
use banana_talk.Redis.Commands.{queue, session, blocks}
use banana_talk.Redis.Memory.{memory, memory-IsUp}
use banana_talk.Matchmaker.{add, hydrate_blocks, remove, delete_session, clear_blocks}
use banana_talk.Db.Statements.{upsert_sql, select_user_sql, load_blocks_sql}
use banana_talk.Db.{upsert_user, is_user_banned, load_user_blocks}
use banana_talk.Http.{error}
use banana_talk.Auth.{bearer_token, verify_token, token_err_message}
use banana_talk.RateLimit.Bucket.{bucket}
use banana_talk.RateLimit.{Limiters, Origin, client_ip, allow_ip, allow}
use banana_talk.Backend.Samples.{calm, knows, post, new_backend}
use banana_talk.Backend.{Backend}
use banana_talk.Connection.Left.{leave-has}
use banana_talk.Connection.Admitted.{Cleared, handle_connections-Cleared}
use banana_talk.Connection.{
  Outcome, refused, opened, Moment, leave, register, start, hydrate, admit_unbanned, admit_known,
  admit, unlimited, handle_connections,
}

abbrev noon : Moment
noon = record { upgrades = true; greets = true; seconds = 99; nanoseconds = 99000000000 }

abbrev late : Moment
late = record noon { seconds = 100 }

abbrev home : Origin
home = record { forwarded_for = ""; real_ip = ""; remote_addr = "10.0.0.1:5000" }

abbrev unseen : Limiters bucket
unseen ip = none

runs_connections : Unit {0}
unfolding handle_connections unlimited admit admit_known admit_unbanned hydrate start register leave
    add hydrate_blocks remove delete_session clear_blocks upsert_user is_user_banned
    load_user_blocks upsert_sql select_user_sql load_blocks_sql bearer_token verify_token
    token_err_message client_ip allow_ip allow
runs_connections = tt

after_connect : Outcome × Backend memory × Limiters bucket
after_connect =
    handle_connections memory calm noon bucket false knows false post home new_backend unseen

connects :
    handle_connections memory calm noon bucket false knows false post home new_backend unseen
    ≡ (opened "alice", after_connect.1, after_connect.2)
unfolding after_connect runs_connections
connects = refl

expired_refused :
    (handle_connections memory calm late bucket false knows false post home new_backend unseen).0
    ≡ refused (error 401 "token_expired" "token expired")
unfolding runs_connections
expired_refused = refl

handle_connections-Cleared_example :
    ◌≡◌ {A = Bool} false false
    × (allow bucket home false 99000000000 unseen ≡ (true, after_connect.2))
    × (verify_token knows 99 (bearer_token post) ≡ ("alice", ""))
    × Cleared memory calm noon "alice" new_backend after_connect.1
handle_connections-Cleared_example =
    handle_connections-Cleared memory calm noon bucket false knows false post home new_backend
      unseen connects

abbrev gone : Backend memory
gone = leave memory "alice" after_connect.1

leave-has_example :
    let ks = memory.keys gone.store in
    (has (ks.lists queue) "alice" ≡ false)
    × (ks.strings (session "alice") ≡ none)
    × (ks.sets (blocks "alice") ≡ [])
    × (has gone.clients "alice" ≡ false)
    × ((v : String)
        → v ≢ "alice"
        → ks.strings (session v) ≡ (memory.keys after_connect.1.store).strings (session v))
    × ((v : String)
        → v ≢ "alice"
        → ks.sets (blocks v) ≡ (memory.keys after_connect.1.store).sets (blocks v))
leave-has_example = leave-has memory memory-IsUp "alice" after_connect.1
