-- ===== src/System/Tests.antt =====
-- Two users connect, one blocks the other, and the matchmaker runs, on an in-memory store.
use banana_talk.Prelude.{
  ℕ, String, ◌≡◌, ◌≢◌, ◌<◌, All, refl, ap, false, true, Option, none, some, [], ◌∷◌, ◌++◌, List,
  length, map, has, if◌then◌else◌, ◌==◌, arith,
}
use banana_talk.Redis.Memory.{memory, memory-IsUp}
use banana_talk.Matchmaker.{
  MatchState, add, hydrate_blocks, remove, delete_session, clear_blocks, add_block, process_matches,
}
use banana_talk.Matchmaker.Run.{cycle_fuel}
use banana_talk.Matchmaker.Drain.{members}
use banana_talk.Redis.Commands.{Key}
use banana_talk.Live.Delivered.{peers_of, sendable}
use banana_talk.Live.{received, match_message, forward_matches}
use banana_talk.Matchmaker.Cycle.{waiting, notices}
use banana_talk.Db.Statements.{
  upsert_sql, select_user_sql, load_blocks_sql, insert_block_row, insert_blocks_sql, has_block,
}
use banana_talk.Db.{
  upsert_user, is_user_banned, load_user_blocks, get_user_id_by_google_sub, insert_block,
}
use banana_talk.Db.ReportRows.Sorted.{sorted}
use banana_talk.Auth.{Payload, bearer_token, verify_token, authenticate, token_err_message}
use banana_talk.Blocking.{block_queries, block_handler}
use banana_talk.RateLimit.Bucket.{bucket}
use banana_talk.RateLimit.{Limiters, client_ip, allow_ip, allow}
use banana_talk.Reporting.{malformed}
use banana_talk.Backend.Samples.{calm, new_backend, new_backend-Valid}
use banana_talk.Backend.Sound.{BlockedIn, NoPairs, IsSound}
use banana_talk.Backend.{Backend, known_or_stub}
use banana_talk.Connection.{Moment, opened, handle_connections}
use banana_talk.Routes.{WebRequest, route_of, handle, serve}
use banana_talk.System.{matching, Runs, here, next, served}
use banana_talk.System.Apart.{process_matches-blocked_apart}
use banana_talk.System.Invariant.{Runs-IsSound, process_matches-members}

abbrev issued : String → Option Payload
issued token =
    if token == "t1"
    then some (record { expires = 100; subject = "alice" })
    else if token == "t2"
    then some (record { expires = 100; subject = "bob" })
    else none

abbrev noon : Moment
noon = record { upgrades = true; greets = true; seconds = 99; nanoseconds = 99000000000 }

abbrev unseen : Limiters bucket
unseen ip = none

-- A request with a token.
abbrev request : String → String → String → Option String → WebRequest
request method path token body = record {
  path = path;
  http = record { method = method; token_query = token; authorization = "" };
  from = record { forwarded_for = ""; real_ip = ""; remote_addr = "10.0.0.1:5000" };
  body = body;
  form = malformed;
  reason = "";
  page = "";
  limit = "";
  login = none;
}

abbrev unsigned_url : String → ℕ → Option String
unsigned_url key ttl = none

abbrev not_stored : String → Option String
not_stored key = none

abbrev after_request : WebRequest → Backend memory → Backend memory
after_request req b =
    (serve memory bucket false issued sorted unsigned_url calm noon false none not_stored none req b
      unseen).1

abbrev two_connected : Backend memory
two_connected =
    after_request (request "GET" "/ws" "t2" none)
      (after_request (request "GET" "/ws" "t1" none) new_backend)

abbrev one_blocked : Backend memory
one_blocked = after_request (request "POST" "/block" "t1" (some "bob")) two_connected

runs_requests : Unit {0}
unfolding serve route_of handle handle_connections add hydrate_blocks remove delete_session
    clear_blocks upsert_user is_user_banned load_user_blocks upsert_sql select_user_sql
    load_blocks_sql bearer_token verify_token token_err_message client_ip allow_ip allow
    block_handler block_queries known_or_stub authenticate get_user_id_by_google_sub insert_block
    insert_block_row insert_blocks_sql add_block
runs_requests = tt

both_wait : waiting memory (matching two_connected) ≡ "alice" ∷ "bob" ∷ []
unfolding runs_requests
both_wait = refl

no_blocks : two_connected.conn.tables.blocks ≡ []
unfolding runs_requests
no_blocks = refl

new_backend-IsSound : IsSound NoPairs new_backend
new_backend-IsSound = record {
  valid = new_backend-Valid;
  referenced = record { known = tt; distinct = tt; old = tt };
  named = tt;
  cached = λ u v e. absurd (ground (arith, e));
  kept = λ u v g. absurd g;
}

abbrev Reached : Backend memory → Type 0
Reached = Runs memory bucket false issued sorted unsigned_url none new_backend

connects_both : Reached two_connected
connects_both =
    next (next here (served calm noon false none not_stored (request "GET" "/ws" "t1" none) unseen))
      (served calm noon false none not_stored (request "GET" "/ws" "t2" none) unseen)

blocks_one : Reached one_blocked
blocks_one =
    next connects_both
      (served calm noon false none not_stored (request "POST" "/block" "t1" (some "bob")) unseen)

Runs-IsSound_example : IsSound NoPairs one_blocked
Runs-IsSound_example =
    Runs-IsSound memory memory-IsUp bucket false issued sorted unsigned_url none blocks_one
      new_backend-IsSound

two_apart :
    (u v : String)
    → has (waiting memory (matching two_connected)) u ≡ true
    → has (waiting memory (matching two_connected)) v ≡ true
    → BlockedIn two_connected.conn.tables u v
    → ⊥
two_apart u v hu hv p =
    absurd (ground (arith, p.row, ap (λ rows. has_block rows p.blocker p.target) no_blocks))

process_matches-members_example :
    (st : MatchState memory) × (process_matches memory
        (cycle_fuel memory (matching two_connected))
        (λ k. 99000000000)
        (matching two_connected)
      ≡ some st)
    × (pairs : List (String × String)) × (waiting memory (matching two_connected)
        ≡ members pairs ++ waiting memory st)
    × (length (waiting memory st) < 2)
    × (sent : List (Key × String)) × ((memory.keys st.store).published
        ≡ (memory.keys two_connected.store).published ++ sent)
    × ((user : String)
        → forward_matches ℕ (map sendable (received user sent))
          ≡ map (match_message ℕ) (peers_of user pairs))
process_matches-members_example =
    process_matches-members memory memory-IsUp bucket false issued sorted unsigned_url none ℕ
      (λ k. 99000000000) connects_both new_backend-IsSound two_apart

-- The user who has blocked the other one connects again.
abbrev back_again : Backend memory
back_again = after_request (request "GET" "/ws" "t1" none) one_blocked

abbrev with_both : Backend memory
with_both = after_request (request "GET" "/ws" "t2" none) back_again

one_blocked-IsSound : IsSound NoPairs one_blocked
one_blocked-IsSound =
    Runs-IsSound memory memory-IsUp bucket false issued sorted unsigned_url none blocks_one
      new_backend-IsSound

opens :
    handle_connections memory calm noon bucket false issued false
      (request "GET" "/ws" "t1" none).http
      (request "GET" "/ws" "t1" none).from
      one_blocked
      unseen
    ≡ (
      opened "alice",
      back_again,
      (allow bucket (request "GET" "/ws" "t1" none).from false noon.nanoseconds unseen).1,
    )
unfolding runs_requests
opens = refl

blocked_bob : BlockedIn back_again.conn.tables "alice" "bob"
unfolding runs_requests
blocked_bob = record { blocker = 1; target = 2; blocker_row = refl; target_row = refl; row = refl }

abbrev SinceBack : Backend memory → Backend memory → Type 0
SinceBack = Runs memory bucket false issued sorted unsigned_url none

abbrev comes_too : SinceBack back_again with_both
comes_too =
    next here (served calm noon false none not_stored (request "GET" "/ws" "t2" none) unseen)

process_matches-blocked_apart_example :
    (st : MatchState memory) × (process_matches memory
        (cycle_fuel memory (matching with_both))
        (λ k. 99000000000)
        (matching with_both)
      ≡ some st)
    × (pairs : List (String × String)) × ((memory.keys st.store).published
        ≡ (memory.keys with_both.store).published ++ notices pairs)
    × All (λ x. (x ≢ ("alice", "bob")) × (x ≢ ("bob", "alice"))) pairs
process_matches-blocked_apart_example =
    process_matches-blocked_apart memory memory-IsUp bucket false issued sorted unsigned_url none
      calm noon false (request "GET" "/ws" "t1" none).http (request "GET" "/ws" "t1" none).from
      one_blocked unseen _ "alice" "bob" (λ k. 99000000000) (λ n. refl) one_blocked-IsSound opens
      blocked_bob comes_too (tt, λ path e. absurd (ground (arith, e)))
