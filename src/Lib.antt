-- ===== src/Lib.antt =====
-- The backend of BananaTalk, a service that pairs strangers for video calls.
--
-- Signed-in users wait in a queue that all backend instances share in Redis. The matchmaker takes
-- them out two by two, turns down pairs in which one has blocked the other, and tells both users of
-- a match. Users, reports and blocks are kept in PostgreSQL; a report blocks both ways and may ban
-- the reported user; the blocks of a connected user are copied to Redis, where the matchmaker
-- reads them.
--
--   Prelude      shared names, Boolean tests on numbers, lists
--   Redis        the Redis service: a parameter with the documented effect of each command used;
--                Redis/Memory.antt is a store in memory that has these effects
--   Metrics      the collectors of backend/metrics.go
--   Matchmaker   backend/matchmaker.go: `add` is Add, `remove` is Remove, and so on; the loop of
--                processMatches is `process_from`, with one round per call of `one_round`;
--                Matchmaker/Run.antt has Run, over a list of what each `select` finds
--   Sql          the PostgreSQL connection: tables, statements, transactions, errors
--   Db           backend/db.go: `record_report` is recordReport, and so on; Db/Statements.antt has
--                the SQL texts as functions on the tables
--   Strings      Go's strings package, as far as it is called
--   Http         what handlers read of a request, and the responses they write
--   Auth         backend/auth.go, and `authenticate` of backend/report.go
--   Backend      the state that handlers share: database, Redis, collectors, clients
--   Blocking     backend/block.go: `block_handler` and `blocks_handler`
--   Reporting    backend/report.go: `report_handler`, with one function per stage
--   Connection   `handleConnections` of backend/main.go: `handle_connections`, and `leave` for its
--                deferred cleanup
--   RateLimit    backend/ratelimit.go: `allow`, `collect` for a tick of gcLoop, `client_ip`
--   Relay        the messages of an open connection (backend/main.go): `read_loop` for the loop that
--                reads them, `handle_message`, `record_connect_metrics`
--   Strconv      Go's strconv package on 64-bit integers, as far as it is called
--   Admin        backend/admin.go: `admin_list_reports`, `admin_get_report`, `admin_user_action`, and
--                `serve_admin` for all of them behind the login; the queries are in Db/ReportRows.antt
--   Storage      backend/storage.go: `s3_storage`, `gcs_storage`, and `new_storage` for the choice
--   Shutdown     backend/shutdown.go: `graceful_shutdown` alone, and `Step` with other goroutines,
--                among them handlers of /ws that had read the flag before it was set
--   Health       backend/health.go: `readiness_handler`, `liveness_handler`
--   Live         the goroutines of an open connection (backend/main.go): `heartbeat`,
--                `forward_matches` for the notifications, `listen` for the reads and their deadline
--   Routes       the registered handlers (backend/main.go and backend/admin.go) and the choice between
--                them: `serve` answers a request to any path
--   Main         the start of `main` (backend/main.go): `start_up`, and `end_of_main` for its end
--   System       an instance at work: requests, cleanups and cycles in any order, and the soundness of
--                Backend/Sound.antt, which each handler's child module Kept keeps
--
-- A handler takes the request, as Go's server has parsed it, and the backend, and returns the
-- response and the backend after it; each early return of the source is a clause. Google's token
-- validator, the clients of the object storage, the random bytes, the token bucket and the order in
-- which PostgreSQL gives rows are parameters.
--
-- The methods of the matchmaker take the store and return the store that their last command leaves.
-- `process_matches` runs on fuel; a round takes two users out of the queue or ends the cycle, and
-- only the 32 rounds that reject a pair put users back, so the number of waiting users and 33 is
-- enough. A database call is a function on the connection, which counts its statements; the
-- environment says which statement fails, and a statement that fails changes nothing, a COMMIT that fails
-- counts as rolled back, and the INTEGER of reports received has no upper limit. Commands and
-- statements run one after another; those of other instances in between are left out, and so is
-- the expiry of keys. Numbers and times are natural numbers without an upper limit; times are
-- nanoseconds. Log lines and the wrapping of errors in texts are left out.
--
-- The reads of a connection and its pings count from one time; the deadline of a ping is passed on.
-- A write is one call, which other writes to the connection do not interrupt, as its mutex makes it.
--
-- Not modelled: the static page of the dashboard, log lines (`logTokenFailure` of backend/auth.go is
-- nothing else), and the texts of Prometheus.
pub mod Prelude
pub mod Redis
pub mod Metrics
pub mod Matchmaker
pub mod Sql
pub mod Db
pub mod Strings
pub mod Strconv
pub mod Http
pub mod Auth
pub mod Backend
pub mod Blocking
pub mod Reporting
pub mod RateLimit
pub mod Connection
pub mod Relay
pub mod Health
pub mod Shutdown
pub mod Storage
pub mod Admin
pub mod Live
pub mod Routes
pub mod Main
pub mod System
