-- ===== src/Main.antt =====
-- The start of backend/main.go: `getEnv`, the settings, the connections to Redis, PostgreSQL and the
-- object storage in their order, and how `main` ends; `initDB` of backend/db.go and `initAdmin` of
-- backend/admin.go. The environment of the process and what the outside answers are arguments.
pub mod Ready
mod Tests
use banana_talk.Prelude.{
  ℕ, ℤ, pos, String, Bool, true, false, ◌&&◌, Option, none, some, ◌==◌, if◌then◌else◌,
}
use banana_talk.Strconv.{Parsed, parsed, bad_syntax, out_of_range, parse_int}
use banana_talk.Storage.{Settings, Storage, S3Client, GcsClient, new_storage, to_lower}
use banana_talk.Admin.{init_admin}

-- `getEnv`; `env` is `os.Getenv`, which gives "" for a variable that is not set.
pub get_env : (String → String) → String → String → String
get_env env key default_val = if env key == "" then default_val else env key

pub record RedisOptions : Type 0 where
  pub addr : String
  pub password : String
  pub db : ℤ

-- `strconv.Atoi`, whose error leaves the number 0.
redis_db : Parsed → ℤ
redis_db (parsed n) = n
redis_db bad_syntax = pos 0
redis_db (out_of_range n) = pos 0

pub redis_options : (String → String) → RedisOptions
unfolding get_env redis_db
redis_options env = record {
  addr = get_env env "REDIS_ADDR" "localhost:6379";
  password = get_env env "REDIS_PASSWORD" "";
  db = if env "REDIS_DB" == "" then pos 0 else redis_db (parse_int (env "REDIS_DB"));
}

pub storage_settings : (String → String) → Settings
unfolding get_env
storage_settings env = record {
  provider = get_env env "STORAGE_PROVIDER" "";
  bucket = get_env env "STORAGE_BUCKET" "";
  public_url_base = get_env env "STORAGE_PUBLIC_URL_BASE" "";
}

abbrev pub both_set : String → String → Option (String × String)
both_set user pass = if init_admin user pass then some (user, pass) else none

-- The credentials with which `initAdmin` registers the dashboard.
pub dashboard_login : (String → String) → Option (String × String)
unfolding get_env
dashboard_login env = both_set (get_env env "ADMIN_USERNAME" "") (get_env env "ADMIN_PASSWORD" "")

-- What the calls of pgx in `initDB` give for a connection string.
pub record Pgx : Type 0 where
  pub new_pool : String → Bool
  pub pings : String → Bool
  pub exec_schema : String → Bool

-- `initDB`: whether there is a pool, and whether one has been made and closed again.
pub init_db : Pgx → String → Bool × Bool
init_db p dsn =
    if p.new_pool dsn
    then (if p.pings dsn
        then (if p.exec_schema dsn then (true, false) else (false, true))
        else (false, true))
    else (false, false)

-- What the server is run with. `strings.EqualFold` with "true" looks at ASCII letters alone.
pub record Config (Body : Type 0) : Type 1 where
  pub redis : RedisOptions
  pub trust_proxy : Bool
  pub dsn : String
  pub storage : Storage Body
  pub login : Option (String × String)

-- How the start ends: with `os.Exit(1)` because of one of its steps, or with the server.
pub data Failure : Type 0 where
  redis_failed dsn_missing postgres_failed storage_failed : Failure

pub data Start (Body : Type 0) : Type 1 where
  exits : Failure → Start Body
  serves : Config Body → Start Body

module _ {Body : Type 0} (env : String → String) (redis_pings : RedisOptions → Bool) (p : Pgx)
    (s3 : Option (S3Client Body))
    (gcs : Option ((client : GcsClient Body) × (client.State → ℕ))) where
  with_storage : Option (Storage Body) → Start Body
  with_storage none = exits storage_failed
  with_storage (some storage) = serves (record {
    redis = redis_options env;
    trust_proxy = to_lower (get_env env "TRUST_PROXY_HEADERS" "") == "true";
    dsn = get_env env "DB_DSN" "";
    storage = storage;
    login = dashboard_login env;
  })

  with_database : Bool → Start Body
  unfolding with_storage
  with_database false = exits postgres_failed
  with_database true = with_storage (new_storage (storage_settings env) s3 gcs)

  -- `main` up to the goroutines.
  pub start_up : Start Body
  unfolding with_database redis_options get_env dashboard_login storage_settings init_db
  start_up =
      if redis_pings (redis_options env)
      then (if get_env env "DB_DSN" "" == ""
          then exits dsn_missing
          else with_database (init_db p (get_env env "DB_DSN" "")).0)
      else exits redis_failed

-- What the `select` at the end receives: an error of `ListenAndServe`, the close of its channel, or
-- a signal.
pub data Received : Type 0 where
  listen_failed server_closed signalled : Received

-- The exit code, and whether `gracefulShutdown` is called.
pub end_of_main : Received → ℕ × Bool
end_of_main listen_failed = (1, false)
end_of_main server_closed = (0, false)
end_of_main signalled = (0, true)
