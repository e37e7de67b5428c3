-- ===== src/Main/Tests.antt =====
-- A start of backend/main.go with a dashboard and an S3 storage.
use banana_talk.Prelude.{String, pos, Bool, ◌≡◌, refl, true, false, none, some, ◌==◌, if◌then◌else◌}
use banana_talk.Strconv.{parse_int}
use banana_talk.Storage.{Storage, S3Client, to_lower, new_storage}
use banana_talk.Main.Ready.{IsReady, start_up-IsReady}
use banana_talk.Main.{RedisOptions, Pgx, Config, Start, exits, serves, start_up}

abbrev deployed : String → String
deployed key =
    if key == "DB_DSN"
    then "postgres://db"
    else if key == "STORAGE_PROVIDER"
    then "S3"
    else if key == "STORAGE_BUCKET"
    then "shots"
    else if key == "ADMIN_USERNAME"
    then "root"
    else if key == "ADMIN_PASSWORD"
    then "secret"
    else if key == "REDIS_DB"
    then "3"
    else ""

abbrev kind_client : S3Client (Unit {0})
kind_client = record {
  State = Unit;
  put_object = λ put st. (true, st);
  presign_get_object = λ bucket key ttl st. none;
}

abbrev answers : RedisOptions → Bool
answers options = true

abbrev database : Pgx
database = record { new_pool = λ dsn. true; pings = λ dsn. true; exec_schema = λ dsn. true }

abbrev no_storage : Storage (Unit {0})
no_storage = record {
  State = Unit;
  upload = λ key content_type body size st. (none, st);
  sign = λ key ttl st. none;
}

abbrev config_of : Start (Unit {0}) → Config (Unit {0})
config_of (exits f) = record {
  redis = record { addr = ""; password = ""; db = pos 0 };
  trust_proxy = false;
  dsn = "";
  storage = no_storage;
  login = none;
}
config_of (serves c) = c

started : Config (Unit {0})
started = config_of (start_up deployed answers database (some kind_client) none)

starts : start_up deployed answers database (some kind_client) none ≡ serves started
unfolding started start_up new_storage to_lower parse_int
starts = refl

start_up-IsReady_example : IsReady deployed answers database (some kind_client) none started
start_up-IsReady_example = start_up-IsReady deployed answers database (some kind_client) none starts
