-- ===== src/Backend/Samples.antt =====
-- A backend with empty tables and an in-memory store, for the tests of the handlers.
use banana_talk.Prelude.{String, refl, false, Option, none, some, [], ◌==◌, if◌then◌else◌}
use banana_talk.Metrics.{no_metrics}
use banana_talk.Sql.{Environment}
use banana_talk.Redis.Memory.{memory, empty}
use banana_talk.Db.Invariant.{Valid}
use banana_talk.Http.{Request}
use banana_talk.Auth.{Payload}
use banana_talk.Backend.{Backend}

abbrev pub calm : Environment
calm = record { fails = λ n. false; now = λ n. 20; local_now = λ n. 20 }

abbrev pub knows : String → Option Payload
knows token = if token == "t1" then some (record { expires = 100; subject = "alice" }) else none

abbrev pub post : Request
post = record { method = "POST"; token_query = ""; authorization = "Bearer t1" }

abbrev pub new_backend : Backend memory
new_backend = record {
  conn = record {
    tables = record { users = []; reports = []; blocks = []; next_user_id = 1; next_report_id = 1 };
    step = 0;
  };
  store = empty;
  metrics = no_metrics;
  clients = [];
  closed = [];
}

pub new_backend-Valid : Valid new_backend.conn.tables
new_backend-Valid = record {
  symmetric = λ a b. refl;
  irreflexive = λ a. refl;
  counted = tt;
  unique = tt;
  old_ids = tt;
  old_reports = tt;
}
