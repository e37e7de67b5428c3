-- ===== src/Health.antt =====
-- backend/health.go: the two probes. A ping that takes too long is one that fails.
mod Ready
pub mod Kept
mod Tests
use banana_talk.Prelude.{ℕ, String, Bool, true, false}
use banana_talk.Redis.Commands.{ping}
use banana_talk.Redis.{Redis, Reply, ok, err}
use banana_talk.Sql.{Environment, Conn, Query, Result, statement}
use banana_talk.Sql
use banana_talk.Http.{Plain}
use banana_talk.Backend.{Backend}

abbrev unavailable : String → Plain
unavailable text = record { status = 503; body = text }

abbrev ready : Plain
ready = record { status = 200; body = "ready" }

pub liveness_handler : Plain
liveness_handler = record { status = 200; body = "ok" }

module _ (r : Redis) (env : Environment) where
  -- `db.Ping`, which counts as a statement.
  abbrev ping_db : Query (Unit {0})
  ping_db = statement env (λ now t. (Sql.ok tt, t))

  database_pinged : Backend r → Result (Unit {0}) × Conn → Plain × Backend r
  database_pinged b (Sql.err e, c) = (unavailable "postgres unavailable", record b { conn = c })
  database_pinged b (Sql.ok _, c) = (ready, record b { conn = c })

  redis_pinged : Backend r → Reply r.Store (Unit {0}) → Plain × Backend r
  unfolding database_pinged
  redis_pinged b (err s) = (unavailable "redis unavailable", record b { store = s })
  redis_pinged b (ok _ s) = database_pinged (record b { store = s }) (ping_db b.conn)

  -- `shutting_down` is the flag of backend/shutdown.go.
  pub readiness_handler : Bool → Backend r → Plain × Backend r
  unfolding redis_pinged
  readiness_handler true b = (unavailable "shutting down", b)
  readiness_handler false b = redis_pinged b (r.run ping b.store)
