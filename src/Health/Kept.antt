-- ===== src/Health/Kept.antt =====
-- The readiness probe of backend/health.go keeps the backend sound.
use banana_talk.Prelude.{String, ◌≡◌, Bool, true, false, Bool-cases, inl, inr}
use banana_talk.Redis.Commands.{ping}
use banana_talk.Redis.{Redis, IsUp, ok, run-value}
use banana_talk.Sql.{Environment}
use banana_talk.Backend.Sound.{IsSound}
use banana_talk.Backend.{Backend}
use banana_talk.Health.{redis_pinged, database_pinged, readiness_handler}

module _ {G : String → String → Type 0} (r : Redis) (up : IsUp r) (env : Environment) where
  redis_pinged-IsSound :
      (b : Backend r) (s : r.Store)
      → r.keys s ≡ r.keys b.store
      → IsSound G b
      → IsSound G (redis_pinged r env b (ok tt s)).1
  unfolding redis_pinged database_pinged
  redis_pinged-IsSound b s e h = elim (Bool-cases (env.fails b.conn.step)) [
    | inl down ↦ rw (down, e) h
    | inr answers ↦ rw (answers, e) h
  ]

  pub readiness_handler-IsSound :
      (shutting_down : Bool) (b : Backend r)
      → IsSound G b
      → IsSound G (readiness_handler r env shutting_down b).1
  unfolding readiness_handler
  readiness_handler-IsSound true b h = h
  readiness_handler-IsSound false b h =
      let (s, e, k) = run-value r up ping b.store in rw e (redis_pinged-IsSound b s k h)
