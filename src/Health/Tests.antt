-- ===== src/Health/Tests.antt =====
-- The readiness probe of backend/health.go on an in-memory store.
use banana_talk.Prelude.{◌≡◌, refl, true, false}
use banana_talk.Redis.Memory.{memory}
use banana_talk.Backend.Samples.{calm, new_backend}
use banana_talk.Health.{ready, unavailable, readiness_handler}

answers_ready : (readiness_handler memory calm false new_backend).0 ≡ ready
unfolding readiness_handler
answers_ready = refl

drains : (readiness_handler memory calm true new_backend).0 ≡ unavailable "shutting down"
unfolding readiness_handler
drains = refl
